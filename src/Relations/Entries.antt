-- ===== src/Relations/Entries.antt =====
-- What the two dicts of entries hold, and the entries that only one side has.
use mathlib.Core.List.{append-nil, append_assoc}
use steward_public.Base.{
  ◌≡◌, refl, ap, ◌∙◌, Bool, not, List, [], ◌∷◌, ◌++◌, ok, arith, ◌!=◌, list_eq, nat_eq, pair_eq,
  any, filter, Bool-cases, inl, inr, >>=-ok,
}
use steward_public.Base.Dict
use steward_public.Base.Dict.{Dict, UniqueKeys, insert_fresh, UniqueKeys-append_one}
use steward_public.Base.Text.{Text}
use steward_public.Models.Entry.{FilesystemEntry, FilesystemSnapshot}
use steward_public.Models.Relation.{RelationSet}
use steward_public.Diff.{Location, location_key}
use steward_public.Diff.Locations.{tagged, is_at, has_key-tagged}
use steward_public.Relations.Items.{Document}
use steward_public.Relations.Locations.{collect_entries, entries_by_location, unmatched}
use steward_public.Relations.{relations_between, compute_snapshot_relations, validate_pair}

collect_entries-ok :
    (id : Text) (acc : Dict Location FilesystemEntry) (es : List FilesystemEntry)
    (d : Dict Location FilesystemEntry)
    → UniqueKeys acc
    → collect_entries id acc es ≡ ok d
    → d ≡ acc ++ tagged es
unfolding collect_entries
collect_entries-ok id acc [] d u h = ground (arith, append-nil acc)
collect_entries-ok id acc (e ∷ es) d u h = elim (Bool-cases (e.snapshot_id != id)) [
  | inl other ↦ cc (rw other at h)
  | inr same ↦ elim (Bool-cases (Dict.has_key (location_key e) acc)) [
    | inl old ↦ cc (rw (same, old) at h)
    | inr fresh ↦
        let appended = insert_fresh (location_key e) e acc fresh in
        collect_entries-ok id (Dict.insert (location_key e) e acc) es d
          (rw appended (UniqueKeys-append_one (location_key e) e acc fresh u))
          (rw (same, fresh) at h)
        ∙ ap (λ c. c ++ tagged es) appended
        ∙ append_assoc acc ((location_key e, e) ∷ []) (tagged es)
  ]
]

entries_by_location-ok :
    (id : Text) (es : List FilesystemEntry) (d : Dict Location FilesystemEntry)
    → entries_by_location es id ≡ ok d
    → d ≡ tagged es
unfolding entries_by_location
entries_by_location-ok id es d h = collect_entries-ok id [] es d tt h

-- The relations are those between the entries with their locations.
pub compute-relations :
    (hash : Document → Text) (adjacent reused : Bool) (base target : FilesystemSnapshot)
    (s : RelationSet)
    → compute_snapshot_relations hash adjacent reused base target ≡ ok s
    → s
      ≡ relations_between hash adjacent reused base target
          (tagged base.entries)
          (tagged target.entries)
unfolding compute_snapshot_relations
compute-relations hash adjacent reused base target s h =
    let (_, _, h1) = >>=-ok (validate_pair base target) _ h in
    let (l, el, h2) = >>=-ok (entries_by_location base.entries base.snapshot_id) _ h1 in
    let (r, er, h3) = >>=-ok (entries_by_location target.entries target.snapshot_id) _ h2 in
    let pl = entries_by_location-ok base.snapshot_id base.entries l el in
    let pr = entries_by_location-ok target.snapshot_id target.entries r er in cc (h3, pl, pr)

abbrev pub is_unmatched : List FilesystemEntry → FilesystemEntry → Bool
is_unmatched other e = not (any (is_at (location_key e)) other)

pub unmatched-tagged :
    (es other : List FilesystemEntry)
    → unmatched (tagged es) (tagged other) ≡ filter (is_unmatched other) es
unfolding unmatched
unmatched-tagged [] other = refl
unmatched-tagged (e ∷ es) other =
    ground (arith, unmatched-tagged es other, has_key-tagged (location_key e) other)

pub values-tagged : (es : List FilesystemEntry) → Dict.values (tagged es) ≡ es
unfolding Dict.values
values-tagged [] = refl
values-tagged (e ∷ es) = ap (◌∷◌ e) (values-tagged es)
