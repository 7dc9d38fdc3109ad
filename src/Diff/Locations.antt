-- ===== src/Diff/Locations.antt =====
-- What `_entries_by_location` builds, and when it refuses.
use mathlib.Core.List.{append-nil, append_assoc}
use steward_public.Base.{
  ◌≡◌, refl, ap, ◌∙◌, subst, Bool, List, [], ◌∷◌, ◌++◌, ok, arith, ◌==◌, list_eq, nat_eq, pair_eq,
  any, Bool-cases, inl, inr,
}
use steward_public.Base.Dict
use steward_public.Base.Dict.{Dict, UniqueKeys, has_key-append, insert_fresh, UniqueKeys-append_one}
use steward_public.Models.Entry.{FilesystemEntry}
use steward_public.Diff.{Location, location_key, collect_entries, entries_by_location}

abbrev pub tagged : List FilesystemEntry → Dict Location FilesystemEntry
tagged [] = []
tagged (e ∷ es) = (location_key e, e) ∷ tagged es

collect_entries-ok :
    (acc : Dict Location FilesystemEntry) (es : List FilesystemEntry)
    (d : Dict Location FilesystemEntry)
    → UniqueKeys acc
    → collect_entries acc es ≡ ok d
    → (d ≡ acc ++ tagged es) × UniqueKeys d
unfolding collect_entries
collect_entries-ok acc [] d u h =
    (ground (arith, append-nil acc), subst UniqueKeys (ground arith) u)
collect_entries-ok acc (e ∷ es) d u h = elim (Bool-cases (Dict.has_key (location_key e) acc)) [
  | inl old ↦ cc (rw old at h)
  | inr fresh ↦
      let appended = insert_fresh (location_key e) e acc fresh in
      let rest =
        collect_entries-ok (Dict.insert (location_key e) e acc) es d
          (rw appended (UniqueKeys-append_one (location_key e) e acc fresh u)) (rw fresh at h) in
      (
        rest.0
            ∙ ap (λ c. c ++ tagged es) appended
            ∙ append_assoc acc ((location_key e, e) ∷ []) (tagged es),
        rest.1,
      )
]

-- A dict of entries is the list of the entries with their locations, none of them twice.
pub entries_by_location-ok :
    (es : List FilesystemEntry) (d : Dict Location FilesystemEntry)
    → entries_by_location es ≡ ok d
    → (d ≡ tagged es) × UniqueKeys d
unfolding entries_by_location
entries_by_location-ok es d h = collect_entries-ok [] es d tt h

-- An entry of the list stands at a location.
abbrev pub is_at : Location → FilesystemEntry → Bool
is_at location e = location == location_key e

pub has_key-tagged :
    (location : Location) (es : List FilesystemEntry)
    → Dict.has_key location (tagged es) ≡ any (is_at location) es
unfolding Dict.has_key
has_key-tagged location [] = refl
has_key-tagged location (e ∷ es) = ground (arith, has_key-tagged location es)
