-- ===== src/Diff/Items.antt =====
-- What each item of a diff says.
use steward_public.Base.{
  ◌≡◌, ◌≢◌, ◌⊎◌, inl, inr, refl, sym, ap, ◌∙◌, subst, Option, none, some, List, [], ◌∷◌, ok, arith,
  ◌==◌, list_eq, nat_eq, pair_eq, if◌then◌else◌, All, All-map, All-map_intro, All-append,
  All-filter,
}
use steward_public.Base.Dict
use steward_public.Base.Dict.{Dict, UniqueKeys}
use steward_public.Base.Order.{nat_order, list_order, pair_order}
use steward_public.Base.Sort.{sort_on, sort_on-All}
use steward_public.Models.Entry.{FilesystemEntry, FilesystemSnapshot}
use steward_public.Models.Status.{SnapshotDiffChangeType, added, removed, modified, unchanged}
use steward_public.Diff.{
  Location, location_key, location_sort_key, SnapshotDiff, SnapshotDiffItem, diff_item, diff_items,
  all_locations, compute_snapshot_diff, changed_fields, EntryField, type_of_fields,
}
use steward_public.Diff.Counting.{compute-parts}
use steward_public.Diff.Facts.{SameComparedFacts, changed_fields-nil_iff}
use steward_public.Diff.Locations.{tagged}

-- The first entry at a location.
abbrev pub entry_at : Location → List FilesystemEntry → Option FilesystemEntry
entry_at location [] = none
entry_at location (e ∷ es) = if location == location_key e then some e else entry_at location es

-- What a change type says of the entries on the two sides.
abbrev pub Means : SnapshotDiffChangeType → Option FilesystemEntry → Option FilesystemEntry → Type 0
Means t none none = ⊥
Means t none (some r) = t ≡ added
Means t (some l) none = t ≡ removed
Means t (some l) (some r) =
    ((t ≡ unchanged) × SameComparedFacts l r) ⊎ ((t ≡ modified) × ¬ SameComparedFacts l r)

pub record Describes (left right : List FilesystemEntry) (item : SnapshotDiffItem) : Type 0 where
  pub left_is : item.left_entry ≡ entry_at (item.scope_id, item.relative_path) left
  pub right_is : item.right_entry ≡ entry_at (item.scope_id, item.relative_path) right
  pub means : Means item.change_type item.left_entry item.right_entry

lookup-tagged :
    (location : Location) (es : List FilesystemEntry)
    → Dict.lookup location (tagged es) ≡ entry_at location es
unfolding Dict.lookup
lookup-tagged location [] = refl
lookup-tagged location (e ∷ es) = ground (arith, lookup-tagged location es)

-- a location of the dict has an entry there
abbrev Present : Dict Location FilesystemEntry → Dict Location FilesystemEntry → Location → Type 0
Present l r location = (Dict.lookup location l ≢ none) ⊎ (Dict.lookup location r ≢ none)

keys-present :
    (c d : Dict Location FilesystemEntry)
    → ((k : Location) → Dict.lookup k d ≢ none → Dict.lookup k c ≢ none)
    → All (λ k. Dict.lookup k c ≢ none) (Dict.keys d)
unfolding Dict.keys Dict.lookup
keys-present c [] h = tt
keys-present c ((k, e) ∷ d) h =
    (h k (ground arith), keys-present c d (λ j p. h j (λ q. p (ground (arith, p)))))

all_locations-Present :
    (l r : Dict Location FilesystemEntry) → All (Present l r) (all_locations l r)
unfolding all_locations
all_locations-Present l r =
    All-append (Present l r) (Dict.keys l) _
      (All-map _ (Present l r) (λ k p. inl p) (Dict.keys l) (keys-present l l (λ k p. p)))
      (All-filter (Present l r) _ (Dict.keys r)
        (All-map _ (Present l r) (λ k p. inr p) (Dict.keys r) (keys-present r r (λ k p. p))))

Means-fields :
    (l r : FilesystemEntry) (fields : List EntryField)
    → changed_fields l r ≡ fields
    → Means (type_of_fields fields) (some l) (some r)
Means-fields l r [] e = inl (refl, (changed_fields-nil_iff l r).0 e)
Means-fields l r (f ∷ fs) e = inr (refl, λ same. cc ((changed_fields-nil_iff l r).1 same))

diff_item-Means :
    (location : Location) (l r : Option FilesystemEntry)
    → (l ≢ none) ⊎ (r ≢ none)
    → let item = diff_item location l r in
      (item.left_entry ≡ l)
      × (item.right_entry ≡ r)
      × Means item.change_type item.left_entry item.right_entry
      × ((item.scope_id, item.relative_path) ≡ location)
unfolding diff_item
diff_item-Means (a, b) none none (inl p) = absurd (p refl)
diff_item-Means (a, b) none none (inr p) = absurd (p refl)
diff_item-Means (a, b) none (some r) p = (refl, refl, refl, refl)
diff_item-Means (a, b) (some l) none p = (refl, refl, refl, refl)
diff_item-Means (a, b) (some l) (some r) p =
    (refl, refl, Means-fields l r (changed_fields l r) refl, refl)

diff_item-Describes :
    (left right : List FilesystemEntry) (location : Location)
    → Present (tagged left) (tagged right) location
    → Describes left right (
        diff_item location
          (Dict.lookup location (tagged left))
          (Dict.lookup location (tagged right)))
diff_item-Describes left right location present =
    let (el, er, means, place) =
      diff_item-Means location (Dict.lookup location (tagged left))
        (Dict.lookup location (tagged right)) present in
    record {
      left_is = el ∙ lookup-tagged location left ∙ ap (λ p. entry_at p left) (sym place);
      right_is = er ∙ lookup-tagged location right ∙ ap (λ p. entry_at p right) (sym place);
      means = means;
    }

-- Every item of a diff holds the entries that the two Snapshots have at its location, and its change
-- type is right: added or removed where one side has none, and else unchanged exactly when the two
-- entries agree in the nineteen facts that a diff compares, to which a payload's digest does not belong.
pub items-Describe :
    (left right : FilesystemSnapshot) (d : SnapshotDiff)
    → compute_snapshot_diff left right ≡ ok d
    → All (Describes left.entries right.entries) d.items
unfolding diff_items
items-Describe left right d h =
    let l = tagged left.entries in
    let r = tagged right.entries in
    subst (λ x. All (Describes left.entries right.entries) x.items)
      (sym (compute-parts left right d h).0)
      (All-map_intro (Describes left.entries right.entries) _
        (sort_on location_sort_key (all_locations l r))
        (All-map (Present l r) _ (λ k p. diff_item-Describes left.entries right.entries k p)
          (sort_on location_sort_key (all_locations l r))
          (sort_on-All location_sort_key (Present l r) (all_locations l r)
            (all_locations-Present l r))))
