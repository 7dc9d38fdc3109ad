-- ===== src/Diff/Counting.antt =====
-- One item for each location of either Snapshot, and the counts of the summary.
use steward_public.Base.{
  ◌≡◌, refl, ap, ◌∙◌, subst, Bool, not, ◌||◌, Option, none, some, [], ◌∷◌, ok, >>=-ok, arith, ◌==◌,
  list_eq, nat_eq, pair_eq, if◌then◌else◌, any, filter, count_if, count_if-append, count_if_ext,
  count_if-map,
}
use steward_public.Base.Dict
use steward_public.Base.Dict.{Dict, UniqueKeys}
use steward_public.Base.Order.{nat_order, list_order, pair_order}
use steward_public.Base.Sort.{sort_on, count_if-sort_on}
use steward_public.Models.Entry.{FilesystemEntry, FilesystemSnapshot}
use steward_public.Models.Status.{change_type_eq}
use steward_public.Diff.{
  Location, location_sort_key, entries_by_location, SnapshotDiff, SnapshotDiffItem, diff_item,
  diff_of, diff_items, all_locations, compute_snapshot_diff,
}
use steward_public.Diff.Locations.{tagged, is_at, has_key-tagged, entries_by_location-ok}

-- Both Snapshots are read, and the diff is that of their entries by location.
pub compute-parts :
    (left right : FilesystemSnapshot) (d : SnapshotDiff)
    → compute_snapshot_diff left right ≡ ok d
    → (d ≡ diff_of left.snapshot_id right.snapshot_id (tagged left.entries) (tagged right.entries))
      × UniqueKeys (tagged left.entries)
      × UniqueKeys (tagged right.entries)
unfolding compute_snapshot_diff
compute-parts left right d h =
    let (l, el, h') = >>=-ok (entries_by_location left.entries) _ h in
    let (r, er, h'') = >>=-ok (entries_by_location right.entries) _ h' in
    let (pl, ul) = entries_by_location-ok left.entries l el in
    let (pr, ur) = entries_by_location-ok right.entries r er in
    (ground (arith), subst UniqueKeys pl ul, subst UniqueKeys pr ur)

pub item_at : Location → SnapshotDiffItem → Bool
item_at location item = location == (item.scope_id, item.relative_path)

diff_item-at :
    (location place : Location) (l r : Option FilesystemEntry)
    → item_at location (diff_item place l r) ≡ (location == place)
unfolding item_at diff_item
diff_item-at location (a, b) none r = refl
diff_item-at location (a, b) (some l) none = refl
diff_item-at location (a, b) (some l) (some r) = refl

count-keys :
    (location : Location) (d : Dict Location FilesystemEntry)
    → UniqueKeys d
    → count_if (λ place. location == place) (Dict.keys d)
      ≡ (if Dict.has_key location d then 1 else 0)
unfolding Dict.keys Dict.has_key
count-keys location [] u = refl
count-keys location ((k, e) ∷ d) u = ground (arith, count-keys location d u.1)

count-new_keys :
    (location : Location) (l d : Dict Location FilesystemEntry)
    → count_if
        (λ place. location == place)
        (filter (λ place. not (Dict.has_key place l)) (Dict.keys d))
      ≡ (if Dict.has_key location l then 0 else count_if (λ place. location == place) (Dict.keys d))
unfolding Dict.keys
count-new_keys location l [] = ground arith
count-new_keys location l ((k, e) ∷ d) = ground (arith, count-new_keys location l d)

count-all_locations :
    (location : Location) (l r : Dict Location FilesystemEntry)
    → UniqueKeys l
    → UniqueKeys r
    → count_if (λ place. location == place) (all_locations l r)
      ≡ (if Dict.has_key location l || Dict.has_key location r then 1 else 0)
unfolding all_locations
count-all_locations location l r u v = ground (
  arith,
  count_if-append (λ place. location == place) (Dict.keys l)
      (filter (λ place. not (Dict.has_key place l)) (Dict.keys r)),
  count-keys location l u,
  count-new_keys location l r,
  count-keys location r v,
)

count-diff_items :
    (location : Location) (l r : Dict Location FilesystemEntry)
    → count_if (item_at location) (diff_items l r)
      ≡ count_if (λ place. location == place) (all_locations l r)
unfolding diff_items
count-diff_items location l r =
    count_if-map (item_at location) _ (sort_on location_sort_key (all_locations l r))
    ∙ count_if_ext _ _ (sort_on location_sort_key (all_locations l r))
        (λ place. diff_item-at location place (Dict.lookup place l) (Dict.lookup place r))
    ∙ count_if-sort_on location_sort_key (λ place. location == place) (all_locations l r)

-- Each location at which either Snapshot has an entry has exactly one item, and no other location has
-- one.
pub one_item_each :
    (left right : FilesystemSnapshot) (d : SnapshotDiff) (location : Location)
    → compute_snapshot_diff left right ≡ ok d
    → count_if (item_at location) d.items
      ≡ (if any (is_at location) left.entries || any (is_at location) right.entries then 1 else 0)
one_item_each left right d location h =
    let (e, u, v) = compute-parts left right d h in
    ap (λ x. count_if (item_at location) x.items) e
    ∙ count-diff_items location (tagged left.entries) (tagged right.entries)
    ∙ count-all_locations location (tagged left.entries) (tagged right.entries) u v
    ∙ rw (has_key-tagged location left.entries, has_key-tagged location right.entries)
