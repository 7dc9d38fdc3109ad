-- ===== src/Diff.antt =====
-- snapshot_diff.py: the differences between two Snapshots, by scoped location.
pub mod Locations
pub mod Counting
pub mod Facts
pub mod Items
use steward_public.Base.{
  ℕ, ◌+◌, Bool, true, false, not, Option, none, some, List, [], ◌∷◌, ◌++◌, map, Result, ok, err,
  ◌>>=◌, ◌==◌, ◌!=◌, nat_eq, list_eq, bool_eq, option_eq, pair_eq, filter, count_if, length,
  if◌then◌else◌,
}
use steward_public.Base.Dict
use steward_public.Base.Dict.{Dict}
use steward_public.Base.Int.{ℤ, int_eq}
use steward_public.Base.Order.{Order, nat_order, list_order, pair_order}
use steward_public.Base.Sort.{sort_on}
use steward_public.Base.Text.{Text, encode}
use steward_public.Models.Status.{
  SnapshotDiffChangeType, added, removed, modified, unchanged, change_type_eq, object_type_eq,
  observation_status_eq,
}
use steward_public.Models.Entry.{FilesystemEntry, FilesystemSnapshot}

-- `_COMPARABLE_ENTRY_FIELDS`
pub data EntryField : Type 0 where
  object_type device_id inode mode uid gid size_bytes mtime_ns ctime_ns birthtime_ns : EntryField
  link_count symlink_target_raw readable writable executable observation_status : EntryField
  error_code error_message excluded : EntryField

abbrev pub comparable_fields : List EntryField
comparable_fields =
    object_type ∷ device_id ∷ inode ∷ mode ∷ uid ∷ gid ∷ size_bytes ∷ mtime_ns ∷ ctime_ns
    ∷ birthtime_ns ∷ link_count ∷ symlink_target_raw ∷ readable ∷ writable ∷ executable
    ∷ observation_status ∷ error_code ∷ error_message ∷ excluded ∷ []

-- `getattr(left, field) != getattr(right, field)`
unfoldable pub differs : EntryField → FilesystemEntry → FilesystemEntry → Bool
differs object_type l r = l.object_type != r.object_type
differs device_id l r = l.device_id != r.device_id
differs inode l r = l.inode != r.inode
differs mode l r = l.mode != r.mode
differs uid l r = l.uid != r.uid
differs gid l r = l.gid != r.gid
differs size_bytes l r = l.size_bytes != r.size_bytes
differs mtime_ns l r = l.mtime_ns != r.mtime_ns
differs ctime_ns l r = l.ctime_ns != r.ctime_ns
differs birthtime_ns l r = l.birthtime_ns != r.birthtime_ns
differs link_count l r = l.link_count != r.link_count
differs symlink_target_raw l r = l.symlink_target_raw != r.symlink_target_raw
differs readable l r = l.readable != r.readable
differs writable l r = l.writable != r.writable
differs executable l r = l.executable != r.executable
differs observation_status l r = l.observation_status != r.observation_status
differs error_code l r = l.error_code != r.error_code
differs error_message l r = l.error_message != r.error_message
differs excluded l r = l.excluded != r.excluded

abbrev pub Location : Type 0
Location = Text × Text

abbrev pub location_key : FilesystemEntry → Location
location_key entry = (entry.scope_id, entry.relative_path)

abbrev pub location_sort_key : Location → Text × List ℕ
location_sort_key (scope_id, relative_path) = (scope_id, encode relative_path)

pub data DiffError : Type 0 where
  duplicate_location : Text → Text → DiffError
  not_valid : DiffError

-- the loop of `_entries_by_location`
collect_entries :
    Dict Location FilesystemEntry
    → List FilesystemEntry
    → Result DiffError (Dict Location FilesystemEntry)
collect_entries by_location [] = ok by_location
collect_entries by_location (entry ∷ rest) =
    let next = collect_entries (Dict.insert (location_key entry) entry by_location) rest in
    if Dict.has_key (location_key entry) by_location
    then err (duplicate_location entry.scope_id entry.relative_path)
    else next

unfoldable pub entries_by_location :
    List FilesystemEntry → Result DiffError (Dict Location FilesystemEntry)
unfolding collect_entries
entries_by_location entries = collect_entries [] entries

unfoldable pub changed_fields : FilesystemEntry → FilesystemEntry → List EntryField
changed_fields left right = filter (λ field. differs field left right) comparable_fields

pub record SnapshotDiffItem : Type 0 where
  pub scope_id : Text
  pub relative_path : Text
  pub change_type : SnapshotDiffChangeType
  pub changed : List EntryField
  pub left_entry : Option FilesystemEntry
  pub right_entry : Option FilesystemEntry

pub record SnapshotDiffSummary : Type 0 where
  pub added_count : ℕ
  pub removed_count : ℕ
  pub modified_count : ℕ
  pub unchanged_count : ℕ
  pub item_count : ℕ

pub record SnapshotDiff : Type 0 where
  pub left_snapshot_id : Text
  pub right_snapshot_id : Text
  pub items : List SnapshotDiffItem
  pub summary : SnapshotDiffSummary

abbrev pub type_of_fields : List EntryField → SnapshotDiffChangeType
type_of_fields [] = unchanged
type_of_fields (_ ∷ _) = modified

-- the body of the loop. No location is without an entry on both sides.
unfoldable pub diff_item :
    Location → Option FilesystemEntry → Option FilesystemEntry → SnapshotDiffItem
diff_item (scope_id, relative_path) none right = record {
  scope_id = scope_id;
  relative_path = relative_path;
  change_type = added;
  changed = [];
  left_entry = none;
  right_entry = right;
}
diff_item (scope_id, relative_path) (some left) none = record {
  scope_id = scope_id;
  relative_path = relative_path;
  change_type = removed;
  changed = [];
  left_entry = some left;
  right_entry = none;
}
diff_item (scope_id, relative_path) (some left) (some right) = record {
  scope_id = scope_id;
  relative_path = relative_path;
  change_type = type_of_fields (changed_fields left right);
  changed = changed_fields left right;
  left_entry = some left;
  right_entry = some right;
}

-- `set(left_entries) | set(right_entries)`
unfoldable pub all_locations :
    Dict Location FilesystemEntry → Dict Location FilesystemEntry → List Location
all_locations left right =
    Dict.keys left ++ filter (λ location. not (Dict.has_key location left)) (Dict.keys right)

unfoldable pub diff_items :
    Dict Location FilesystemEntry → Dict Location FilesystemEntry → List SnapshotDiffItem
diff_items left right =
    map (λ location. diff_item location (Dict.lookup location left) (Dict.lookup location right))
      (sort_on location_sort_key (all_locations left right))

abbrev pub has_type : SnapshotDiffChangeType → SnapshotDiffItem → Bool
has_type change_type item = item.change_type == change_type

unfoldable pub summarize : List SnapshotDiffItem → SnapshotDiffSummary
summarize items = record {
  added_count = count_if (has_type added) items;
  removed_count = count_if (has_type removed) items;
  modified_count = count_if (has_type modified) items;
  unchanged_count = count_if (has_type unchanged) items;
  item_count = length items;
}

abbrev pub diff_of :
    Text → Text → Dict Location FilesystemEntry → Dict Location FilesystemEntry → SnapshotDiff
diff_of left_id right_id left right = record {
  left_snapshot_id = left_id;
  right_snapshot_id = right_id;
  items = diff_items left right;
  summary = summarize (diff_items left right);
}

unfoldable pub compute_snapshot_diff :
    FilesystemSnapshot → FilesystemSnapshot → Result DiffError SnapshotDiff
compute_snapshot_diff left right = do
  left_entries ← entries_by_location left.entries
  right_entries ← entries_by_location right.entries
  ok (diff_of left.snapshot_id right.snapshot_id left_entries right_entries)
