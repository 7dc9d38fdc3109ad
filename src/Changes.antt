-- ===== src/Changes.antt =====
-- change_semantics.py: a Snapshot diff as file events.
pub mod Agreement
use steward_public.Base.{
  ℕ, Bool, true, false, Option, none, some, List, [], ◌∷◌, ◌==◌, nat_eq, any, count_if, length,
  if◌then◌else◌,
}
use steward_public.Base.Int.{ℤ, ◌-ℤ◌}
use steward_public.Base.Order.{Order, nat_order, list_order, pair_order}
use steward_public.Base.Sort.{sort_on}
use steward_public.Base.Text.{Text, encode}
use steward_public.Models.Status.{
  SnapshotDiffChangeType, added, removed, modified, unchanged, ChangeEventType, file_created,
  file_deleted, file_modified, event_type_eq,
}
use steward_public.Models.Entry.{FilesystemEntry}
use steward_public.Diff.{EntryField, size_bytes, SnapshotDiff, SnapshotDiffItem}

-- `_METADATA_FIELDS`: every comparable field but the size
abbrev pub is_metadata_field : EntryField → Bool
is_metadata_field size_bytes = false
is_metadata_field _ = true

pub record ChangeEvent : Type 0 where
  pub scope_id : Text
  pub relative_path : Text
  pub event_type : ChangeEventType
  pub left_entry : Option FilesystemEntry
  pub right_entry : Option FilesystemEntry
  pub size_delta : Option ℤ
  pub hash_changed : Option Bool
  pub metadata_changed : Bool

pub record ChangeEventSummary : Type 0 where
  pub created_count : ℕ
  pub deleted_count : ℕ
  pub modified_count : ℕ
  pub event_count : ℕ

abbrev pub event_sort_key : ChangeEvent → Text × List ℕ
event_sort_key event = (event.scope_id, encode event.relative_path)

size_difference : Option ℤ → Option ℤ → Option ℤ
size_difference none r = none
size_difference (some l) none = none
size_difference (some l) (some r) = some (r -ℤ l)

delta_of : Option FilesystemEntry → Option FilesystemEntry → Option ℤ
unfolding size_difference
delta_of none r = none
delta_of (some l) none = none
delta_of (some l) (some r) = size_difference l.size_bytes r.size_bytes

unfoldable pub size_delta : SnapshotDiffItem → Option ℤ
unfolding delta_of
size_delta item = delta_of item.left_entry item.right_entry

-- the dict of event types, with `.get`
abbrev pub event_type_of : SnapshotDiffChangeType → Option ChangeEventType
event_type_of added = some file_created
event_type_of removed = some file_deleted
event_type_of modified = some file_modified
event_type_of unchanged = none

event_from : SnapshotDiffItem → Option ChangeEventType → Option ChangeEvent
event_from item none = none
event_from item (some event_type) = some record {
  scope_id = item.scope_id;
  relative_path = item.relative_path;
  event_type = event_type;
  left_entry = item.left_entry;
  right_entry = item.right_entry;
  size_delta = size_delta item;
  hash_changed = none;
  metadata_changed = any is_metadata_field item.changed;
}

unfoldable pub event : SnapshotDiffItem → Option ChangeEvent
unfolding event_from
event item = event_from item (event_type_of item.change_type)

events_of : List SnapshotDiffItem → List ChangeEvent
events_of [] = []
events_of (item ∷ items) =
    let rest = events_of items in elim (event item) [ none ↦ rest | some e ↦ e ∷ rest ]

unfoldable pub change_events_from_snapshot_diff : SnapshotDiff → List ChangeEvent
unfolding events_of
change_events_from_snapshot_diff diff = sort_on event_sort_key (events_of diff.items)

abbrev pub is_event : ChangeEventType → ChangeEvent → Bool
is_event event_type e = e.event_type == event_type

unfoldable pub summarize_change_events : List ChangeEvent → ChangeEventSummary
summarize_change_events events = record {
  created_count = count_if (is_event file_created) events;
  deleted_count = count_if (is_event file_deleted) events;
  modified_count = count_if (is_event file_modified) events;
  event_count = length events;
}
