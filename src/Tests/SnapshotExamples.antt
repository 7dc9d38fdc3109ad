-- ===== src/Tests/SnapshotExamples.antt =====
-- snapshot_diff.py, change_semantics.py and snapshot_relations.py at concrete Snapshots.
use steward_public.Base.{
  ℕ, false, true, ◌≡◌, ◌+◌, refl, none, some, List, [], ◌∷◌, Result, ok, err, list_eq, nat_eq,
  pair_eq, option_eq, bool_eq, All, any, ◌||◌, ◌↔◌, if◌then◌else◌, ℕ_discrete, map, count_if,
}
use steward_public.Base.Dict
use steward_public.Base.Group.{group_by, group_at, distinct}
use steward_public.Base.Int.{pos, int_eq, int_order}
use steward_public.Base.Order.{nat_order, list_order, pair_order}
use steward_public.Base.Sort.{sort_on}
use steward_public.Base.Text.{Text, text, encode}
use steward_public.Models.Status.{
  regular_file, observed, hashed, direct_read, object_type_eq, observation_status_eq,
  payload_status_eq, provenance_eq, change_type_eq, event_type_eq,
}
use steward_public.Models.Entry.{FilesystemEntry, FilesystemSnapshot}
use steward_public.Models.Relation.{
  RelationSet, RelationItem, RelationKind, same_location_metadata_changed, rename_candidate,
  candidate,
}
use steward_public.Diff.{
  DiffError, SnapshotDiff, compute_snapshot_diff, entries_by_location, diff_items, all_locations,
  diff_item, changed_fields, differs, summarize,
}
use steward_public.Diff.Counting.{item_at, one_item_each}
use steward_public.Diff.Facts.{SameComparedFacts, changed_fields-nil_iff}
use steward_public.Relations.Locations.{RelationError}
use steward_public.Diff.Items.{Describes, items-Describe}
use steward_public.Diff.Locations.{is_at}
use steward_public.Changes.{change_events_from_snapshot_diff, summarize_change_events}
use steward_public.Changes.Agreement.{events-agree}
use steward_public.Relations.Items.{
  Document, relation_set, ordered_references, reference_sort_key, entry_sort_key, item_sort_key,
  group_sort_key,
}
use steward_public.Relations.Payload.{
  successful_payload_digest, object_hint_equal, payload_digest, is_trusted, object_hint,
  transition_key, transition_eligible,
}
use steward_public.Relations.Transitions.{
  transition_of, transition_at, transitions, shared_hints, relations_of, groups_of,
}
use steward_public.Relations.{compute_snapshot_relations, validate_pair, relations_at, relation_at}
use steward_public.Relations.Locations.{
  entries_by_location as relation_locations, shared_locations, unmatched, same_location_relation,
  same_location_kind, metadata_changed,
}
use steward_public.Relations.Candidates.{IsMove}
use steward_public.Relations.Moves.{candidates-IsMove}

abbrev digest : Text
digest = text "0123456789abcdef0123456789abcdef0123456789abcdef0123456789abcdef"

abbrev pub entry : Text → Text → ℕ → ℕ → FilesystemEntry
entry snapshot_id relative_path inode size = record {
  entry_id = text "e";
  snapshot_id = snapshot_id;
  scope_id = text "s";
  relative_path = relative_path;
  object_type = regular_file;
  device_id = some (pos 1);
  inode = some (pos inode);
  mode = some (pos 420);
  uid = some (pos 0);
  gid = some (pos 0);
  size_bytes = some (pos size);
  mtime_ns = some (pos 5);
  ctime_ns = some (pos 5);
  birthtime_ns = some (pos 4);
  link_count = some (pos 1);
  symlink_target_raw = none;
  readable = true;
  writable = true;
  executable = false;
  observation_status = observed;
  error_code = none;
  error_message = none;
  excluded = false;
  version_two = some record {
    allocated_size_bytes = some (pos 4096);
    payload_observation = record {
      status = hashed;
      algorithm = some (text "sha256");
      algorithm_version = some (pos 1);
      digest = some digest;
      bytes_hashed = some (pos size);
      provenance = some direct_read;
      reused_from_snapshot_id = none;
      failure_code = none;
      os_error_code = none;
    };
  };
}

abbrev pub snapshot : Text → Text → Text → List FilesystemEntry → FilesystemSnapshot
snapshot id started completed entries = record {
  snapshot_id = id;
  started_at = started;
  completed_at = completed;
  scope_ids = text "s" ∷ [];
  entries = entries;
}

abbrev base : FilesystemSnapshot
base =
    snapshot (text "b") (text "1") (text "2")
      (entry (text "b") (text "kept") 7 3 ∷ entry (text "b") (text "old") 8 4 ∷ [])

abbrev target : FilesystemSnapshot
target =
    snapshot (text "t") (text "3") (text "4")
      (entry (text "t") (text "kept") 7 9 ∷ entry (text "t") (text "new") 8 4 ∷ [])

abbrev the_diff : Result DiffError SnapshotDiff → SnapshotDiff
the_diff (ok d) = d
the_diff (err _) = record {
  left_snapshot_id = [];
  right_snapshot_id = [];
  items = [];
  summary = summarize [];
}

diff : SnapshotDiff
unfolding compute_snapshot_diff entries_by_location diff_items all_locations diff_item
    changed_fields differs summarize sort_on encode list_eq nat_eq pair_eq int_eq option_eq bool_eq
    object_type_eq observation_status_eq change_type_eq list_order nat_order pair_order Dict.insert
    Dict.has_key Dict.keys Dict.lookup
diff = the_diff (compute_snapshot_diff base target)

computed : compute_snapshot_diff base target ≡ ok diff
unfolding diff compute_snapshot_diff entries_by_location list_eq nat_eq pair_eq Dict.insert
    Dict.has_key
computed = refl

counted :
    (diff.summary.added_count ≡ 1)
    × (diff.summary.removed_count ≡ 1)
    × (diff.summary.modified_count ≡ 1)
    × (diff.summary.unchanged_count ≡ 0)
unfolding diff
counted = (refl, refl, refl, refl)

one_item_each_example : count_if (item_at (text "s", text "old")) diff.items ≡ (
    if any (is_at (text "s", text "old")) base.entries
      || any (is_at (text "s", text "old")) target.entries
    then 1
    else 0)
one_item_each_example = one_item_each base target diff (text "s", text "old") computed

items-Describe_example : All (Describes base.entries target.entries) diff.items
items-Describe_example = items-Describe base target diff computed

events-agree_example :
    let s = summarize_change_events (change_events_from_snapshot_diff diff) in
    (s.created_count ≡ diff.summary.added_count)
    × (s.deleted_count ≡ diff.summary.removed_count)
    × (s.modified_count ≡ diff.summary.modified_count)
    × (s.event_count + diff.summary.unchanged_count ≡ diff.summary.item_count)
events-agree_example = events-agree base target diff computed

changed_fields-nil_iff_example :
    (changed_fields (entry (text "b") (text "kept") 7 3) (entry (text "t") (text "kept") 7 9) ≡ [])
    ↔ SameComparedFacts (entry (text "b") (text "kept") 7 3) (entry (text "t") (text "kept") 7 9)
changed_fields-nil_iff_example =
    changed_fields-nil_iff (entry (text "b") (text "kept") 7 3) (entry (text "t") (text "kept") 7 9)

-- every digest is empty
abbrev hash : Document → Text
hash _ = []

abbrev the_set : Result RelationError RelationSet → RelationSet
the_set (ok s) = s
the_set (err _) = relation_set hash [] [] [] []

pub relations : RelationSet
unfolding compute_snapshot_relations
relations = the_set (compute_snapshot_relations hash true false base target)

related : compute_snapshot_relations hash true false base target ≡ ok relations
unfolding relations compute_snapshot_relations validate_pair relation_locations list_eq nat_eq
    pair_eq list_order nat_order Dict.insert Dict.has_key
related = refl

candidates-IsMove_example :
    All
      (λ item. item.certainty ≡ candidate → IsMove false base.entries target.entries item)
      relations.relations
candidates-IsMove_example = candidates-IsMove hash true false base target relations related

abbrev pub kind_of : RelationItem → RelationKind
kind_of item = item.kind

-- The file that kept its place has another size, and the other one has moved.
pub kinds : map kind_of relations.relations ≡ rename_candidate ∷ same_location_metadata_changed ∷ []
unfolding relations relation_set relations_at relation_at relations_of groups_of transitions
    transition_at transition_of shared_hints shared_locations unmatched same_location_relation
    same_location_kind object_hint_equal metadata_changed successful_payload_digest payload_digest
    is_trusted object_hint transition_key transition_eligible ordered_references reference_sort_key
    entry_sort_key item_sort_key group_sort_key group_by group_at distinct sort_on encode differs
    list_eq nat_eq pair_eq int_eq option_eq bool_eq object_type_eq observation_status_eq
    payload_status_eq provenance_eq list_order nat_order pair_order int_order Dict.has_key Dict.keys
    Dict.lookup Dict.values relation_locations Dict.insert validate_pair Dict.append_at ℕ_discrete
kinds = refl
