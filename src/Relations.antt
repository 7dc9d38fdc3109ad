-- ===== src/Relations.antt =====
-- snapshot_relations.py: compute_snapshot_relations.
pub mod Items
pub mod Payload
pub mod Locations
pub mod Transitions
pub mod Entries
pub mod Candidates
pub mod Moves
use steward_public.Base.{
  ℕ, ◌+◌, Bool, true, false, not, ◌&&◌, ◌||◌, Option, none, some, List, [], ◌∷◌, ◌++◌, map, ◌==◌,
  ◌!=◌, nat_eq, list_eq, pair_eq, option_eq, bool_eq, if◌then◌else◌, contains, any, filter, length,
  ltb, Result, ok, err, ◌>>=◌, ◌>>◌, raise_if,
}
use steward_public.Base.Dict
use steward_public.Base.Dict.{Dict}
use steward_public.Base.Group.{group_by, group_at, distinct}
use steward_public.Base.Int.{ℤ, int_eq, int_order}
use steward_public.Base.Order.{Order, nat_order, list_order, pair_order}
use steward_public.Base.Sort.{sort_on}
use steward_public.Base.Text.{Text}
use steward_public.Models.Status.{
  observed, observation_status_eq, regular_file, symlink, object_type_eq,
}
use steward_public.Models.Entry.{FilesystemEntry, FilesystemSnapshot}
use steward_public.Models.Relation.{
  SnapshotEntryReference, RelationKind, same_location_continuity, same_location_metadata_changed,
  same_location_content_changed, same_location_content_unknown, same_location_object_hint_changed,
  same_location_type_changed, same_location_symlink_target_changed, rename_candidate,
  cross_scope_transition_candidate, ambiguous_location_transition, RelationCertainty, fact,
  candidate, ambiguous, unknown, RelationAmbiguityGroup, RelationItem, RelationSet,
}
use steward_public.Diff.{Location, location_key, location_sort_key, EntryField, differs}
use steward_public.Relations.Items.{
  Document, reference, entry_sort_key, ordered_references, ambiguity_group_id, relation_item,
  relation_set,
}
use steward_public.Relations.Payload.{
  successful_payload_digest, object_hint_equal, ObjectHint, object_hint, TransitionKey,
  transition_key,
}
use steward_public.Relations.Locations.{
  RelationError, same_snapshot, base_follows_target, entries_by_location, shared_locations,
  unmatched, same_location_relation,
}
use steward_public.Relations.Transitions.{
  Transition, transitions, sides_of, relations_of, groups_of,
}

-- `later > earlier`, of texts
abbrev follows : Text → Text → Bool
follows later earlier = (list_order {A = ℕ}).lt earlier later

-- both dicts have the location
abbrev pub both_at :
    (FilesystemEntry → FilesystemEntry → List RelationItem)
    → Option FilesystemEntry
    → Option FilesystemEntry
    → List RelationItem
both_at relate (some base) (some target) = relate base target
both_at relate _ _ = []

-- Times are compared as texts.
unfoldable pub validate_pair :
    FilesystemSnapshot → FilesystemSnapshot → Result RelationError (Unit {0})
validate_pair base target =
    raise_if (base.snapshot_id == target.snapshot_id) same_snapshot
    >> raise_if (follows base.completed_at target.started_at) base_follows_target

module _ (hash : Document → Text) where
  unfoldable pub relation_at :
      Bool
      → Dict Location FilesystemEntry
      → Dict Location FilesystemEntry
      → Location
      → List RelationItem
  relation_at reused base target location =
      both_at (same_location_relation hash reused) (Dict.lookup location base)
        (Dict.lookup location target)

  -- the loop over the shared locations
  unfoldable pub relations_at :
      Bool
      → Dict Location FilesystemEntry
      → Dict Location FilesystemEntry
      → List Location
      → List RelationItem
  unfolding relation_at
  relations_at reused base target [] = []
  relations_at reused base target (location ∷ rest) =
      relation_at reused base target location ++ relations_at reused base target rest

  abbrev pub transitions_if :
      Bool → Bool → Dict Location FilesystemEntry → Dict Location FilesystemEntry → List Transition
  transitions_if adjacent reused base target =
      if adjacent
      then transitions hash reused (
          sides_of (unmatched base target) (unmatched target base) (Dict.values base)
            (Dict.values target))
      else []

  abbrev pub relations_between :
      Bool
      → Bool
      → FilesystemSnapshot
      → FilesystemSnapshot
      → Dict Location FilesystemEntry
      → Dict Location FilesystemEntry
      → RelationSet
  relations_between adjacent reused base target base_locations target_locations =
      let found = transitions_if adjacent reused base_locations target_locations in
      relation_set hash base.snapshot_id target.snapshot_id
        (relations_at reused base_locations target_locations
            (shared_locations base_locations target_locations)
          ++ relations_of found)
        (groups_of found)

  unfoldable pub compute_snapshot_relations :
      Bool → Bool → FilesystemSnapshot → FilesystemSnapshot → Result RelationError RelationSet
  compute_snapshot_relations adjacent_valid_snapshots reused_payloads_verified base target = do
    validate_pair base target
    base_locations ← entries_by_location base.entries base.snapshot_id
    target_locations ← entries_by_location target.entries target.snapshot_id
    ok (
        relations_between adjacent_valid_snapshots reused_payloads_verified base target
          base_locations target_locations)
