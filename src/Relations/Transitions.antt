-- ===== src/Relations/Transitions.antt =====
-- snapshot_relations.py: entries of two Snapshots that may be one object at two locations.
use steward_public.Base.{
  Bool, ◌||◌, Option, none, some, List, [], ◌∷◌, ◌++◌, map, ◌==◌, ◌!=◌, nat_eq, list_eq, pair_eq,
  option_eq, bool_eq, if◌then◌else◌, contains, filter, length, ltb,
}
use steward_public.Base.Dict
use steward_public.Base.Dict.{Dict}
use steward_public.Base.Group.{group_by, group_at, distinct}
use steward_public.Base.Int.{int_eq, int_order}
use steward_public.Base.Order.{nat_order, list_order, pair_order}
use steward_public.Base.Sort.{sort_on}
use steward_public.Base.Text.{Text}
use steward_public.Models.Status.{observation_status_eq, object_type_eq}
use steward_public.Models.Entry.{FilesystemEntry}
use steward_public.Models.Relation.{
  SnapshotEntryReference, RelationKind, rename_candidate, cross_scope_transition_candidate,
  ambiguous_location_transition, candidate, ambiguous, RelationAmbiguityGroup, RelationItem,
}
use steward_public.Relations.Items.{
  Document, entry_sort_key, ordered_references, ambiguity_group_id, relation_item,
}
use steward_public.Relations.Payload.{
  successful_payload_digest, ObjectHint, object_hint, TransitionKey, transition_key,
}

-- What one key that both sides have contributes: nothing, an ambiguous relation with its group, or
-- a candidate.
pub data Transition : Type 0 where
  skipped : Transition
  ambiguous_transition : RelationItem → RelationAmbiguityGroup → Transition
  candidate_transition : RelationItem → Transition

abbrev pub relation_of : Transition → List RelationItem
relation_of skipped = []
relation_of (ambiguous_transition item group) = item ∷ []
relation_of (candidate_transition item) = item ∷ []

abbrev group_of : Transition → List RelationAmbiguityGroup
group_of (ambiguous_transition item group) = group ∷ []
group_of _ = []

unfoldable pub relations_of : List Transition → List RelationItem
relations_of [] = []
relations_of (t ∷ ts) = relation_of t ++ relations_of ts

unfoldable pub groups_of : List Transition → List RelationAmbiguityGroup
groups_of [] = []
groups_of (t ∷ ts) = group_of t ++ groups_of ts

abbrev pub alias_key : TransitionKey → ObjectHint
alias_key (device, (inode, birthtime)) = (device, inode)

-- the four dicts that the loop over the keys reads
pub record Sides : Type 0 where
  pub base_by_hint : Dict TransitionKey (List FilesystemEntry)
  pub target_by_hint : Dict TransitionKey (List FilesystemEntry)
  pub base_aliases : Dict ObjectHint (List FilesystemEntry)
  pub target_aliases : Dict ObjectHint (List FilesystemEntry)

abbrev pub kind_of_candidate : List FilesystemEntry → List FilesystemEntry → RelationKind
kind_of_candidate (source ∷ _) (target ∷ _) =
    if source.scope_id == target.scope_id
    then rename_candidate
    else cross_scope_transition_candidate
kind_of_candidate _ _ = cross_scope_transition_candidate

-- the set of the payload digests, `None` among them
abbrev pub digests : Bool → List FilesystemEntry → List (Option Text)
digests reused entries = distinct (map (successful_payload_digest reused) entries)

module _ (hash : Document → Text) (reused : Bool) where
  abbrev pub ambiguous_of : List SnapshotEntryReference → List SnapshotEntryReference → Transition
  ambiguous_of sources targets =
      ambiguous_transition
        (relation_item hash ambiguous_location_transition ambiguous sources targets
          (some (ambiguity_group_id hash sources targets)))
        record {
          ambiguity_group_id = ambiguity_group_id hash sources targets;
          source_entries = sources;
          target_entries = targets;
        }

  -- the body of the loop, on the sorted entries of one key and the sorted aliases of its object
  unfoldable pub transition_of :
      List FilesystemEntry
      → List FilesystemEntry
      → List FilesystemEntry
      → List FilesystemEntry
      → Transition
  transition_of sources targets source_aliases target_aliases =
      let all_digests = distinct (digests reused sources ++ digests reused targets) in
      let aliases = ltb 1 (length source_aliases) || ltb 1 (length target_aliases) in
      if contains (digests reused sources) none || contains (digests reused targets) none
      then skipped
      else if aliases
      then ambiguous_of (ordered_references source_aliases) (ordered_references target_aliases)
      else if length all_digests != 1
      then ambiguous_of (ordered_references sources) (ordered_references targets)
      else candidate_transition (
          relation_item hash (kind_of_candidate sources targets) candidate
            (ordered_references sources) (ordered_references targets) none)

  unfoldable pub transition_at : Sides → TransitionKey → Transition
  transition_at sides hint =
      transition_of (sort_on entry_sort_key (group_at hint sides.base_by_hint))
        (sort_on entry_sort_key (group_at hint sides.target_by_hint))
        (sort_on entry_sort_key (group_at (alias_key hint) sides.base_aliases))
        (sort_on entry_sort_key (group_at (alias_key hint) sides.target_aliases))

abbrev pub sides_of :
    List FilesystemEntry
    → List FilesystemEntry
    → List FilesystemEntry
    → List FilesystemEntry
    → Sides
sides_of base_entries target_entries base_snapshot_entries target_snapshot_entries = record {
  base_by_hint = group_by transition_key base_entries;
  target_by_hint = group_by transition_key target_entries;
  base_aliases = group_by object_hint base_snapshot_entries;
  target_aliases = group_by object_hint target_snapshot_entries;
}

-- `sorted(set(base_by_hint) & set(target_by_hint))`
unfoldable pub shared_hints : Sides → List TransitionKey
shared_hints sides =
    sort_on (λ hint. hint)
      (filter (λ hint. Dict.has_key hint sides.target_by_hint) (Dict.keys sides.base_by_hint))

-- `_transition_relations`: the loop over the keys
unfoldable pub transitions : (Document → Text) → Bool → Sides → List Transition
transitions hash reused sides = map (transition_at hash reused sides) (shared_hints sides)
