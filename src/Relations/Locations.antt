-- ===== src/Relations/Locations.antt =====
-- snapshot_relations.py: entries by location, and the relation of two entries at one location.
use steward_public.Base.{
  Bool, not, ◌&&◌, ◌||◌, Option, none, some, List, [], ◌∷◌, ◌==◌, ◌!=◌, nat_eq, list_eq, pair_eq,
  option_eq, bool_eq, if◌then◌else◌, any, filter, Result, ok, err,
}
use steward_public.Base.Dict
use steward_public.Base.Dict.{Dict}
use steward_public.Base.Int.{int_eq, int_order}
use steward_public.Base.Order.{nat_order, list_order, pair_order}
use steward_public.Base.Sort.{sort_on}
use steward_public.Base.Text.{Text}
use steward_public.Models.Status.{
  observed, observation_status_eq, regular_file, symlink, object_type_eq,
}
use steward_public.Models.Entry.{FilesystemEntry}
use steward_public.Models.Relation.{
  RelationKind, same_location_continuity, same_location_metadata_changed,
  same_location_content_changed, same_location_content_unknown, same_location_object_hint_changed,
  same_location_type_changed, same_location_symlink_target_changed, RelationCertainty, fact,
  unknown, RelationItem,
}
use steward_public.Diff.{Location, location_key, location_sort_key, EntryField, differs}
use steward_public.Relations.Items.{Document, reference, relation_item}
use steward_public.Relations.Payload.{successful_payload_digest, object_hint_equal}

pub data RelationError : Type 0 where
  entry_of_other_snapshot duplicate_location same_snapshot base_follows_target : RelationError

-- the loop of `_entries_by_location`
unfoldable pub collect_entries :
    Text
    → Dict Location FilesystemEntry
    → List FilesystemEntry
    → Result RelationError (Dict Location FilesystemEntry)
collect_entries snapshot_id by_location [] = ok by_location
collect_entries snapshot_id by_location (entry ∷ rest) =
    let next =
      collect_entries snapshot_id (Dict.insert (location_key entry) entry by_location) rest in
    if entry.snapshot_id != snapshot_id
    then err entry_of_other_snapshot
    else if Dict.has_key (location_key entry) by_location
    then err duplicate_location
    else next

unfoldable pub entries_by_location :
    List FilesystemEntry → Text → Result RelationError (Dict Location FilesystemEntry)
unfolding collect_entries
entries_by_location entries snapshot_id = collect_entries snapshot_id [] entries

abbrev pub metadata_fields : List EntryField
metadata_fields =
    EntryField.mode ∷ EntryField.uid ∷ EntryField.gid ∷ EntryField.size_bytes ∷ EntryField.mtime_ns
    ∷ EntryField.ctime_ns ∷ EntryField.link_count ∷ EntryField.readable ∷ EntryField.writable
    ∷ EntryField.executable ∷ EntryField.observation_status ∷ EntryField.error_code
    ∷ EntryField.error_message ∷ EntryField.excluded ∷ []

unfoldable pub metadata_changed : FilesystemEntry → FilesystemEntry → Bool
metadata_changed base target = any (λ field. differs field base target) metadata_fields

-- the tests on two payload digests of regular files
abbrev pub payload_relation :
    Option Text → Option Text → RelationKind × RelationCertainty → RelationKind × RelationCertainty
payload_relation (some b) (some t) otherwise =
    if b != t then (same_location_content_changed, fact) else otherwise
payload_relation _ _ otherwise = (same_location_content_unknown, unknown)

-- the kind and the certainty that `_same_location_relation` gives to two observed entries
unfoldable pub same_location_kind :
    Bool → FilesystemEntry → FilesystemEntry → RelationKind × RelationCertainty
same_location_kind reused base target =
    let metadata =
      if metadata_changed base target
      then (same_location_metadata_changed, fact)
      else (same_location_continuity, fact) in
    if base.object_type != target.object_type
    then (same_location_type_changed, fact)
    else if base.object_type == symlink && base.symlink_target_raw != target.symlink_target_raw
    then (same_location_symlink_target_changed, fact)
    else if base.object_type == regular_file && not (object_hint_equal base target)
    then (same_location_object_hint_changed, fact)
    else if base.object_type == regular_file
    then payload_relation (successful_payload_digest reused base)
        (successful_payload_digest reused target) metadata
    else metadata

abbrev pub both_observed : FilesystemEntry → FilesystemEntry → Bool
both_observed base target =
    not (base.observation_status != observed || target.observation_status != observed)

-- `location in both`
unfoldable pub shared_locations :
    Dict Location FilesystemEntry → Dict Location FilesystemEntry → List Location
shared_locations base target =
    sort_on location_sort_key (filter (λ location. Dict.has_key location target) (Dict.keys base))

-- the entries whose location the other Snapshot does not have
unfoldable pub unmatched :
    Dict Location FilesystemEntry → Dict Location FilesystemEntry → List FilesystemEntry
unmatched [] other = []
unmatched ((location, entry) ∷ rest) other =
    let later = unmatched rest other in if Dict.has_key location other then later else entry ∷ later

module _ (hash : Document → Text) (reused : Bool) where
  unfoldable pub same_location_relation : FilesystemEntry → FilesystemEntry → List RelationItem
  same_location_relation base target =
      let (kind, certainty) = same_location_kind reused base target in
      if both_observed base target
      then relation_item hash kind certainty (reference base ∷ []) (reference target ∷ []) none ∷ []
      else []
