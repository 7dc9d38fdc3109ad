-- ===== src/Models/Relation.antt =====
-- References to entries, and the relations between two Snapshots, of models.py.
use steward_public.Base.{ℕ, Option, List, Eq}
use steward_public.Base.Text.{Text, text}

pub record SnapshotEntryReference : Type 0 where
  pub snapshot_id : Text
  pub scope_id : Text
  pub relative_path : Text

pub data RelationKind : Type 0 where
  same_location_continuity same_location_metadata_changed same_location_content_changed :
      RelationKind
  same_location_content_unknown same_location_object_hint_changed : RelationKind
  same_location_type_changed same_location_symlink_target_changed : RelationKind
  rename_candidate cross_scope_transition_candidate ambiguous_location_transition : RelationKind

relation_kind_dec : Discrete RelationKind
relation_kind_dec = hlevel

instance unfoldable pub relation_kind_eq : Eq RelationKind
unfolding relation_kind_dec
relation_kind_eq = record { dec = relation_kind_dec }

abbrev pub relation_kind_value : RelationKind → Text
relation_kind_value same_location_continuity = text "SAME_LOCATION_CONTINUITY"
relation_kind_value same_location_metadata_changed = text "SAME_LOCATION_METADATA_CHANGED"
relation_kind_value same_location_content_changed = text "SAME_LOCATION_CONTENT_CHANGED"
relation_kind_value same_location_content_unknown = text "SAME_LOCATION_CONTENT_UNKNOWN"
relation_kind_value same_location_object_hint_changed = text "SAME_LOCATION_OBJECT_HINT_CHANGED"
relation_kind_value same_location_type_changed = text "SAME_LOCATION_TYPE_CHANGED"
relation_kind_value same_location_symlink_target_changed =
    text "SAME_LOCATION_SYMLINK_TARGET_CHANGED"
relation_kind_value rename_candidate = text "RENAME_CANDIDATE"
relation_kind_value cross_scope_transition_candidate = text "CROSS_SCOPE_TRANSITION_CANDIDATE"
relation_kind_value ambiguous_location_transition = text "AMBIGUOUS_LOCATION_TRANSITION"

pub data RelationCertainty : Type 0 where
  fact candidate ambiguous unknown : RelationCertainty

abbrev pub relation_certainty_value : RelationCertainty → Text
relation_certainty_value fact = text "FACT"
relation_certainty_value candidate = text "CANDIDATE"
relation_certainty_value ambiguous = text "AMBIGUOUS"
relation_certainty_value unknown = text "UNKNOWN"

pub record RelationAmbiguityGroup : Type 0 where
  pub ambiguity_group_id : Text
  pub source_entries : List SnapshotEntryReference
  pub target_entries : List SnapshotEntryReference

pub record RelationItem : Type 0 where
  pub relation_id : Text
  pub kind : RelationKind
  pub certainty : RelationCertainty
  pub reason_codes : List Text
  pub ambiguity_group_id : Option Text
  pub source_entries : List SnapshotEntryReference
  pub target_entries : List SnapshotEntryReference

pub record RelationSet : Type 0 where
  pub relation_schema_version : ℕ
  pub algorithm : Text
  pub algorithm_version : ℕ
  pub base_snapshot_id : Text
  pub target_snapshot_id : Text
  pub relations : List RelationItem
  pub ambiguity_groups : List RelationAmbiguityGroup
  pub relation_set_digest : Text
