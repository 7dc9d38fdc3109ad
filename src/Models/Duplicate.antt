-- ===== src/Models/Duplicate.antt =====
-- The records of models.py for the analysis of duplicates.
use steward_public.Base.{ℕ, Bool, Option, List, Eq, list_eq, nat_eq}
use steward_public.Base.Int.{ℤ}
use steward_public.Base.Text.{Text}
use steward_public.Models.Relation.{SnapshotEntryReference}

reference_dec : Discrete SnapshotEntryReference
unfolding list_eq nat_eq
reference_dec = hlevel (list_eq {A = ℕ}).dec

instance unfoldable pub reference_eq : Eq SnapshotEntryReference
unfolding reference_dec
reference_eq = record { dec = reference_dec }

pub data DuplicateStorageKnowledgeStatus : Type 0 where
  unknown : DuplicateStorageKnowledgeStatus

pub record PayloadUnknownReasonCount : Type 0 where
  pub code : Text
  pub count : ℕ

pub record HardLinkAliasSet : Type 0 where
  pub alias_set_id : Text
  pub device_id : ℤ
  pub inode : ℤ
  pub member_entries : List SnapshotEntryReference

pub record StorageUnit : Type 0 where
  pub device_id : Option ℤ
  pub inode : Option ℤ
  pub member_entries : List SnapshotEntryReference
  pub membership_known : Bool
  pub integrity_conflicted : Bool
  pub logical_size_bytes : Option ℤ
  pub allocated_size_bytes : Option ℤ

-- A PayloadEqualityGroup without its identity: what `_group_content` writes.
pub record GroupContent : Type 0 where
  pub algorithm : Text
  pub algorithm_version : ℤ
  pub digest : Text
  pub logical_size_bytes : ℤ
  pub member_entries : List SnapshotEntryReference
  pub alias_set_ids : List Text
  pub storage_units : List StorageUnit
  pub known_storage_unit_count : ℕ
  pub unknown_storage_unit_count : ℕ
  pub is_exact_duplicate : Bool
  pub path_logical_bytes : ℤ
  pub known_unit_logical_bytes : ℤ
  pub logical_redundant_bytes : Option ℤ

pub record PayloadEqualityGroup : Type 0 where
  pub payload_group_id : Text
  pub content : GroupContent
  pub open content use *

pub record CoverageSummary : Type 0 where
  pub total_entry_count : ℕ
  pub total_regular_entry_count : ℕ
  pub payload_analyzable_regular_entry_count : ℕ
  pub payload_unknown_regular_entry_count : ℕ
  pub analyzable_logical_bytes : ℤ
  pub unknown_logical_bytes : ℤ
  pub payload_status_counts : List PayloadUnknownReasonCount
  pub payload_unknown_reason_counts : List PayloadUnknownReasonCount
  pub alias_path_count : ℕ
  pub known_storage_unit_count : ℕ
  pub unknown_storage_unit_membership_count : ℕ

-- `reclaimable_bytes` is always None.
pub record PhysicalStorageSummary : Type 0 where
  pub allocated_size_bytes_known_sum : ℤ
  pub allocated_size_known_unit_count : ℕ
  pub allocated_size_unknown_unit_count : ℕ
  pub allocation_status : DuplicateStorageKnowledgeStatus
  pub physical_block_sharing_status : DuplicateStorageKnowledgeStatus
  pub reclaimable_status : DuplicateStorageKnowledgeStatus

pub record IntegrityConflict : Type 0 where
  pub code : Text
  pub entries : List SnapshotEntryReference

pub record DuplicateAnalysisResult : Type 0 where
  pub analysis_schema_version : ℕ
  pub algorithm : Text
  pub algorithm_version : ℕ
  pub snapshot_id : Text
  pub payload_equality_groups : List PayloadEqualityGroup
  pub hard_link_alias_sets : List HardLinkAliasSet
  pub coverage : CoverageSummary
  pub physical_storage : PhysicalStorageSummary
  pub integrity_conflicts : List IntegrityConflict
  pub analysis_digest : Text
