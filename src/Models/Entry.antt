-- ===== src/Models/Entry.antt =====
-- FilesystemEntry, FilesystemEntryV2, PayloadObservation, PayloadHashPolicy and the Snapshots of
-- models.py.
use steward_public.Base.{ℕ, Bool, Option, List}
use steward_public.Base.Int.{ℤ}
use steward_public.Base.Text.{Text}
use steward_public.Models.Status.{
  FilesystemObjectType, FilesystemObservationStatus, PayloadObservationStatus,
  PayloadObservationProvenance,
}

pub record PayloadObservation : Type 0 where
  pub status : PayloadObservationStatus
  pub algorithm : Option Text
  pub algorithm_version : Option ℤ
  pub digest : Option Text
  pub bytes_hashed : Option ℤ
  pub provenance : Option PayloadObservationProvenance
  pub reused_from_snapshot_id : Option Text
  pub failure_code : Option Text
  pub os_error_code : Option ℤ

-- The two fields that FilesystemEntryV2 adds.
pub record VersionTwoFacts : Type 0 where
  pub allocated_size_bytes : Option ℤ
  pub payload_observation : PayloadObservation

-- FilesystemEntry, and FilesystemEntryV2 where `version_two` is there: the test
-- `isinstance(entry, FilesystemEntryV2)` looks whether it is.
pub record FilesystemEntry : Type 0 where
  pub entry_id : Text
  pub snapshot_id : Text
  pub scope_id : Text
  pub relative_path : Text
  pub object_type : FilesystemObjectType
  pub device_id : Option ℤ
  pub inode : Option ℤ
  pub mode : Option ℤ
  pub uid : Option ℤ
  pub gid : Option ℤ
  pub size_bytes : Option ℤ
  pub mtime_ns : Option ℤ
  pub ctime_ns : Option ℤ
  pub birthtime_ns : Option ℤ
  pub link_count : Option ℤ
  pub symlink_target_raw : Option Text
  pub readable : Bool
  pub writable : Bool
  pub executable : Bool
  pub observation_status : FilesystemObservationStatus
  pub error_code : Option Text
  pub error_message : Option Text
  pub excluded : Bool
  pub version_two : Option VersionTwoFacts

-- The fields of FilesystemSnapshot and FilesystemSnapshotV2 that the analyses read.
pub record FilesystemSnapshot : Type 0 where
  pub snapshot_id : Text
  pub started_at : Text
  pub completed_at : Text
  pub scope_ids : List Text
  pub entries : List FilesystemEntry

-- A Python number: a finite one is `numerator / 2 ^ exponent`.
pub data Number : Type 0 where
  not_finite : Number
  fraction : ℤ → ℕ → Number

pub record PayloadHashPolicy : Type 0 where
  pub algorithm : Text
  pub algorithm_version : ℤ
  pub max_hash_file_bytes : Option ℤ
  pub max_total_hash_bytes : Option ℤ
  pub max_hash_duration_seconds : Option Number
  pub hash_chunk_size : ℤ
  pub allow_non_local_content : Bool
  pub allow_verified_reuse : Bool
