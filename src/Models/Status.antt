-- ===== src/Models/Status.antt =====
-- The enumerations of models.py, each with its `value`.
use steward_public.Base.{Eq, list_eq, nat_eq}
use steward_public.Base.Text.{Text, text}

pub data RunStatus : Type 0 where
  created scanning scanned planning planned applying applied : RunStatus
  verifying verified partial failed cancelled rolling_back rolled_back : RunStatus

run_status_dec : Discrete RunStatus
run_status_dec = hlevel

instance unfoldable pub run_status_eq : Eq RunStatus
unfolding run_status_dec
run_status_eq = record { dec = run_status_dec }

abbrev pub run_status_value : RunStatus → Text
run_status_value created = text "created"
run_status_value scanning = text "scanning"
run_status_value scanned = text "scanned"
run_status_value planning = text "planning"
run_status_value planned = text "planned"
run_status_value applying = text "applying"
run_status_value applied = text "applied"
run_status_value verifying = text "verifying"
run_status_value verified = text "verified"
run_status_value partial = text "partial"
run_status_value failed = text "failed"
run_status_value cancelled = text "cancelled"
run_status_value rolling_back = text "rolling_back"
run_status_value rolled_back = text "rolled_back"

pub data SnapshotStatus : Type 0 where
  complete partial failed : SnapshotStatus

snapshot_status_dec : Discrete SnapshotStatus
snapshot_status_dec = hlevel

instance unfoldable pub snapshot_status_eq : Eq SnapshotStatus
unfolding snapshot_status_dec
snapshot_status_eq = record { dec = snapshot_status_dec }

abbrev pub snapshot_status_value : SnapshotStatus → Text
snapshot_status_value SnapshotStatus.complete = text "complete"
snapshot_status_value SnapshotStatus.partial = text "partial"
snapshot_status_value SnapshotStatus.failed = text "failed"

pub data ScopeRole : Type 0 where
  managed_root reference_root excluded_root : ScopeRole

scope_role_dec : Discrete ScopeRole
scope_role_dec = hlevel

instance unfoldable pub scope_role_eq : Eq ScopeRole
unfolding scope_role_dec
scope_role_eq = record { dec = scope_role_dec }

pub data FilesystemObjectType : Type 0 where
  regular_file directory symlink fifo socket character_device block_device unknown :
      FilesystemObjectType

object_type_dec : Discrete FilesystemObjectType
object_type_dec = hlevel

instance unfoldable pub object_type_eq : Eq FilesystemObjectType
unfolding object_type_dec
object_type_eq = record { dec = object_type_dec }

pub data FilesystemObservationStatus : Type 0 where
  observed permission_denied not_found changed_during_scan io_error unsupported :
      FilesystemObservationStatus

observation_status_dec : Discrete FilesystemObservationStatus
observation_status_dec = hlevel

instance unfoldable pub observation_status_eq : Eq FilesystemObservationStatus
unfolding observation_status_dec
observation_status_eq = record { dec = observation_status_dec }

-- `status.value.upper()`
abbrev pub observation_status_upper : FilesystemObservationStatus → Text
observation_status_upper observed = text "OBSERVED"
observation_status_upper FilesystemObservationStatus.permission_denied = text "PERMISSION_DENIED"
observation_status_upper not_found = text "NOT_FOUND"
observation_status_upper changed_during_scan = text "CHANGED_DURING_SCAN"
observation_status_upper FilesystemObservationStatus.io_error = text "IO_ERROR"
observation_status_upper FilesystemObservationStatus.unsupported = text "UNSUPPORTED"

pub data PayloadObservationStatus : Type 0 where
  hashed empty_file_hashed not_regular_file not_local permission_denied file_too_large :
      PayloadObservationStatus
  total_byte_budget_exhausted time_budget_exhausted changed_during_read : PayloadObservationStatus
  not_found_during_read io_error unsupported : PayloadObservationStatus

payload_status_dec : Discrete PayloadObservationStatus
payload_status_dec = hlevel

instance unfoldable pub payload_status_eq : Eq PayloadObservationStatus
unfolding payload_status_dec
payload_status_eq = record { dec = payload_status_dec }

abbrev pub payload_status_value : PayloadObservationStatus → Text
payload_status_value hashed = text "HASHED"
payload_status_value empty_file_hashed = text "EMPTY_FILE_HASHED"
payload_status_value not_regular_file = text "NOT_REGULAR_FILE"
payload_status_value not_local = text "NOT_LOCAL"
payload_status_value PayloadObservationStatus.permission_denied = text "PERMISSION_DENIED"
payload_status_value file_too_large = text "FILE_TOO_LARGE"
payload_status_value total_byte_budget_exhausted = text "TOTAL_BYTE_BUDGET_EXHAUSTED"
payload_status_value time_budget_exhausted = text "TIME_BUDGET_EXHAUSTED"
payload_status_value changed_during_read = text "CHANGED_DURING_READ"
payload_status_value not_found_during_read = text "NOT_FOUND_DURING_READ"
payload_status_value PayloadObservationStatus.io_error = text "IO_ERROR"
payload_status_value PayloadObservationStatus.unsupported = text "UNSUPPORTED"

pub data PayloadObservationProvenance : Type 0 where
  direct_read reused_from_verified_snapshot : PayloadObservationProvenance

provenance_dec : Discrete PayloadObservationProvenance
provenance_dec = hlevel

instance unfoldable pub provenance_eq : Eq PayloadObservationProvenance
unfolding provenance_dec
provenance_eq = record { dec = provenance_dec }

pub data SnapshotDiffChangeType : Type 0 where
  added removed modified unchanged : SnapshotDiffChangeType

change_type_dec : Discrete SnapshotDiffChangeType
change_type_dec = hlevel

instance unfoldable pub change_type_eq : Eq SnapshotDiffChangeType
unfolding change_type_dec
change_type_eq = record { dec = change_type_dec }

pub data ChangeEventType : Type 0 where
  file_created file_deleted file_modified : ChangeEventType

event_type_dec : Discrete ChangeEventType
event_type_dec = hlevel

instance unfoldable pub event_type_eq : Eq ChangeEventType
unfolding event_type_dec
event_type_eq = record { dec = event_type_dec }
