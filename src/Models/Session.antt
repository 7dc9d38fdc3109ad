-- ===== src/Models/Session.antt =====
-- agent_session/models.py: the session, the references of a task, and the requests and results of a
-- selection. Of a session's configuration the paths and scopes are kept.
use steward_public.Base.{ℕ, Eq, Option, List}
use steward_public.Base.Text.{Text}
use steward_public.Models.Config.{ScopeConfig, StewardConfig}
use steward_public.Models.Status.{SnapshotStatus}

pub data SelectionPolicy : Type 0 where
  exact_id task_created only_compatible latest_valid previous_valid : SelectionPolicy

pub data TaskObjectKind : Type 0 where
  snapshot run scope entry : TaskObjectKind

task_object_kind_dec : Discrete TaskObjectKind
task_object_kind_dec = hlevel

instance unfoldable pub task_object_kind_eq : Eq TaskObjectKind
unfolding task_object_kind_dec
task_object_kind_eq = record { dec = task_object_kind_dec }

pub data PathInputKind : Type 0 where
  scoped_relative user_absolute task_created_entry : PathInputKind

pub record StewardSessionIdentity : Type 0 where
  pub schema_name : Text
  pub schema_version : ℕ
  pub project_name : Text
  pub configuration_digest : Text
  pub authority_domain_digest : Text

pub record StewardSession : Type 0 where
  pub identity : StewardSessionIdentity
  pub config : StewardConfig

pub record TaskObjectReference : Type 0 where
  pub reference_id : Text
  pub authority_domain_digest : Text
  pub kind : TaskObjectKind
  pub object_id : Text
  pub snapshot_id : Option Text
  pub scope_id : Option Text
  pub relative_path : Option Text

-- FilesystemSnapshotSummary of models.py
pub record SnapshotSummary : Type 0 where
  pub snapshot_id : Text
  pub run_id : Text
  pub status : SnapshotStatus
  pub created_at : Text
  pub scope_ids : List Text
  pub entry_count : ℕ
  pub observed_count : ℕ
  pub error_count : ℕ
  pub snapshot_digest : Text

pub record SnapshotSelectionRequest : Type 0 where
  pub policy : SelectionPolicy
  pub scope_id : Option Text
  pub exact_snapshot_id : Option Text
  pub task_reference : Option TaskObjectReference
  pub anchor_snapshot_id : Option Text

pub record ScopeSelectionRequest : Type 0 where
  pub policy : SelectionPolicy
  pub exact_scope_id : Option Text
  pub task_reference : Option TaskObjectReference

pub record ResolvedScope : Type 0 where
  pub policy : SelectionPolicy
  pub scope : ScopeConfig

pub record ResolvedScopedPath : Type 0 where
  pub policy : SelectionPolicy
  pub input_kind : PathInputKind
  pub scope_id : Text
  pub relative_path : Text
