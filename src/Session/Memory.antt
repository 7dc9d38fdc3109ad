-- ===== src/Session/Memory.antt =====
-- `TaskObjectMemory` of agent_session/service.py: what a task records of the objects it has met. The
-- digests are the argument `hash`, an entry's identity is the argument `entry_hash` of its key.
use steward_public.Base.{
  not, ◌&&◌, ◌||◌, Option, none, some, [], ◌==◌, nat_eq, list_eq, pair_eq, option_eq, if◌then◌else◌,
  contains, is_empty, Result, ok, err, ◌>>=◌,
}
use steward_public.Base.Dict
use steward_public.Base.Text.{Text, has_control}
use steward_public.Models.Config.{ScopeConfig}
use steward_public.Models.Session.{
  task_created, TaskObjectKind, task_created_entry, StewardSession, TaskObjectReference,
  SnapshotSummary, ResolvedScopedPath,
}
use steward_public.Scan.Host.{entry_key}
use steward_public.Session.{
  SessionError, identity_invalid, entry_snapshot_not_valid, entry_missing, snapshot_missing,
  reference_incomplete, task_identity_invalid, Verification, is_valid, EntryKey, SnapshotStore,
  ResolvedSnapshot, TaskObjectMemory, is_uuid, exact_valid_snapshot, require, scope_by_id,
}
use steward_public.Session.PathInput.{
  PathHost, bounded_utf8, validate_relative_path, resolve_scoped_path,
}

pub record ReferencePayload : Type 0 where
  pub task_digest : Text
  pub authority_domain_digest : Text
  pub kind : TaskObjectKind
  pub object_id : Text
  pub snapshot_id : Option Text
  pub scope_id : Option Text
  pub relative_path : Option Text

-- What is digested, under its domain label: a task's identity in a domain, or a reference.
pub data Digested : Type 0 where
  task_identity : Text → Text → Digested
  task_object_reference : ReferencePayload → Digested

unfoldable pub payload_of : Text → TaskObjectReference → ReferencePayload
payload_of task_digest reference = record {
  task_digest = task_digest;
  authority_domain_digest = reference.authority_domain_digest;
  kind = reference.kind;
  object_id = reference.object_id;
  snapshot_id = reference.snapshot_id;
  scope_id = reference.scope_id;
  relative_path = reference.relative_path;
}

-- A call returns a reference or raises, and leaves a memory.
abbrev pub Outcome : Type 0
Outcome = Result SessionError TaskObjectReference × TaskObjectMemory

module _ (hash : Digested → Text) where
  -- `TaskObjectMemory.__init__`
  unfoldable pub new_memory : StewardSession → Text → Result SessionError TaskObjectMemory
  new_memory session identity =
      if is_empty identity || (not (bounded_utf8 identity 1024) || has_control identity)
      then err task_identity_invalid
      else ok (record {
        authority_domain_digest = session.identity.authority_domain_digest;
        task_digest = hash (task_identity identity session.identity.authority_domain_digest);
        references = [];
      })

  -- the reference that `_record` makes
  unfoldable pub new_reference :
      TaskObjectMemory
      → TaskObjectKind
      → Text
      → Option Text
      → Option Text
      → Option Text
      → TaskObjectReference
  new_reference memory kind object_id snapshot_id scope_id relative_path = record {
    reference_id = hash (
        task_object_reference (record {
          task_digest = memory.task_digest;
          authority_domain_digest = memory.authority_domain_digest;
          kind = kind;
          object_id = object_id;
          snapshot_id = snapshot_id;
          scope_id = scope_id;
          relative_path = relative_path;
        }));
    authority_domain_digest = memory.authority_domain_digest;
    kind = kind;
    object_id = object_id;
    snapshot_id = snapshot_id;
    scope_id = scope_id;
    relative_path = relative_path;
  }

-- `self._references[reference.reference_id] = reference`
unfoldable pub recorded : TaskObjectMemory → TaskObjectReference → Outcome
recorded memory reference = (
  ok reference,
  record memory { references = Dict.insert reference.reference_id reference memory.references },
)

module _ (hash : Digested → Text) (store : SnapshotStore) where
  -- `remember_snapshot` and `remember_run_from_snapshot`, by what they record of the Snapshot
  unfoldable pub remember_found :
      TaskObjectMemory
      → TaskObjectKind
      → (SnapshotSummary → Text)
      → Result SessionError ResolvedSnapshot
      → Outcome
  remember_found memory kind object_id (err e) = (err e, memory)
  remember_found memory kind object_id (ok found) = recorded memory (
      new_reference hash memory kind (object_id found.snapshot) (some found.snapshot.snapshot_id)
        none none)

  unfoldable pub remember_snapshot : TaskObjectMemory → Text → Outcome
  unfolding remember_found
  remember_snapshot memory snapshot_id =
      remember_found memory TaskObjectKind.snapshot (λ s. s.snapshot_id)
        (exact_valid_snapshot store snapshot_id)

  unfoldable pub remember_run_from_snapshot : TaskObjectMemory → Text → Outcome
  unfolding remember_found
  remember_run_from_snapshot memory snapshot_id =
      remember_found memory TaskObjectKind.run (λ s. s.run_id)
        (exact_valid_snapshot store snapshot_id)

  unfoldable pub remember_first :
      (Text → Text)
      → TaskObjectMemory
      → Text
      → Text
      → Text
      → Option (Verification × (SnapshotSummary × Option EntryKey))
      → Outcome
  remember_first entry_hash memory snapshot_id scope_id path none = (err snapshot_missing, memory)
  remember_first entry_hash memory snapshot_id scope_id path (some (v, (summary, first))) =
      if is_valid v
      then if first == some (scope_id, path) && contains summary.scope_ids scope_id
        then recorded memory (
            new_reference hash memory TaskObjectKind.entry
              (entry_hash (entry_key snapshot_id scope_id path)) (some snapshot_id) (some scope_id)
              (some path))
        else (err entry_missing, memory)
      else (err entry_snapshot_not_valid, memory)

  unfoldable pub remember_checked :
      (Text → Text)
      → TaskObjectMemory
      → Text
      → Text
      → Text
      → Result SessionError (Unit {0})
      → Outcome
  unfolding remember_first
  remember_checked entry_hash memory snapshot_id scope_id path (err e) = (err e, memory)
  remember_checked entry_hash memory snapshot_id scope_id path (ok _) =
      remember_first entry_hash memory snapshot_id scope_id path
        (store.first_entry snapshot_id scope_id path)

  unfoldable pub remember_entry : (Text → Text) → TaskObjectMemory → Text → Text → Text → Outcome
  unfolding remember_checked
  remember_entry entry_hash memory snapshot_id scope_id path =
      remember_checked entry_hash memory snapshot_id scope_id path (validate_relative_path path)

module _ (hash : Digested → Text) where
  unfoldable pub remember_run : TaskObjectMemory → Text → Outcome
  remember_run memory run_id =
      if is_uuid run_id
      then recorded memory (new_reference hash memory TaskObjectKind.run run_id none none none)
      else (err identity_invalid, memory)

  unfoldable pub remember_found_scope : TaskObjectMemory → Result SessionError ScopeConfig → Outcome
  remember_found_scope memory (err e) = (err e, memory)
  remember_found_scope memory (ok scope) = recorded memory (
      new_reference hash memory TaskObjectKind.scope scope.scope_id none (some scope.scope_id) none)

  unfoldable pub remember_scope : StewardSession → TaskObjectMemory → Text → Outcome
  unfolding remember_found_scope
  remember_scope session memory scope_id =
      remember_found_scope memory (scope_by_id session scope_id)

entry_path :
    PathHost → StewardSession → Option Text → Option Text → Result SessionError ResolvedScopedPath
entry_path host session (some scope_id) (some path) = do
  found ← resolve_scoped_path host session scope_id path
  ok (record found { policy = task_created; input_kind = task_created_entry })
entry_path host session none path = err reference_incomplete
entry_path host session (some scope_id) none = err reference_incomplete

unfoldable pub resolve_entry_path :
    PathHost
    → StewardSession
    → TaskObjectMemory
    → TaskObjectReference
    → Result SessionError ResolvedScopedPath
unfolding entry_path
resolve_entry_path host session memory reference = do
  known ← require memory reference TaskObjectKind.entry
  entry_path host session known.scope_id known.relative_path
