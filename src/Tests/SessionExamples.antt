-- ===== src/Tests/SessionExamples.antt =====
-- agent_session/service.py at concrete data.
use steward_public.Base.{
  ◌≡◌, ◌⊎◌, refl, none, some, List, [], ◌∷◌, ◌==◌, nat_eq, list_eq, option_eq, if◌then◌else◌, ok,
  err, ℕ_discrete,
}
use steward_public.Base.Int.{int_eq}
use steward_public.Base.Order.{nat_order, list_order}
use steward_public.Base.Text.{Text, text, encode_strict, starts_with}
use steward_public.Models.Status.{SnapshotStatus, scope_role_eq}
use steward_public.Models.Session.{
  only_compatible, latest_valid, TaskObjectKind, task_object_kind_eq, user_absolute, StewardSession,
  TaskObjectReference, SnapshotSummary, SnapshotSelectionRequest, ResolvedScopedPath,
}
use steward_public.Paths.{overlaps, contains_path, relative_to, canonicalize_host_absolute_path}
use steward_public.Scan.Host.{as_posix}
use steward_public.Session.{
  Verification, SnapshotStore, ResolvedSnapshot, TaskObjectMemory, valid_candidates, newest_time,
  newest_candidate, resolve_snapshot, newest_tied, fits_scope, actionable_scopes, require,
  task_object_reference_eq,
}
use steward_public.Session.Promises.{IsFit, Promise}
use steward_public.Session.Policies.{resolve_snapshot-Promise}
use steward_public.Session.PathInput.{
  PathHost, split_path, bounded_utf8, is_bad_relative_path, validate_relative_path,
  stat_or_unavailable, walk, admit_current_path, absolute_parts, has_double_root,
  validate_absolute_path, canonical, mapped_to, sole_scope, containing_scopes,
  resolve_user_absolute_path,
}
use steward_public.Session.Mapping.{IsMapped, resolve_user_absolute_path-IsMapped}
use steward_public.Session.Memory.{Digested, remember_run, remember_snapshot}
use steward_public.Session.Remembering.{IsSound, Collision}
use steward_public.Session.Lasting.{Calls, begin, later, snapshot, run, Calls-lasting, new-IsSound}
use steward_public.Scopes.{system_protected_paths, protected_overlap, validate_scopes}
use steward_public.Scopes.Acceptance.{validate_scopes-IsValid}
use steward_public.Tests.ScanExamples.{stat_of}
use steward_public.Tests.AuthorityExamples.{session_of}

abbrev summary : Text → Text → SnapshotSummary
summary snapshot_id created_at = record {
  snapshot_id = snapshot_id;
  run_id = text "r";
  status = SnapshotStatus.complete;
  created_at = created_at;
  scope_ids = text "m" ∷ [];
  entry_count = 1;
  observed_count = 1;
  error_count = 0;
  snapshot_digest = text "d";
}

abbrev valid : Verification
valid = record { status = text "VALID" }

abbrev store : List (SnapshotSummary × Verification) → SnapshotStore
store inventory = record {
  detail = λ id. some (valid, summary id (text "2026-01-02"));
  inventory = inventory;
  first_entry = λ id scope_id path. none;
}

abbrev inventory : List (SnapshotSummary × Verification)
inventory =
    (summary (text "a") (text "2026-01-01"), valid)
    ∷ (summary (text "b") (text "2026-01-02"), valid)
    ∷ (summary (text "c") (text "2026-01-03"), record { status = text "INVALID" })
    ∷ []

abbrev latest : SnapshotSelectionRequest
latest = record {
  policy = latest_valid;
  scope_id = some (text "m");
  exact_snapshot_id = none;
  task_reference = none;
  anchor_snapshot_id = none;
}

abbrev chosen : ResolvedSnapshot
chosen = record {
  policy = latest_valid;
  snapshot = summary (text "b") (text "2026-01-02");
  verification = valid;
  compatible_scope_id = some (text "m");
}

-- The newest Snapshot is not VALID, so the one before it is selected.
selected : resolve_snapshot (store inventory) latest none ≡ ok chosen
unfolding resolve_snapshot valid_candidates newest_candidate newest_time fits_scope list_order
    nat_order list_eq nat_eq ℕ_discrete
selected = refl

tied :
    resolve_snapshot
      (store ((summary (text "z") (text "2026-01-02"), valid) ∷ inventory))
      latest
      none
    ≡ err newest_tied
unfolding resolve_snapshot valid_candidates newest_candidate newest_time fits_scope list_order
    nat_order list_eq nat_eq ℕ_discrete
tied = refl

resolve_snapshot-Promise_example :
    IsFit latest_valid latest chosen × Promise latest_valid (store inventory) latest none chosen
resolve_snapshot-Promise_example =
    resolve_snapshot-Promise (store inventory) latest none chosen selected

-- Every scope is a directory, the file in it is a file.
abbrev host : PathHost
host = record {
  lstat = λ path. ok (stat_of (if path == text "Users" ∷ text "a" ∷ [] then 16877 else 33188));
  lstat_configured = λ scope_id. ok (stat_of 16877);
}

abbrev session : StewardSession
session = session_of (text "d")

accepted_scopes : validate_scopes session.config.scopes [] ≡ ok []
unfolding validate_scopes system_protected_paths protected_overlap overlaps contains_path
    relative_to list_eq nat_eq scope_role_eq
accepted_scopes = refl

abbrev mapped : ResolvedScopedPath
mapped = record {
  policy = only_compatible;
  input_kind = user_absolute;
  scope_id = text "m";
  relative_path = text "f";
}

-- The file in the scope is mapped to the scope and its name.
file_mapped : resolve_user_absolute_path (text "linux") host session (text "/Users/a/f") ≡ ok mapped
unfolding resolve_user_absolute_path validate_absolute_path containing_scopes sole_scope mapped_to
    admit_current_path walk stat_or_unavailable validate_relative_path is_bad_relative_path
    bounded_utf8 split_path absolute_parts has_double_root canonical canonicalize_host_absolute_path
    contains_path relative_to as_posix actionable_scopes list_eq nat_eq scope_role_eq ℕ_discrete
    encode_strict starts_with int_eq
file_mapped = refl

resolve_user_absolute_path-IsMapped_example :
    IsMapped host session (canonical (text "linux") (text "/Users/a/f")) mapped
resolve_user_absolute_path-IsMapped_example =
    (resolve_user_absolute_path-IsMapped host session (text "linux") (text "/Users/a/f") mapped []
        ((validate_scopes-IsValid session.config.scopes []).0 ([], accepted_scopes))).0
      file_mapped

abbrev hash : Digested → Text
hash digested = text "h"

abbrev fresh : TaskObjectMemory
fresh = record { authority_domain_digest = text "d"; task_digest = text "t"; references = [] }

abbrev run_id : Text
run_id = text "00000000-0000-4000-8000-000000000000"

abbrev run_reference : TaskObjectReference
run_reference = record {
  reference_id = text "h";
  authority_domain_digest = text "d";
  kind = TaskObjectKind.run;
  object_id = run_id;
  snapshot_id = none;
  scope_id = none;
  relative_path = none;
}

-- A Run and a Snapshot are recorded one after the other.
abbrev calls :
    Calls hash fresh
      (remember_snapshot hash (store inventory) (remember_run hash fresh run_id).1 run_id).1
calls =
    later (later begin (run fresh run_id))
      (snapshot (store inventory) (remember_run hash fresh run_id).1 run_id)

Calls-lasting_example :
    IsSound hash
      (remember_snapshot hash (store inventory) (remember_run hash fresh run_id).1 run_id).1
    × ((kind : TaskObjectKind) (reference r : TaskObjectReference)
        → require fresh reference kind ≡ ok r
        → (require
              (remember_snapshot hash (store inventory) (remember_run hash fresh run_id).1 run_id).1
              reference
              kind
            ≡ ok reference)
          ⊎ Collision hash)
Calls-lasting_example =
    Calls-lasting hash fresh
      (remember_snapshot hash (store inventory) (remember_run hash fresh run_id).1 run_id).1
      (new-IsSound hash (text "d") (text "t")) calls
