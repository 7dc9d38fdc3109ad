-- ===== src/Runs.antt =====
-- runs.py: a Run's ledger of Evidence and its row in the index, with the places where an operation
-- may stop. `hash` is the digest of a document; `is_space` is Python's `str.isspace`.
pub mod Creating
pub mod Invariant
pub mod Stopping
pub mod Orphans
pub mod Histories
pub mod Numbering
pub mod Directories
use steward_public.Base.{
  ℕ, zero, suc, ◌+◌, Bool, true, false, ◌&&◌, ◌||◌, Option, none, some, List, [], ◌∷◌, ◌++◌, Result,
  ok, err, if◌then◌else◌, leb, ltb, ◌==◌, list_eq, nat_eq, pair_eq, length, any, filter,
}
use steward_public.Base.Dict
use steward_public.Base.Dict.{Dict}
use steward_public.Base.Text.{Text, text}
use steward_public.Models.Status.{RunStatus, run_status_value, run_status_eq, created, cancelled}
use steward_public.StateMachine.{validate_transition, is_terminal}
use steward_public.Evidence.{
  Payload, run_created, state_transition, EvidenceBody, EvidenceDocument, EvidenceError,
  EvidencePath, Files, Disk, write_evidence,
}

pub record RunRecord : Type 0 where
  pub run_id : Text
  pub run_kind : Text
  pub status : RunStatus
  pub created_at : Text
  pub updated_at : Text
  pub config_digest : Text
  pub metadata : Text
  pub last_sequence : ℕ
  pub last_evidence_digest : Option Text
  pub terminal : Bool

pub record EvidenceRecord : Type 0 where
  pub evidence_id : Text
  pub run_id : Text
  pub sequence : ℕ
  pub evidence_type : Text
  pub created_at : Text
  pub relative_path : EvidencePath
  pub previous_evidence_digest : Option Text
  pub evidence_digest : Text

-- The evidence directory, and the two tables of the index.
pub record Storage : Type 0 where
  pub initialized : Bool
  pub files : Files
  pub runs : Dict Text RunRecord
  pub records : List EvidenceRecord

pub data Stage : Type 0 where
  before_evidence_publish after_evidence_publish before_index_commit after_index_commit : Stage

pub data RunError : Type 0 where
  bad_reason run_not_found run_kind_error not_initialized storage_busy : RunError
  storage_corruption integrity_error fault_injected : RunError
  invalid_transition : RunStatus → RunStatus → RunError
  evidence_error : EvidenceError → RunError

-- What one call meets: the clock and the fresh identities, SQLite's lock at BEGIN and at COMMIT,
-- the disk, the checkpoints at which the fault injector raises, and what `get_run` raises when it reads
-- the row again after the commit.
pub record Surroundings : Type 0 where
  pub now : Text
  pub evidence_id : Text
  pub fresh_run_id : Text
  pub tool_version : Text
  pub begin_locked : Bool
  pub commit_locked : Bool
  pub disk : Disk
  pub fault : Stage → Bool
  pub reread_error : Option RunError

-- `return get_run(...)` behind the commit: the row, or what the second connection raises
unfoldable pub reread_row : Option RunError → RunRecord → Result RunError RunRecord
reread_row none row = ok row
reread_row (some e) row = err e

-- the evidence types, kept shut where they are only passed on
unfoldable pub run_created_type : Text
run_created_type = text "run.created"

unfoldable pub state_transition_type : Text
state_transition_type = text "run.state_transition"

-- `_evidence`, without the digest that `sealed` adds
unfoldable pub evidence_body : Surroundings → RunRecord → Text → Payload → EvidenceBody
evidence_body at run evidence_type payload = record {
  schema_version = 1;
  evidence_id = at.evidence_id;
  evidence_type = evidence_type;
  run_id = run.run_id;
  sequence = run.last_sequence + 1;
  created_at = at.now;
  tool_version = at.tool_version;
  config_digest = run.config_digest;
  policy_digest = none;
  provider_versions = [];
  previous_evidence_digest = run.last_evidence_digest;
  payload = payload;
}

-- the row of evidence_records that a published document gets
unfoldable pub evidence_row : EvidenceDocument → EvidencePath → EvidenceRecord
evidence_row item path = record {
  evidence_id = item.evidence_id;
  run_id = item.run_id;
  sequence = item.sequence;
  evidence_type = item.evidence_type;
  created_at = item.created_at;
  relative_path = path;
  previous_evidence_digest = item.previous_evidence_digest;
  evidence_digest = item.evidence_digest;
}

-- PRIMARY KEY(evidence_id), UNIQUE(run_id, sequence), UNIQUE(relative_path), UNIQUE(evidence_digest)
clashes : EvidenceRecord → EvidenceRecord → Bool
clashes row old =
    row.evidence_id == old.evidence_id
    || row.run_id == old.run_id && row.sequence == old.sequence
    || row.relative_path == old.relative_path
    || row.evidence_digest == old.evidence_digest

unfoldable pub clashes_with_any : EvidenceRecord → List EvidenceRecord → Bool
unfolding clashes
clashes_with_any row rows = any (clashes row) rows

-- the row after `UPDATE runs SET ...`
unfoldable pub transitioned : RunRecord → RunStatus → EvidenceDocument → RunRecord
transitioned current target item = record current {
  status = target;
  updated_at = item.created_at;
  last_sequence = item.sequence;
  last_evidence_digest = some item.evidence_digest;
  terminal = is_terminal target;
}

module _ (is_space : ℕ → Bool) where
  lstrip : Text → Text
  lstrip [] = []
  lstrip (c ∷ s) = let rest = lstrip s in if is_space c then rest else c ∷ s

  rstrip : Text → Text
  rstrip [] = []
  rstrip (c ∷ s) = elim (rstrip s) [ [] ↦ if is_space c then [] else c ∷ [] | d ∷ t ↦ c ∷ d ∷ t ]

  -- `reason.strip()`
  unfoldable pub strip : Text → Text
  unfolding lstrip rstrip
  strip s = rstrip (lstrip s)

module _ (hash : EvidenceBody → Text) where
  unfoldable pub evidence : Surroundings → RunRecord → Text → Payload → EvidenceDocument
  unfolding evidence_body
  evidence at run evidence_type payload = record {
    body = evidence_body at run evidence_type payload;
    evidence_digest = hash (evidence_body at run evidence_type payload);
  }

  -- From the first checkpoint to the last: publish the document, put the rows into the index, commit.
  -- An exception before the commit leaves the index as it was, and the file where it is; one behind it,
  -- of the last checkpoint or of the row's second reading, leaves the index changed.
  pub after_publish :
      Surroundings
      → Storage
      → RunRecord
      → EvidenceDocument
      → Bool
      → Result EvidenceError EvidencePath × Files
      → Result RunError RunRecord × Storage
  after_publish at s row item clash (err e, files) =
      (err (evidence_error e), record s { files = files })
  after_publish at s row item clash (ok path, files) =
      let on_disk : Storage = record s { files = files } in
      if at.fault after_evidence_publish
      then (err fault_injected, on_disk)
      else if clash || clashes_with_any (evidence_row item path) s.records
      then (err integrity_error, on_disk)
      else if at.fault before_index_commit
      then (err fault_injected, on_disk)
      else if at.commit_locked
      then (err storage_busy, on_disk)
      else (
        if at.fault after_index_commit then err fault_injected else reread_row at.reread_error row,
        record on_disk {
          runs = Dict.insert row.run_id row s.runs;
          records = s.records ++ evidence_row item path ∷ [];
        },
      )

  unfoldable pub publish :
      Surroundings
      → Storage
      → RunRecord
      → EvidenceDocument
      → Bool
      → Result RunError RunRecord × Storage
  unfolding after_publish
  publish at s row item clash =
      if at.fault before_evidence_publish
      then (err fault_injected, s)
      else after_publish at s row item clash (write_evidence hash at.disk item s.files)

  -- `transition_run` once the row has been read
  transition_from :
      Surroundings → Storage → RunRecord → RunStatus → Text → Result RunError RunRecord × Storage
  unfolding run_status_eq evidence transitioned publish
  transition_from at s current target reason =
      if current.status == cancelled && target == cancelled
      then (ok current, s)
      else elim (validate_transition current.status target) [
        | err _ ↦ (err (invalid_transition current.status target), s)
        | ok _ ↦
            let item = evidence at current state_transition_type (
              state_transition (run_status_value current.status) (run_status_value target)
                reason) in
            publish at s (transitioned current target item) item false
      ]

  transition_row :
      Surroundings
      → Storage
      → Option RunRecord
      → RunStatus
      → Text
      → Result RunError RunRecord × Storage
  unfolding transition_from
  transition_row at s none target reason = (err run_not_found, s)
  transition_row at s (some current) target reason = transition_from at s current target reason

  module _ (is_space : ℕ → Bool) where
    unfoldable pub transition_run :
        Surroundings → Storage → Text → RunStatus → Text → Result RunError RunRecord × Storage
    unfolding transition_row strip
    transition_run at s run_id target reason =
        if length (strip is_space reason) == 0 || ltb 1000 (length (strip is_space reason))
        then (err bad_reason, s)
        else if s.initialized
        then if at.begin_locked
          then (err storage_busy, s)
          else transition_row at s (Dict.lookup run_id s.runs) target (strip is_space reason)
        else (err not_initialized, s)
