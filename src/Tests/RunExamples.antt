-- ===== src/Tests/RunExamples.antt =====
-- runs.py at concrete data.
use mathlib.Core.List.{Perm}
use steward_public.Base.{
  List, arith, ℕ, Bool, false, true, ◌≡◌, ◌==◌, refl, Option, none, some, [], ◌∷◌, ok, err, list_eq,
  nat_eq, pair_eq,
}
use steward_public.Base.Dict
use steward_public.Base.Text.{Text, text}
use steward_public.Models.Status.{created, scanning, run_status_eq}
use steward_public.StateMachine.{validate_transition, is_terminal}
use steward_public.Evidence.{
  FileContent, evidence_file, no_json, Payload, run_created, state_transition, EvidenceBody,
  EvidenceDocument, EvidencePath, reads_back, write_evidence, digest,
}
use steward_public.Evidence.Naming.{filename}
use steward_public.Runs.{
  reread_row, RunRecord, Storage, Stage, after_evidence_publish, Surroundings, fault_injected,
  run_created_type, state_transition_type, evidence, evidence_row, clashes_with_any, transitioned,
  strip, publish, transition_run,
}
use steward_public.Runs.Creating.{create_run, new_run, created_row}
use steward_public.Runs.Invariant.{IsSound}
use steward_public.Runs.Invariant.Keeping.{transition_run-IsSound, create_run-IsSound}
use steward_public.Runs.Stopping.{transition_run-SameIndex}
use steward_public.Runs.Orphans.{interrupted-blocks}
use steward_public.Runs.Histories.{
  History, begin, later, creating, transitioning, empty_storage, empty-IsSound, History-IsSound,
}
use steward_public.Evidence.Loading.{DirectoryItem, load_run_files}
use steward_public.Evidence.Loaded.{InSequence}
use steward_public.Evidence.Reported.{reported}
use steward_public.Runs.Directories.{directory_of, History-loads}

abbrev hash : EvidenceBody → Text
hash b = b.sequence ∷ []

abbrev is_space : ℕ → Bool
is_space c = c == 32

abbrev run_id : Text
run_id = text "01234567-89ab-4def-8123-456789abcdef"

abbrev other_stages : Stage → Bool
other_stages after_evidence_publish = true
other_stages _ = false

abbrev surroundings : Text → EvidenceDocument → (Stage → Bool) → Surroundings
surroundings evidence_id stored fault = record {
  now = text "2026";
  evidence_id = evidence_id;
  fresh_run_id = run_id;
  tool_version = text "1";
  begin_locked = false;
  commit_locked = false;
  disk = reads_back (some (evidence_file stored));
  fault = fault;
  reread_error = none;
}

abbrev body : Text → ℕ → Text → Option Text → Payload → EvidenceBody
body evidence_id sequence evidence_type previous payload = record {
  schema_version = 1;
  evidence_id = evidence_id;
  evidence_type = evidence_type;
  run_id = run_id;
  sequence = sequence;
  created_at = text "2026";
  tool_version = text "1";
  config_digest = text "c";
  policy_digest = none;
  provider_versions = [];
  previous_evidence_digest = previous;
  payload = payload;
}

abbrev first : EvidenceDocument
first = record {
  body =
      body (text "e1") 1 run_created_type none
        (run_created (text "scan") (text "created") (text "{}"));
  evidence_digest = 1 ∷ [];
}

abbrev second : EvidenceDocument
second = record {
  body =
      body (text "e2") 2 state_transition_type (some (1 ∷ []))
        (state_transition (text "created") (text "scanning") (text "go"));
  evidence_digest = 2 ∷ [];
}

abbrev quiet : Stage → Bool
quiet _ = false

abbrev row : RunRecord
row = record {
  run_id = run_id;
  run_kind = text "scan";
  status = created;
  created_at = text "2026";
  updated_at = text "2026";
  config_digest = text "c";
  metadata = text "{}";
  last_sequence = 1;
  last_evidence_digest = some (1 ∷ []);
  terminal = false;
}

abbrev first_path : EvidencePath
first_path = (run_id, text "00000001_run.created.json")

abbrev one_run : Storage
one_run = record {
  initialized = true;
  files = (first_path, evidence_file first) ∷ [];
  runs = (run_id, row) ∷ [];
  records = evidence_row first first_path ∷ [];
}

-- A creation on an empty storage.
creation :
    create_run hash
      (surroundings (text "e1") first quiet)
      empty_storage
      (text "scan")
      none
      none
      (text "c")
    ≡ (ok row, one_run)
unfolding reread_row create_run run_created_type evidence_row write_evidence filename list_eq nat_eq
    pair_eq Dict.has_key Dict.insert digest clashes_with_any publish evidence new_run created_row
creation = refl

create_run-IsSound_example :
    IsSound hash
      (create_run hash
        (surroundings (text "e1") first quiet)
        empty_storage
        (text "scan")
        none
        none
        (text "c")).1
create_run-IsSound_example =
    create_run-IsSound hash (surroundings (text "e1") first quiet) empty_storage (text "scan") none
      none (text "c") (empty-IsSound hash)

created_once : History hash is_space one_run
unfolding create_run run_created_type evidence_row write_evidence filename list_eq nat_eq pair_eq
    Dict.has_key Dict.insert digest clashes_with_any publish evidence new_run created_row
created_once = later begin (
    creating (surroundings (text "e1") first quiet) empty_storage (text "scan") none none
      (text "c"))

History-IsSound_example : IsSound hash one_run
History-IsSound_example = History-IsSound hash is_space one_run created_once

abbrev started : Storage
started =
    (create_run hash (surroundings (text "e1") first quiet) empty_storage (text "scan") none none
      (text "c")).1

-- The second write leaves a file that is no JSON.
abbrev broken : Surroundings
broken = record (surroundings (text "e2") second quiet) { disk = reads_back (some no_json) }

abbrev started_on : Storage
started_on = (transition_run hash is_space broken started run_id scanning (text " go ")).1

-- A creation, and a transition whose verification fails.
abbrev two_calls : History hash is_space started_on
two_calls =
    later
      (later begin (
        creating (surroundings (text "e1") first quiet) empty_storage (text "scan") none none
          (text "c")))
      (transitioning broken started run_id scanning (text " go "))

abbrev no_decimal : ℕ → Bool
no_decimal c = false

History-loads_example :
    (sorted : List (Text × DirectoryItem FileContent)) × Perm sorted
      (directory_of run_id started_on.files)
    × InSequence no_decimal sorted
    × (load_run_files no_decimal (some (directory_of run_id started_on.files)) ≡ reported sorted)
History-loads_example =
    History-loads hash is_space no_decimal started_on two_calls (omega arith) run_id

transition_run-IsSound_example :
    IsSound hash
      (transition_run hash is_space
        (surroundings (text "e2") second quiet)
        one_run
        run_id
        scanning
        (text " go ")).1
transition_run-IsSound_example =
    transition_run-IsSound hash is_space (surroundings (text "e2") second quiet) one_run run_id
      scanning (text " go ") (History-IsSound hash is_space one_run created_once)

abbrev moved : RunRecord
moved = record row { status = scanning; last_sequence = 2; last_evidence_digest = some (2 ∷ []) }

-- The reason is stripped before it is written.
transition :
    (transition_run hash is_space
      (surroundings (text "e2") second quiet)
      one_run
      run_id
      scanning
      (text " go ")).0
    ≡ ok moved
unfolding reread_row transition_run strip run_created_type state_transition_type evidence_row
    write_evidence filename list_eq nat_eq pair_eq Dict.has_key Dict.insert Dict.lookup digest
    clashes_with_any publish evidence transitioned run_status_eq validate_transition is_terminal
transition = refl

abbrev interrupted : Surroundings
interrupted = surroundings (text "e2") second other_stages

stopped :
    (transition_run hash is_space interrupted one_run run_id scanning (text "go")).0
    ≡ err fault_injected
unfolding reread_row transition_run strip run_created_type state_transition_type evidence_row
    write_evidence filename list_eq nat_eq pair_eq Dict.has_key Dict.insert Dict.lookup digest
    clashes_with_any publish evidence transitioned run_status_eq validate_transition is_terminal
stopped = refl

transition_run-SameIndex_example :
    ((transition_run hash is_space interrupted one_run run_id scanning (text "go")).1.runs
      ≡ one_run.runs)
    × ((transition_run hash is_space interrupted one_run run_id scanning (text "go")).1.records
        ≡ one_run.records)
transition_run-SameIndex_example =
    transition_run-SameIndex hash interrupted one_run refl refl is_space run_id scanning (text "go")
      fault_injected stopped

interrupted-blocks_example : ¬ (
    (transition_run hash is_space
      (surroundings (text "e3") second quiet)
      (transition_run hash is_space interrupted one_run run_id scanning (text "go")).1
      run_id
      scanning
      (text "again")).0
    ≡ ok moved)
unfolding Dict.lookup list_eq nat_eq
interrupted-blocks_example =
    interrupted-blocks hash is_space one_run run_id row interrupted
      (surroundings (text "e3") second quiet) scanning scanning (text "go") (text "again") moved
      refl (λ e. cc) refl refl stopped
