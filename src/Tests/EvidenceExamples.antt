-- ===== src/Tests/EvidenceExamples.antt =====
-- evidence.py and state_machine.py at concrete data.
use mathlib.Core.List.{Perm}
use steward_public.Base.{
  ℕ_discrete, List, map, All, false, Bool, ℕ, ◌≡◌, refl, true, none, some, [], ◌∷◌, ok, err, arith,
  list_eq, nat_eq, pair_eq, take,
}
use steward_public.Base.Dict
use steward_public.Base.Text.{Text, text}
use steward_public.Models.Status.{
  created, scanning, scanned, verified, rolling_back, rolled_back, run_status_eq,
}
use steward_public.StateMachine.{validate_transition, is_terminal}
use steward_public.StateMachine.Paths.{
  Reach, here, next, terminal-rolling_back, Reach-rolled_back, entered_from_work,
  Reach-through_work, Visits,
}
use steward_public.Evidence.{
  evidence_file, other_payload, EvidenceBody, EvidenceDocument, EvidencePath, Files, reads_back,
  write_evidence, digest, target_exists,
}
use steward_public.Evidence.Naming.{filename, is_evidence_name, number}
use steward_public.Evidence.Naming.Reading.{filename-read}
use steward_public.Base.Order.{nat_order, list_order}
use steward_public.Base.Sort.{sort_on}
use steward_public.Evidence.Loading.{
  DirectoryItem, json, unreadable, is_temporary, load_item, load_items, load_run_files,
}
use steward_public.Evidence.Loaded.{stored, InSequence, load_run_files-written}
use steward_public.Evidence.Accounting.{IsAccounted, load_run_files-IsAccounted}
use steward_public.Evidence.Writing.{Published, write_evidence-kept, write_evidence-Published}

abbrev hash : EvidenceBody → Text
hash b = b.sequence ∷ b.run_id

abbrev body : ℕ → EvidenceBody
body sequence = record {
  schema_version = 1;
  evidence_id = text "e";
  evidence_type = text "run/note";
  run_id = text "r";
  sequence = sequence;
  created_at = text "t";
  tool_version = text "0";
  config_digest = text "c";
  policy_digest = none;
  provider_versions = [];
  previous_evidence_digest = none;
  payload = other_payload (text "p");
}

abbrev document : ℕ → EvidenceDocument
document sequence = record { body = body sequence; evidence_digest = hash (body sequence) }

abbrev first_path : EvidencePath
first_path = (text "r", text "00000001_run.note.json")

abbrev second_path : EvidencePath
second_path = (text "r", text "00000002_run.note.json")

abbrev files : Files
files = (first_path, evidence_file (document 1)) ∷ []

written :
    write_evidence hash (reads_back (some (evidence_file (document 2)))) (document 2) files ≡ (
      ok second_path,
      (first_path, evidence_file (document 1)) ∷ (second_path, evidence_file (document 2)) ∷ [],
    )
unfolding write_evidence filename list_eq nat_eq pair_eq Dict.has_key Dict.insert digest
written = refl

refused :
    write_evidence hash (reads_back (some (evidence_file (document 1)))) (document 1) files
    ≡ (err target_exists, files)
unfolding write_evidence filename list_eq nat_eq pair_eq Dict.has_key Dict.insert digest
refused = refl

write_evidence-kept_example :
    Dict.lookup first_path
      (write_evidence hash (reads_back (some (evidence_file (document 2)))) (document 2) files).1
    ≡ some (evidence_file (document 1))
unfolding Dict.lookup list_eq nat_eq pair_eq
write_evidence-kept_example =
    write_evidence-kept hash (reads_back (some (evidence_file (document 2)))) (document 2) files
      first_path (evidence_file (document 1)) refl

write_evidence-Published_example :
    Published hash
      (document 2)
      second_path
      files
      (write_evidence hash (reads_back (some (evidence_file (document 2)))) (document 2) files).1
unfolding write_evidence filename list_eq nat_eq pair_eq Dict.has_key Dict.insert digest
write_evidence-Published_example =
    write_evidence-Published hash (reads_back (some (evidence_file (document 2)))) (document 2)
      files second_path refl

filename-read_example :
    (is_evidence_name (λ c. Bool.false) (text "00000407_run.note.json") ≡ true)
    × (number 0 (take 8 (text "00000407_run.note.json")) ≡ some 407)
unfolding filename list_eq nat_eq
filename-read_example =
    filename-read (λ c. Bool.false) 407 (text "run/note") (text "00000407_run.note.json")
      (omega arith) refl

terminal-rolling_back_example : rolling_back ≡ rolling_back
unfolding validate_transition is_terminal
terminal-rolling_back_example = terminal-rolling_back verified rolling_back refl refl

scan_history : Reach created scanned
unfolding validate_transition
scan_history = next {current = scanning} (next here refl) refl

Reach-rolled_back_example : Reach scanning rolled_back
Reach-rolled_back_example = Reach-rolled_back scanning (λ e. cc) (λ e. cc)

entered_from_work_example : scanning ≡ scanning
unfolding validate_transition
entered_from_work_example = entered_from_work scanning scanned scanning refl refl

Reach-through_work_example : Visits scanning scan_history
Reach-through_work_example = Reach-through_work scanned scanning scan_history refl

abbrev no_decimal : ℕ → Bool
no_decimal c = false

abbrev objects : List (Text × DirectoryItem ℕ)
objects = (text "00000002_run.note.json", json 8) ∷ (text "00000001_run.note.json", json 7) ∷ []

first_named : filename 1 (text "run.note") ≡ ok (text "00000001_run.note.json")
unfolding filename list_eq nat_eq
first_named = refl

second_named : filename 2 (text "run.note") ≡ ok (text "00000002_run.note.json")
unfolding filename list_eq nat_eq
second_named = refl

load_run_files-written_example :
    (items : List (Text × ℕ)) × (load_run_files no_decimal (some objects) ≡ ok (items, []))
    × Perm (map (stored no_decimal) items) objects
    × InSequence no_decimal (map (stored no_decimal) items)
load_run_files-written_example = load_run_files-written no_decimal objects (
  (2, text "run.note", 8, omega arith, second_named, refl),
  ((1, text "run.note", 7, omega arith, first_named, refl), tt),
)

abbrev with_temporary : List (Text × DirectoryItem ℕ)
with_temporary = (text ".x.tmp", unreadable) ∷ objects

-- The temporary file is passed over, and the files come in order.
loaded :
    load_run_files no_decimal (some with_temporary)
    ≡ ok ((text "00000001_run.note.json", 7) ∷ (text "00000002_run.note.json", 8) ∷ [], [])
unfolding load_run_files load_items load_item is_temporary is_evidence_name sort_on list_eq nat_eq
    list_order nat_order ℕ_discrete
loaded = refl

load_run_files-IsAccounted_example :
    All
      (IsAccounted no_decimal
        ((text "00000001_run.note.json", 7) ∷ (text "00000002_run.note.json", 8) ∷ []))
      with_temporary
load_run_files-IsAccounted_example =
    load_run_files-IsAccounted no_decimal with_temporary
      ((text "00000001_run.note.json", 7) ∷ (text "00000002_run.note.json", 8) ∷ []) loaded
