-- ===== src/Runs/Numbering.antt =====
-- The sequence numbers grow by one with each call at most.
use steward_public.Base.{
  ℕ, ◌+◌, ◌≤◌, ◌≡◌, refl, Bool, false, ◌||◌, ◌&&◌, Option, none, some, ◌==◌, nat_eq, list_eq,
  pair_eq, if_rule, arith, Result, ok, err, All, All-map, length, ltb,
}
use steward_public.Base.Dict
use steward_public.Base.Dict.{All-insert, All-lookup}
use steward_public.Base.Text.{Text}
use steward_public.Models.Status.{RunStatus, run_status_value, run_status_eq, cancelled}
use steward_public.StateMachine.{TransitionError, validate_transition}
use steward_public.Evidence.{
  state_transition, EvidenceBody, EvidenceDocument, EvidencePath, FileContent, write_evidence,
}
use steward_public.Evidence.Naming.{filename}
use steward_public.Evidence.Adding.{write_evidence-All}
use steward_public.Runs.{
  RunRecord, Storage, Surroundings, RunError, invalid_transition, state_transition_type, evidence,
  evidence_body, transitioned, publish, before_evidence_publish, transition_from, transition_row,
  transition_run, strip,
}
use steward_public.Runs.Creating.{
  Metadata, chosen_id, metadata_json, is_run_kind, is_uuid4, new_run, created_row, create_checked,
  create_with, create_run,
}
use steward_public.Runs.Invariant.Committing.{after_publish_rule}

-- The file has the name of a sequence number up to `n`.
abbrev pub IsNamed : ℕ → EvidencePath × FileContent → Type 0
IsNamed n (path, document) =
    (sequence : ℕ) × (evidence_type : Text) × (sequence ≤ n)
    × (filename sequence evidence_type ≡ ok path.1)

abbrev IsUpTo : ℕ → Text × RunRecord → Type 0
IsUpTo n (run_id, row) = row.last_sequence ≤ n

-- Each file is named for a number up to `n`, and each row's last number is one.
abbrev pub IsNumbered : ℕ → Storage → Type 0
IsNumbered n s = All (IsNamed n) s.files × All (IsUpTo n) s.runs

IsNamed-suc : (n : ℕ) (f : EvidencePath × FileContent) → IsNamed n f → IsNamed (n + 1) f
IsNamed-suc n f (sequence, evidence_type, small, named) =
    (sequence, evidence_type, omega (arith, small), named)

IsNumbered-suc : (n : ℕ) (s : Storage) → IsNumbered n s → IsNumbered (n + 1) s
IsNumbered-suc n s (files, rows) = (
  All-map (IsNamed n) (IsNamed (n + 1)) (IsNamed-suc n) s.files files,
  All-map (IsUpTo n) (IsUpTo (n + 1)) (λ row small. omega (arith, small)) s.runs rows,
)

module _ (hash : EvidenceBody → Text) where
  publish-IsNumbered :
      (n : ℕ) (at : Surroundings) (s : Storage) (row : RunRecord) (item : EvidenceDocument)
      (clash : Bool)
      → item.sequence ≤ n + 1
      → row.last_sequence ≤ n + 1
      → IsNumbered n s
      → IsNumbered (n + 1) (publish hash at s row item clash).1
  unfolding publish
  publish-IsNumbered n at s row item clash small last numbered =
      let (files, rows) = IsNumbered-suc n s numbered in
      let written =
        write_evidence-All hash (IsNamed (n + 1)) at.disk item s.files
          (λ name d named. (item.sequence, item.evidence_type, small, named)) files in
      if_rule Q (at.fault before_evidence_publish) _ _ (λ _. (files, rows))
        (λ _.
          after_publish_rule hash (IsNumbered (n + 1)) at s row item clash
            (write_evidence hash at.disk item s.files) (written, rows)
            (λ path e fresh.
              (written, All-insert (IsUpTo (n + 1)) row.run_id row s.runs last rows)))
    where
      Q : Result RunError RunRecord × Storage → Type 0
      Q o = IsNumbered (n + 1) o.1

  transition_from-IsNumbered :
      (n : ℕ) (at : Surroundings) (s : Storage) (current : RunRecord) (target : RunStatus)
      (reason : Text)
      → current.last_sequence ≤ n
      → IsNumbered n s
      → IsNumbered (n + 1) (transition_from hash at s current target reason).1
  unfolding transition_from evidence evidence_body transitioned
  transition_from-IsNumbered n at s current target reason last numbered =
      if_rule Q (current.status == cancelled && target == cancelled) _ _
        (λ _. IsNumbered-suc n s numbered)
        (λ _. admitted (validate_transition current.status target))
    where
      Q : Result RunError RunRecord × Storage → Type 0
      Q o = IsNumbered (n + 1) o.1

      item : EvidenceDocument
      item =
          evidence hash at current state_transition_type
            (state_transition (run_status_value current.status) (run_status_value target) reason)

      admitted :
          (valid : Result TransitionError (Unit {0}))
          → Q (elim valid [
            | err _ ↦ (err (invalid_transition current.status target), s)
            | ok _ ↦ publish hash at s (transitioned current target item) item false
          ])
      admitted (err e) = IsNumbered-suc n s numbered
      admitted (ok u) =
          publish-IsNumbered n at s (transitioned current target item) item false
            (omega (arith, last)) (omega (arith, last)) numbered

  transition_row-IsNumbered :
      (n : ℕ) (at : Surroundings) (s : Storage) (run_id : Text) (row : Option RunRecord)
      (target : RunStatus) (reason : Text)
      → Dict.lookup run_id s.runs ≡ row
      → IsNumbered n s
      → IsNumbered (n + 1) (transition_row hash at s row target reason).1
  unfolding transition_row
  transition_row-IsNumbered n at s run_id none target reason found numbered =
      IsNumbered-suc n s numbered
  transition_row-IsNumbered n at s run_id (some current) target reason found numbered =
      transition_from-IsNumbered n at s current target reason
        (All-lookup (λ (r : RunRecord). r.last_sequence ≤ n) run_id current s.runs numbered.1 found)
        numbered

  pub transition_run-IsNumbered :
      (n : ℕ) (is_space : ℕ → Bool) (at : Surroundings) (s : Storage) (run_id : Text)
      (target : RunStatus) (reason : Text)
      → IsNumbered n s
      → IsNumbered (n + 1) (transition_run hash is_space at s run_id target reason).1
  unfolding transition_run
  transition_run-IsNumbered n is_space at s run_id target reason numbered =
      let same = IsNumbered-suc n s numbered in
      if_rule Q (length (strip is_space reason) == 0 || ltb 1000 (length (strip is_space reason))) _
        _ (λ _. same)
        (λ _.
          if_rule Q s.initialized _ _
            (λ _.
              if_rule Q at.begin_locked _ _ (λ _. same)
                (λ _.
                  transition_row-IsNumbered n at s run_id (Dict.lookup run_id s.runs) target
                    (strip is_space reason) refl numbered))
            (λ _. same))
    where
      Q : Result RunError RunRecord × Storage → Type 0
      Q o = IsNumbered (n + 1) o.1

  create_checked-IsNumbered :
      (n : ℕ) (at : Surroundings) (s : Storage) (run_id run_kind config_digest metadata : Text)
      → IsNumbered n s
      → IsNumbered (n + 1) (create_checked hash at s run_id run_kind config_digest metadata).1
  unfolding create_checked evidence evidence_body new_run created_row
  create_checked-IsNumbered n at s run_id run_kind config_digest metadata numbered =
      publish-IsNumbered n at s _ _ (Dict.has_key run_id s.runs) (omega arith) (omega arith)
        numbered

  create_with-IsNumbered :
      (n : ℕ) (at : Surroundings) (s : Storage) (run_id run_kind config_digest : Text)
      (metadata : Result RunError Text)
      → IsNumbered n s
      → IsNumbered (n + 1) (create_with hash at s run_id run_kind config_digest metadata).1
  unfolding create_with
  create_with-IsNumbered n at s run_id run_kind config_digest (err e) numbered =
      IsNumbered-suc n s numbered
  create_with-IsNumbered n at s run_id run_kind config_digest (ok metadata) numbered =
      let same = IsNumbered-suc n s numbered in
      if_rule Q (is_uuid4 run_id) _ _
        (λ _.
          if_rule Q s.initialized _ _
            (λ _.
              if_rule Q at.begin_locked _ _ (λ _. same)
                (λ _.
                  create_checked-IsNumbered n at s run_id run_kind config_digest metadata numbered))
            (λ _. same))
        (λ _. same)
    where
      Q : Result RunError RunRecord × Storage → Type 0
      Q o = IsNumbered (n + 1) o.1

  pub create_run-IsNumbered :
      (n : ℕ) (at : Surroundings) (s : Storage) (run_kind : Text) (metadata : Option Metadata)
      (requested : Option Text) (config_digest : Text)
      → IsNumbered n s
      → IsNumbered (n + 1) (create_run hash at s run_kind metadata requested config_digest).1
  unfolding create_run
  create_run-IsNumbered n at s run_kind metadata requested config_digest numbered =
      if_rule (λ (o : Result RunError RunRecord × Storage). IsNumbered (n + 1) o.1)
        (is_run_kind run_kind) _ _
        (λ _.
          create_with-IsNumbered n at s (chosen_id at requested) run_kind config_digest
            (metadata_json metadata) numbered)
        (λ _. IsNumbered-suc n s numbered)
