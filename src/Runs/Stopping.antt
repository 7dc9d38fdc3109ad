-- ===== src/Runs/Stopping.antt =====
-- What an operation leaves behind when it stops before the end.
use steward_public.Base.{
  ℕ, ◌≡◌, refl, Bool, false, Option, none, some, Result, ok, err, arith, list_eq, nat_eq, pair_eq,
  if_rule, ◌==◌, ◌||◌, ◌&&◌, length, ltb,
}
use steward_public.Base.Dict
use steward_public.Base.Text.{Text}
use steward_public.Models.Status.{RunStatus, run_status_eq, run_status_value, cancelled}
use steward_public.StateMachine.{validate_transition, TransitionError}
use steward_public.Evidence.{
  EvidenceBody, EvidenceDocument, EvidenceError, EvidencePath, Files, write_evidence,
  state_transition,
}
use steward_public.Runs.{
  invalid_transition, RunRecord, Storage, Surroundings, RunError, after_publish, publish,
  transition_from, transition_row, transition_run, strip, evidence, transitioned,
  state_transition_type, after_index_commit, reread_row,
}

-- The index of two storages is the same.
abbrev SameIndex : Storage → Storage → Type 0
SameIndex s t = (t.runs ≡ s.runs) × (t.records ≡ s.records)

module _ (hash : EvidenceBody → Text) (at : Surroundings) (s : Storage)
    (quiet : at.fault after_index_commit ≡ false) (reread : at.reread_error ≡ none) where
  after_publish-SameIndex :
      (row : RunRecord) (item : EvidenceDocument) (clash : Bool)
      (written : Result EvidenceError EvidencePath × Files) (e : RunError)
      → (after_publish hash at s row item clash written).0 ≡ err e
      → SameIndex s (after_publish hash at s row item clash written).1
  unfolding after_publish reread_row
  after_publish-SameIndex row item clash (err x, files) e h = (refl, refl)
  after_publish-SameIndex row item clash (ok path, files) e h = ground arith

  publish-SameIndex :
      (row : RunRecord) (item : EvidenceDocument) (clash : Bool) (e : RunError)
      → (publish hash at s row item clash).0 ≡ err e
      → SameIndex s (publish hash at s row item clash).1
  unfolding publish
  publish-SameIndex row item clash e h =
      ground
        (arith, after_publish-SameIndex row item clash (write_evidence hash at.disk item s.files) e)

  -- what the theorem says of one outcome
  abbrev Quiet : RunError → Result RunError RunRecord × Storage → Type 0
  Quiet e o = o.0 ≡ err e → SameIndex s o.1

  transition_from-SameIndex :
      (current : RunRecord) (target : RunStatus) (reason : Text) (e : RunError)
      → Quiet e (transition_from hash at s current target reason)
  unfolding transition_from
  transition_from-SameIndex current target reason e =
      if_rule (Quiet e) (current.status == cancelled && target == cancelled) _ _
        (λ _ _. (refl, refl)) (λ _. by_validity (validate_transition current.status target))
    where
      item : EvidenceDocument
      item =
          evidence hash at current state_transition_type
            (state_transition (run_status_value current.status) (run_status_value target) reason)

      by_validity :
          (valid : Result TransitionError (Unit {0}))
          → Quiet e (elim valid [
            | err _ ↦ (err (invalid_transition current.status target), s)
            | ok _ ↦ publish hash at s (transitioned current target item) item false
          ])
      by_validity (err x) h = (refl, refl)
      by_validity (ok u) h = publish-SameIndex (transitioned current target item) item false e h

  transition_row-SameIndex :
      (row : Option RunRecord) (target : RunStatus) (reason : Text) (e : RunError)
      → Quiet e (transition_row hash at s row target reason)
  unfolding transition_row
  transition_row-SameIndex none target reason e = λ _. (refl, refl)
  transition_row-SameIndex (some current) target reason e =
      transition_from-SameIndex current target reason e

  -- A transition that raises leaves the index as it was, where what follows the commit does not raise:
  -- neither the last checkpoint nor the second reading of the row.
  pub transition_run-SameIndex :
      (is_space : ℕ → Bool) (run_id : Text) (target : RunStatus) (reason : Text) (e : RunError)
      → (transition_run hash is_space at s run_id target reason).0 ≡ err e
      → SameIndex s (transition_run hash is_space at s run_id target reason).1
  unfolding transition_run
  transition_run-SameIndex is_space run_id target reason e =
      if_rule (Quiet e)
        (length (strip is_space reason) == 0 || ltb 1000 (length (strip is_space reason))) _ _
        (λ _ _. (refl, refl))
        (λ _.
          if_rule (Quiet e) s.initialized _ _
            (λ _.
              if_rule (Quiet e) at.begin_locked _ _ (λ _ _. (refl, refl))
                (λ _.
                  transition_row-SameIndex (Dict.lookup run_id s.runs) target
                    (strip is_space reason) e))
            (λ _ _. (refl, refl)))
