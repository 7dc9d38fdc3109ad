-- ===== src/Runs/Orphans.antt =====
-- A transition that stops between its Evidence and the index, and what comes after it.
use steward_public.Base.{
  ℕ, ◌+◌, ◌≡◌, ◌∙◌, refl, subst, subst₂, Bool, true, false, some, Result, ok, err, arith, list_eq,
  nat_eq, pair_eq, if_rule, ◌==◌, ◌||◌, ◌&&◌, length, ltb,
}
use steward_public.Base.Dict
use steward_public.Base.Text.{Text}
use steward_public.Models.Status.{RunStatus, run_status_eq, run_status_value, cancelled}
use steward_public.StateMachine.{validate_transition, TransitionError}
use steward_public.Evidence.{
  EvidenceBody, EvidenceDocument, EvidenceError, EvidencePath, FileContent, evidence_file, Files,
  write_evidence, state_transition,
}
use steward_public.Evidence.Naming.{filename}
use steward_public.Evidence.Writing.{Published, write_evidence-Published, write_evidence-occupied}
use steward_public.Runs.{
  fault_injected, invalid_transition, RunRecord, Storage, Surroundings, RunError, after_publish,
  publish, transition_from, transition_row, transition_run, strip, evidence, transitioned,
  state_transition_type, after_evidence_publish, before_evidence_publish,
}
use steward_public.Base.Dict.{has_key-true}

module _ (hash : EvidenceBody → Text) (run_id : Text) (current : RunRecord) where
  -- Evidence that the index does not know stands where the Run's next transition has to be written.
  record IsOrphaned (t : Storage) : Type 0 where
    row : Dict.lookup run_id t.runs ≡ some current
    name : Text
    named : filename (current.last_sequence + 1) state_transition_type ≡ ok name
    content : FileContent
    occupied : Dict.lookup (current.run_id, name) t.files ≡ some content

  module _ (at : Surroundings) (s : Storage) (found : Dict.lookup run_id s.runs ≡ some current)
      (early : at.fault before_evidence_publish ≡ false)
      (late : at.fault after_evidence_publish ≡ true) where
    abbrev Interrupted : Result RunError RunRecord × Storage → Type 0
    Interrupted o = o.0 ≡ err fault_injected → IsOrphaned o.1

    after_publish-IsOrphaned :
        (row : RunRecord) (item : EvidenceDocument)
        (written : Result EvidenceError EvidencePath × Files)
        → item.run_id ≡ current.run_id
        → item.sequence ≡ current.last_sequence + 1
        → item.evidence_type ≡ state_transition_type
        → ((path : EvidencePath) → written.0 ≡ ok path → Published hash item path s.files written.1)
        → Interrupted (after_publish hash at s row item false written)
    unfolding after_publish
    after_publish-IsOrphaned row item (err x, files) r n t done h = cc
    after_publish-IsOrphaned row item (ok path, files) r n t done h =
        let new = done path refl in
        rw late record {
          row = found;
          name = path.1;
          named = subst₂ (λ q u. filename q u ≡ ok path.1) n t new.named;
          content = evidence_file new.stored;
          occupied =
              subst (λ q. Dict.lookup (q, path.1) files ≡ some (evidence_file new.stored))
                (new.in_run ∙ r) new.present;
        }

    transition_from-IsOrphaned :
        (target : RunStatus) (reason : Text)
        → Interrupted (transition_from hash at s current target reason)
    unfolding transition_from publish
    transition_from-IsOrphaned target reason =
        if_rule Interrupted (current.status == cancelled && target == cancelled) _ _ (λ _ h. cc)
          (λ _. by_validity (validate_transition current.status target))
      where
        item : EvidenceDocument
        item =
            evidence hash at current state_transition_type
              (state_transition (run_status_value current.status) (run_status_value target) reason)

        by_validity :
            (valid : Result TransitionError (Unit {0}))
            → Interrupted (elim valid [
              | err _ ↦ (err (invalid_transition current.status target), s)
              | ok _ ↦ publish hash at s (transitioned current target item) item false
            ])
        by_validity (err x) = λ h. cc
        by_validity (ok u) = rw early (
            after_publish-IsOrphaned (transitioned current target item) item
              (write_evidence hash at.disk item s.files) refl refl refl
              (write_evidence-Published hash at.disk item s.files))

    transition_run-IsOrphaned :
        (is_space : ℕ → Bool) (target : RunStatus) (reason : Text)
        → Interrupted (transition_run hash is_space at s run_id target reason)
    unfolding transition_run transition_row
    transition_run-IsOrphaned is_space target reason =
        if_rule Interrupted
          (length (strip is_space reason) == 0 || ltb 1000 (length (strip is_space reason))) _ _
          (λ _ h. cc)
          (λ _.
            if_rule Interrupted s.initialized _ _
              (λ _.
                if_rule Interrupted at.begin_locked _ _ (λ _ h. cc)
                  (λ _. rw found (transition_from-IsOrphaned target (strip is_space reason))))
              (λ _ h. cc))

  module _ (at : Surroundings) (t : Storage) (blocked : IsOrphaned t)
      (active : ¬ (current.status ≡ cancelled)) (result : RunRecord) where
    abbrev Refused : Result RunError RunRecord × Storage → Type 0
    Refused o = ¬ (o.0 ≡ ok result)

    publish-Refused :
        (row : RunRecord) (item : EvidenceDocument) (clash : Bool)
        → item.run_id ≡ current.run_id
        → item.sequence ≡ current.last_sequence + 1
        → item.evidence_type ≡ state_transition_type
        → Refused (publish hash at t row item clash)
    unfolding publish after_publish
    publish-Refused row item clash r n ty =
        if_rule Refused (at.fault before_evidence_publish) _ _ (λ _ h. cc)
          (λ _.
            rw
              (write_evidence-occupied hash at.disk item t.files blocked.name blocked.content
                (rw (n, ty) blocked.named) (rw r blocked.occupied))
              (λ h. cc))

    transition_from-Refused :
        (target : RunStatus) (reason : Text)
        → Refused (transition_from hash at t current target reason)
    unfolding transition_from
    transition_from-Refused target reason =
        if_rule Refused (current.status == cancelled && target == cancelled) _ _
          (λ both. absurd (active (ground arith)))
          (λ _. by_validity (validate_transition current.status target))
      where
        item : EvidenceDocument
        item =
            evidence hash at current state_transition_type
              (state_transition (run_status_value current.status) (run_status_value target) reason)

        by_validity :
            (valid : Result TransitionError (Unit {0}))
            → Refused (elim valid [
              | err _ ↦ (err (invalid_transition current.status target), t)
              | ok _ ↦ publish hash at t (transitioned current target item) item false
            ])
        by_validity (err x) = λ h. cc
        by_validity (ok u) =
            publish-Refused (transitioned current target item) item false refl refl refl

    transition_run-Refused :
        (is_space : ℕ → Bool) (target : RunStatus) (reason : Text)
        → Refused (transition_run hash is_space at t run_id target reason)
    unfolding transition_run transition_row
    transition_run-Refused is_space target reason =
        if_rule Refused
          (length (strip is_space reason) == 0 || ltb 1000 (length (strip is_space reason))) _ _
          (λ _ h. cc)
          (λ _.
            if_rule Refused t.initialized _ _
              (λ _.
                if_rule Refused at.begin_locked _ _ (λ _ h. cc)
                  (λ _. rw blocked.row (transition_from-Refused target (strip is_space reason))))
              (λ _ h. cc))

-- Where a transition of a Run that is not cancelled was stopped by the checkpoint between the write of
-- its Evidence and the index, no later transition of that Run succeeds from the state left behind:
-- its own Evidence is in the way.
pub interrupted-blocks :
    (hash : EvidenceBody → Text) (is_space : ℕ → Bool) (s : Storage) (run_id : Text)
    (current : RunRecord) (at again : Surroundings) (target next_target : RunStatus)
    (reason next_reason : Text) (result : RunRecord)
    → Dict.lookup run_id s.runs ≡ some current
    → ¬ (current.status ≡ cancelled)
    → at.fault before_evidence_publish ≡ false
    → at.fault after_evidence_publish ≡ true
    → (transition_run hash is_space at s run_id target reason).0 ≡ err fault_injected
    → ¬ (
        (transition_run hash is_space again
          (transition_run hash is_space at s run_id target reason).1
          run_id
          next_target
          next_reason).0
        ≡ ok result)
interrupted-blocks hash is_space s run_id current at again target next_target reason next_reason
      result found active early late stopped =
    transition_run-Refused hash run_id current again _
      (transition_run-IsOrphaned hash run_id current at s found early late is_space target reason
        stopped)
      active result is_space next_target next_reason
