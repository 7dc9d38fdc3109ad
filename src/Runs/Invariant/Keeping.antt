-- ===== src/Runs/Invariant/Keeping.antt =====
-- Every operation keeps the invariant, whatever it is given and wherever it stops.
use steward_public.Base.{
  ℕ, ◌≡◌, refl, Option, none, some, Bool, true, false, ◌||◌, ◌==◌, list_eq, nat_eq, pair_eq,
  if◌then◌else◌, arith, Result, ok, err, ltb, length, ◌&&◌, if_rule,
}
use steward_public.Base.Dict
use steward_public.Base.Dict.{lookup-insert_self, lookup-insert_ne, has_key-false}
use steward_public.Base.Text.{Text}
use steward_public.Models.Status.{RunStatus, run_status_value, created, cancelled, run_status_eq}
use steward_public.StateMachine.{validate_transition, is_terminal, TransitionError}
use steward_public.StateMachine.Paths.{next, here}
use steward_public.Evidence.{EvidenceBody, EvidenceDocument, state_transition, run_created}
use steward_public.Runs.{
  RunRecord, Storage, Surroundings, evidence, publish, transitioned, transition_from,
  transition_row, transition_run, state_transition_type, evidence_body, strip, run_created_type,
  invalid_transition, RunError,
}
use steward_public.Runs.Invariant.Links.{IsSound}
use steward_public.Runs.Creating.{
  new_run, created_row, create_checked, create_with, create_run, is_uuid4, Metadata, chosen_id,
  metadata_json, is_run_kind,
}
use steward_public.Runs.Invariant.Committing.{Extends, publish-IsSound}

module _ (hash : EvidenceBody → Text) where
  transitioned-Extends :
      (at : Surroundings) (s : Storage) (run_id : Text) (current : RunRecord) (target : RunStatus)
      (reason : Text)
      → IsSound hash s
      → Dict.lookup run_id s.runs ≡ some current
      → validate_transition current.status target ≡ ok tt
      → let item =
          evidence hash at current state_transition_type
            (state_transition (run_status_value current.status) (run_status_value target) reason) in
        Extends hash s (transitioned current target item) item
  unfolding evidence transitioned evidence_body
  transitioned-Extends at s run_id current target reason sound found valid =
      let row = sound.rows run_id current found in
      record {
        same_run = refl;
        numbered = refl;
        named = refl;
        flagged = refl;
        reached = next row.reached valid;
        n = current.last_sequence;
        follows = refl;
        linked = rw row.own_id row.chained;
      }

  transition_from-IsSound :
      (at : Surroundings) (s : Storage) (run_id : Text) (current : RunRecord) (target : RunStatus)
      (reason : Text)
      → IsSound hash s
      → Dict.lookup run_id s.runs ≡ some current
      → IsSound hash (transition_from hash at s current target reason).1
  unfolding transition_from
  transition_from-IsSound at s run_id current target reason sound found =
      by_test (current.status == cancelled && target == cancelled)
        (validate_transition current.status target) refl
    where
      item : EvidenceDocument
      item =
          evidence hash at current state_transition_type
            (state_transition (run_status_value current.status) (run_status_value target) reason)

      by_test :
          (same : Bool) (valid : Result TransitionError (Unit {0}))
          → validate_transition current.status target ≡ valid
          → IsSound hash
              (if◌then◌else◌ {A = Result RunError RunRecord × Storage} same
                (ok current, s)
                (elim valid [
                  | err _ ↦ (err (invalid_transition current.status target), s)
                  | ok _ ↦ publish hash at s (transitioned current target item) item false
                ])).1
      by_test true valid e = sound
      by_test false (err x) e = sound
      by_test false (ok u) e =
          publish-IsSound hash at s (transitioned current target item) item false sound
            (λ _. transitioned-Extends at s run_id current target reason sound found e)

  transition_row-IsSound :
      (at : Surroundings) (s : Storage) (run_id : Text) (row : Option RunRecord)
      (target : RunStatus) (reason : Text)
      → IsSound hash s
      → Dict.lookup run_id s.runs ≡ row
      → IsSound hash (transition_row hash at s row target reason).1
  unfolding transition_row
  transition_row-IsSound at s run_id none target reason sound found = sound
  transition_row-IsSound at s run_id (some current) target reason sound found =
      transition_from-IsSound at s run_id current target reason sound found

  -- Whatever a transition is asked for and wherever it stops, the index and the Evidence stay sound.
  pub transition_run-IsSound :
      (is_space : ℕ → Bool) (at : Surroundings) (s : Storage) (run_id : Text) (target : RunStatus)
      (reason : Text)
      → IsSound hash s
      → IsSound hash (transition_run hash is_space at s run_id target reason).1
  unfolding transition_run
  transition_run-IsSound is_space at s run_id target reason sound =
      if_rule Q (length (strip is_space reason) == 0 || ltb 1000 (length (strip is_space reason))) _
        _ (λ _. sound)
        (λ _.
          if_rule Q s.initialized _ _
            (λ _.
              if_rule Q at.begin_locked _ _ (λ _. sound)
                (λ _.
                  transition_row-IsSound at s run_id (Dict.lookup run_id s.runs) target
                    (strip is_space reason) sound refl))
            (λ _. sound))
    where
      Q : Result RunError RunRecord × Storage → Type 0
      Q o = IsSound hash o.1

  created-Extends :
      (at : Surroundings) (s : Storage) (run_id run_kind config_digest metadata : Text)
      → IsSound hash s
      → Dict.has_key run_id s.runs ≡ false
      → let run = new_run at run_id run_kind config_digest metadata in
        let item =
          evidence hash at run run_created_type
            (run_created run_kind (run_status_value created) metadata) in
        Extends hash s (created_row run item) item
  unfolding evidence evidence_body new_run created_row is_terminal
  created-Extends at s run_id run_kind config_digest metadata sound fresh = record {
    same_run = refl;
    numbered = omega arith;
    named = refl;
    flagged = refl;
    reached = here;
    n = 0;
    follows = refl;
    linked = rw (sound.unknown run_id (has_key-false run_id s.runs fresh)) (refl, refl);
  }

  create_checked-IsSound :
      (at : Surroundings) (s : Storage) (run_id run_kind config_digest metadata : Text)
      → IsSound hash s
      → IsSound hash (create_checked hash at s run_id run_kind config_digest metadata).1
  unfolding create_checked
  create_checked-IsSound at s run_id run_kind config_digest metadata sound =
      publish-IsSound hash at s _ _ (Dict.has_key run_id s.runs) sound
        (created-Extends at s run_id run_kind config_digest metadata sound)

  create_with-IsSound :
      (at : Surroundings) (s : Storage) (run_id run_kind config_digest : Text)
      (metadata : Result RunError Text)
      → IsSound hash s
      → IsSound hash (create_with hash at s run_id run_kind config_digest metadata).1
  unfolding create_with
  create_with-IsSound at s run_id run_kind config_digest (err e) sound = sound
  create_with-IsSound at s run_id run_kind config_digest (ok metadata) sound =
      if_rule Q (is_uuid4 run_id) _ _
        (λ _.
          if_rule Q s.initialized _ _
            (λ _.
              if_rule Q at.begin_locked _ _ (λ _. sound)
                (λ _. create_checked-IsSound at s run_id run_kind config_digest metadata sound))
            (λ _. sound))
        (λ _. sound)
    where
      Q : Result RunError RunRecord × Storage → Type 0
      Q o = IsSound hash o.1

  -- Whatever a creation is asked for and wherever it stops, the index and the Evidence stay sound.
  pub create_run-IsSound :
      (at : Surroundings) (s : Storage) (run_kind : Text) (metadata : Option Metadata)
      (requested : Option Text) (config_digest : Text)
      → IsSound hash s
      → IsSound hash (create_run hash at s run_kind metadata requested config_digest).1
  unfolding create_run
  create_run-IsSound at s run_kind metadata requested config_digest sound =
      if_rule (λ (o : Result RunError RunRecord × Storage). IsSound hash o.1) (is_run_kind run_kind)
        _ _
        (λ _.
          create_with-IsSound at s (chosen_id at requested) run_kind config_digest
            (metadata_json metadata) sound)
        (λ _. sound)
