-- ===== src/StateMachine.antt =====
-- state_machine.py: the only Run transition policy.
pub mod Paths
use steward_public.Base.{Bool, List, [], ◌∷◌, if◌then◌else◌, contains, Result, ok, err}
use steward_public.Models.Status.{RunStatus, run_status_eq}
use steward_public.Models.Status.{
  created, scanning, scanned, planning, planned, applying, applied, verifying, verified, cancelled,
  rolling_back, rolled_back,
}

unfoldable pub allowed_targets : RunStatus → List RunStatus
allowed_targets created =
    scanning ∷ planning ∷ applying ∷ verifying ∷ rolling_back ∷ cancelled ∷ RunStatus.failed ∷ []
allowed_targets scanning = scanned ∷ RunStatus.partial ∷ cancelled ∷ RunStatus.failed ∷ []
allowed_targets scanned = planning ∷ verifying ∷ RunStatus.failed ∷ []
allowed_targets planning = planned ∷ cancelled ∷ RunStatus.failed ∷ []
allowed_targets planned = applying ∷ cancelled ∷ RunStatus.failed ∷ []
allowed_targets applying = applied ∷ RunStatus.partial ∷ RunStatus.failed ∷ []
allowed_targets applied = verifying ∷ rolling_back ∷ RunStatus.failed ∷ []
allowed_targets verifying = verified ∷ RunStatus.partial ∷ RunStatus.failed ∷ []
allowed_targets verified = rolling_back ∷ []
allowed_targets RunStatus.partial = verifying ∷ rolling_back ∷ RunStatus.failed ∷ []
allowed_targets RunStatus.failed = rolling_back ∷ []
allowed_targets cancelled = []
allowed_targets rolling_back = rolled_back ∷ RunStatus.partial ∷ RunStatus.failed ∷ []
allowed_targets rolled_back = []

abbrev pub terminal_statuses : List RunStatus
terminal_statuses = verified ∷ RunStatus.failed ∷ cancelled ∷ rolled_back ∷ []

-- InvalidRunTransitionError
pub data TransitionError : Type 0 where
  not_allowed : RunStatus → RunStatus → TransitionError

unfoldable pub validate_transition : RunStatus → RunStatus → Result TransitionError (Unit {0})
unfolding allowed_targets run_status_eq
validate_transition current target =
    if contains (allowed_targets current) target then ok tt else err (not_allowed current target)

unfoldable pub is_terminal : RunStatus → Bool
unfolding run_status_eq
is_terminal status = contains terminal_statuses status
