-- ===== src/StateMachine/Paths.antt =====
-- What the transition graph admits, by its paths.
use steward_public.Base.{◌≡◌, ◌≢◌, ◌⊎◌, inl, inr, refl, true, Option, none, some, ok, arith}
use steward_public.Models.Status.{RunStatus}
use steward_public.Models.Status.{
  created, scanning, scanned, planning, planned, applying, applied, verifying, verified, cancelled,
  rolling_back, rolled_back,
}
use steward_public.StateMachine.{validate_transition, is_terminal}

-- One admitted transition.
abbrev pub Admitted : RunStatus → RunStatus → Type 0
Admitted current target = validate_transition current target ≡ ok tt

-- The histories of a Run: from its first status, by admitted transitions.
pub data Reach (from : RunStatus) : RunStatus → Type 0 where
  here : Reach from from
  next :
      {current target : RunStatus}
      → Reach from current
      → Admitted current target
      → Reach from target

-- A terminal status admits rolling_back at most.
pub terminal-rolling_back :
    (current target : RunStatus)
    → is_terminal current ≡ true
    → Admitted current target
    → target ≡ rolling_back
unfolding validate_transition is_terminal
terminal-rolling_back created target t h = ground arith
terminal-rolling_back scanning target t h = ground arith
terminal-rolling_back scanned target t h = ground arith
terminal-rolling_back planning target t h = ground arith
terminal-rolling_back planned target t h = ground arith
terminal-rolling_back applying target t h = ground arith
terminal-rolling_back applied target t h = ground arith
terminal-rolling_back verifying target t h = ground arith
terminal-rolling_back _ target t h = ground arith

Reach-append : {a b c : RunStatus} → Reach a b → Reach b c → Reach a c
Reach-append r here = r
Reach-append r (next q h) = next (Reach-append r q) h

from_failed : Reach RunStatus.failed rolled_back
unfolding validate_transition
from_failed = next {current = rolling_back} (next here refl) refl

via_failed : {status : RunStatus} → Admitted status RunStatus.failed → Reach status rolled_back
via_failed h = Reach-append (next here h) from_failed

-- Every status but the two dead ends, cancelled and rolled_back, leads on to rolled_back.
pub Reach-rolled_back :
    (status : RunStatus) → status ≢ cancelled → status ≢ rolled_back → Reach status rolled_back
unfolding validate_transition
Reach-rolled_back cancelled nc nr = absurd (nc refl)
Reach-rolled_back rolled_back nc nr = absurd (nr refl)
Reach-rolled_back verified nc nr = next {current = rolling_back} (next here refl) refl
Reach-rolled_back RunStatus.failed nc nr = from_failed
Reach-rolled_back rolling_back nc nr = next here refl
Reach-rolled_back _ nc nr = via_failed refl

-- The working status that each finished status reports on.
abbrev pub worked_in : RunStatus → Option RunStatus
worked_in scanned = some scanning
worked_in planned = some planning
worked_in applied = some applying
worked_in verified = some verifying
worked_in rolled_back = some rolling_back
worked_in _ = none

-- A finished status is entered from its own working status only.
pub entered_from_work :
    (current target work : RunStatus)
    → worked_in target ≡ some work
    → Admitted current target
    → current ≡ work
unfolding validate_transition
entered_from_work created target work w h = ground arith
entered_from_work scanning target work w h = ground arith
entered_from_work scanned target work w h = ground arith
entered_from_work planning target work w h = ground arith
entered_from_work planned target work w h = ground arith
entered_from_work applying target work w h = ground arith
entered_from_work applied target work w h = ground arith
entered_from_work verifying target work w h = ground arith
entered_from_work _ target work w h = ground arith

-- A history has been in a status, at its start, on its way or at its end.
abbrev pub Visits : RunStatus → {from status : RunStatus} → Reach from status → Type 0
Visits work {from} here = from ≡ work
Visits work (next {target = target} r h) = (target ≡ work) ⊎ Visits work r

Visits-last :
    {from status : RunStatus} (work : RunStatus) (r : Reach from status)
    → status ≡ work
    → Visits work r
Visits-last work here e = e
Visits-last work (next r h) e = inl e

-- Every history of a Run that has reached a finished status has itself been in its working status.
pub Reach-through_work :
    (status work : RunStatus) (history : Reach created status)
    → worked_in status ≡ some work
    → Visits work history
Reach-through_work status work here w = cc
Reach-through_work status work (next {current = c} r h) w =
    inr (Visits-last work r (entered_from_work c status work w h))

-- No transition leads back to created.
pub created-unreachable : (current : RunStatus) → ¬ Admitted current created
unfolding validate_transition
created-unreachable created h = cc
created-unreachable _ h = cc
