-- ===== src/Runs/Histories.antt =====
-- Whole histories of a storage: creations and transitions, each with its own surroundings.
use steward_public.Base.{ℕ, Bool, refl, Option, [], list_eq, nat_eq}
use steward_public.Base.Dict
use steward_public.Base.Text.{Text}
use steward_public.Models.Status.{RunStatus}
use steward_public.Evidence.{EvidenceBody}
use steward_public.Runs.{Storage, Surroundings, transition_run}
use steward_public.Runs.Creating.{Metadata, create_run}
use steward_public.Runs.Invariant.{IsSound}
use steward_public.Runs.Invariant.Keeping.{create_run-IsSound, transition_run-IsSound}

abbrev pub empty_storage : Storage
empty_storage = record { initialized = Bool.true; files = []; runs = []; records = [] }

-- What two storages have to do with each other when one call lies between them.
pub data Step (hash : EvidenceBody → Text) (is_space : ℕ → Bool) : Storage → Storage → Type 0 where
  creating :
      (at : Surroundings) (s : Storage) (run_kind : Text) (metadata : Option Metadata)
      (requested : Option Text) (config_digest : Text)
      → Step hash is_space s (create_run hash at s run_kind metadata requested config_digest).1
  transitioning :
      (at : Surroundings) (s : Storage) (run_id : Text) (target : RunStatus) (reason : Text)
      → Step hash is_space s (transition_run hash is_space at s run_id target reason).1

pub data History (hash : EvidenceBody → Text) (is_space : ℕ → Bool) : Storage → Type 0 where
  begin : History hash is_space empty_storage
  later :
      {s t : Storage} → History hash is_space s → Step hash is_space s t → History hash is_space t

pub empty-IsSound : (hash : EvidenceBody → Text) → IsSound hash empty_storage
unfolding Dict.lookup
empty-IsSound hash = record { rows = λ run_id row h. cc; unknown = λ run_id h. refl; stored = tt }

Step-IsSound :
    (hash : EvidenceBody → Text) (is_space : ℕ → Bool) (s t : Storage)
    → Step hash is_space s t
    → IsSound hash s
    → IsSound hash t
Step-IsSound hash is_space _ _ (creating at s run_kind metadata requested config_digest) sound =
    create_run-IsSound hash at s run_kind metadata requested config_digest sound
Step-IsSound hash is_space _ _ (transitioning at s run_id target reason) sound =
    transition_run-IsSound hash is_space at s run_id target reason sound

-- After any history of creations and transitions on an empty initialized storage, whichever of them
-- failed or were stopped, the storage is sound: each row of a Run is the end of the chain of its
-- own records, its status is reached by admitted transitions and its terminal flag is right, and
-- each record's file is there with the digest that the record states.
pub History-IsSound :
    (hash : EvidenceBody → Text) (is_space : ℕ → Bool) (s : Storage)
    → History hash is_space s
    → IsSound hash s
History-IsSound hash is_space s begin = empty-IsSound hash
History-IsSound hash is_space t (later {s = s} h step) =
    Step-IsSound hash is_space s t step (History-IsSound hash is_space s h)
