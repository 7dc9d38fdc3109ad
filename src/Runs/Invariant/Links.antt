-- ===== src/Runs/Invariant/Links.antt =====
-- The chain that the records of one Run form.
use steward_public.Base.{
  ℕ, ◌+◌, ◌≡◌, Option, none, some, List, [], ◌∷◌, ◌++◌, ◌==◌, list_eq, nat_eq, pair_eq, filter,
  arith, All,
}
use steward_public.Base.Dict
use steward_public.Base.Text.{Text}
use steward_public.Models.Status.{created}
use steward_public.StateMachine.{is_terminal}
use steward_public.StateMachine.Paths.{Reach}
use steward_public.Evidence.{EvidenceBody, EvidenceDocument, evidence_file, Files}
use steward_public.Runs.{RunRecord, EvidenceRecord, Storage}

-- From a sequence number and a digest the records lead on, one by one, each naming the digest of
-- the record before it, to a last number and digest.
abbrev pub Linked : ℕ → Option Text → List EvidenceRecord → ℕ → Option Text → Type 0
Linked n previous [] m last = (n ≡ m) × (previous ≡ last)
Linked n previous (r ∷ rest) m last =
    (r.sequence ≡ n + 1)
    × (r.previous_evidence_digest ≡ previous)
    × Linked (n + 1) (some r.evidence_digest) rest m last

pub Linked-append :
    (n : ℕ) (previous : Option Text) (records : List EvidenceRecord) (m : ℕ) (last : Option Text)
    (r : EvidenceRecord)
    → Linked n previous records m last
    → r.sequence ≡ m + 1
    → r.previous_evidence_digest ≡ last
    → Linked n previous (records ++ r ∷ []) (m + 1) (some r.evidence_digest)
Linked-append n previous [] m last r h s p = ground arith
Linked-append n previous (q ∷ rest) m last r h s p =
    (h.0, h.1, Linked-append (n + 1) (some q.evidence_digest) rest m last r h.2 s p)

-- The records of one Run, in the order of their insertion.
abbrev pub of_run : Text → List EvidenceRecord → List EvidenceRecord
of_run run_id = filter (λ r. r.run_id == run_id)

pub of_run-append_self :
    (run_id : Text) (records : List EvidenceRecord) (r : EvidenceRecord)
    → r.run_id ≡ run_id
    → of_run run_id (records ++ r ∷ []) ≡ of_run run_id records ++ r ∷ []
of_run-append_self run_id [] r e = ground arith
of_run-append_self run_id (q ∷ rest) r e = ground (arith, of_run-append_self run_id rest r e)

pub of_run-append_ne :
    (run_id : Text) (records : List EvidenceRecord) (r : EvidenceRecord)
    → ¬ (r.run_id ≡ run_id)
    → of_run run_id (records ++ r ∷ []) ≡ of_run run_id records
of_run-append_ne run_id [] r e = ground arith
of_run-append_ne run_id (q ∷ rest) r e = ground (arith, of_run-append_ne run_id rest r e)

-- A row of the runs table is what the Run's own records and history say.
pub record RowOk (run_id : Text) (records : List EvidenceRecord) (row : RunRecord) : Type 0 where
  pub own_id : row.run_id ≡ run_id
  pub chained : Linked 0 none (of_run run_id records) row.last_sequence row.last_evidence_digest
  pub flagged : row.terminal ≡ is_terminal row.status
  pub reached : Reach created row.status

-- The file that a record names is there, with the digest that the record states.
abbrev pub Stored : (EvidenceBody → Text) → Files → EvidenceRecord → Type 0
Stored hash files r =
    (document : EvidenceDocument) × (Dict.lookup r.relative_path files
      ≡ some (evidence_file document))
    × (hash document.body ≡ r.evidence_digest)

pub record IsSound (hash : EvidenceBody → Text) (s : Storage) : Type 0 where
  pub rows :
      (run_id : Text) (row : RunRecord)
      → Dict.lookup run_id s.runs ≡ some row
      → RowOk run_id s.records row
  pub unknown : (run_id : Text) → Dict.lookup run_id s.runs ≡ none → of_run run_id s.records ≡ []
  pub stored : All (Stored hash s.files) s.records
