-- ===== src/Runs/Invariant/Committing.antt =====
-- What one commit adds to the index keeps the invariant, and so does everything that stops before it.
use steward_public.Base.{
  ℕ, ◌+◌, ◌≡◌, refl, subst₂, some-injective, sym, ◌∙◌, none, some, [], ◌∷◌, ◌++◌, Bool, false, ◌||◌,
  list_eq, nat_eq, pair_eq, arith, Bool-cases, inl, inr, All-map, All-append, Result, ok, err,
  if_rule,
}
use steward_public.Base.Dict
use steward_public.Base.Dict.{lookup-insert_self, lookup-insert_ne, has_key-false}
use steward_public.Base.Text.{Text}
use steward_public.Models.Status.{created, run_status_eq}
use steward_public.StateMachine.{is_terminal}
use steward_public.StateMachine.Paths.{Reach}
use steward_public.Evidence.{
  EvidenceBody, EvidenceDocument, EvidenceError, EvidencePath, FileContent, evidence_file, Files,
  write_evidence,
}
use steward_public.Evidence.Writing.{write_evidence-kept, Published, write_evidence-Published}
use steward_public.Runs.{
  RunRecord, Storage, Surroundings, evidence_row, clashes_with_any, after_publish, publish,
  after_evidence_publish, before_index_commit, before_evidence_publish, RunError,
}
use steward_public.Runs.Invariant.Links.{
  Linked, Linked-append, of_run, of_run-append_self, of_run-append_ne, RowOk, Stored, IsSound,
}

module _ (hash : EvidenceBody → Text) where
  -- the storage after the commit
  abbrev pub committed : Storage → Files → RunRecord → EvidenceDocument → EvidencePath → Storage
  committed s files row item path = record s {
    files = files;
    runs = Dict.insert row.run_id row s.runs;
    records = s.records ++ evidence_row item path ∷ [];
  }

  module _ (P : Storage → Type 0) (at : Surroundings) (s : Storage) (row : RunRecord)
      (item : EvidenceDocument) (clash : Bool) where
    pub after_publish_rule :
        (written : Result EvidenceError EvidencePath × Files)
        → P (record s { files = written.1 })
        → ((path : EvidencePath)
            → written.0 ≡ ok path
            → clash ≡ false
            → P (committed s written.1 row item path))
        → P (after_publish hash at s row item clash written).1
    unfolding after_publish
    after_publish_rule (err e, files) stopped done = stopped
    after_publish_rule (ok path, files) stopped done =
        if_rule Q (at.fault after_evidence_publish) _ _ (λ _. stopped)
          (λ _.
            if_rule Q (clash || clashes_with_any (evidence_row item path) s.records) _ _
              (λ _. stopped)
              (λ c.
                if_rule Q (at.fault before_index_commit) _ _ (λ _. stopped)
                  (λ _.
                    if_rule Q at.commit_locked _ _ (λ _. stopped)
                      (λ _. done path refl (ground arith)))))
      where
        Q : Result RunError RunRecord × Storage → Type 0
        Q o = P o.1

  -- More files, none of them changed, keep the invariant.
  files-IsSound :
      (s : Storage) (files : Files)
      → ((path : EvidencePath) (d : FileContent)
          → Dict.lookup path s.files ≡ some d
          → Dict.lookup path files ≡ some d)
      → IsSound hash s
      → IsSound hash (record s { files = files })
  files-IsSound s files kept sound = record {
    rows = sound.rows;
    unknown = sound.unknown;
    stored =
        All-map (Stored hash s.files) (Stored hash files)
          (λ r h. (h.0, kept r.relative_path (evidence_file h.0) h.1, h.2)) s.records sound.stored;
  }

  -- What a commit may assume of the row and the document that it adds.
  pub record Extends (s : Storage) (row : RunRecord) (item : EvidenceDocument) : Type 0 where
    pub same_run : item.run_id ≡ row.run_id
    pub numbered : item.sequence ≡ row.last_sequence
    pub named : row.last_evidence_digest ≡ some item.evidence_digest
    pub flagged : row.terminal ≡ is_terminal row.status
    pub reached : Reach created row.status
    pub n : ℕ
    pub follows : item.sequence ≡ n + 1
    pub linked : Linked 0 none (of_run row.run_id s.records) n item.previous_evidence_digest

  commit-RowOk :
      (s : Storage) (row : RunRecord) (item : EvidenceDocument) (path : EvidencePath)
      → Extends s row item
      → RowOk row.run_id (s.records ++ evidence_row item path ∷ []) row
  unfolding evidence_row
  commit-RowOk s row item path ext = record {
    own_id = refl;
    chained =
        subst₂ (Linked 0 none (of_run row.run_id (s.records ++ evidence_row item path ∷ [])))
          (sym ext.follows ∙ ext.numbered) (sym ext.named)
          (rw (of_run-append_self row.run_id s.records (evidence_row item path) ext.same_run) (
            Linked-append 0 none (of_run row.run_id s.records) ext.n item.previous_evidence_digest
              (evidence_row item path) ext.linked ext.follows refl));
    flagged = ext.flagged;
    reached = ext.reached;
  }

  other_run :
      (s : Storage) (row : RunRecord) (item : EvidenceDocument) (path : EvidencePath)
      (run_id : Text)
      → Extends s row item
      → ¬ (run_id ≡ row.run_id)
      → of_run run_id (s.records ++ evidence_row item path ∷ []) ≡ of_run run_id s.records
  unfolding evidence_row
  other_run s row item path run_id ext differ =
      of_run-append_ne run_id s.records (evidence_row item path)
        (λ e. differ (sym e ∙ ext.same_run))

  commit-rows :
      (s : Storage) (files : Files) (row : RunRecord) (item : EvidenceDocument)
      (path : EvidencePath)
      → IsSound hash s
      → Extends s row item
      → (run_id : Text) (found : RunRecord)
      → Dict.lookup run_id (Dict.insert row.run_id row s.runs) ≡ some found
      → RowOk run_id (s.records ++ evidence_row item path ∷ []) found
  commit-rows s files row item path sound ext run_id found h =
      elim (list_eq.dec run_id row.run_id) [
        | yes e ↦
            subst₂ (λ k r. RowOk k (s.records ++ evidence_row item path ∷ []) r) (sym e)
              (some-injective row found
                (sym (lookup-insert_self run_id row.run_id row s.runs e) ∙ h))
              (commit-RowOk s row item path ext)
        | no n ↦
            let old =
              sound.rows run_id found (sym (lookup-insert_ne run_id row.run_id row s.runs n) ∙ h) in
            record {
              own_id = old.own_id;
              chained = rw (other_run s row item path run_id ext n) old.chained;
              flagged = old.flagged;
              reached = old.reached;
            }
      ]

  commit-unknown :
      (s : Storage) (row : RunRecord) (item : EvidenceDocument) (path : EvidencePath)
      → IsSound hash s
      → Extends s row item
      → (run_id : Text) → Dict.lookup run_id (Dict.insert row.run_id row s.runs) ≡ none
      → of_run run_id (s.records ++ evidence_row item path ∷ []) ≡ []
  commit-unknown s row item path sound ext run_id h = elim (list_eq.dec run_id row.run_id) [
    | yes e ↦ absurd (cc (lookup-insert_self run_id row.run_id row s.runs e))
    | no n ↦
        rw (other_run s row item path run_id ext n)
          (sound.unknown run_id (sym (lookup-insert_ne run_id row.run_id row s.runs n) ∙ h))
  ]

  commit-IsSound :
      (s : Storage) (files : Files) (row : RunRecord) (item : EvidenceDocument)
      (path : EvidencePath)
      → ((other : EvidencePath) (d : FileContent)
          → Dict.lookup other s.files ≡ some d
          → Dict.lookup other files ≡ some d)
      → IsSound hash s
      → Extends s row item
      → Published hash item path s.files files
      → IsSound hash (committed s files row item path)
  unfolding evidence_row
  commit-IsSound s files row item path kept sound ext new = record {
    rows = commit-rows s files row item path sound ext;
    unknown = commit-unknown s row item path sound ext;
    stored =
        All-append (Stored hash files) s.records (evidence_row item path ∷ [])
          (files-IsSound s files kept sound).stored
          ((new.stored, new.present, new.same_digest ∙ sym new.own_digest), tt);
  }

  pub publish-IsSound :
      (at : Surroundings) (s : Storage) (row : RunRecord) (item : EvidenceDocument) (clash : Bool)
      → IsSound hash s
      → (clash ≡ false → Extends s row item)
      → IsSound hash (publish hash at s row item clash).1
  unfolding publish
  publish-IsSound at s row item clash sound ext =
      elim (Bool-cases (at.fault before_evidence_publish)) [
        | inl e ↦ rw e sound
        | inr e ↦ rw e (
            after_publish_rule (IsSound hash) at s row item clash
              (write_evidence hash at.disk item s.files)
              (files-IsSound s _ (write_evidence-kept hash at.disk item s.files) sound)
              (λ path h fresh.
                commit-IsSound s _ row item path (write_evidence-kept hash at.disk item s.files)
                  sound (ext fresh) (write_evidence-Published hash at.disk item s.files path h)))
      ]
