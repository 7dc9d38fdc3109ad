-- ===== src/Evidence/Adding.antt =====
-- What a write may add to the files.
use steward_public.Base.{
  ◌≡◌, refl, none, some, ◌!=◌, nat_eq, list_eq, pair_eq, if_rule, Result, ok, err, All,
}
use steward_public.Base.Dict
use steward_public.Base.Dict.{All-insert}
use steward_public.Base.Text.{Text}
use steward_public.Evidence.{
  EvidenceBody, EvidenceDocument, EvidenceError, EvidencePath, FileContent, Files, Disk,
  replace_file, write_at, write_evidence, digest,
}
use steward_public.Evidence.Naming.{NameError, filename}

module _ (hash : EvidenceBody → Text) (P : EvidencePath × FileContent → Type 0) where
  replace_file-All :
      (disk : Disk) (path : EvidencePath) (expected : Text) (files : Files)
      → ((stored : FileContent) → P (path, stored))
      → All P files
      → All P (replace_file hash disk path expected files).1
  unfolding replace_file
  replace_file-All Disk.write_fails path expected files named all = all
  replace_file-All (Disk.reads_back none) path expected files named all = all
  replace_file-All (Disk.fails_after_replace stored) path expected files named all =
      All-insert P path stored files (named stored) all
  replace_file-All (Disk.read_raises stored) path expected files named all =
      All-insert P path stored files (named stored) all
  replace_file-All (Disk.reads_back (some stored)) path expected files named all =
      All-insert P path stored files (named stored) all

  write_at-All :
      (disk : Disk) (document : EvidenceDocument) (files : Files) (name : Result NameError Text)
      → ((found : Text) (stored : FileContent)
          → name ≡ ok found
          → P ((document.run_id, found), stored))
      → All P files
      → All P (write_at hash disk document files name).1
  unfolding write_at
  write_at-All disk document files (err e) named all = all
  write_at-All disk document files (ok name) named all =
      let path : EvidencePath = (document.run_id, name) in
      if_rule Q (Dict.has_key path files) _ _ (λ _. all)
        (λ _.
          if_rule Q (document.evidence_digest != digest hash document) _ _ (λ _. all)
            (λ _.
              replace_file-All disk path (digest hash document) files (λ d. named name d refl) all))
    where
      Q : Result EvidenceError EvidencePath × Files → Type 0
      Q o = All P o.1

  -- Whatever the outcome of a write, a file that it adds is named for the document's number and type.
  pub write_evidence-All :
      (disk : Disk) (document : EvidenceDocument) (files : Files)
      → ((name : Text) (stored : FileContent)
          → filename document.sequence document.evidence_type ≡ ok name
          → P ((document.run_id, name), stored))
      → All P files
      → All P (write_evidence hash disk document files).1
  unfolding write_evidence
  write_evidence-All disk document files named all =
      write_at-All disk document files (filename document.sequence document.evidence_type) named all
