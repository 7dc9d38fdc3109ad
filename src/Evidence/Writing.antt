-- ===== src/Evidence/Writing.antt =====
-- What a write does to the evidence files.
use steward_public.Base.{◌≡◌, refl, ◌!=◌, past_guard, none, some, Result, ok, err, arith}
use steward_public.Base.{list_eq, nat_eq, pair_eq}
use steward_public.Base.Dict
use steward_public.Base.Dict.{lookup-insert, has_key-true, has_key-false}
use steward_public.Base.Text.{Text}
use steward_public.Evidence.{
  EvidenceBody, EvidenceDocument, EvidencePath, FileContent, evidence_file, other_json, no_json,
  no_utf8, Files, Disk, verify_content, replace_file, write_at, write_evidence, target_exists,
  digest_mismatch,
}
use steward_public.Evidence.Naming.{NameError, filename}

module _ (hash : EvidenceBody → Text) where
  replace_file-kept :
      (disk : Disk) (path other : EvidencePath) (expected : Text) (files : Files)
      (old : FileContent)
      → Dict.lookup path files ≡ none
      → Dict.lookup other files ≡ some old
      → Dict.lookup other (replace_file hash disk path expected files).1 ≡ some old
  unfolding replace_file
  replace_file-kept Disk.write_fails path other expected files old fresh there = there
  replace_file-kept (Disk.reads_back none) path other expected files old fresh there = there
  replace_file-kept (Disk.fails_after_replace content) path other expected files old fresh there =
      rw lookup-insert (ground arith)
  replace_file-kept (Disk.read_raises content) path other expected files old fresh there =
      rw lookup-insert (ground arith)
  replace_file-kept (Disk.reads_back (some content)) path other expected files old fresh there =
      rw lookup-insert (ground arith)

  write_at-kept :
      (disk : Disk) (document : EvidenceDocument) (files : Files) (name : Result NameError Text)
      (other : EvidencePath) (old : FileContent)
      → Dict.lookup other files ≡ some old
      → Dict.lookup other (write_at hash disk document files name).1 ≡ some old
  unfolding write_at
  write_at-kept disk document files (err e) other old there = there
  write_at-kept disk document files (ok name) other old there = ground (
    arith,
    has_key-false (document.run_id, name) files,
    replace_file-kept disk (document.run_id, name) other (hash document.body) files old,
  )

  -- Evidence is never overwritten: whatever the outcome of a write, every file that was there keeps
  -- its content.
  pub write_evidence-kept :
      (disk : Disk) (document : EvidenceDocument) (files : Files) (other : EvidencePath)
      (old : FileContent)
      → Dict.lookup other files ≡ some old
      → Dict.lookup other (write_evidence hash disk document files).1 ≡ some old
  unfolding write_evidence
  write_evidence-kept disk document files other old there =
      write_at-kept disk document files (filename document.sequence document.evidence_type) other
        old there

  -- What a successful write has established.
  pub record Published (document : EvidenceDocument) (path : EvidencePath) (before after : Files)
      : Type 0 where
    pub stored : EvidenceDocument
    pub new_path : Dict.lookup path before ≡ none
    pub present : Dict.lookup path after ≡ some (evidence_file stored)
    pub in_run : path.0 ≡ document.run_id
    pub named : filename document.sequence document.evidence_type ≡ ok path.1
    pub same_digest : hash stored.body ≡ hash document.body
    pub own_digest : document.evidence_digest ≡ hash document.body

  replace_file-Published :
      (disk : Disk) (document : EvidenceDocument) (path result : EvidencePath) (files : Files)
      → Dict.lookup path files ≡ none
      → path.0 ≡ document.run_id
      → filename document.sequence document.evidence_type ≡ ok path.1
      → document.evidence_digest ≡ hash document.body
      → (replace_file hash disk path (hash document.body) files).0 ≡ ok result
      → Published document result files (replace_file hash disk path (hash document.body) files).1
  unfolding replace_file verify_content
  replace_file-Published Disk.write_fails document path result files fresh run named own h = cc
  replace_file-Published (Disk.reads_back none) document path result files fresh run named own h =
      cc
  replace_file-Published (Disk.fails_after_replace content) document path result files fresh run
        named own h =
      cc
  replace_file-Published (Disk.read_raises content) document path result files fresh run named own
        h =
      cc
  replace_file-Published (Disk.reads_back (some content)) document path result files fresh run named
        own h =
      verified content h
    where
      verified :
          (content : FileContent)
          → verify_content hash content path (hash document.body) ≡ ok result
          → Published document result files (Dict.insert path content files)
      verified (evidence_file stored) e = record {
        stored = stored;
        new_path = ground arith;
        present = rw lookup-insert (ground arith);
        in_run = ground arith;
        named = ground arith;
        same_digest = ground arith;
        own_digest = own;
      }
      verified (other_json is_object) e = ground arith
      verified no_json e = cc
      verified no_utf8 e = cc

  write_at-Published :
      (disk : Disk) (document : EvidenceDocument) (path : EvidencePath) (files : Files)
      (name : Result NameError Text)
      → filename document.sequence document.evidence_type ≡ name
      → (write_at hash disk document files name).0 ≡ ok path
      → Published document path files (write_at hash disk document files name).1
  unfolding write_at
  write_at-Published disk document path files (err e) n h = cc
  write_at-Published disk document path files (ok name) n h =
      past_guard (Published document path files) path (Dict.has_key (document.run_id, name) files)
        target_exists files _
        (λ fresh.
          past_guard (Published document path files) path
            (document.evidence_digest != hash document.body) digest_mismatch files _
            (λ own.
              replace_file-Published disk document (document.run_id, name) path files
                (has_key-false (document.run_id, name) files fresh) refl n (ground arith)))
        h

  -- A write that returns a path has put a document there, at a place that was free, under the Run of
  -- the document and the name of its sequence number and type; what reads back has the digest of
  -- the document, and the document states its own digest.
  pub write_evidence-Published :
      (disk : Disk) (document : EvidenceDocument) (files : Files) (path : EvidencePath)
      → (write_evidence hash disk document files).0 ≡ ok path
      → Published document path files (write_evidence hash disk document files).1
  unfolding write_evidence
  write_evidence-Published disk document files path h =
      write_at-Published disk document path files
        (filename document.sequence document.evidence_type) refl h

  -- A document whose place is taken is refused, and no file changes.
  pub write_evidence-occupied :
      (disk : Disk) (document : EvidenceDocument) (files : Files) (name : Text) (old : FileContent)
      → filename document.sequence document.evidence_type ≡ ok name
      → Dict.lookup (document.run_id, name) files ≡ some old
      → write_evidence hash disk document files ≡ (err target_exists, files)
  unfolding write_evidence write_at
  write_evidence-occupied disk document files name old named taken =
      rw (named, write_at) (rw (has_key-true (document.run_id, name) old files taken))
