-- ===== src/Evidence.antt =====
-- evidence.py: evidence documents, their digest and file name, and the write of one file. The
-- digest's `sha256(canonical_json(...))` is the argument `hash`.
pub mod Naming
pub mod Writing
pub mod Loading
pub mod Loaded
pub mod Reported
pub mod Accounting
pub mod Adding
use steward_public.Base.{ℕ, suc, Bool, Option, none, some, List, Result, ok, err, if◌then◌else◌}
use steward_public.Base.{◌==◌, ◌!=◌, list_eq, nat_eq, pair_eq}
use steward_public.Base.Dict
use steward_public.Base.Dict.{Dict}
use steward_public.Base.Int.{ℤ}
use steward_public.Base.Text.{Text, text}
use steward_public.Evidence.Naming.{NameError, filename}

-- The payloads that runs.py writes, and any other one.
pub data Payload : Type 0 where
  run_created : Text → Text → Text → Payload
  state_transition : Text → Text → Text → Payload
  other_payload : Text → Payload

-- A document without its `evidence_digest`.
pub record EvidenceBody : Type 0 where
  pub schema_version : ℕ
  pub evidence_id : Text
  pub evidence_type : Text
  pub run_id : Text
  pub sequence : ℕ
  pub created_at : Text
  pub tool_version : Text
  pub config_digest : Text
  pub policy_digest : Option Text
  pub provider_versions : Dict Text Text
  pub previous_evidence_digest : Option Text
  pub payload : Payload

pub record EvidenceDocument : Type 0 where
  pub body : EvidenceBody
  pub open body use *
  pub evidence_digest : Text

pub data EvidenceError : Type 0 where
  invalid_type target_exists digest_mismatch unable_to_write post_write_failed : EvidenceError
  read_back_raised : EvidenceError

-- A run's directory and a file name in it: the file is runs/<run id>/<name>.
abbrev pub EvidencePath : Type 0
EvidencePath = Text × Text

-- What a file holds: a document, other JSON, with whether that is an object, no JSON, or no UTF-8.
pub data FileContent : Type 0 where
  evidence_file : EvidenceDocument → FileContent
  other_json : Bool → FileContent
  no_json no_utf8 : FileContent

abbrev pub Files : Type 0
Files = Dict EvidencePath FileContent

-- What the file system does: an OSError before the file is in place, one after `os.replace` has put it
-- there, one when the file is read back, or the file's content as it is read back (`none`: no such
-- file).
pub data Disk : Type 0 where
  write_fails : Disk
  fails_after_replace read_raises : FileContent → Disk
  reads_back : Option FileContent → Disk

module _ (hash : EvidenceBody → Text) where
  -- the digest leaves out the document's own `evidence_digest`
  unfoldable pub digest : EvidenceDocument → Text
  digest document = hash document.body

  -- the verification of what was read back. What is no JSON object raises in `json.loads` or `digest`,
  -- and no EvidenceError; other objects are taken not to have the document's digest.
  verify_content : FileContent → EvidencePath → Text → Result EvidenceError EvidencePath
  unfolding digest
  verify_content (evidence_file stored) path expected =
      if digest stored != expected then err post_write_failed else ok path
  verify_content (other_json is_object) path expected =
      if is_object then err post_write_failed else err read_back_raised
  verify_content no_json path expected = err read_back_raised
  verify_content no_utf8 path expected = err read_back_raised

  -- the write and the verification after it
  replace_file : Disk → EvidencePath → Text → Files → Result EvidenceError EvidencePath × Files
  unfolding verify_content
  replace_file write_fails path expected files = (err unable_to_write, files)
  replace_file (fails_after_replace content) path expected files =
      (err unable_to_write, Dict.insert path content files)
  replace_file (read_raises content) path expected files =
      (err read_back_raised, Dict.insert path content files)
  replace_file (reads_back none) path expected files = (err post_write_failed, files)
  replace_file (reads_back (some content)) path expected files =
      (verify_content content path expected, Dict.insert path content files)

  write_at :
      Disk
      → EvidenceDocument
      → Files
      → Result NameError Text
      → Result EvidenceError EvidencePath × Files
  unfolding replace_file digest
  write_at disk document files (err e) = (err invalid_type, files)
  write_at disk document files (ok name) =
      let path : EvidencePath = (document.run_id, name) in
      if Dict.has_key path files
      then (err target_exists, files)
      else if document.evidence_digest != digest document
      then (err digest_mismatch, files)
      else replace_file disk path (digest document) files

  unfoldable pub write_evidence :
      Disk → EvidenceDocument → Files → Result EvidenceError EvidencePath × Files
  unfolding write_at
  write_evidence disk document files =
      write_at disk document files (filename document.sequence document.evidence_type)
