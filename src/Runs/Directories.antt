-- ===== src/Runs/Directories.antt =====
-- What the loader of evidence.py finds in the directory of a Run that runs.py has written.
use Prim.Native.Nat.{◌^◌}
use mathlib.Core.List.{Perm}
use steward_public.Base.{
  Bool, ℕ, ◌+◌, ◌<◌, ◌≡◌, some, List, [], ◌∷◌, ◌==◌, nat_eq, list_eq, if◌then◌else◌, if_rule, arith,
  All,
}
use steward_public.Base.Text.{Text}
use steward_public.Evidence.{
  EvidenceBody, FileContent, evidence_file, other_json, no_json, no_utf8, Files,
}
use steward_public.Evidence.Loading.{DirectoryItem, json, unreadable, not_utf8, load_run_files}
use steward_public.Evidence.Loaded.{InSequence}
use steward_public.Evidence.Reported.{IsFile, IsNamedFile, reported, load_run_files-reported}
use steward_public.Runs.{Storage}
use steward_public.Runs.Histories.{Step, creating, transitioning, History, begin, later}
use steward_public.Runs.Numbering.{
  IsNamed, IsNumbered, create_run-IsNumbered, transition_run-IsNumbered,
}

-- What the loader meets in a file.
abbrev pub item_of : FileContent → DirectoryItem FileContent
item_of (evidence_file document) = json (evidence_file document)
item_of (other_json is_object) = json (other_json is_object)
item_of no_json = unreadable
item_of no_utf8 = not_utf8

-- The objects of a Run's directory, without temporary files.
unfoldable pub directory_of : Text → Files → List (Text × DirectoryItem FileContent)
directory_of run_id [] = []
directory_of run_id ((path, content) ∷ files) =
    let rest = directory_of run_id files in
    if path.0 == run_id then (path.1, item_of content) ∷ rest else rest

-- the number of calls
abbrev pub length_of :
    {hash : EvidenceBody → Text} {is_space : ℕ → Bool} {s : Storage} → History hash is_space s → ℕ
length_of begin = 0
length_of (later h step) = length_of h + 1

module _ (hash : EvidenceBody → Text) (is_space : ℕ → Bool) where
  Step-IsNumbered :
      (n : ℕ) (s t : Storage) → Step hash is_space s t → IsNumbered n s → IsNumbered (n + 1) t
  Step-IsNumbered n _ _ (creating at s run_kind metadata requested config_digest) numbered =
      create_run-IsNumbered hash n at s run_kind metadata requested config_digest numbered
  Step-IsNumbered n _ _ (transitioning at s run_id target reason) numbered =
      transition_run-IsNumbered hash n is_space at s run_id target reason numbered

  History-IsNumbered : (s : Storage) (h : History hash is_space s) → IsNumbered (length_of h) s
  History-IsNumbered s begin = (tt, tt)
  History-IsNumbered t (later {s = s} h step) =
      Step-IsNumbered (length_of h) s t step (History-IsNumbered s h)

  item_of-IsFile : (content : FileContent) → IsFile (item_of content)
  item_of-IsFile (evidence_file document) = tt
  item_of-IsFile (other_json is_object) = tt
  item_of-IsFile no_json = tt
  item_of-IsFile no_utf8 = tt

  directory_of-IsNamedFile :
      (n : ℕ) (run_id : Text) (files : Files)
      → n < 10 ^ 8
      → All (IsNamed n) files
      → All IsNamedFile (directory_of run_id files)
  unfolding directory_of
  directory_of-IsNamedFile n run_id [] small all = tt
  directory_of-IsNamedFile n run_id ((path, content) ∷ files) small
        ((sequence, evidence_type, bound, named), all) =
      let rest = directory_of-IsNamedFile n run_id files small all in
      if_rule (All IsNamedFile) (path.0 == run_id)
        ((path.1, item_of content) ∷ directory_of run_id files) (directory_of run_id files)
        (λ _. (
          (item_of-IsFile content, (sequence, evidence_type, omega (arith, bound, small), named)),
          rest,
        ))
        (λ _. rest)

  -- After any history of fewer than 10 ^ 8 creations and transitions, whichever of them failed or were
  -- stopped, the loader takes every file in the directory of a Run for Evidence, where the directory
  -- is there: in the order of the sequence numbers it gives back each file that is JSON and reports each
  -- that is not, such as a failed verification may have left, and it reports nothing else. It raises
  -- where a file is no UTF-8.
  pub History-loads :
      (unicode_decimal : ℕ → Bool) (s : Storage) (h : History hash is_space s)
      → length_of h < 10 ^ 8
      → (run_id : Text)
      → (sorted : List (Text × DirectoryItem FileContent)) × Perm sorted
          (directory_of run_id s.files)
        × InSequence unicode_decimal sorted
        × (load_run_files unicode_decimal (some (directory_of run_id s.files)) ≡ reported sorted)
  History-loads u s h small run_id =
      load_run_files-reported u (directory_of run_id s.files)
        (directory_of-IsNamedFile (length_of h) run_id s.files small (History-IsNumbered s h).0)
