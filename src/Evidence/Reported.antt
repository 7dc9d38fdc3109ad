-- ===== src/Evidence/Reported.antt =====
-- What the loader of evidence.py says of files that are named for sequence numbers, whatever they hold.
use Prim.Native.Nat.{◌^◌}
use mathlib.Core.List.{Perm}
use steward_public.Base.{
  ℕ, ◌<◌, ◌≡◌, refl, ap, ◌∙◌, Bool, true, false, some, List, [], ◌∷◌, nat_eq, list_eq,
  if◌then◌else◌, Result, ok, err, ◌>>=◌, All, any, arith,
}
use steward_public.Base.Order.{nat_order, list_order}
use steward_public.Base.Sort.{sort_on, sort_on-All, sort_on-IsOrdered, sort_on-perm}
use steward_public.Base.Text.{Text}
use steward_public.Evidence.Naming.{filename, is_evidence_name}
use steward_public.Evidence.Naming.Reading.{filename-read}
use steward_public.Evidence.Naming.Ordering.{filename-ending}
use steward_public.Evidence.Loading.{
  DirectoryItem, json, unsafe, unreadable, not_utf8, LoadError, invalid_json, LoadFailure,
  unicode_decode_error, Loaded, is_temporary, load_item, load_items, load_run_files,
}
use steward_public.Evidence.Loaded.{InSequence, IsOrdered-InSequence, json_not_temporary}

module _ {V : Type 0} where
  -- A regular file, whatever it holds.
  abbrev pub IsFile : DirectoryItem V → Type 0
  IsFile unsafe = ⊥
  IsFile unreadable = Unit
  IsFile not_utf8 = Unit
  IsFile (json value) = Unit

  -- A regular file with the name of a sequence number below 10 ^ 8.
  abbrev pub IsNamedFile : Text × DirectoryItem V → Type 0
  IsNamedFile (name, item) =
      IsFile item
      × ((sequence : ℕ) × (evidence_type : Text) × (sequence < 10 ^ 8)
          × (filename sequence evidence_type ≡ ok name))

  abbrev pub is_no_utf8 : Text × DirectoryItem V → Bool
  is_no_utf8 (name, not_utf8) = true
  is_no_utf8 (name, _) = false

  -- The files that are JSON, with their values.
  unfoldable pub json_files : List (Text × DirectoryItem V) → List (Text × V)
  json_files [] = []
  json_files ((name, json value) ∷ rest) = (name, value) ∷ json_files rest
  json_files ((name, _) ∷ rest) = json_files rest

  -- A report for each file that is no JSON.
  unfoldable pub json_errors : List (Text × DirectoryItem V) → List LoadError
  json_errors [] = []
  json_errors ((name, unreadable) ∷ rest) = invalid_json name ∷ json_errors rest
  json_errors ((name, _) ∷ rest) = json_errors rest

  -- What such files give: an exception where one is no UTF-8, and else values and reports.
  abbrev pub reported : List (Text × DirectoryItem V) → Result LoadFailure (Loaded V)
  reported objects =
      if any is_no_utf8 objects
      then err unicode_decode_error
      else ok (json_files objects, json_errors objects)

  module _ (unicode_decimal : ℕ → Bool) where
    load_item-reported :
        (name : Text) (item : DirectoryItem V) (rest : List (Text × DirectoryItem V))
        → IsFile item
        → is_temporary name ≡ false
        → is_evidence_name unicode_decimal name ≡ true
        → (reported rest >>= λ later. load_item unicode_decimal name item later)
          ≡ reported ((name, item) ∷ rest)
    unfolding load_item json_files json_errors
    load_item-reported name unsafe rest is_file temporary known = absurd is_file
    load_item-reported name unreadable rest is_file temporary known = ground arith
    load_item-reported name not_utf8 rest is_file temporary known = ground arith
    load_item-reported name (json value) rest is_file temporary known = ground arith

    load_items-reported :
        (objects : List (Text × DirectoryItem V))
        → All IsNamedFile objects
        → load_items unicode_decimal objects ≡ reported objects
    unfolding load_items json_files json_errors
    load_items-reported [] named = refl
    load_items-reported ((name, item) ∷ rest)
          ((is_file, (sequence, evidence_type, small, is_name)), named) =
        let (start, at) = filename-ending sequence evidence_type name small is_name in
        ap (λ r. r >>= λ later. load_item unicode_decimal name item later)
          (load_items-reported rest named)
        ∙ load_item-reported name item rest is_file (ap is_temporary at ∙ json_not_temporary start)
            (filename-read unicode_decimal sequence evidence_type name small is_name).0

    -- A Run's directory of such files is loaded in the order of the sequence numbers: every JSON file
    -- with its value, a report for each other one, and an exception where one is no UTF-8.
    pub load_run_files-reported :
        (objects : List (Text × DirectoryItem V))
        → All IsNamedFile objects
        → (sorted : List (Text × DirectoryItem V)) × Perm sorted objects
          × InSequence unicode_decimal sorted
          × (load_run_files unicode_decimal (some objects) ≡ reported sorted)
    unfolding load_run_files
    load_run_files-reported objects named =
        let key = λ (o : Text × DirectoryItem V). o.0 in
        (
          sort_on key objects,
          sort_on-perm key objects,
          IsOrdered-InSequence unicode_decimal (sort_on key objects)
              (sort_on-IsOrdered key objects),
          load_items-reported (sort_on key objects) (sort_on-All key IsNamedFile objects named),
        )
