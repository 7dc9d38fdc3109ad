-- ===== src/Evidence/Loading.antt =====
-- `load_run_files` of evidence.py, for any type of JSON values.
use steward_public.Base.{
  ℕ, Bool, not, Option, none, some, List, [], ◌∷◌, ◌==◌, nat_eq, list_eq, if◌then◌else◌, Result, ok,
  err, ◌>>=◌, ◌-◌, length, drop,
}
use steward_public.Base.Order.{nat_order, list_order}
use steward_public.Base.Sort.{sort_on}
use steward_public.Base.Text.{Text, text}
use steward_public.Evidence.Naming.{is_evidence_name}

-- What an object of a run's directory is: a link or no file, or a file with its JSON value, one that
-- cannot be read or is no JSON, or one that is no UTF-8.
pub data DirectoryItem (V : Type 0) : Type 0 where
  unsafe unreadable not_utf8 : DirectoryItem V
  json : V → DirectoryItem V

pub data LoadError : Type 0 where
  missing_directory : LoadError
  unsafe_object unknown_file invalid_json : Text → LoadError

-- A UnicodeDecodeError is no JSONDecodeError: it leaves the loader.
pub data LoadFailure : Type 0 where
  unicode_decode_error : LoadFailure

-- `name.endswith(".tmp")`
unfoldable pub is_temporary : Text → Bool
is_temporary name = drop (length name - 4) name == text ".tmp"

-- the files with their values, and the errors
abbrev pub Loaded : Type 0 → Type 0
Loaded V = List (Text × V) × List LoadError

module _ {V : Type 0} (unicode_decimal : ℕ → Bool) where
  -- one pass of the loop: `later` is what the rest of the directory gives
  unfoldable pub load_item : Text → DirectoryItem V → Loaded V → Result LoadFailure (Loaded V)
  load_item name unsafe (items, errors) = ok (items, unsafe_object name ∷ errors)
  load_item name item (items, errors) =
      if is_temporary name
      then ok (items, errors)
      else if not (is_evidence_name unicode_decimal name)
      then ok (items, unknown_file name ∷ errors)
      else elim item [
        | unsafe ↦ ok (items, unsafe_object name ∷ errors)
        | unreadable ↦ ok (items, invalid_json name ∷ errors)
        | not_utf8 ↦ err unicode_decode_error
        | json value ↦ ok ((name, value) ∷ items, errors)
      ]

  unfoldable pub load_items : List (Text × DirectoryItem V) → Result LoadFailure (Loaded V)
  load_items [] = ok ([], [])
  load_items ((name, item) ∷ rest) = load_items rest >>= λ later. load_item name item later

  -- `none`: the run's directory is missing, or a link
  unfoldable pub load_run_files :
      Option (List (Text × DirectoryItem V)) → Result LoadFailure (Loaded V)
  load_run_files none = ok ([], missing_directory ∷ [])
  load_run_files (some objects) = load_items (sort_on (λ (o : Text × DirectoryItem V). o.0) objects)
