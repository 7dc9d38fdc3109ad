-- ===== src/Scan.antt =====
-- filesystem.py: the scan of the selected scopes. One scope's loop is bounded by the entries that
-- the budget admits, so the fuel is one more than these.
pub mod Host
pub mod Loops
pub mod Bounds
pub mod Completeness
pub mod Directories
pub mod Confinement
pub mod Selection
use steward_public.Base.{
  ℕ, zero, suc, ◌+◌, Bool, true, false, not, ◌&&◌, ◌||◌, Option, none, some, List, [], ◌∷◌, ◌++◌,
  map, ◌==◌, nat_eq, list_eq, if◌then◌else◌, any, filter, length, Result, ok, err,
}
use steward_public.Base.Int.{ℤ, pos, int_eq, pos_part, ◌+ℤ◌, ltb_ℤ, leb_ℤ}
use steward_public.Base.Order.{nat_order, list_order, pair_order}
use steward_public.Base.Sort.{sort_on}
use steward_public.Base.Text.{Text, text, encode}
use steward_public.Models.Status.{
  FilesystemObservationStatus, not_found, excluded_root, scope_role_eq,
}
use steward_public.Models.Entry.{FilesystemEntry}
use steward_public.Models.Config.{FilePath, ScopeConfig, StewardConfig, ScanBudget}
use steward_public.Paths.{contains_path}
use steward_public.Diff.{location_key, location_sort_key}
use steward_public.Scan.Host.{
  Stat, OsError, ChildStat, found, file_not_found, permission_error, other_error,
  Host as HostSystem, ScanError, unicode_encode_error, root_refused, is_unencodable,
  is_regular_mode, is_directory_mode, as_posix, entry_of_error, entry_of_stat,
}

-- the variables of `scan`; `looks` counts the looks at the clock
pub record ScanState : Type 0 where
  pub entries : List FilesystemEntry
  pub partial : Bool
  pub byte_total : ℤ
  pub looks : ℕ

-- a directory on the stack: its components below the root, and its depth
abbrev pub Stack : Type 0
Stack = List (FilePath × ℕ)

-- `excluded` and `internal`
unfoldable pub skipped_roots : StewardConfig → List FilePath
skipped_roots config =
    map (λ (s : ScopeConfig). s.normalized_path)
      (filter (λ (s : ScopeConfig). s.role == excluded_root) config.scopes)
    ++ config.paths.data_dir ∷ config.paths.cache_dir ∷ config.paths.evidence_dir
      ∷ config.paths.quarantine_dir ∷ []

-- `any(path == item or item in path.parents for item in ...)`
unfoldable pub is_skipped : List FilePath → FilePath → Bool
is_skipped roots path = any (λ item. contains_path item path) roots

abbrev over_bytes : Option ℤ → ℤ → Bool
over_bytes none total = false
over_bytes (some limit) total = ltb_ℤ limit total

abbrev pub too_deep : Option ℤ → ℕ → Bool
too_deep none depth = false
too_deep (some limit) depth = leb_ℤ limit (pos depth)

abbrev pub with_entry : FilesystemEntry → ScanState → ScanState
with_entry entry s = record s { entries = s.entries ++ entry ∷ [] }

-- the new total of bytes, after the entry of a child that was not skipped
abbrev pub counted : Stat → ScanState → ScanState
counted info s =
    if is_regular_mode info.st_mode
    then record s { byte_total = s.byte_total +ℤ info.st_size }
    else s

module _ (hash : Text → Text) (host : HostSystem) (config : StewardConfig) (snapshot_id : Text)
    (budget : ScanBudget) where
  module _ (scope : ScopeConfig) (root_stat : Stat) where
    abbrev pub with_error : FilesystemObservationStatus → OsError → FilePath → ScanState → ScanState
    with_error status error relative s = record s {
      entries =
          s.entries
          ++ entry_of_error hash snapshot_id scope.scope_id (as_posix relative) status error ∷ [];
      partial = true;
    }

    abbrev pub out_of_budget : ScanState → Bool
    out_of_budget s = leb_ℤ budget.max_entries (pos (length s.entries)) || host.late s.looks

    -- `stat.S_ISDIR(...) and (scope.allow_cross_mount or same device)`
    abbrev pub descends : Stat → Bool
    descends info =
        is_directory_mode info.st_mode
        && (scope.allow_cross_mount || info.st_dev == root_stat.st_dev)

    abbrev pub exceeds : Stat → ScanState → Bool
    exceeds info s =
        is_regular_mode info.st_mode
        && over_bytes budget.max_total_stat_bytes (counted info s).byte_total

    -- the rest of the loop's body, by what `child.stat` answers. The first part of the result says
    -- whether the loop breaks.
    unfoldable pub child_answered :
        FilePath → ℕ → ChildStat → ScanState → Stack → Bool × (ScanState × Stack)
    child_answered relative depth (found info) s stack =
        let skipped = is_skipped (skipped_roots config) (scope.normalized_path ++ relative) in
        let seen =
          with_entry
            (entry_of_stat hash snapshot_id scope.scope_id (as_posix relative) info skipped) s in
        if skipped
        then (false, (seen, stack))
        else if exceeds info seen
        then (true, (record (counted info seen) { partial = true }, stack))
        else (
          false,
          (counted info seen, if descends info then (relative, depth + 1) ∷ stack else stack),
        )
    child_answered relative depth (file_not_found error) s stack =
        (false, (with_error not_found error relative s, stack))
    child_answered relative depth (permission_error error) s stack =
        (false, (with_error FilesystemObservationStatus.permission_denied error relative s, stack))
    child_answered relative depth (other_error error) s stack =
        (false, (with_error FilesystemObservationStatus.io_error error relative s, stack))

    -- the body of the loop over the children
    unfoldable pub scan_child : FilePath → ℕ → ScanState → Stack → Bool × (ScanState × Stack)
    scan_child relative depth s stack =
        if out_of_budget s
        then (true, (record s { partial = true }, stack))
        else child_answered relative depth (host.stat_child (scope.normalized_path ++ relative))
            (record s { looks = s.looks + 1 }) stack

    -- the loop over the children of a directory
    unfoldable pub scan_children : FilePath → ℕ → List Text → ScanState → Stack → ScanState × Stack
    scan_children directory depth [] s stack = (s, stack)
    scan_children directory depth (name ∷ rest) s stack =
        let (stop, next) = scan_child (directory ++ name ∷ []) depth s stack in
        let later = scan_children directory depth rest next.0 next.1 in if stop then next else later

    abbrev pub read_directory :
        Option (List Text) → FilePath → ℕ → ScanState → Stack → ScanState × Stack
    read_directory none directory depth s stack = (record s { partial = true }, stack)
    read_directory (some children) directory depth s stack =
        scan_children directory depth children s stack

    -- one round of the loop over the stack, on the directory that was popped
    unfoldable pub scan_directory : FilePath → ℕ → ScanState → Stack → ScanState × Stack
    scan_directory directory depth s stack =
        if too_deep budget.max_depth depth
        then (s, stack)
        else read_directory (host.scandir (scope.normalized_path ++ directory)) directory depth s
            stack

    -- `while stack and not partial`; none where the fuel is out
    unfoldable pub scan_stack : ℕ → ScanState → Stack → Option ScanState
    scan_stack fuel s [] = some s
    scan_stack zero s (top ∷ stack) = if s.partial then some s else none
    scan_stack (suc fuel) s ((directory, depth) ∷ stack) =
        let next = scan_directory directory depth s stack in
        let later = scan_stack fuel next.0 next.1 in if s.partial then some s else later

  -- `PERMISSION_DENIED if error.errno == 13 else IO_ERROR`
  abbrev pub root_error_status : OsError → FilesystemObservationStatus
  root_error_status error =
      if error.errno == 13
      then FilesystemObservationStatus.permission_denied
      else FilesystemObservationStatus.io_error

  -- what follows `os.lstat(root)`
  unfoldable pub scan_root : ScopeConfig → ScanState → Result OsError Stat → Option ScanState
  scan_root scope s (err error) = some record s {
    entries =
        s.entries
        ++ entry_of_error hash snapshot_id scope.scope_id (as_posix []) (root_error_status error)
            error
          ∷ [];
    partial = true;
  }
  scan_root scope s (ok root_stat) =
      scan_stack scope root_stat (suc (pos_part budget.max_entries))
        (record s {
          entries =
              s.entries
              ++ entry_of_stat hash snapshot_id scope.scope_id (as_posix []) root_stat false ∷ [];
        })
        (([], 0) ∷ [])

  -- the loop over the scopes. An exception of `_entry` in a scope's loop ends the scan: that loop
  -- ends in any case, so it is asked afterwards whether one of the entries has raised it.
  unfoldable pub scan_scopes : List ScopeConfig → ScanState → Option (Result ScanError ScanState)
  scan_scopes [] s = some (ok s)
  scan_scopes (scope ∷ rest) s = elim (host.is_dir scope.normalized_path) [
    | err error ↦ some (err (root_refused error))
    | ok false ↦ scan_scopes rest (record s { partial = true })
    | ok true ↦ elim (scan_root scope s (host.lstat scope.normalized_path)) [
      | none ↦ none
      | some next ↦
          let later = scan_scopes rest next in
          if any (is_unencodable snapshot_id) next.entries
          then some (err unicode_encode_error)
          else later
    ]
  ]

  abbrev pub start_state : ScanState
  start_state = record { entries = []; partial = false; byte_total = pos 0; looks = 0 }

  abbrev pub result_of : ScanState → List FilesystemEntry × Bool
  result_of s = (sort_on (λ e. location_sort_key (location_key e)) s.entries, s.partial)

  unfoldable pub scan : List ScopeConfig → Option (Result ScanError (List FilesystemEntry × Bool))
  scan scopes = elim (scan_scopes scopes start_state) [
    | none ↦ none
    | some (err error) ↦ some (err error)
    | some (ok s) ↦ some (ok (result_of s))
  ]
