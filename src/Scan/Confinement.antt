-- ===== src/Scan/Confinement.antt =====
-- Where the entries of a scan stand: below the scopes, and not below a skipped root.
use mathlib.Core.List.{append-nil}
use steward_public.Base.{
  ◌≡◌, inl, refl, sym, subst, Bool, true, false, Option, none, some, List, [], ◌∷◌, ◌++◌, any,
  All-map, Bool-cases, inr, if_rule, if◌then◌else◌, All, All-append, Result, ok, err,
}
use steward_public.Base.Order.{nat_order, list_order, pair_order}
use steward_public.Base.Sort.{sort_on-All}
use steward_public.Base.Text.{Text}
use steward_public.Models.Entry.{FilesystemEntry}
use steward_public.Models.Config.{FilePath, ScopeConfig, StewardConfig, ScanBudget}
use steward_public.Diff.{location_key, location_sort_key}
use steward_public.Scan.Host.{
  Stat, OsError, ScanError, unicode_encode_error, root_refused, is_unencodable, Host as HostSystem,
  entry_of_stat, entry_of_error, as_posix,
}
use steward_public.Scan.{
  ScanState, is_skipped, skipped_roots, scan_root, scan_scopes, scan, start_state, result_of,
}
use steward_public.Scan.Directories.{IsPlaced, AllIf, scan_stack-Kept}

-- An entry that the scan may make for one of the scopes that have the property.
abbrev pub IsPlacedIn :
    HostSystem
    → ScanBudget
    → (ScopeConfig → FilePath → Type 0)
    → (ScopeConfig → Type 0)
    → FilesystemEntry
    → Type 0
IsPlacedIn host budget Open P e =
    (scope : ScopeConfig) × P scope × IsPlaced host budget (Open scope) scope e

unencodable_one :
    (Q : FilesystemEntry → Type 0) (snapshot_id : Text) (entries : List FilesystemEntry)
    → All Q entries
    → any (is_unencodable snapshot_id) entries ≡ true
    → (e : FilesystemEntry) × Q e × (is_unencodable snapshot_id e ≡ true)
unencodable_one Q snapshot_id [] all h = cc
unencodable_one Q snapshot_id (e ∷ entries) all h =
    elim (Bool-cases (is_unencodable snapshot_id e)) [
      | inl odd ↦ (e, all.0, odd)
      | inr even ↦ unencodable_one Q snapshot_id entries all.1 (rw even at h)
    ]

module _ (hash : Text → Text) (host : HostSystem) (config : StewardConfig) (snapshot_id : Text)
    (budget : ScanBudget) (Open : ScopeConfig → FilePath → Type 0)
    (opens : (scope : ScopeConfig) (directory : FilePath)
      → is_skipped (skipped_roots config) (scope.normalized_path ++ directory) ≡ false
      → Open scope directory)
    (P : ScopeConfig → Type 0) where
  abbrev IsMine : FilesystemEntry → Type 0
  IsMine = IsPlacedIn host budget Open P

  -- Every entry is placed, and an exception has its cause in an entry or a scope.
  abbrev pub Explained : Option (Result ScanError ScanState) → Type 0
  Explained none = Unit
  Explained (some (ok s)) = All IsMine s.entries
  Explained (some (err unicode_encode_error)) =
      (e : FilesystemEntry) × IsMine e × (is_unencodable snapshot_id e ≡ true)
  Explained (some (err (root_refused error))) =
      (scope : ScopeConfig) × P scope × (host.is_dir scope.normalized_path ≡ err error)

  scan_root-All :
      (scope : ScopeConfig) (s : ScanState) (root : Result OsError Stat)
      → P scope
      → Open scope []
      → All IsMine s.entries
      → AllIf IsMine (scan_root hash host config snapshot_id budget scope s root)
  unfolding scan_root entry_of_stat entry_of_error as_posix
  scan_root-All scope s (err error) mine is_open h =
      All-append IsMine s.entries (_ ∷ []) h ((scope, mine, (refl, inl refl)), tt)
  scan_root-All scope s (ok root_stat) mine is_open h =
      scan_stack-Kept hash host config snapshot_id budget IsMine scope root_stat (Open scope)
        (opens scope) (λ e w. (scope, mine, w)) _ _ (([], 0) ∷ [])
        (
          All-append IsMine s.entries (_ ∷ []) h ((scope, mine, (refl, inl refl)), tt),
          ((refl, is_open), tt),
        )

  root_then :
      (rest : List ScopeConfig)
      → ((next : ScanState)
          → All IsMine next.entries
          → Explained (scan_scopes hash host config snapshot_id budget rest next))
      → (root : Option ScanState) → AllIf IsMine root
      → Explained (elim root [
        | none ↦ none
        | some next ↦
            let later = scan_scopes hash host config snapshot_id budget rest next in
            if any (is_unencodable snapshot_id) next.entries
            then some (err unicode_encode_error)
            else later
      ])
  root_then rest after none h = tt
  root_then rest after (some next) h =
      if_rule Explained (any (is_unencodable snapshot_id) next.entries) _ _
        (λ odd. unencodable_one IsMine snapshot_id next.entries h odd) (λ _. after next h)

  dir_then :
      (scope : ScopeConfig) (rest : List ScopeConfig) (s : ScanState)
      → P scope
      → Open scope []
      → All IsMine s.entries
      → ((next : ScanState)
          → All IsMine next.entries
          → Explained (scan_scopes hash host config snapshot_id budget rest next))
      → (answer : Result OsError Bool) → host.is_dir scope.normalized_path ≡ answer
      → Explained (elim answer [
        | err error ↦ some (err (root_refused error))
        | ok false ↦
            scan_scopes hash host config snapshot_id budget rest (record s { partial = true })
        | ok true ↦
            elim (scan_root hash host config snapshot_id budget scope s
              (host.lstat scope.normalized_path)) [
                | none ↦ none
                | some next ↦
                    let later = scan_scopes hash host config snapshot_id budget rest next in
                    if any (is_unencodable snapshot_id) next.entries
                    then some (err unicode_encode_error)
                    else later
              ]
      ])
  dir_then scope rest s mine is_open h after (err error) e = (scope, mine, e)
  dir_then scope rest s mine is_open h after (ok false) e = after (record s { partial = true }) h
  dir_then scope rest s mine is_open h after (ok true) e =
      root_then rest after
        (scan_root hash host config snapshot_id budget scope s (host.lstat scope.normalized_path))
        (scan_root-All scope s (host.lstat scope.normalized_path) mine is_open h)

  pub scan_scopes-Explained :
      (scopes : List ScopeConfig) (s : ScanState)
      → All P scopes
      → All (λ scope. Open scope []) scopes
      → All IsMine s.entries
      → Explained (scan_scopes hash host config snapshot_id budget scopes s)
  unfolding scan_scopes
  scan_scopes-Explained [] s mine is_open h = h
  scan_scopes-Explained (scope ∷ rest) s mine is_open h =
      dir_then scope rest s mine.0 is_open.0 h
        (λ next. scan_scopes-Explained rest next mine.1 is_open.1)
        (host.is_dir scope.normalized_path) refl

module _ (config : StewardConfig) where
  -- A directory of a scope whose children may be recorded.
  abbrev pub IsOpen : ScopeConfig → FilePath → Type 0
  IsOpen scope directory =
      is_skipped (skipped_roots config) (scope.normalized_path ++ directory) ≡ false

module _ (host : HostSystem) (config : StewardConfig) (budget : ScanBudget) where
  -- An entry of a scope that has the property.
  abbrev pub IsConfined : (ScopeConfig → Type 0) → FilesystemEntry → Type 0
  IsConfined = IsPlacedIn host budget (IsOpen config)

module _ (hash : Text → Text) (host : HostSystem) (config : StewardConfig) (snapshot_id : Text)
    (budget : ScanBudget) (P : ScopeConfig → Type 0) where
  by_end :
      (o : Option (Result ScanError ScanState)) (r : List FilesystemEntry × Bool)
      → Explained hash host config snapshot_id budget (IsOpen config) (λ scope d h. h) P o
      → elim o [
        | none ↦ none
        | some (err error) ↦ some (err error)
        | some (ok s) ↦ some (ok (result_of hash host config snapshot_id budget s))
      ]
        ≡ some (ok r)
      → All (IsConfined host config budget P) r.0
  by_end none r all h = cc
  by_end (some (err e)) r all h = cc
  by_end (some (ok s)) r all h =
      let same : result_of hash host config snapshot_id budget s ≡ r = cc in
      subst (λ (r : List FilesystemEntry × Bool). All (IsConfined host config budget P) r.0) same
        (sort_on-All (λ e. location_sort_key (location_key e)) (IsConfined host config budget P)
          s.entries all)

  -- Where no scope of a scan stands in an excluded root or in a directory of the steward's own, every
  -- entry of a scan that returns, of an error too, belongs to one of the scopes, with any property that
  -- all of these have. It is the root of that scope, or a child that the file system lists in a
  -- directory of it, where that directory is not in an excluded root or in an own directory and is
  -- less deep than the budget's depth.
  pub scan-IsConfined :
      (scopes : List ScopeConfig) (r : List FilesystemEntry × Bool)
      → All P scopes
      → All
          (λ (scope : ScopeConfig). is_skipped (skipped_roots config) scope.normalized_path ≡ false)
          scopes
      → scan hash host config snapshot_id budget scopes ≡ some (ok r)
      → All (IsConfined host config budget P) r.0
  unfolding scan
  scan-IsConfined scopes r meets is_open h =
      let start = start_state hash host config snapshot_id budget in
      by_end (scan_scopes hash host config snapshot_id budget scopes start) r
        (scan_scopes-Explained hash host config snapshot_id budget (IsOpen config)
          (λ scope d shut. shut) P scopes start meets
          (All-map _ (λ (scope : ScopeConfig). IsOpen config scope [])
            (λ scope shut.
              subst (λ path. is_skipped (skipped_roots config) path ≡ false)
                (sym (append-nil scope.normalized_path)) shut)
            scopes is_open)
          tt)
        h
