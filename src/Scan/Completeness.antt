-- ===== src/Scan/Completeness.antt =====
-- What a scan that is not partial says of its entries.
use steward_public.Base.{
  ℕ, zero, suc, ◌+◌, ◌≡◌, refl, ap, subst, Bool, true, false, Option, none, some, any, List, [],
  ◌∷◌, ◌++◌, if_rule, if◌then◌else◌, All, All-append, Result, ok, err,
}
use steward_public.Base.Int.{◌+ℤ◌}
use steward_public.Base.Order.{nat_order, list_order, pair_order}
use steward_public.Base.Sort.{sort_on-All}
use steward_public.Base.Text.{Text}
use steward_public.Models.Status.{observed}
use steward_public.Models.Entry.{FilesystemEntry}
use steward_public.Models.Config.{FilePath, ScopeConfig, StewardConfig, ScanBudget}
use steward_public.Diff.{location_key, location_sort_key}
use steward_public.Scan.Host.{
  Stat, OsError, ScanError, unicode_encode_error, root_refused, is_unencodable, ChildStat, found,
  file_not_found, permission_error, other_error, Host as HostSystem, entry_of_stat, as_posix,
  is_regular_mode,
}
use steward_public.Scan.{
  ScanState, Stack, with_entry, counted, exceeds, is_skipped, skipped_roots, out_of_budget,
  child_answered, scan_child, scan_children, read_directory, scan_directory, scan_stack, scan_root,
  scan_scopes, scan, start_state, result_of,
}

abbrev pub AllObserved : List FilesystemEntry → Type 0
AllObserved = All (λ (e : FilesystemEntry). e.observation_status ≡ observed)

abbrev Clean : ScanState → Type 0
Clean s = s.partial ≡ false → AllObserved s.entries

abbrev CleanIf : Option ScanState → Type 0
CleanIf none = Unit
CleanIf (some s) = Clean s

abbrev CleanOk : Option (Result ScanError ScanState) → Type 0
CleanOk none = Unit
CleanOk (some (err error)) = Unit
CleanOk (some (ok s)) = Clean s

counted-Clean : (info : Stat) (s : ScanState) → Clean s → Clean (counted info s)
counted-Clean info s clean =
    if_rule Clean (is_regular_mode info.st_mode)
      (record s { byte_total = s.byte_total +ℤ info.st_size }) s (λ _. clean) (λ _. clean)

module _ (hash : Text → Text) (host : HostSystem) (config : StewardConfig) (snapshot_id : Text)
    (budget : ScanBudget) where
  module _ (scope : ScopeConfig) (root_stat : Stat) where
    child_answered-Clean :
        (relative : FilePath) (depth : ℕ) (answer : ChildStat) (s : ScanState) (stack : Stack)
        → Clean s
        → Clean
            (child_answered hash host config snapshot_id budget scope root_stat relative depth
              answer s stack).1.0
    unfolding child_answered entry_of_stat
    child_answered-Clean relative depth (found info) s stack clean =
        let skipped = is_skipped (skipped_roots config) (scope.normalized_path ++ relative) in
        let e = entry_of_stat hash snapshot_id scope.scope_id (as_posix relative) info skipped in
        let seen : Clean (with_entry e s) =
          λ h. All-append _ s.entries (e ∷ []) (clean h) (refl, tt) in
        if_rule (λ (o : Bool × (ScanState × Stack)). Clean o.1.0) skipped _ _ (λ _. seen)
          (λ _.
            if_rule (λ (o : Bool × (ScanState × Stack)). Clean o.1.0)
              (exceeds hash host config snapshot_id budget scope root_stat info (with_entry e s)) _
              _ (λ _ h. cc) (λ _. counted-Clean info (with_entry e s) seen))
    child_answered-Clean relative depth (file_not_found error) s stack clean = λ h. cc
    child_answered-Clean relative depth (permission_error error) s stack clean = λ h. cc
    child_answered-Clean relative depth (other_error error) s stack clean = λ h. cc

    scan_child-Clean :
        (relative : FilePath) (depth : ℕ) (s : ScanState) (stack : Stack)
        → Clean s
        → Clean
            (scan_child hash host config snapshot_id budget scope root_stat relative depth s
              stack).1.0
    unfolding scan_child
    scan_child-Clean relative depth s stack clean =
        if_rule (λ (o : Bool × (ScanState × Stack)). Clean o.1.0)
          (out_of_budget hash host config snapshot_id budget scope root_stat s) _ _ (λ _ h. cc)
          (λ _.
            child_answered-Clean relative depth
              (host.stat_child (scope.normalized_path ++ relative))
              (record s { looks = s.looks + 1 }) stack clean)

    scan_children-Clean :
        (directory : FilePath) (depth : ℕ) (children : List Text) (s : ScanState) (stack : Stack)
        → Clean s
        → Clean
            (scan_children hash host config snapshot_id budget scope root_stat directory depth
              children s stack).0
    unfolding scan_children
    scan_children-Clean directory depth [] s stack clean = clean
    scan_children-Clean directory depth (name ∷ rest) s stack clean =
        let first = scan_child-Clean (directory ++ name ∷ []) depth s stack clean in
        let (stop, next) =
          scan_child hash host config snapshot_id budget scope root_stat (directory ++ name ∷ [])
            depth s stack in
        if_rule (λ (o : ScanState × Stack). Clean o.0) stop next _ (λ _. first)
          (λ _. scan_children-Clean directory depth rest next.0 next.1 first)

    read_directory-Clean :
        (children : Option (List Text)) (directory : FilePath) (depth : ℕ) (s : ScanState)
        (stack : Stack)
        → Clean s
        → Clean
            (read_directory hash host config snapshot_id budget scope root_stat children directory
              depth s stack).0
    read_directory-Clean none directory depth s stack clean = λ h. cc
    read_directory-Clean (some children) directory depth s stack clean =
        scan_children-Clean directory depth children s stack clean

    scan_directory-Clean :
        (directory : FilePath) (depth : ℕ) (s : ScanState) (stack : Stack)
        → Clean s
        → Clean
            (scan_directory hash host config snapshot_id budget scope root_stat directory depth s
              stack).0
    unfolding scan_directory
    scan_directory-Clean directory depth s stack clean =
        if_rule (λ (o : ScanState × Stack). Clean o.0) _ _ _ (λ _. clean)
          (λ _.
            read_directory-Clean (host.scandir (scope.normalized_path ++ directory)) directory depth
              s stack clean)

    scan_stack-Clean :
        (fuel : ℕ) (s : ScanState) (stack : Stack)
        → Clean s
        → CleanIf (scan_stack hash host config snapshot_id budget scope root_stat fuel s stack)
    unfolding scan_stack
    scan_stack-Clean zero s [] clean = clean
    scan_stack-Clean (suc fuel) s [] clean = clean
    scan_stack-Clean zero s (top ∷ stack) clean =
        if_rule CleanIf s.partial (some s) none (λ _. clean) (λ _. tt)
    scan_stack-Clean (suc fuel) s ((directory, depth) ∷ stack) clean =
        let next =
          scan_directory hash host config snapshot_id budget scope root_stat directory depth s
            stack in
        if_rule CleanIf s.partial (some s)
          (scan_stack hash host config snapshot_id budget scope root_stat fuel next.0 next.1)
          (λ _. clean)
          (λ _.
            scan_stack-Clean fuel next.0 next.1
              (scan_directory-Clean directory depth s stack clean))

  scan_root-Clean :
      (scope : ScopeConfig) (s : ScanState) (root : Result OsError Stat)
      → Clean s
      → CleanIf (scan_root hash host config snapshot_id budget scope s root)
  unfolding scan_root entry_of_stat
  scan_root-Clean scope s (err error) clean = λ h. cc
  scan_root-Clean scope s (ok root_stat) clean =
      scan_stack-Clean scope root_stat _ _ (([], 0) ∷ [])
        (λ h. All-append _ s.entries (_ ∷ []) (clean h) (refl, tt))

  root_then :
      (rest : List ScopeConfig)
      → ((next : ScanState)
          → Clean next
          → CleanOk (scan_scopes hash host config snapshot_id budget rest next))
      → (root : Option ScanState) → CleanIf root
      → CleanOk (elim root [
        | none ↦ none
        | some next ↦
            let later = scan_scopes hash host config snapshot_id budget rest next in
            if any (is_unencodable snapshot_id) next.entries
            then some (err unicode_encode_error)
            else later
      ])
  root_then rest after none clean = tt
  root_then rest after (some next) clean =
      if_rule CleanOk (any (is_unencodable snapshot_id) next.entries) _ _ (λ _. tt)
        (λ _. after next clean)

  scan_scopes-Clean :
      (scopes : List ScopeConfig) (s : ScanState)
      → Clean s
      → CleanOk (scan_scopes hash host config snapshot_id budget scopes s)
  unfolding scan_scopes
  scan_scopes-Clean [] s clean = clean
  scan_scopes-Clean (scope ∷ rest) s clean =
      answered (host.is_dir scope.normalized_path) (λ next. scan_scopes-Clean rest next)
    where
      answered :
          (answer : Result OsError Bool)
          → ((next : ScanState)
              → Clean next
              → CleanOk (scan_scopes hash host config snapshot_id budget rest next))
          → CleanOk (elim answer [
            | err error ↦ some (err (root_refused error))
            | ok false ↦
                scan_scopes hash host config snapshot_id budget rest (record s { partial = true })
            | ok true ↦
                elim (scan_root hash host config snapshot_id budget scope s
                  (host.lstat scope.normalized_path)) [
                    | none ↦ none
                    | some next ↦
                        let later = scan_scopes hash host config snapshot_id budget rest next in
                        if any (is_unencodable snapshot_id) next.entries
                        then some (err unicode_encode_error)
                        else later
                  ]
          ])
      answered (err error) after = tt
      answered (ok false) after = after (record s { partial = true }) (λ h. cc)
      answered (ok true) after =
          root_then rest after
            (scan_root hash host config snapshot_id budget scope s
              (host.lstat scope.normalized_path))
            (scan_root-Clean scope s (host.lstat scope.normalized_path) clean)

  by_end :
      (o : Option (Result ScanError ScanState)) (entries : List FilesystemEntry)
      → CleanOk o
      → elim o [
        | none ↦ none
        | some (err error) ↦ some (err error)
        | some (ok s) ↦ some (ok (result_of hash host config snapshot_id budget s))
      ]
        ≡ some (ok (entries, false))
      → AllObserved entries
  by_end none entries clean h = cc
  by_end (some (err error)) entries clean h = cc
  by_end (some (ok s)) entries clean h =
      let same : result_of hash host config snapshot_id budget s ≡ (entries, false) = cc in
      subst AllObserved (ap (λ (r : List FilesystemEntry × Bool). r.0) same) (
        sort_on-All (λ e. location_sort_key (location_key e)) _ s.entries
          (clean (ap (λ (r : List FilesystemEntry × Bool). r.1) same)))

  -- Where a scan returns and is not reported as partial, every object that it recorded was observed: an object that was
  -- gone, refused or unreadable makes the scan partial.
  pub scan-AllObserved :
      (scopes : List ScopeConfig) (entries : List FilesystemEntry)
      → scan hash host config snapshot_id budget scopes ≡ some (ok (entries, false))
      → AllObserved entries
  unfolding scan
  scan-AllObserved scopes entries h =
      by_end
        (scan_scopes hash host config snapshot_id budget scopes
          (start_state hash host config snapshot_id budget))
        entries
        (scan_scopes-Clean scopes (start_state hash host config snapshot_id budget) (λ _. tt)) h
