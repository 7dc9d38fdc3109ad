-- ===== src/Scan/Bounds.antt =====
-- The scan of a scope ends within its fuel, and the entries stay within the budget.
use steward_public.Base.{
  ℕ, suc, ◌+◌, ◌≤◌, ◌<◌, ◌≡◌, refl, subst, Bool, true, false, Option, none, some, List, [], ◌∷◌,
  ◌++◌, arith, if_rule, if◌then◌else◌, any, length, length-append, Result, ok, err,
}
use steward_public.Base.Among.{Among, All-of_Among}
use steward_public.Base.Int.{pos_part}
use steward_public.Base.Text.{Text}
use steward_public.Models.Entry.{FilesystemEntry}
use steward_public.Models.Config.{ScopeConfig, StewardConfig, ScanBudget}
use steward_public.Base.Sort.{length-sort_on}
use steward_public.Base.Order.{nat_order, list_order, pair_order}
use steward_public.Diff.{location_key, location_sort_key}
use steward_public.Scan.Host.{
  Stat, OsError, ScanError, unicode_encode_error, root_refused, is_unencodable, Host as HostSystem,
  entry_of_stat, entry_of_error, as_posix,
}
use steward_public.Scan.{
  ScanState, scan_root, scan_scopes, scan, start_state, result_of, root_error_status,
}
use steward_public.Scan.Confinement.{IsPlacedIn, Explained, scan_scopes-Explained}
use steward_public.Scan.Loops.{Ended, scan_stack-Ended}

-- the scan ends: with entries below the bound, or with an exception
abbrev EndedOk : ℕ → Option (Result ScanError ScanState) → Type 0
EndedOk bound none = ⊥
EndedOk bound (some (err error)) = Unit
EndedOk bound (some (ok t)) = length t.entries ≤ bound

module _ (hash : Text → Text) (host : HostSystem) (config : StewardConfig) (snapshot_id : Text)
    (budget : ScanBudget) where
  scan_root-Ended :
      (scope : ScopeConfig) (s : ScanState) (root : Result OsError Stat) (bound : ℕ)
      → pos_part budget.max_entries ≤ bound
      → length s.entries < bound
      → Ended bound (scan_root hash host config snapshot_id budget scope s root)
  unfolding scan_root
  scan_root-Ended scope s (err error) bound keeps room = omega (
    arith,
    length-append s.entries (
        entry_of_error hash snapshot_id scope.scope_id (as_posix [])
          (root_error_status hash host config snapshot_id budget error) error
        ∷ []),
  )
  scan_root-Ended scope s (ok root_stat) bound keeps room =
      let e = entry_of_stat hash snapshot_id scope.scope_id (as_posix []) root_stat false in
      let size = length-append s.entries (e ∷ []) in
      scan_stack-Ended hash host config snapshot_id budget scope root_stat bound keeps
        (suc (pos_part budget.max_entries)) (record s { entries = s.entries ++ e ∷ [] })
        (([], 0) ∷ []) (omega (arith, size)) (omega (arith, size))

  root_then :
      (rest : List ScopeConfig) (bound : ℕ)
      → ((next : ScanState)
          → length next.entries ≤ suc bound
          → EndedOk
              (bound + suc (length rest))
              (scan_scopes hash host config snapshot_id budget rest next))
      → (root : Option ScanState) → Ended (suc bound) root
      → EndedOk (bound + suc (length rest)) (elim root [
        | none ↦ none
        | some next ↦
            let later = scan_scopes hash host config snapshot_id budget rest next in
            if any (is_unencodable snapshot_id) next.entries
            then some (err unicode_encode_error)
            else later
      ])
  root_then rest bound after none ended = ended
  root_then rest bound after (some next) ended =
      if_rule (EndedOk (bound + suc (length rest))) (any (is_unencodable snapshot_id) next.entries)
        _ _ (λ _. tt) (λ _. after next ended)

  scan_scopes-Ended :
      (scopes : List ScopeConfig) (s : ScanState) (bound : ℕ)
      → pos_part budget.max_entries ≤ bound
      → length s.entries ≤ bound
      → EndedOk (bound + length scopes) (scan_scopes hash host config snapshot_id budget scopes s)
  unfolding scan_scopes
  scan_scopes-Ended [] s bound keeps small = omega arith
  scan_scopes-Ended (scope ∷ rest) s bound keeps small =
      let size : suc bound + length rest ≡ bound + suc (length rest) = omega arith in
      answered (host.is_dir scope.normalized_path) (λ next few.
        subst (λ n. EndedOk n (scan_scopes hash host config snapshot_id budget rest next)) size
          (scan_scopes-Ended rest next (suc bound) (omega arith) few))
    where
      answered :
          (answer : Result OsError Bool)
          → ((next : ScanState)
              → length next.entries ≤ suc bound
              → EndedOk
                  (bound + suc (length rest))
                  (scan_scopes hash host config snapshot_id budget rest next))
          → EndedOk (bound + suc (length rest)) (elim answer [
            | err error ↦ some (err (root_refused error))
            | ok false ↦
                scan_scopes hash host config snapshot_id budget rest (record s { partial = true })
            | ok true ↦
                elim (scan_root hash host config snapshot_id budget scope s
                  (host.lstat scope.normalized_path)) [
                    | none ↦ none
                    | some next ↦
                        let later = scan_scopes hash host config snapshot_id budget rest next in
                        if any (is_unencodable snapshot_id) next.entries
                        then some (err unicode_encode_error)
                        else later
                  ]
          ])
      answered (err error) after = tt
      answered (ok false) after = after (record s { partial = true }) (omega arith)
      answered (ok true) after =
          root_then rest bound after
            (scan_root hash host config snapshot_id budget scope s
              (host.lstat scope.normalized_path))
            (scan_root-Ended scope s (host.lstat scope.normalized_path) (suc bound) (omega arith)
              (omega arith))

  -- How a scan of these scopes may end: with entries in the budget, or with an exception that has its
  -- cause in an entry that the scan may make or in the root of a scope.
  abbrev pub Answers : List ScopeConfig → Result ScanError (List FilesystemEntry × Bool) → Type 0
  Answers scopes (ok r) = length r.0 ≤ pos_part budget.max_entries + length scopes
  Answers scopes (err unicode_encode_error) =
      (e : FilesystemEntry) × IsPlacedIn host budget (λ scope directory. Unit)
        (λ scope. Among scope scopes) e
      × (is_unencodable snapshot_id e ≡ true)
  Answers scopes (err (root_refused error)) =
      (scope : ScopeConfig) × Among scope scopes × (host.is_dir scope.normalized_path ≡ err error)

  -- The scan always ends, whatever the file system holds, links to and answers and however the clock
  -- runs. It returns entries that are no more than the budget admits and one for each scope; or it raises
  -- UnicodeEncodeError, when the key of a scope's root or of a child that the file system lists in a
  -- directory of a scope has a lone surrogate; or it raises the OSError that asking whether the root of
  -- one of the scopes is a directory has raised.
  pub scan-total :
      (scopes : List ScopeConfig)
      → (o : Result ScanError (List FilesystemEntry × Bool)) × (scan hash host config snapshot_id
            budget scopes
          ≡ some o)
        × Answers scopes o
  unfolding scan
  scan-total scopes =
      by_end (scan_scopes hash host config snapshot_id budget scopes start) refl
        (scan_scopes-Ended scopes start (pos_part budget.max_entries) (omega arith) (omega arith))
        (scan_scopes-Explained hash host config snapshot_id budget (λ scope directory. Unit)
          (λ scope directory h. tt) (λ scope. Among scope scopes) scopes start
          (All-of_Among (λ scope. Among scope scopes) scopes (λ scope m. m))
          (All-of_Among (λ scope. Unit) scopes (λ scope m. tt)) tt)
    where
      start : ScanState
      start = start_state hash host config snapshot_id budget

      by_end :
          (o : Option (Result ScanError ScanState))
          → scan_scopes hash host config snapshot_id budget scopes start ≡ o
          → EndedOk (pos_part budget.max_entries + length scopes) o
          → Explained hash host config snapshot_id budget
              (λ scope directory. Unit)
              (λ scope directory h. tt)
              (λ scope. Among scope scopes)
              o
          → (r : Result ScanError (List FilesystemEntry × Bool)) × (elim (scan_scopes hash host
                config snapshot_id budget scopes start) [
                  | none ↦ none
                  | some (err error) ↦ some (err error)
                  | some (ok s) ↦ some (ok (result_of hash host config snapshot_id budget s))
                ]
              ≡ some r)
            × Answers scopes r
      by_end none e ended explained = absurd ended
      by_end (some (err unicode_encode_error)) e ended explained =
          (err unicode_encode_error, rw e refl, explained)
      by_end (some (err (root_refused error))) e ended explained =
          (err (root_refused error), rw e refl, explained)
      by_end (some (ok s)) e ended explained = (
        ok (result_of hash host config snapshot_id budget s),
        rw e refl,
        omega (arith, ended, length-sort_on (λ x. location_sort_key (location_key x)) s.entries),
      )
