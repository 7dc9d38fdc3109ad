-- ===== src/Scan/Loops.antt =====
-- The loop over a scope's directories ends within its fuel, and the entries stay within the budget.
use steward_public.Base.{
  ℕ, zero, suc, ◌+◌, ◌-◌, ◌≤◌, ◌<◌, ◌≡◌, refl, ap, ◌∙◌, Bool, true, Option, none, some, List, [],
  ◌∷◌, ◌++◌, arith, if_rule, length, length-append,
}
use steward_public.Base.Int.{pos_part, ◌+ℤ◌}
use steward_public.Base.Text.{Text}
use steward_public.Models.Status.{FilesystemObservationStatus, not_found}
use steward_public.Models.Entry.{FilesystemEntry}
use steward_public.Models.Config.{FilePath, ScopeConfig, StewardConfig, ScanBudget}
use steward_public.Base.Order.{nat_order, list_order, pair_order}
use steward_public.Scan.Host.{
  Stat, ChildStat, found, file_not_found, permission_error, other_error, Host as HostSystem,
  entry_of_stat, as_posix, is_regular_mode,
}
use steward_public.Scan.{
  ScanState, Stack, counted, exceeds, descends, is_skipped, skipped_roots, out_of_budget,
  child_answered, scan_child, scan_children, read_directory, scan_directory, scan_stack, with_entry,
  with_error,
}

counted-entries : (info : Stat) (s : ScanState) → (counted info s).entries ≡ s.entries
counted-entries info s =
    if_rule (λ (t : ScanState). t.entries ≡ s.entries) (is_regular_mode info.st_mode)
      (record s { byte_total = s.byte_total +ℤ info.st_size }) s (λ _. refl) (λ _. refl)

-- a loop ends, with entries below the bound
abbrev pub Ended : ℕ → Option ScanState → Type 0
Ended bound none = ⊥
Ended bound (some t) = length t.entries ≤ bound

module _ (hash : Text → Text) (host : HostSystem) (config : StewardConfig) (snapshot_id : Text)
    (budget : ScanBudget) where
  -- What is left to do, in directories: those on the stack, and the entries that may still come.
  abbrev pub work : ScanState × Stack → ℕ
  work o = length o.1 + (pos_part budget.max_entries - length o.0.entries)

  -- The entries stay below a bound that the budget keeps, and the work does not grow.
  abbrev Within : ℕ → ℕ → ScanState × Stack → Type 0
  Within bound left o = (length o.0.entries ≤ bound) × (work o ≤ left)

  module _ (scope : ScopeConfig) (root_stat : Stat) (bound : ℕ)
      (keeps : pos_part budget.max_entries ≤ bound) where
    one_more :
        (s t : ScanState) (stack next : Stack) (e : FilesystemEntry)
        → t.entries ≡ s.entries ++ e ∷ []
        → length next ≤ suc (length stack)
        → length s.entries < pos_part budget.max_entries
        → Within bound (work (s, stack)) (t, next)
    one_more s t stack next e added pushed room =
        let size = ap length added ∙ length-append s.entries (e ∷ []) in
        (omega (arith, size), omega (arith, size))

    child_answered-Within :
        (relative : FilePath) (depth : ℕ) (answer : ChildStat) (s : ScanState) (stack : Stack)
        → length s.entries < pos_part budget.max_entries
        → Within bound
            (work (s, stack))
            (child_answered hash host config snapshot_id budget scope root_stat relative depth
              answer s stack).1
    unfolding child_answered
    child_answered-Within relative depth (found info) s stack room =
        let skipped = is_skipped (skipped_roots config) (scope.normalized_path ++ relative) in
        let e = entry_of_stat hash snapshot_id scope.scope_id (as_posix relative) info skipped in
        let seen = with_entry e s in
        if_rule (λ (o : Bool × (ScanState × Stack)). Within bound (work (s, stack)) o.1) skipped _ _
          (λ _. one_more s seen stack stack e refl (omega arith) room)
          (λ _.
            if_rule (λ (o : Bool × (ScanState × Stack)). Within bound (work (s, stack)) o.1)
              (exceeds hash host config snapshot_id budget scope root_stat info seen) _ _
              (λ _.
                one_more s (record (counted info seen) { partial = true }) stack stack e
                  (counted-entries info seen) (omega arith) room)
              (λ _.
                one_more s (counted info seen) stack _ e (counted-entries info seen)
                  (if_rule (λ k. length k ≤ suc (length stack))
                    (descends hash host config snapshot_id budget scope root_stat info)
                    ((relative, depth + 1) ∷ stack) stack (λ _. omega arith) (λ _. omega arith))
                  room))
    child_answered-Within relative depth (file_not_found error) s stack room =
        one_more s
          (with_error hash host config snapshot_id budget scope root_stat not_found error relative
            s)
          stack stack _ refl (omega arith) room
    child_answered-Within relative depth (permission_error error) s stack room =
        one_more s
          (with_error hash host config snapshot_id budget scope root_stat
            FilesystemObservationStatus.permission_denied error relative s)
          stack stack _ refl (omega arith) room
    child_answered-Within relative depth (other_error error) s stack room =
        one_more s
          (with_error hash host config snapshot_id budget scope root_stat
            FilesystemObservationStatus.io_error error relative s)
          stack stack _ refl (omega arith) room

    scan_child-Within :
        (relative : FilePath) (depth : ℕ) (s : ScanState) (stack : Stack)
        → length s.entries ≤ bound
        → Within bound
            (work (s, stack))
            (scan_child hash host config snapshot_id budget scope root_stat relative depth s
              stack).1
    unfolding scan_child
    scan_child-Within relative depth s stack small =
        if_rule (λ (o : Bool × (ScanState × Stack)). Within bound (work (s, stack)) o.1)
          (out_of_budget hash host config snapshot_id budget scope root_stat s) _ _
          (λ _. (small, omega arith))
          (λ within.
            child_answered-Within relative depth
              (host.stat_child (scope.normalized_path ++ relative))
              (record s { looks = s.looks + 1 }) stack (ground arith))

    scan_children-Within :
        (directory : FilePath) (depth : ℕ) (children : List Text) (s : ScanState) (stack : Stack)
        → length s.entries ≤ bound
        → Within bound (work (s, stack)) (
            scan_children hash host config snapshot_id budget scope root_stat directory depth
              children s stack)
    unfolding scan_children
    scan_children-Within directory depth [] s stack small = (small, omega arith)
    scan_children-Within directory depth (name ∷ rest) s stack small =
        let first = scan_child-Within (directory ++ name ∷ []) depth s stack small in
        let (stop, next) =
          scan_child hash host config snapshot_id budget scope root_stat (directory ++ name ∷ [])
            depth s stack in
        let later = scan_children-Within directory depth rest next.0 next.1 first.0 in
        if_rule (Within bound (work (s, stack))) stop next _ (λ _. first)
          (λ _. (later.0, omega (arith, later.1, first.1)))

    read_directory-Within :
        (children : Option (List Text)) (directory : FilePath) (depth : ℕ) (s : ScanState)
        (stack : Stack)
        → length s.entries ≤ bound
        → Within bound (work (s, stack)) (
            read_directory hash host config snapshot_id budget scope root_stat children directory
              depth s stack)
    read_directory-Within none directory depth s stack small = (small, omega arith)
    read_directory-Within (some children) directory depth s stack small =
        scan_children-Within directory depth children s stack small

    scan_directory-Within :
        (directory : FilePath) (depth : ℕ) (s : ScanState) (stack : Stack)
        → length s.entries ≤ bound
        → Within bound (work (s, stack)) (
            scan_directory hash host config snapshot_id budget scope root_stat directory depth s
              stack)
    unfolding scan_directory
    scan_directory-Within directory depth s stack small =
        if_rule (Within bound (work (s, stack))) _ _ _ (λ _. (small, omega arith))
          (λ _.
            read_directory-Within (host.scandir (scope.normalized_path ++ directory)) directory
              depth s stack small)

    pub scan_stack-Ended :
        (fuel : ℕ) (s : ScanState) (stack : Stack)
        → length s.entries ≤ bound
        → work (s, stack) ≤ fuel
        → Ended bound (scan_stack hash host config snapshot_id budget scope root_stat fuel s stack)
    unfolding scan_stack
    scan_stack-Ended zero s [] small enough = small
    scan_stack-Ended (suc fuel) s [] small enough = small
    scan_stack-Ended zero s (top ∷ stack) small enough = absurd (omega arith)
    scan_stack-Ended (suc fuel) s ((directory, depth) ∷ stack) small enough =
        let next =
          scan_directory hash host config snapshot_id budget scope root_stat directory depth s
            stack in
        let within = scan_directory-Within directory depth s stack small in
        if_rule (Ended bound) s.partial (some s)
          (scan_stack hash host config snapshot_id budget scope root_stat fuel next.0 next.1)
          (λ _. small) (λ _. scan_stack-Ended fuel next.0 next.1 within.0 (omega (arith, within.1)))
