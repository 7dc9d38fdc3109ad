-- ===== src/Scan/Directories.antt =====
-- The loops of a scope's scan, for a property of the entries that stand where a scan may look.

use steward_public.Base.{
  ℕ, zero, suc, ◌+◌, ◌≡◌, ◌⊎◌, inl, inr, refl, subst, Bool, false, Option, none, some, arith,
  length, length-append, List, [], ◌∷◌, ◌++◌, if_rule, All, All-append,
}
use steward_public.Base.Among.{Among}
use steward_public.Base.Int.{◌+ℤ◌}
use steward_public.Base.Order.{nat_order, list_order, pair_order}
use steward_public.Base.Text.{Text, text}
use steward_public.Models.Entry.{FilesystemEntry}
use steward_public.Models.Config.{FilePath, ScopeConfig, StewardConfig, ScanBudget}
use steward_public.Scan.Host.{
  Stat, ChildStat, found, file_not_found, permission_error, other_error, Host as HostSystem,
  entry_of_stat, entry_of_error, as_posix, is_regular_mode,
}
use steward_public.Scan.{
  ScanState, Stack, with_entry, counted, exceeds, descends, is_skipped, skipped_roots,
  out_of_budget, too_deep, child_answered, scan_child, scan_children, read_directory,
  scan_directory, scan_stack,
}

module _ (host : HostSystem) (budget : ScanBudget) (Open : FilePath → Type 0) where
  -- An entry of a scope: its root, or a child that the system lists in a directory, which is open and
  -- not too deep.
  abbrev pub IsPlaced : ScopeConfig → FilesystemEntry → Type 0
  IsPlaced scope e =
      (e.scope_id ≡ scope.scope_id)
      × ((e.relative_path ≡ text ".")
          ⊎ ((directory : FilePath) × (children : List Text) × (name : Text) × (host.scandir
                  (scope.normalized_path ++ directory)
                ≡ some children)
              × Among name children
              × (e.relative_path ≡ as_posix (directory ++ name ∷ []))
              × Open directory
              × (too_deep budget.max_depth (length directory) ≡ false)))

-- The entries have a property, for what the scan may return.
abbrev pub AllIf : (FilesystemEntry → Type 0) → Option ScanState → Type 0
AllIf Q none = Unit
AllIf Q (some s) = All Q s.entries

counted-All :
    (Q : FilesystemEntry → Type 0) (info : Stat) (s : ScanState)
    → All Q s.entries
    → All Q (counted info s).entries
counted-All Q info s h =
    if_rule (λ (t : ScanState). All Q t.entries) (is_regular_mode info.st_mode)
      (record s { byte_total = s.byte_total +ℤ info.st_size }) s (λ _. h) (λ _. h)

module _ (hash : Text → Text) (host : HostSystem) (config : StewardConfig) (snapshot_id : Text)
    (budget : ScanBudget) (Q : FilesystemEntry → Type 0) where
  module _ (scope : ScopeConfig) (root_stat : Stat) (Open : FilePath → Type 0)
      (opens : (directory : FilePath)
        → is_skipped (skipped_roots config) (scope.normalized_path ++ directory) ≡ false
        → Open directory)
      (within : (e : FilesystemEntry) → IsPlaced host budget Open scope e → Q e) where
    abbrev Waiting : FilePath × ℕ → Type 0
    Waiting top = (top.1 ≡ length top.0) × Open top.0

    abbrev Kept : ScanState × Stack → Type 0
    Kept o = All Q o.0.entries × All Waiting o.1

    -- The entries of a path below the scope have the property.
    abbrev May : FilePath → Type 0
    May relative =
        (e : FilesystemEntry)
        → e.scope_id ≡ scope.scope_id
        → e.relative_path ≡ as_posix relative
        → Q e

    child_answered-Kept :
        (relative : FilePath) (depth : ℕ) (answer : ChildStat) (s : ScanState) (stack : Stack)
        → May relative
        → depth + 1 ≡ length relative
        → Kept (s, stack)
        → Kept
            (child_answered hash host config snapshot_id budget scope root_stat relative depth
              answer s stack).1
    unfolding child_answered entry_of_stat entry_of_error
    child_answered-Kept relative depth (found info) s stack may deep kept =
        let skipped = is_skipped (skipped_roots config) (scope.normalized_path ++ relative) in
        let e = entry_of_stat hash snapshot_id scope.scope_id (as_posix relative) info skipped in
        let seen : All Q (with_entry e s).entries =
          All-append Q s.entries (e ∷ []) kept.0 (may e refl refl, tt) in
        if_rule (λ (o : Bool × (ScanState × Stack)). Kept o.1) skipped _ _ (λ _. (seen, kept.1))
          (λ is_open.
            if_rule (λ (o : Bool × (ScanState × Stack)). Kept o.1)
              (exceeds hash host config snapshot_id budget scope root_stat info (with_entry e s)) _
              _ (λ _. (counted-All Q info (with_entry e s) seen, kept.1))
              (λ _. (
                counted-All Q info (with_entry e s) seen,
                if_rule (All Waiting)
                    (descends hash host config snapshot_id budget scope root_stat info)
                    ((relative, depth + 1) ∷ stack) stack
                    (λ _. ((deep, opens relative is_open), kept.1)) (λ _. kept.1),
              )))
    child_answered-Kept relative depth (file_not_found error) s stack may deep kept =
        (All-append Q s.entries (_ ∷ []) kept.0 (may _ refl refl, tt), kept.1)
    child_answered-Kept relative depth (permission_error error) s stack may deep kept =
        (All-append Q s.entries (_ ∷ []) kept.0 (may _ refl refl, tt), kept.1)
    child_answered-Kept relative depth (other_error error) s stack may deep kept =
        (All-append Q s.entries (_ ∷ []) kept.0 (may _ refl refl, tt), kept.1)

    scan_child-Kept :
        (relative : FilePath) (depth : ℕ) (s : ScanState) (stack : Stack)
        → May relative
        → depth + 1 ≡ length relative
        → Kept (s, stack)
        → Kept
            (scan_child hash host config snapshot_id budget scope root_stat relative depth s
              stack).1
    unfolding scan_child
    scan_child-Kept relative depth s stack may deep kept =
        if_rule (λ (o : Bool × (ScanState × Stack)). Kept o.1)
          (out_of_budget hash host config snapshot_id budget scope root_stat s) _ _ (λ _. kept)
          (λ _.
            child_answered-Kept relative depth (host.stat_child (scope.normalized_path ++ relative))
              (record s { looks = s.looks + 1 }) stack may deep kept)

    scan_children-Kept :
        (directory : FilePath) (depth : ℕ) (listed children : List Text) (s : ScanState)
        (stack : Stack)
        → host.scandir (scope.normalized_path ++ directory) ≡ some listed
        → ((name : Text) → Among name children → Among name listed)
        → Waiting (directory, depth)
        → too_deep budget.max_depth depth ≡ false
        → Kept (s, stack)
        → Kept (
            scan_children hash host config snapshot_id budget scope root_stat directory depth
              children s stack)
    unfolding scan_children
    scan_children-Kept directory depth listed [] s stack answer all waiting shallow kept = kept
    scan_children-Kept directory depth listed (name ∷ rest) s stack answer all waiting shallow
          kept =
        let may : May (directory ++ name ∷ []) = λ e same path. within e (
          same,
          inr (
            directory,
            listed,
            name,
            answer,
            all name (inl refl),
            path,
            waiting.1,
            subst (λ n. too_deep budget.max_depth n ≡ false) waiting.0 shallow,
          ),
        ) in
        let deep : depth + 1 ≡ length (directory ++ name ∷ []) =
          omega (arith, waiting.0, length-append directory (name ∷ [])) in
        let first = scan_child-Kept (directory ++ name ∷ []) depth s stack may deep kept in
        let (stop, next) =
          scan_child hash host config snapshot_id budget scope root_stat (directory ++ name ∷ [])
            depth s stack in
        if_rule Kept stop next _ (λ _. first)
          (λ _.
            scan_children-Kept directory depth listed rest next.0 next.1 answer
              (λ other m. all other (inr m)) waiting shallow first)

    read_directory-Kept :
        (children : Option (List Text)) (directory : FilePath) (depth : ℕ) (s : ScanState)
        (stack : Stack)
        → host.scandir (scope.normalized_path ++ directory) ≡ children
        → Waiting (directory, depth)
        → too_deep budget.max_depth depth ≡ false
        → Kept (s, stack)
        → Kept (
            read_directory hash host config snapshot_id budget scope root_stat children directory
              depth s stack)
    read_directory-Kept none directory depth s stack answer waiting shallow kept = kept
    read_directory-Kept (some children) directory depth s stack answer waiting shallow kept =
        scan_children-Kept directory depth children children s stack answer (λ name m. m) waiting
          shallow kept

    scan_directory-Kept :
        (directory : FilePath) (depth : ℕ) (s : ScanState) (stack : Stack)
        → Waiting (directory, depth)
        → Kept (s, stack)
        → Kept (
            scan_directory hash host config snapshot_id budget scope root_stat directory depth s
              stack)
    unfolding scan_directory
    scan_directory-Kept directory depth s stack waiting kept =
        if_rule Kept (too_deep budget.max_depth depth) _ _ (λ _. kept)
          (λ shallow.
            read_directory-Kept (host.scandir (scope.normalized_path ++ directory)) directory depth
              s stack refl waiting shallow kept)

    pub scan_stack-Kept :
        (fuel : ℕ) (s : ScanState) (stack : Stack)
        → Kept (s, stack)
        → AllIf Q (scan_stack hash host config snapshot_id budget scope root_stat fuel s stack)
    unfolding scan_stack
    scan_stack-Kept zero s [] kept = kept.0
    scan_stack-Kept (suc fuel) s [] kept = kept.0
    scan_stack-Kept zero s (top ∷ stack) kept =
        if_rule (AllIf Q) s.partial (some s) none (λ _. kept.0) (λ _. tt)
    scan_stack-Kept (suc fuel) s ((directory, depth) ∷ stack) kept =
        let next =
          scan_directory hash host config snapshot_id budget scope root_stat directory depth s
            stack in
        if_rule (AllIf Q) s.partial (some s)
          (scan_stack hash host config snapshot_id budget scope root_stat fuel next.0 next.1)
          (λ _. kept.0)
          (λ _.
            scan_stack-Kept fuel next.0 next.1
              (scan_directory-Kept directory depth s stack kept.1.0 (kept.0, kept.1.1)))
