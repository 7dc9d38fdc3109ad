-- ===== src/Tests/ScanExamples.antt =====
-- filesystem.py at a small file system.
use steward_public.Base.{
  ℕ, ◌≡◌, ◌<◌, ◌==◌, ◌++◌, refl, Bool, true, false, Option, none, some, List, [], ◌∷◌, Result, ok,
  err, list_eq, nat_eq, pair_eq, All, length, map, if◌then◌else◌, ℕ_discrete,
}
use steward_public.Base.Group.{distinct}
use steward_public.Base.Int.{pos, int_eq, ◌+ℤ◌}
use steward_public.Base.Order.{nat_order, list_order, pair_order}
use steward_public.Base.Sort.{sort_on, IsOrdered}
use steward_public.Base.Text.{Text, text, encode, encode_strict}
use steward_public.Models.Status.{managed_root, excluded_root, scope_role_eq}
use steward_public.Models.Entry.{FilesystemEntry}
use steward_public.Models.Config.{ScopeConfig, StewardConfig, ScanBudget}
use steward_public.Scan.Host.{
  Stat, ScanError, unicode_encode_error, found, Host as HostSystem, entry_of_stat, as_posix, kind,
}
use steward_public.Scan.{
  scan, scan_scopes, scan_root, scan_stack, scan_directory, scan_children, scan_child,
  child_answered, skipped_roots, is_skipped,
}
use steward_public.Paths.{contains_path, relative_to}
use steward_public.Scan.Bounds.{Answers, scan-total}
use steward_public.Scan.Completeness.{AllObserved, scan-AllObserved}
use steward_public.Scan.Confinement.{IsConfined, scan-IsConfined}
use steward_public.Scan.Selection.{
  select_scopes, scopes_onto, unknown_ids, candidates, check_selected,
}
use steward_public.Scan.Selection.Selected.{IsScannable, select_scopes-IsScannable}
use steward_public.Tests.ScopeExamples.{scope, home}

abbrev hash : Text → Text
hash t = t

abbrev pub stat_of : ℕ → Stat
stat_of mode = record {
  st_mode = mode;
  st_dev = pos 1;
  st_ino = pos 2;
  st_uid = pos 0;
  st_gid = pos 0;
  st_size = pos 10;
  st_mtime_ns = pos 0;
  st_ctime_ns = pos 0;
  st_birthtime_ns = none;
  st_nlink = pos 1;
  link_target = none;
  can_read = true;
  can_write = true;
  can_execute = false;
}

-- a directory 0o40755 that holds a file 0o100644
abbrev host : HostSystem
host = record {
  is_dir = λ path. ok true;
  lstat = λ path. ok (stat_of 16877);
  scandir = λ path. some (if path == home then text "f" ∷ text "d" ∷ [] else text "g" ∷ []);
  stat_child = λ path. found (stat_of (if path == home ++ text "d" ∷ [] then 16877 else 33188));
  late = λ n. false;
}

abbrev pub managed : List ScopeConfig
managed = scope (text "m") managed_root home ∷ []

abbrev pub config : StewardConfig
config = record {
  paths = record {
    data_dir = text "x" ∷ [];
    cache_dir = text "x" ∷ [];
    evidence_dir = text "x" ∷ [];
    quarantine_dir = text "x" ∷ [];
  };
  scopes = managed ++ scope (text "e") excluded_root (home ++ text "d" ∷ []) ∷ [];
}

abbrev budget : ScanBudget
budget = record {
  max_entries = pos 5;
  max_total_stat_bytes = some (pos 100);
  max_duration = pos 600;
  max_depth = none;
}

unfoldable scanned_entries :
    Option (Result ScanError (List FilesystemEntry × Bool)) → List FilesystemEntry
scanned_entries none = []
scanned_entries (some (err error)) = []
scanned_entries (some (ok r)) = r.0

unfoldable entries : List FilesystemEntry
entries = scanned_entries (scan hash host config (text "s") budget managed)

scanned :
    map (λ (e : FilesystemEntry). e.relative_path) entries ≡ text "." ∷ text "d" ∷ text "f" ∷ []
unfolding encode_strict scan scanned_entries entries scan_scopes scan_root scan_stack scan_directory
    scan_children scan_child child_answered is_skipped skipped_roots scope_role_eq contains_path
    relative_to ◌+ℤ◌ int_eq sort_on list_eq nat_eq list_order nat_order pair_order encode as_posix
    entry_of_stat kind ℕ_discrete
scanned = refl

complete : scan hash host config (text "s") budget managed ≡ some (ok (entries, false))
unfolding encode_strict scan scanned_entries entries scan_scopes scan_root scan_stack scan_directory
    scan_children scan_child child_answered is_skipped skipped_roots scope_role_eq contains_path
    relative_to ◌+ℤ◌ int_eq sort_on list_eq nat_eq list_order nat_order pair_order encode as_posix
    entry_of_stat kind ℕ_discrete
complete = refl

-- A name with a lone surrogate ends the scan.
odd_name :
    scan hash
      (record host { scandir = λ path. some ((0xDC80 ∷ []) ∷ []) })
      config
      (text "s")
      budget
      managed
    ≡ some (err unicode_encode_error)
unfolding encode_strict scan scanned_entries entries scan_scopes scan_root scan_stack scan_directory
    scan_children scan_child child_answered is_skipped skipped_roots scope_role_eq contains_path
    relative_to ◌+ℤ◌ int_eq sort_on list_eq nat_eq list_order nat_order pair_order encode as_posix
    entry_of_stat kind ℕ_discrete
odd_name = refl

scan-total_example :
    (o : Result ScanError (List FilesystemEntry × Bool)) × (scan hash host config
        (text "s")
        budget
        managed
      ≡ some o)
    × Answers hash host config (text "s") budget managed o
scan-total_example = scan-total hash host config (text "s") budget managed

scan-AllObserved_example : AllObserved entries
scan-AllObserved_example =
    scan-AllObserved hash host config (text "s") budget managed entries complete

selected : select_scopes config.scopes [] ≡ ok managed
unfolding select_scopes scopes_onto unknown_ids candidates check_selected sort_on distinct list_eq
    nat_eq scope_role_eq list_order nat_order
selected = refl

select_scopes-IsScannable_example :
    (0 < length managed)
    × All IsScannable managed
    × IsOrdered (λ (scope : ScopeConfig). scope.scope_id) managed
select_scopes-IsScannable_example = select_scopes-IsScannable config.scopes [] managed selected

scan-IsConfined_example :
    All (IsConfined host config budget (λ (s : ScopeConfig). s.role ≡ managed_root)) entries
unfolding is_skipped skipped_roots contains_path relative_to list_eq nat_eq scope_role_eq
scan-IsConfined_example =
    scan-IsConfined hash host config (text "s") budget (λ (s : ScopeConfig). s.role ≡ managed_root)
      managed (entries, false) (refl, tt) (refl, tt) complete
