-- ===== src/Tests/ScopeExamples.antt =====
-- paths.py and scopes.py at concrete data.
use steward_public.Base.{true, false, ◌≡◌, ◌↔◌, ◌⊎◌, refl, List, [], ◌∷◌, ok, err, list_eq, nat_eq}
use steward_public.Base.Text.{Text, text}
use steward_public.Models.Status.{ScopeRole, managed_root, excluded_root, scope_role_eq}
use steward_public.Models.Config.{FilePath, ScopeConfig}
use steward_public.Paths.{contains_path, overlaps, relative_to, canonicalize_host_absolute_path}
use steward_public.Paths.Containment.{IsInside, overlaps_iff}
use steward_public.Scopes.{
  ScopeWarning, redundant_excluded, overlaps_system_protected, protected_overlap,
  system_protected_paths, validate_scopes,
}
use steward_public.Scopes.Safety.{IsValid}
use steward_public.Scopes.Acceptance.{validate_scopes-IsValid}

abbrev pub scope : Text → ScopeRole → FilePath → ScopeConfig
scope id role path = record {
  scope_id = id;
  role = role;
  normalized_path = path;
  enabled = true;
  follow_directory_symlinks = false;
  allow_cross_mount = false;
}

abbrev pub home : FilePath
home = text "Users" ∷ text "a" ∷ []

abbrev scopes : List ScopeConfig
scopes =
    scope (text "m") managed_root home
    ∷ scope (text "x") excluded_root (text "Users" ∷ text "a" ∷ text "x" ∷ [])
    ∷ scope (text "y") excluded_root (text "Users" ∷ text "a" ∷ text "x" ∷ text "y" ∷ [])
    ∷ []

accepted : validate_scopes scopes [] ≡ ok (redundant_excluded (text "y") (text "x") ∷ [])
unfolding validate_scopes system_protected_paths protected_overlap overlaps contains_path
    relative_to list_eq nat_eq scope_role_eq
accepted = refl

-- A scope on the root is refused, and so is one around a protected path.
root_refused :
    validate_scopes (scope (text "m") managed_root [] ∷ []) []
    ≡ err (overlaps_system_protected (text "m") [])
unfolding validate_scopes system_protected_paths protected_overlap overlaps contains_path
    relative_to list_eq nat_eq scope_role_eq
root_refused = refl

validate_scopes-IsValid_example :
    ((w : List ScopeWarning) × (validate_scopes scopes [] ≡ ok w)) ↔ IsValid [] scopes
validate_scopes-IsValid_example = validate_scopes-IsValid scopes []

overlaps_iff_example :
    (overlaps home (text "Users" ∷ []) ≡ true)
    ↔ (IsInside home (text "Users" ∷ []) ⊎ IsInside (text "Users" ∷ []) home)
overlaps_iff_example = overlaps_iff home (text "Users" ∷ [])

alias :
    canonicalize_host_absolute_path (text "darwin") (text "tmp" ∷ text "f" ∷ [])
    ≡ text "private" ∷ text "tmp" ∷ text "f" ∷ []
unfolding canonicalize_host_absolute_path list_eq nat_eq
alias = refl
