-- ===== src/Scopes.antt =====
-- scopes.py: validate_scopes, and the protected paths of constants.py.
pub mod Safety
pub mod Acceptance
use steward_public.Base.{
  Bool, true, false, ◌&&◌, List, [], ◌∷◌, ◌++◌, ◌==◌, nat_eq, list_eq, if◌then◌else◌, contains,
  Result, ok, err, ◌>>=◌, ◌>>◌, raise_if, for_each,
}
use steward_public.Base.Text.{Text, text}
use steward_public.Models.Status.{managed_root, reference_root, excluded_root, scope_role_eq}
use steward_public.Models.Config.{FilePath, ScopeConfig}
use steward_public.Paths.{contains_path, overlaps}

-- `SYSTEM_PROTECTED_PATHS`
unfoldable pub system_protected_paths : List FilePath
system_protected_paths =
    []
    ∷ (text "System" ∷ [])
    ∷ (text "Library" ∷ [])
    ∷ (text "Applications" ∷ [])
    ∷ (text "bin" ∷ [])
    ∷ (text "sbin" ∷ [])
    ∷ (text "usr" ∷ [])
    ∷ (text "private" ∷ [])
    ∷ (text "Volumes" ∷ [])
    ∷ []

pub data ScopeValidationError : Type 0 where
  duplicate_scope_id : Text → ScopeValidationError
  duplicate_normalized_path : FilePath → ScopeValidationError
  overlaps_system_protected : Text → FilePath → ScopeValidationError
  overlaps_internal : Text → FilePath → ScopeValidationError
  actionable_overlap : Text → Text → ScopeValidationError
  excluded_contains : Text → Text → ScopeValidationError

-- `redundant excluded scope: inner is inside outer`
pub data ScopeWarning : Type 0 where
  redundant_excluded : Text → Text → ScopeWarning

-- `scope.role in actionable`
abbrev pub is_actionable : ScopeConfig → Bool
is_actionable scope = contains (managed_root ∷ reference_root ∷ []) scope.role

abbrev pub is_excluded : ScopeConfig → Bool
is_excluded scope = scope.role == excluded_root

unfoldable pub protected_overlap : FilePath → FilePath → Bool
protected_overlap path protected =
    if protected == [] then path == protected else overlaps path protected

check_protected : ScopeConfig → FilePath → Result ScopeValidationError (Unit {0})
check_protected scope protected =
    raise_if (protected_overlap scope.normalized_path protected)
      (overlaps_system_protected scope.scope_id protected)

check_internal : ScopeConfig → FilePath → Result ScopeValidationError (Unit {0})
check_internal scope internal =
    raise_if (overlaps scope.normalized_path internal) (overlaps_internal scope.scope_id internal)

pub check_boundaries : List FilePath → ScopeConfig → Result ScopeValidationError (Unit {0})
unfolding check_protected check_internal
check_boundaries internal_paths scope =
    if is_actionable scope
    then for_each (check_protected scope) system_protected_paths
      >> for_each (check_internal scope) internal_paths
    else ok tt

-- the first loop, with `seen_ids` and `seen_paths`
check_scopes :
    List FilePath
    → List Text
    → List FilePath
    → List ScopeConfig
    → Result ScopeValidationError (Unit {0})
unfolding check_boundaries
check_scopes internal_paths seen_ids seen_paths [] = ok tt
check_scopes internal_paths seen_ids seen_paths (scope ∷ rest) =
    raise_if (contains seen_ids scope.scope_id) (duplicate_scope_id scope.scope_id)
    >> (raise_if (contains seen_paths scope.normalized_path)
          (duplicate_normalized_path scope.normalized_path)
        >> (check_boundaries internal_paths scope
            >> check_scopes internal_paths (scope.scope_id ∷ seen_ids)
                (scope.normalized_path ∷ seen_paths) rest))

-- `left contains right`, both excluded: a warning
warn_inside : ScopeConfig → ScopeConfig → List ScopeWarning
warn_inside outer inner =
    if (is_excluded outer && is_excluded inner)
      && contains_path outer.normalized_path inner.normalized_path
    then redundant_excluded inner.scope_id outer.scope_id ∷ []
    else []

excluded_contains_actionable : ScopeConfig → ScopeConfig → Bool
excluded_contains_actionable outer inner =
    (is_excluded outer && is_actionable inner)
    && contains_path outer.normalized_path inner.normalized_path

-- the body of the second loop
check_pair : ScopeConfig → ScopeConfig → Result ScopeValidationError (List ScopeWarning)
unfolding warn_inside excluded_contains_actionable
check_pair left right = do
  raise_if
      ((is_actionable left && is_actionable right)
        && overlaps left.normalized_path right.normalized_path)
      (actionable_overlap left.scope_id right.scope_id)
  raise_if (excluded_contains_actionable left right)
      (excluded_contains left.scope_id right.scope_id)
  raise_if (excluded_contains_actionable right left)
      (excluded_contains right.scope_id left.scope_id)
  ok (warn_inside left right ++ warn_inside right left)

check_against :
    ScopeConfig
    → List ScopeConfig
    → List ScopeWarning
    → Result ScopeValidationError (List ScopeWarning)
unfolding check_pair
check_against left [] warnings = ok warnings
check_against left (right ∷ rest) warnings =
    check_pair left right >>= λ found. check_against left rest (warnings ++ found)

check_pairs : List ScopeConfig → List ScopeWarning → Result ScopeValidationError (List ScopeWarning)
unfolding check_against
check_pairs [] warnings = ok warnings
check_pairs (left ∷ rest) warnings = check_against left rest warnings >>= check_pairs rest

unfoldable pub validate_scopes :
    List ScopeConfig → List FilePath → Result ScopeValidationError (List ScopeWarning)
unfolding check_scopes check_pairs
validate_scopes scopes internal_paths =
    check_scopes internal_paths [] [] scopes >> check_pairs scopes []
