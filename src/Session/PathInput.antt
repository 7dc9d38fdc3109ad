-- ===== src/Session/PathInput.antt =====
-- agent_session/service.py: paths that a user or a task names, and their admission on the disk; and
-- the relative paths of file_agent/runtime/scope_binding.py.
use steward_public.Base.{
  ℕ, Bool, false, not, ◌&&◌, ◌||◌, Option, none, some, List, [], ◌∷◌, ◌++◌, ◌==◌, ◌!=◌, nat_eq,
  list_eq, if◌then◌else◌, length, any, filter, contains, is_empty, Result, ok, err, ◌>>=◌, ◌>>◌,
  raise_if, leb,
}
use steward_public.Base.Int.{int_eq}
use steward_public.Base.Text.{Text, text, encode_strict, has_control, starts_with}
use steward_public.Models.Status.{excluded_root, scope_role_eq}
use steward_public.Models.Config.{FilePath, ScopeConfig}
use steward_public.Models.Session.{
  exact_id, only_compatible, scoped_relative, user_absolute, StewardSession, ResolvedScope,
  ResolvedScopedPath,
}
use steward_public.Paths.{relative_to, contains_path, canonicalize_host_absolute_path}
use steward_public.Scan.Host.{Stat, OsError, is_link_mode, is_directory_mode, as_posix}
use steward_public.Session.{
  SessionError, path_invalid, scope_not_path_safe, path_excluded, path_unsafe, path_crosses_mount,
  path_unavailable, path_outside, path_ambiguous, path_is_scope_root, scope_path_invalid,
  scope_root_missing, scope_root_ambiguous, actionable_scopes, scope_by_id,
}

-- `os.lstat` of a path, and of the path that a scope was configured with.
pub record PathHost : Type 0 where
  pub lstat : FilePath → Result OsError Stat
  pub lstat_configured : Text → Result OsError Stat

abbrev pub onto_first : ℕ → List Text → List Text
onto_first c [] = (c ∷ []) ∷ []
onto_first c (part ∷ rest) = (c ∷ part) ∷ rest

-- `s.split("/")`
unfoldable pub split_path : Text → List Text
split_path [] = [] ∷ []
split_path (c ∷ s) = let rest = split_path s in if c == b'/' then [] ∷ rest else onto_first c rest

abbrev pub max_path_bytes : ℕ
max_path_bytes = 16384

-- `_bounded_utf8`
unfoldable pub bounded_utf8 : Text → ℕ → Bool
bounded_utf8 value maximum = elim (encode_strict value) [
  | none ↦ false
  | some bytes ↦ leb (length bytes) maximum
]

abbrev pub is_special_part : Text → Bool
is_special_part = contains ([] ∷ text "." ∷ text ".." ∷ [])

-- `ScopeBinding.resolve_relative_path`: whether it raises
unfoldable pub is_bad_relative_path : Text → Bool
is_bad_relative_path path =
    is_empty path
    || (starts_with path (text "/") || (contains path 0 || any is_special_part (split_path path)))

-- `_validate_relative_path`
unfoldable pub validate_relative_path : Text → Result SessionError (Unit {0})
validate_relative_path path = do
  raise_if (not (bounded_utf8 path max_path_bytes)) path_invalid
  raise_if (is_bad_relative_path path) path_invalid

abbrev pub excludes : FilePath → ScopeConfig → Bool
excludes candidate scope =
    scope.role == excluded_root && contains_path scope.normalized_path candidate

unfoldable pub stat_or_unavailable : Result OsError Stat → Result SessionError Stat
stat_or_unavailable (err _) = err path_unavailable
stat_or_unavailable (ok st) = ok st

module _ (host : PathHost) where
  -- the loop over the components: no one is a link
  unfoldable pub walk : FilePath → List Text → Result SessionError FilePath
  walk current [] = ok current
  walk current (component ∷ rest) =
      let later = walk (current ++ component ∷ []) rest in
      elim (host.lstat (current ++ component ∷ [])) [
        | err _ ↦ err path_unavailable
        | ok st ↦ if is_link_mode st.st_mode then err path_unsafe else later
      ]

  same_mount : ScopeConfig → Stat → FilePath → Result SessionError (Unit {0})
  unfolding stat_or_unavailable
  same_mount scope root current =
      if scope.allow_cross_mount
      then ok tt
      else stat_or_unavailable (host.lstat current) >>= λ st.
          raise_if (st.st_dev != root.st_dev) path_crosses_mount

  -- `_admit_current_path`
  unfoldable pub admit_current_path :
      StewardSession → ScopeConfig → Text → Result SessionError (Unit {0})
  unfolding stat_or_unavailable same_mount
  admit_current_path session scope path = do
    validate_relative_path path
    raise_if scope.follow_directory_symlinks scope_not_path_safe
    raise_if (any (excludes (scope.normalized_path ++ split_path path)) session.config.scopes)
        path_excluded
    configured ← stat_or_unavailable (host.lstat_configured scope.scope_id)
    root ← stat_or_unavailable (host.lstat scope.normalized_path)
    raise_if
        (is_link_mode configured.st_mode
          || (is_link_mode root.st_mode || not (is_directory_mode root.st_mode)))
        path_unsafe
    current ← walk scope.normalized_path (split_path path)
    same_mount scope root current

  unfoldable pub resolve_scoped_path :
      StewardSession → Text → Text → Result SessionError ResolvedScopedPath
  resolve_scoped_path session scope_id path = do
    scope ← scope_by_id session scope_id
    admit_current_path session scope path
    ok (record {
      policy = exact_id;
      input_kind = scoped_relative;
      scope_id = scope.scope_id;
      relative_path = path;
    })

-- the components of an absolute path, as pathlib makes them
unfoldable pub absolute_parts : Text → FilePath
absolute_parts path = filter (λ part. not (contains ([] ∷ text "." ∷ []) part)) (split_path path)

-- Exactly two leading slashes make another root, in which no scope stands.
unfoldable pub has_double_root : Text → Bool
has_double_root path = starts_with path (text "//") && not (starts_with path (text "///"))

-- the tests of a path that a user names
unfoldable pub validate_absolute_path : SessionError → Text → Result SessionError (Unit {0})
validate_absolute_path error path = do
  raise_if
      (is_empty path
        || (contains path 0 || (not (bounded_utf8 path max_path_bytes) || has_control path)))
      error
  raise_if (not (starts_with path (text "/")) || contains (absolute_parts path) (text "..")) error

-- `canonicalize_host_absolute_path(Path(absolute_path))`, where the root is the usual one
unfoldable pub canonical : Text → Text → FilePath
canonical platform path = canonicalize_host_absolute_path platform (absolute_parts path)

module _ (host : PathHost) where
  unfoldable pub mapped_to :
      StewardSession → ScopeConfig → Option FilePath → Result SessionError ResolvedScopedPath
  mapped_to session scope none = err path_outside
  mapped_to session scope (some below) = do
    raise_if (as_posix below == text ".") path_is_scope_root
    admit_current_path host session scope (as_posix below)
    ok (record {
      policy = only_compatible;
      input_kind = user_absolute;
      scope_id = scope.scope_id;
      relative_path = as_posix below;
    })

  unfoldable pub sole_scope :
      StewardSession → FilePath → List ScopeConfig → Result SessionError ResolvedScopedPath
  sole_scope session candidate [] = err path_outside
  sole_scope session candidate (scope ∷ []) =
      mapped_to session scope (relative_to scope.normalized_path candidate)
  sole_scope session candidate (scope ∷ other ∷ rest) = err path_ambiguous

sole_root : List ScopeConfig → Result SessionError ResolvedScope
sole_root [] = err scope_root_missing
sole_root (scope ∷ []) = ok (record { policy = only_compatible; scope = scope })
sole_root (scope ∷ other ∷ rest) = err scope_root_ambiguous

module _ (platform : Text) where
  -- the scopes that a path may map to
  unfoldable pub containing_scopes : StewardSession → Text → List ScopeConfig
  containing_scopes session path =
      filter
        (λ (scope : ScopeConfig).
          not (has_double_root path)
          && contains_path scope.normalized_path (canonical platform path))
        (actionable_scopes session)

  unfoldable pub resolve_user_absolute_path :
      PathHost → StewardSession → Text → Result SessionError ResolvedScopedPath
  resolve_user_absolute_path host session path = do
    validate_absolute_path path_invalid path
    sole_scope host session (canonical platform path) (containing_scopes session path)

  unfoldable pub resolve_user_absolute_scope :
      StewardSession → Text → Result SessionError ResolvedScope
  unfolding sole_root
  resolve_user_absolute_scope session path = do
    validate_absolute_path scope_path_invalid path
    sole_root (
        filter
          (λ (scope : ScopeConfig).
            not (has_double_root path) && canonical platform path == scope.normalized_path)
          (actionable_scopes session))
