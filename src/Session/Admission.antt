-- ===== src/Session/Admission.antt =====
-- What `_admit_current_path` makes sure of.
use steward_public.Base.{
  ◌≡◌, refl, Bool, false, not, ◌||◌, List, [], ◌∷◌, ◌++◌, nat_eq, list_eq, if◌then◌else◌,
  Bool-cases, inl, inr, Result, ok, err, >>=-ok, raise_if, raise_if-ok, any, All, arith,
}
use steward_public.Base.Among.{Among, All-Among}
use steward_public.Base.Int.{int_eq}
use steward_public.Base.Text.{Text}
use steward_public.Models.Status.{excluded_root, scope_role_eq}
use steward_public.Models.Config.{FilePath, ScopeConfig}
use steward_public.Models.Session.{StewardSession}
use steward_public.Paths.Containment.{IsInside, contains_path_iff}
use steward_public.Scan.Host.{Stat, OsError, is_link_mode, is_directory_mode}
use steward_public.Session.{path_excluded, path_unsafe, path_unavailable, scope_not_path_safe}
use steward_public.Session.PathInput.{
  PathHost, split_path, excludes, validate_relative_path, admit_current_path, walk,
  stat_or_unavailable,
}

-- Every component below a path is there and is no link.
abbrev pub HasNoLinks : PathHost → FilePath → List Text → Type 0
HasNoLinks host current [] = Unit
HasNoLinks host current (component ∷ rest) =
    (st : Stat) × (host.lstat (current ++ component ∷ []) ≡ ok st)
    × (is_link_mode st.st_mode ≡ false)
    × HasNoLinks host (current ++ component ∷ []) rest

-- No excluded scope stands at or above the path.
abbrev pub IsNotExcluded : StewardSession → FilePath → Type 0
IsNotExcluded session candidate =
    (scope : ScopeConfig)
    → Among scope session.config.scopes
    → scope.role ≡ excluded_root
    → ¬ IsInside scope.normalized_path candidate

any-false : {A : Type 0} (p : A → Bool) (xs : List A) → any p xs ≡ false → All (λ x. p x ≡ false) xs
any-false p [] h = tt
any-false p (x ∷ xs) h = (ground arith, any-false p xs (ground arith))

excludes-false :
    (candidate : FilePath) (scope : ScopeConfig)
    → excludes candidate scope ≡ false
    → scope.role ≡ excluded_root
    → ¬ IsInside scope.normalized_path candidate
excludes-false candidate scope h role inside =
    let there = (contains_path_iff scope.normalized_path candidate).1 inside in ground arith

module _ (host : PathHost) where
  walk_step :
      (current next end : FilePath) (rest : List Text) (answer : Result OsError Stat)
      → (walk host next rest ≡ ok end → HasNoLinks host next rest)
      → elim answer [
        | err _ ↦ err path_unavailable
        | ok st ↦ if is_link_mode st.st_mode then err path_unsafe else walk host next rest
      ]
        ≡ ok end
      → (st : Stat) × (answer ≡ ok st)
        × (is_link_mode st.st_mode ≡ false)
        × HasNoLinks host next rest
  walk_step current next end rest (err e) later h = cc
  walk_step current next end rest (ok st) later h = elim (Bool-cases (is_link_mode st.st_mode)) [
    | inl e ↦ absurd (ground arith)
    | inr e ↦ (st, refl, e, later (ground arith))
  ]

  walk-HasNoLinks :
      (current : FilePath) (parts : List Text) (end : FilePath)
      → walk host current parts ≡ ok end
      → HasNoLinks host current parts
  unfolding walk
  walk-HasNoLinks current [] end h = tt
  walk-HasNoLinks current (component ∷ rest) end h =
      walk_step current (current ++ component ∷ []) end rest
        (host.lstat (current ++ component ∷ []))
        (walk-HasNoLinks (current ++ component ∷ []) rest end) h

  -- A path is admitted only where no excluded scope covers it and no component of it is a link.
  pub admit_current_path-safe :
      (session : StewardSession) (scope : ScopeConfig) (path : Text)
      → admit_current_path host session scope path ≡ ok tt
      → IsNotExcluded session (scope.normalized_path ++ split_path path)
        × HasNoLinks host scope.normalized_path (split_path path)
  unfolding admit_current_path
  admit_current_path-safe session scope path h =
      let candidate = scope.normalized_path ++ split_path path in
      let (_, _, h1) = >>=-ok (validate_relative_path path) _ h in
      let (_, _, h2) = >>=-ok (raise_if scope.follow_directory_symlinks scope_not_path_safe) _ h1 in
      let (_, clear, h3) =
        >>=-ok (raise_if (any (excludes candidate) session.config.scopes) path_excluded) _ h2 in
      let (configured, _, h4) =
        >>=-ok (stat_or_unavailable (host.lstat_configured scope.scope_id)) _ h3 in
      let (root, _, h5) = >>=-ok (stat_or_unavailable (host.lstat scope.normalized_path)) _ h4 in
      let (_, _, h6) =
        >>=-ok
          (raise_if
            (is_link_mode configured.st_mode
              || (is_link_mode root.st_mode || not (is_directory_mode root.st_mode)))
            path_unsafe)
          _ h5 in
      let (end, walked, _) = >>=-ok (walk host scope.normalized_path (split_path path)) _ h6 in
      (
        λ s m role.
            excludes-false candidate s
              (All-Among _ s session.config.scopes
                (any-false (excludes candidate) session.config.scopes (raise_if-ok _ _ clear)) m)
              role,
        walk-HasNoLinks scope.normalized_path (split_path path) end walked,
      )
