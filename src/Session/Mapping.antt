-- ===== src/Session/Mapping.antt =====
-- The scope and the path that an absolute path is mapped to.
use steward_public.Base.{
  ◌≡◌, ◌≢◌, refl, sym, ap, subst, ◌∙◌, ◌⊎◌, inl, inr, Bool, true, false, not, ◌&&◌, Option, none,
  some, List, [], ◌∷◌, ◌++◌, ◌==◌, nat_eq, list_eq, filter, if_rule, ok, >>=-ok, ok-injective,
  raise_if, raise_if-ok, eq_self, All, All-filter, arith,
}
use steward_public.Base.Among.{Among, Among-filter}
use steward_public.Base.Text.{Text, text}
use steward_public.Models.Status.{scope_role_eq}
use steward_public.Models.Config.{FilePath, ScopeConfig}
use steward_public.Models.Session.{StewardSession, ResolvedScopedPath}
use steward_public.Paths.{relative_to, contains_path}
use steward_public.Paths.Aliases.{relative_to-All}
use steward_public.Paths.Containment.{IsInside, contains_path_iff, relative_to-some}
use steward_public.Scan.Host.{as_posix}
use steward_public.Scopes.Safety.{IsActionable, AreCompatible, Pairwise, IsValid}
use steward_public.Session.{
  is_actionable_scope, actionable_scopes, path_invalid, path_is_scope_root,
}
use steward_public.Session.PathInput.{
  PathHost, split_path, admit_current_path, validate_absolute_path, canonical, mapped_to,
  sole_scope, containing_scopes, resolve_user_absolute_path, has_double_root,
}
use steward_public.Session.Admission.{IsNotExcluded, HasNoLinks, admit_current_path-safe}
use steward_public.Session.Splitting.{IsComponent, split-as_posix, canonical-All}

Pairwise-filter :
    (R : ScopeConfig → ScopeConfig → Type 0) (p : ScopeConfig → Bool) (xs : List ScopeConfig)
    → Pairwise R xs
    → Pairwise R (filter p xs)
Pairwise-filter R p [] h = tt
Pairwise-filter R p (x ∷ xs) h =
    if_rule (Pairwise R) (p x) (x ∷ filter p xs) (filter p xs)
      (λ _. (All-filter (R x) p xs h.0, Pairwise-filter R p xs h.1))
      (λ _. Pairwise-filter R p xs h.1)

-- Two paths at or above one path stand at or below each other.
IsInside-comparable : (a b r s : FilePath) → a ++ r ≡ b ++ s → IsInside a b ⊎ IsInside b a
IsInside-comparable [] b r s e = inl (b, refl)
IsInside-comparable (x ∷ a) [] r s e = inr (x ∷ a, refl)
IsInside-comparable (x ∷ a) (y ∷ b) r s e =
    let same : x ≡ y = cc in
    elim (IsInside-comparable a b r s (tails e)) [
      | inl (rest, f) ↦ inl (rest, cc)
      | inr (rest, f) ↦ inr (rest, cc)
    ]
  where
    tails : {x y : Text} {xs ys : FilePath} → x ∷ xs ≡ y ∷ ys → xs ≡ ys
    tails h = cc

-- A scope that a path may map to: enabled and actionable, with the path at or below it.
abbrev IsHome : StewardSession → FilePath → ScopeConfig → Type 0
IsHome session candidate scope =
    Among scope session.config.scopes
    × (scope.enabled ≡ true)
    × IsActionable scope
    × IsInside scope.normalized_path candidate

containing-IsHome :
    (platform : Text) (session : StewardSession) (path : Text) (scope : ScopeConfig)
    → Among scope (containing_scopes platform session path)
    → IsHome session (canonical platform path) scope
unfolding containing_scopes actionable_scopes
containing-IsHome platform session path scope m =
    let candidate = canonical platform path in
    let (actionable, h) =
      Among-filter
        (λ (s : ScopeConfig).
          not (has_double_root path) && contains_path s.normalized_path candidate)
        scope (filter is_actionable_scope session.config.scopes) m in
    let (there, able) = Among-filter is_actionable_scope scope session.config.scopes actionable in
    (
      there,
      ground arith,
      ground arith,
      (contains_path_iff scope.normalized_path candidate).0 (ground arith),
    )

-- In a valid configuration no two scopes contain one path.
containing_sole :
    (platform : Text) (session : StewardSession) (path : Text) (internal_paths : List FilePath)
    (c d : ScopeConfig) (rest : List ScopeConfig)
    → IsValid internal_paths session.config.scopes
    → containing_scopes platform session path ≢ c ∷ d ∷ rest
unfolding containing_scopes actionable_scopes
containing_sole platform session path internal_paths c d rest valid e =
    let home_c = containing-IsHome platform session path c (subst (Among c) (sym e) (inl refl)) in
    let home_d =
      containing-IsHome platform session path d (subst (Among d) (sym e) (inr (inl refl))) in
    let compatible = subst (Pairwise AreCompatible) e (
      Pairwise-filter AreCompatible _ (actionable_scopes session)
        (Pairwise-filter AreCompatible is_actionable_scope session.config.scopes valid.2)) in
    compatible.0.0.0 home_c.2 home_d.2 (
      IsInside-comparable c.normalized_path d.normalized_path home_c.3.0 home_d.3.0
        (sym home_c.3.1 ∙ home_d.3.1))

-- What a path is mapped to: the scope at or above it and the rest of the path, which no excluded scope
-- covers and in which no component is a link.
abbrev pub IsMapped : PathHost → StewardSession → FilePath → ResolvedScopedPath → Type 0
IsMapped host session candidate r =
    (scope : ScopeConfig) × Among scope session.config.scopes
    × (scope.enabled ≡ true)
    × IsActionable scope
    × (scope.scope_id ≡ r.scope_id)
    × (candidate ≡ scope.normalized_path ++ split_path r.relative_path)
    × IsNotExcluded session candidate
    × HasNoLinks host scope.normalized_path (split_path r.relative_path)

module _ (host : PathHost) (session : StewardSession) where
  mapped_to-IsMapped :
      (scope : ScopeConfig) (candidate : FilePath) (below : Option FilePath)
      (r : ResolvedScopedPath)
      → All IsComponent candidate
      → IsHome session candidate scope
      → relative_to scope.normalized_path candidate ≡ below
      → mapped_to host session scope below ≡ ok r
      → IsMapped host session candidate r
  unfolding mapped_to as_posix
  mapped_to-IsMapped scope candidate none r parts home e h = cc
  mapped_to-IsMapped scope candidate (some []) r parts home e h =
      let (_, passed, _) = >>=-ok (raise_if (as_posix [] == text ".") path_is_scope_root) _ h in
      let differs : (text "." == text ".") ≡ false = raise_if-ok _ path_is_scope_root passed in
      absurd (ground (arith, eq_self (text ".")))
  mapped_to-IsMapped scope candidate (some (part ∷ rest)) r parts home e h =
      let below = part ∷ rest in
      let (_, _, h1) = >>=-ok (raise_if (as_posix below == text ".") path_is_scope_root) _ h in
      let (_, admitted, h2) =
        >>=-ok (admit_current_path host session scope (as_posix below)) _ h1 in
      let again : split_path (as_posix below) ≡ below =
        split-as_posix part rest
          (relative_to-All IsComponent scope.normalized_path candidate below e parts) in
      let whole : candidate ≡ scope.normalized_path ++ below =
        relative_to-some scope.normalized_path candidate below e in
      let path : candidate ≡ scope.normalized_path ++ split_path (as_posix below) =
        whole ∙ ap (λ q. scope.normalized_path ++ q) (sym again) in
      let (clear, straight) =
        admit_current_path-safe host session scope (as_posix below) admitted in
      subst (IsMapped host session candidate) (ok-injective h2) (
        scope,
        home.0,
        home.1,
        home.2,
        refl,
        path,
        subst (IsNotExcluded session) (sym path) clear,
        straight,
      )

  sole_scope-IsMapped :
      (candidate : FilePath) (scopes : List ScopeConfig) (r : ResolvedScopedPath)
      → All IsComponent candidate
      → ((scope : ScopeConfig) → Among scope scopes → IsHome session candidate scope)
      → sole_scope host session candidate scopes ≡ ok r
      → IsMapped host session candidate r
  unfolding sole_scope
  sole_scope-IsMapped candidate [] r parts homes h = cc
  sole_scope-IsMapped candidate (scope ∷ []) r parts homes h =
      mapped_to-IsMapped scope candidate (relative_to scope.normalized_path candidate) r parts
        (homes scope (inl refl)) refl h
  sole_scope-IsMapped candidate (scope ∷ other ∷ rest) r parts homes h = cc

  -- A path that a user names is mapped to an enabled actionable scope at or above it and to the rest of
  -- the path; no excluded scope covers it and no component below the scope is a link. In a
  -- configuration that validation accepts, at most one scope contains the path.
  pub resolve_user_absolute_path-IsMapped :
      (platform path : Text) (r : ResolvedScopedPath) (internal_paths : List FilePath)
      → IsValid internal_paths session.config.scopes
      → (resolve_user_absolute_path platform host session path ≡ ok r
          → IsMapped host session (canonical platform path) r)
        × ((c d : ScopeConfig) (rest : List ScopeConfig)
            → containing_scopes platform session path ≢ c ∷ d ∷ rest)
  unfolding resolve_user_absolute_path
  resolve_user_absolute_path-IsMapped platform path r internal_paths valid = (
    λ h.
        let (_, _, h1) = >>=-ok (validate_absolute_path path_invalid path) _ h in
        sole_scope-IsMapped (canonical platform path) (containing_scopes platform session path) r
          (canonical-All platform path) (λ scope m. containing-IsHome platform session path scope m)
          h1,
    λ c d rest. containing_sole platform session path internal_paths c d rest valid,
  )
