-- ===== src/Scopes/Safety.antt =====
-- Which configurations validate_scopes accepts.
use steward_public.Base.{
  ◌≡◌, refl, ◌⊎◌, inl, inr, Bool-cases, true, false, List, [], ◌∷◌, nat_eq, list_eq, ok, ◌>>◌,
  >>=-ok, raise_if-ok, if_rule, subst, if◌then◌else◌, for_each, for_each-ok, ok-for_each, All,
  arith,
}
use steward_public.Models.Status.{managed_root, reference_root, excluded_root, scope_role_eq}
use steward_public.Models.Config.{FilePath, ScopeConfig}
use steward_public.Paths.{overlaps}
use steward_public.Paths.Containment.{IsInside, overlaps_iff}
use steward_public.Scopes.{
  system_protected_paths, protected_overlap, check_protected, check_internal, check_boundaries,
  is_actionable, overlaps_system_protected, overlaps_internal,
}

-- Neither path stands at or below the other.
abbrev pub Apart : FilePath → FilePath → Type 0
Apart a b = ¬ (IsInside a b ⊎ IsInside b a)

abbrev pub IsActionable : ScopeConfig → Type 0
IsActionable scope = (scope.role ≡ managed_root) ⊎ (scope.role ≡ reference_root)

-- The root may not be a scope itself; any other protected path is kept apart.
abbrev pub IsClear : FilePath → FilePath → Type 0
IsClear path [] = ¬ (path ≡ [])
IsClear path (p ∷ ps) = Apart path (p ∷ ps)

abbrev pub IsBounded : List FilePath → ScopeConfig → Type 0
IsBounded internal_paths scope =
    IsActionable scope
    → All (IsClear scope.normalized_path) system_protected_paths
      × All (Apart scope.normalized_path) internal_paths

abbrev pub AreCompatible : ScopeConfig → ScopeConfig → Type 0
AreCompatible left right =
    (IsActionable left → IsActionable right → Apart left.normalized_path right.normalized_path)
    × (left.role ≡ excluded_root
        → IsActionable right
        → ¬ IsInside left.normalized_path right.normalized_path)
    × (right.role ≡ excluded_root
        → IsActionable left
        → ¬ IsInside right.normalized_path left.normalized_path)

abbrev pub AreDistinct : ScopeConfig → ScopeConfig → Type 0
AreDistinct left right =
    (¬ (left.scope_id ≡ right.scope_id)) × (¬ (left.normalized_path ≡ right.normalized_path))

-- Every scope stands in the relation to every later one.
abbrev pub Pairwise : (ScopeConfig → ScopeConfig → Type 0) → List ScopeConfig → Type 0
Pairwise R [] = Unit
Pairwise R (x ∷ xs) = All (R x) xs × Pairwise R xs

abbrev pub IsValid : List FilePath → List ScopeConfig → Type 0
IsValid internal_paths scopes =
    All (IsBounded internal_paths) scopes
    × Pairwise AreDistinct scopes
    × Pairwise AreCompatible scopes

pub IsActionable-true : (scope : ScopeConfig) → IsActionable scope → is_actionable scope ≡ true
IsActionable-true scope h = ground arith

IsActionable-false : (scope : ScopeConfig) → ¬ (IsActionable scope) → is_actionable scope ≡ false
IsActionable-false scope h = ground arith

pub true-IsActionable : (scope : ScopeConfig) → is_actionable scope ≡ true → IsActionable scope
true-IsActionable scope h = ground arith

pub false-Apart : (a b : FilePath) → overlaps a b ≡ false → Apart a b
false-Apart a b h k = ground (arith, (overlaps_iff a b).1 k)

pub Apart-false : (a b : FilePath) → Apart a b → overlaps a b ≡ false
Apart-false a b h = elim (Bool-cases (overlaps a b)) [
  | inl e ↦ absurd (h ((overlaps_iff a b).0 e))
  | inr e ↦ e
]

false-IsClear : (path p : FilePath) → protected_overlap path p ≡ false → IsClear path p
unfolding protected_overlap list_eq nat_eq
false-IsClear [] [] h = cc
false-IsClear (q ∷ qs) [] h = λ e. cc
false-IsClear path (p ∷ ps) h = false-Apart path (p ∷ ps) h

IsClear-false : (path p : FilePath) → IsClear path p → protected_overlap path p ≡ false
unfolding protected_overlap
IsClear-false path [] h = ground arith
IsClear-false path (p ∷ ps) h = ground (arith, Apart-false path (p ∷ ps) h)

pub check_boundaries-IsBounded :
    (internal_paths : List FilePath) (scope : ScopeConfig) {u : Unit {0}}
    → check_boundaries internal_paths scope ≡ ok u
    → IsBounded internal_paths scope
unfolding check_boundaries check_protected check_internal
check_boundaries-IsBounded internal_paths scope h acts =
    let passed =
      subst
        (λ b.
          (if b
            then for_each (check_protected scope) system_protected_paths
              >> for_each (check_internal scope) internal_paths
            else ok tt)
          ≡ ok tt)
        (IsActionable-true scope acts) h in
    let (_, first, second) =
      >>=-ok (for_each (check_protected scope) system_protected_paths)
        (λ _. for_each (check_internal scope) internal_paths) passed in
    (
      for_each-ok (IsClear scope.normalized_path) (check_protected scope)
          (λ p q. false-IsClear scope.normalized_path p (
            raise_if-ok (protected_overlap scope.normalized_path p)
              (overlaps_system_protected scope.scope_id p) q))
          system_protected_paths first,
      for_each-ok (Apart scope.normalized_path) (check_internal scope)
          (λ p q.
            false-Apart scope.normalized_path p (
              raise_if-ok (overlaps scope.normalized_path p) (overlaps_internal scope.scope_id p)
                q))
          internal_paths second,
    )

pub IsBounded-check_boundaries :
    (internal_paths : List FilePath) (scope : ScopeConfig)
    → IsBounded internal_paths scope
    → check_boundaries internal_paths scope ≡ ok tt
unfolding check_boundaries check_protected check_internal
IsBounded-check_boundaries internal_paths scope h =
    if_rule (λ r. r ≡ ok tt) (is_actionable scope)
      (for_each (check_protected scope) system_protected_paths
        >> for_each (check_internal scope) internal_paths)
      (ok tt)
      (λ acts.
        let (outside, inside) = h (true-IsActionable scope acts) in
        rw
          (ok-for_each (IsClear scope.normalized_path) (check_protected scope)
            (λ p q. rw (IsClear-false scope.normalized_path p q) refl) system_protected_paths
            outside)
          (ok-for_each (Apart scope.normalized_path) (check_internal scope)
            (λ p q. rw (Apart-false scope.normalized_path p q) refl) internal_paths inside))
      (λ _. refl)
