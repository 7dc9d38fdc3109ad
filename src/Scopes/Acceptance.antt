-- ===== src/Scopes/Acceptance.antt =====
-- validate_scopes accepts a configuration exactly when it is valid.
use steward_public.Base.{
  ◌≡◌, refl, ◌↔◌, Bool-cases, inl, inr, true, false, ◌&&◌, List, [], ◌∷◌, ◌++◌, nat_eq, list_eq,
  contains, ok, >>=-ok, raise_if, raise_if-ok, All, All-map, arith,
}
use steward_public.Base.Text.{Text}
use steward_public.Models.Status.{excluded_root, scope_role_eq}
use steward_public.Models.Config.{FilePath, ScopeConfig}
use steward_public.Paths.{contains_path, overlaps}
use steward_public.Paths.Containment.{IsInside, contains_path_iff}
use steward_public.Scopes.{
  ScopeWarning, check_boundaries, check_scopes, excluded_contains_actionable, check_pair,
  check_against, check_pairs, validate_scopes, is_actionable, is_excluded, duplicate_scope_id,
  duplicate_normalized_path, actionable_overlap, excluded_contains, warn_inside,
}
use steward_public.Scopes.Safety.{
  Apart, IsActionable, IsBounded, AreCompatible, AreDistinct, Pairwise, IsValid, IsActionable-true,
  true-IsActionable, false-Apart, Apart-false, check_boundaries-IsBounded,
  IsBounded-check_boundaries,
}

IsNew : List Text → List FilePath → ScopeConfig → Type 0
IsNew ids paths scope =
    (contains ids scope.scope_id ≡ false) × (contains paths scope.normalized_path ≡ false)

IsNew-AreDistinct :
    (ids : List Text) (paths : List FilePath) (x y : ScopeConfig)
    → IsNew (x.scope_id ∷ ids) (x.normalized_path ∷ paths) y
    → AreDistinct x y
unfolding IsNew
IsNew-AreDistinct ids paths x y (a, b) = (λ e. ground arith, λ e. ground arith)

IsNew-old :
    (ids : List Text) (paths : List FilePath) (x y : ScopeConfig)
    → IsNew (x.scope_id ∷ ids) (x.normalized_path ∷ paths) y
    → IsNew ids paths y
unfolding IsNew
IsNew-old ids paths x y (a, b) = (ground arith, ground arith)

AreDistinct-IsNew :
    (ids : List Text) (paths : List FilePath) (x : ScopeConfig) (rest : List ScopeConfig)
    → All (AreDistinct x) rest
    → All (IsNew ids paths) rest
    → All (IsNew (x.scope_id ∷ ids) (x.normalized_path ∷ paths)) rest
unfolding IsNew
AreDistinct-IsNew ids paths x [] h k = tt
AreDistinct-IsNew ids paths x (y ∷ rest) ((a, b), h) ((c, d), k) =
    ((ground arith, ground arith), AreDistinct-IsNew ids paths x rest h k)

check_scopes-valid :
    (internal_paths : List FilePath) (ids : List Text) (paths : List FilePath)
    (scopes : List ScopeConfig) {u : Unit {0}}
    → check_scopes internal_paths ids paths scopes ≡ ok u
    → All (IsNew ids paths) scopes
      × All (IsBounded internal_paths) scopes
      × Pairwise AreDistinct scopes
unfolding check_scopes IsNew
check_scopes-valid internal_paths ids paths [] h = (tt, tt, tt)
check_scopes-valid internal_paths ids paths (x ∷ rest) h =
    let (_, new_id, h1) =
      >>=-ok (raise_if (contains ids x.scope_id) (duplicate_scope_id x.scope_id)) _ h in
    let (_, new_path, h2) =
      >>=-ok
        (raise_if (contains paths x.normalized_path) (duplicate_normalized_path x.normalized_path))
        _ h1 in
    let (_, bounded, h3) = >>=-ok (check_boundaries internal_paths x) _ h2 in
    let (news, bounds, distinct) =
      check_scopes-valid internal_paths (x.scope_id ∷ ids) (x.normalized_path ∷ paths) rest h3 in
    (
      (
        (raise_if-ok _ _ new_id, raise_if-ok _ _ new_path),
        All-map _ _ (IsNew-old ids paths x) rest news,
      ),
      (check_boundaries-IsBounded internal_paths x bounded, bounds),
      (All-map _ _ (IsNew-AreDistinct ids paths x) rest news, distinct),
    )

valid-check_scopes :
    (internal_paths : List FilePath) (ids : List Text) (paths : List FilePath)
    (scopes : List ScopeConfig)
    → All (IsNew ids paths) scopes
    → All (IsBounded internal_paths) scopes
    → Pairwise AreDistinct scopes
    → check_scopes internal_paths ids paths scopes ≡ ok tt
unfolding check_scopes IsNew
valid-check_scopes internal_paths ids paths [] news bounds distinct = refl
valid-check_scopes internal_paths ids paths (x ∷ rest) ((a, b), news) (bound, bounds)
      (d, distinct) =
    rw (a, b, IsBounded-check_boundaries internal_paths x bound)
      (valid-check_scopes internal_paths (x.scope_id ∷ ids) (x.normalized_path ∷ paths) rest
        (AreDistinct-IsNew ids paths x rest d news) bounds distinct)

contains-false : (a b : FilePath) → contains_path a b ≡ false → ¬ IsInside a b
contains-false a b h k = ground (arith, (contains_path_iff a b).1 k)

false-contains : (a b : FilePath) → ¬ IsInside a b → contains_path a b ≡ false
false-contains a b h = elim (Bool-cases (contains_path a b)) [
  | inl e ↦ absurd (h ((contains_path_iff a b).0 e))
  | inr e ↦ e
]

excluded-false :
    (outer inner : ScopeConfig)
    → excluded_contains_actionable outer inner ≡ false
    → outer.role ≡ excluded_root
    → IsActionable inner
    → ¬ IsInside outer.normalized_path inner.normalized_path
unfolding excluded_contains_actionable
excluded-false outer inner h e acts =
    contains-false outer.normalized_path inner.normalized_path
      (ground (arith, IsActionable-true inner acts))

false-excluded :
    (outer inner : ScopeConfig)
    → (outer.role ≡ excluded_root
        → IsActionable inner
        → ¬ IsInside outer.normalized_path inner.normalized_path)
    → excluded_contains_actionable outer inner ≡ false
unfolding excluded_contains_actionable
false-excluded outer inner h = elim (Bool-cases (is_excluded outer && is_actionable inner)) [
  | inl e ↦
      rw
        (
          e,
          false-contains outer.normalized_path inner.normalized_path
              (h (ground arith) (true-IsActionable inner (ground arith))),
        )
        refl
  | inr e ↦ rw e refl
]

both-false :
    (left right : ScopeConfig)
    → is_actionable left ≡ true
    → is_actionable right ≡ true
    → (is_actionable left && is_actionable right)
        && overlaps left.normalized_path right.normalized_path
      ≡ false
    → overlaps left.normalized_path right.normalized_path ≡ false
both-false left right a b h = ground arith

both-Apart :
    (left right : ScopeConfig)
    → (IsActionable left → IsActionable right → Apart left.normalized_path right.normalized_path)
    → (is_actionable left && is_actionable right)
        && overlaps left.normalized_path right.normalized_path
      ≡ false
both-Apart left right h = elim (Bool-cases (is_actionable left && is_actionable right)) [
  | inl e ↦
      rw
        (
          e,
          Apart-false left.normalized_path right.normalized_path
              (h (true-IsActionable left (ground arith)) (true-IsActionable right (ground arith))),
        )
        refl
  | inr e ↦ rw e refl
]

check_pair-AreCompatible :
    (left right : ScopeConfig) {w : List ScopeWarning}
    → check_pair left right ≡ ok w
    → AreCompatible left right
unfolding check_pair
check_pair-AreCompatible left right h =
    let (_, apart, h1) =
      >>=-ok (raise_if _ (actionable_overlap left.scope_id right.scope_id)) _ h in
    let (_, outer, h2) =
      >>=-ok (raise_if _ (excluded_contains left.scope_id right.scope_id)) _ h1 in
    let (_, inner, h3) =
      >>=-ok (raise_if _ (excluded_contains right.scope_id left.scope_id)) _ h2 in
    (
      λ a b. false-Apart left.normalized_path right.normalized_path (
          both-false left right (IsActionable-true left a) (IsActionable-true right b)
            (raise_if-ok _ _ apart)),
      excluded-false left right (raise_if-ok _ _ outer),
      excluded-false right left (raise_if-ok _ _ inner),
    )

AreCompatible-check_pair :
    (left right : ScopeConfig)
    → AreCompatible left right
    → check_pair left right ≡ ok (warn_inside left right ++ warn_inside right left)
unfolding check_pair
AreCompatible-check_pair left right (apart, outer, inner) =
    rw
      (
        both-Apart left right apart,
        false-excluded left right outer,
        false-excluded right left inner,
      )
      refl

check_against-compatible :
    (left : ScopeConfig) (rest : List ScopeConfig) (warnings : List ScopeWarning)
    {w : List ScopeWarning}
    → check_against left rest warnings ≡ ok w
    → All (AreCompatible left) rest
unfolding check_against
check_against-compatible left [] warnings h = tt
check_against-compatible left (right ∷ rest) warnings h =
    let (found, pair, h1) = >>=-ok (check_pair left right) _ h in
    (
      check_pair-AreCompatible left right pair,
      check_against-compatible left rest (warnings ++ found) h1,
    )

compatible-check_against :
    (left : ScopeConfig) (rest : List ScopeConfig) (warnings : List ScopeWarning)
    → All (AreCompatible left) rest
    → (w : List ScopeWarning) × (check_against left rest warnings ≡ ok w)
unfolding check_against
compatible-check_against left [] warnings h = (warnings, refl)
compatible-check_against left (right ∷ rest) warnings (first, h) =
    rw (AreCompatible-check_pair left right first) (compatible-check_against left rest _ h)

check_pairs-compatible :
    (scopes : List ScopeConfig) (warnings : List ScopeWarning) {w : List ScopeWarning}
    → check_pairs scopes warnings ≡ ok w
    → Pairwise AreCompatible scopes
unfolding check_pairs
check_pairs-compatible [] warnings h = tt
check_pairs-compatible (left ∷ rest) warnings h =
    let (found, against, h1) = >>=-ok (check_against left rest warnings) _ h in
    (check_against-compatible left rest warnings against, check_pairs-compatible rest found h1)

compatible-check_pairs :
    (scopes : List ScopeConfig) (warnings : List ScopeWarning)
    → Pairwise AreCompatible scopes
    → (w : List ScopeWarning) × (check_pairs scopes warnings ≡ ok w)
unfolding check_pairs
compatible-check_pairs [] warnings h = (warnings, refl)
compatible-check_pairs (left ∷ rest) warnings (first, h) =
    let (found, e) = compatible-check_against left rest warnings first in
    rw e (compatible-check_pairs rest found h)

All-IsNew : (scopes : List ScopeConfig) → All (IsNew [] []) scopes
unfolding IsNew
All-IsNew [] = tt
All-IsNew (x ∷ scopes) = ((refl, refl), All-IsNew scopes)

IsValid-of :
    (scopes : List ScopeConfig) (internal_paths : List FilePath)
    → (w : List ScopeWarning) × (validate_scopes scopes internal_paths ≡ ok w)
    → IsValid internal_paths scopes
unfolding validate_scopes
IsValid-of scopes internal_paths (w, h) =
    let (_, first, second) = >>=-ok (check_scopes internal_paths [] [] scopes) _ h in
    let (_, bounds, distinct) = check_scopes-valid internal_paths [] [] scopes first in
    (bounds, distinct, check_pairs-compatible scopes [] second)

-- Validation returns, with whatever warnings, exactly when the scopes are valid: all identities and
-- all paths are distinct; an actionable scope is not the root, is apart from every other protected
-- path and from every internal path; two actionable scopes are apart; and no excluded scope has an
-- actionable one at or below it.
pub validate_scopes-IsValid :
    (scopes : List ScopeConfig) (internal_paths : List FilePath)
    → ((w : List ScopeWarning) × (validate_scopes scopes internal_paths ≡ ok w))
      ↔ IsValid internal_paths scopes
unfolding validate_scopes
validate_scopes-IsValid scopes internal_paths = (
  IsValid-of scopes internal_paths,
  λ valid.
      rw (valid-check_scopes internal_paths [] [] scopes (All-IsNew scopes) valid.0 valid.1)
        (compatible-check_pairs scopes [] valid.2),
)
