-- ===== src/Base/Lists.antt =====
-- Lists measured and sliced by native numbers, and the predicates that the proofs go by.
use Prim.Native.Nat.{ℕ, zero, suc, ◌+◌, ◌-◌, ◌≤◌, ◌<◌, min}
use mathlib.Core.Path.{◌≡◌, refl, ap}
use mathlib.Core.Bool.{Bool, true, false, ◌&&◌}
use mathlib.Core.Option.{Option, none, some}
use mathlib.Core.List.{List, [], ◌∷◌, ◌++◌, map}
use native.Mathlib.Omega.{arith}
use mathlib.Core.Logic.{inl, inr}
use steward_public.Base.Equality.{if◌then◌else◌, if_rule, Bool-cases}

module _ {ℓ} {A : Type ℓ} where
  abbrev pub length : List A → ℕ
  length [] = 0
  length (x ∷ xs) = suc (length xs)

  -- `xs[:n]`
  abbrev pub take : ℕ → List A → List A
  take zero xs = []
  take (suc n) [] = []
  take (suc n) (x ∷ xs) = x ∷ take n xs

  -- `xs[n:]`
  abbrev pub drop : ℕ → List A → List A
  drop zero xs = xs
  drop (suc n) [] = []
  drop (suc n) (x ∷ xs) = drop n xs

  abbrev pub get_elem? : List A → ℕ → Option A
  get_elem? [] i = none
  get_elem? (x ∷ xs) zero = some x
  get_elem? (x ∷ xs) (suc i) = get_elem? xs i

  -- the comprehension `[x for x in xs if p(x)]`
  abbrev pub filter : (A → Bool) → List A → List A
  filter p [] = []
  filter p (x ∷ xs) = let rest = filter p xs in if p x then x ∷ rest else rest

  abbrev pub is_empty : List A → Bool
  is_empty [] = true
  is_empty (x ∷ xs) = false

  abbrev pub any : (A → Bool) → List A → Bool
  any p [] = false
  any p (x ∷ xs) = if p x then true else any p xs

  -- `sum(p(x) for x in xs)` of a test
  abbrev pub count_if : (A → Bool) → List A → ℕ
  count_if p [] = 0
  count_if p (x ∷ xs) = if p x then suc (count_if p xs) else count_if p xs

  abbrev pub sum_map : (A → ℕ) → List A → ℕ
  sum_map f [] = 0
  sum_map f (x ∷ xs) = f x + sum_map f xs

  pub length-append : (xs ys : List A) → length (xs ++ ys) ≡ length xs + length ys
  length-append [] ys = omega arith
  length-append (x ∷ xs) ys = omega (arith, length-append xs ys)

  pub length-take : (n : ℕ) (xs : List A) → length (take n xs) ≡ min n (length xs)
  length-take zero xs = omega arith
  length-take (suc n) [] = omega arith
  length-take (suc n) (x ∷ xs) = omega (arith, length-take n xs)

  pub length-drop : (n : ℕ) (xs : List A) → length (drop n xs) ≡ length xs - n
  length-drop zero xs = omega arith
  length-drop (suc n) [] = omega arith
  length-drop (suc n) (x ∷ xs) = omega (arith, length-drop n xs)

  pub take-length_append : (xs ys : List A) → take (length xs) (xs ++ ys) ≡ xs
  take-length_append [] ys = refl
  take-length_append (x ∷ xs) ys = ap (◌∷◌ x) (take-length_append xs ys)

  pub count_if-append :
      (p : A → Bool) (xs ys : List A) → count_if p (xs ++ ys) ≡ count_if p xs + count_if p ys
  count_if-append p [] ys = omega arith
  count_if-append p (x ∷ xs) ys = ground (arith, count_if-append p xs ys)

  pub count_if_ext :
      (p q : A → Bool) (xs : List A) → ((x : A) → p x ≡ q x) → count_if p xs ≡ count_if q xs
  count_if_ext p q [] h = refl
  count_if_ext p q (x ∷ xs) h = ground (arith, count_if_ext p q xs h, h x)

  pub length-filter : (p : A → Bool) (xs : List A) → length (filter p xs) ≤ length xs
  length-filter p [] = omega arith
  length-filter p (x ∷ xs) = ground (arith, length-filter p xs)

module _ {ℓ κ} {A : Type ℓ} where
  -- Every element has the property: a product that the tactics read and build.
  abbrev pub All : (A → Type κ) → List A → Type κ
  All P [] = Unit
  All P (x ∷ xs) = P x × All P xs

  pub All-append : (P : A → Type κ) (xs ys : List A) → All P xs → All P ys → All P (xs ++ ys)
  All-append P [] ys hx hy = hy
  All-append P (x ∷ xs) ys hx hy = (hx.0, All-append P xs ys hx.1 hy)

  pub All-filter : (P : A → Type κ) (p : A → Bool) (xs : List A) → All P xs → All P (filter p xs)
  All-filter P p [] h = tt
  All-filter P p (x ∷ xs) h =
      if_rule (All P) (p x) (x ∷ filter p xs) (filter p xs) (λ _. (h.0, All-filter P p xs h.1))
        (λ _. All-filter P p xs h.1)

  pub All-take : (P : A → Type κ) (n : ℕ) (xs : List A) → All P xs → All P (take n xs)
  All-take P zero xs h = tt
  All-take P (suc n) [] h = tt
  All-take P (suc n) (x ∷ xs) h = (h.0, All-take P n xs h.1)

  pub All-drop : (P : A → Type κ) (n : ℕ) (xs : List A) → All P xs → All P (drop n xs)
  All-drop P zero xs h = h
  All-drop P (suc n) [] h = tt
  All-drop P (suc n) (x ∷ xs) h = All-drop P n xs h.1

module _ {ℓ κ} {A : Type ℓ} {B : Type κ} where
  pub count_if-map :
      (p : B → Bool) (f : A → B) (xs : List A) → count_if p (map f xs) ≡ count_if (λ x. p (f x)) xs
  count_if-map p f [] = refl
  count_if-map p f (x ∷ xs) = ground (arith, count_if-map p f xs)

  pub length-map : (f : A → B) (xs : List A) → length (map f xs) ≡ length xs
  length-map f [] = refl
  length-map f (x ∷ xs) = omega (arith, length-map f xs)

module _ {ℓ κ μ} {A : Type ℓ} {B : Type κ} where
  pub All-map_intro :
      (P : B → Type μ) (f : A → B) (xs : List A) → All (λ x. P (f x)) xs → All P (map f xs)
  All-map_intro P f [] h = tt
  All-map_intro P f (x ∷ xs) h = (h.0, All-map_intro P f xs h.1)

module _ {ℓ κ μ} {A : Type ℓ} where
  pub All-map :
      (P : A → Type κ) (Q : A → Type μ) (f : (x : A) → P x → Q x) (xs : List A)
      → All P xs
      → All Q xs
  All-map P Q f [] h = tt
  All-map P Q f (x ∷ xs) h = (f x h.0, All-map P Q f xs h.1)

module _ {ℓ} {A : Type ℓ} where
  pub filter-filter :
      (p q : A → Bool) (xs : List A) → filter p (filter q xs) ≡ filter (λ x. q x && p x) xs
  filter-filter p q [] = refl
  filter-filter p q (x ∷ xs) = ground (arith, filter-filter p q xs)

  filter_nil :
      (p a : A → Bool) (xs : List A)
      → ((x : A) → p x ≡ true → a x ≡ true)
      → length (filter a xs) ≡ 0
      → filter p xs ≡ []
  filter_nil p a [] h e = refl
  filter_nil p a (x ∷ xs) h e = ground (arith, filter_nil p a xs h, h x)

  -- An element that one test selects is the only one that a weaker test selects, if that selects at
  -- most one.
  pub filter_sole :
      (p a : A → Bool) (xs : List A) (s : A)
      → ((x : A) → p x ≡ true → a x ≡ true)
      → length (filter a xs) ≤ 1
      → filter p xs ≡ s ∷ []
      → (filter a xs ≡ s ∷ []) × (p s ≡ true)
  filter_sole p a [] s h e f = cc
  filter_sole p a (x ∷ xs) s h k f = elim (Bool-cases (p x)) [
    | inl e ↦ (ground (arith, h x, filter_nil a a xs (λ y k. k)), ground arith)
    | inr e ↦ ground (arith, filter_sole p a xs s h, filter_nil p a xs h)
  ]

  pub length_one : (xs : List A) → 0 < length xs → length xs ≤ 1 → (x : A) × (xs ≡ x ∷ [])
  length_one [] h k = absurd (omega arith)
  length_one (x ∷ []) h k = (x, refl)
  length_one (x ∷ y ∷ ys) h k = absurd (omega arith)

  pub length-filter_weaker :
      (p a : A → Bool) (xs : List A)
      → ((x : A) → p x ≡ true → a x ≡ true)
      → length (filter p xs) ≤ length (filter a xs)
  length-filter_weaker p a [] h = omega arith
  length-filter_weaker p a (x ∷ xs) h = ground (arith, length-filter_weaker p a xs h, h x)

module _ {ℓ κ} {A : Type ℓ} where
  -- A selected element has the property and passes the test.
  pub All-filter-true :
      (P : A → Type κ) (p : A → Bool) (xs : List A)
      → All P xs
      → All (λ x. P x × (p x ≡ true)) (filter p xs)
  All-filter-true P p [] h = tt
  All-filter-true P p (x ∷ xs) h =
      if_rule (All (λ y. P y × (p y ≡ true))) (p x) (x ∷ filter p xs) (filter p xs)
        (λ e. ((h.0, e), All-filter-true P p xs h.1)) (λ _. All-filter-true P p xs h.1)
