-- ===== src/Base/Sort.antt =====
-- `sorted(xs, key=key)`: the stable sort. Python's algorithm is another one, with the same result.
use Prim.Native.Nat.{ℕ, suc, ◌+◌}
use mathlib.Core.Path.{◌≡◌, refl}
use mathlib.Core.Bool.{Bool, false}
use mathlib.Core.List.{List, [], ◌∷◌, Perm}
use mathlib.Core.List.Perm
use native.Mathlib.Omega.{arith}
use steward_public.Base.Equality.{if◌then◌else◌, Bool-cases}
use mathlib.Core.Logic.{inl, inr}
use steward_public.Base.Lists.{All, length, count_if, sum_map}
use steward_public.Base.Order.{Order, lt_asymm, not_lt_trans}

module _ {ℓ κ} {A : Type ℓ} {K : Type κ} ⦃o : Order K⦄ (key : A → K) where
  insert_on : A → List A → List A
  insert_on x [] = x ∷ []
  insert_on x (y ∷ ys) =
      let rest = insert_on x ys in if o.lt (key y) (key x) then y ∷ rest else x ∷ y ∷ ys

  unfoldable pub sort_on : List A → List A
  unfolding insert_on
  sort_on [] = []
  sort_on (x ∷ xs) = insert_on x (sort_on xs)

  -- No later key is below an earlier one.
  abbrev pub IsOrdered : List A → Type 0
  IsOrdered [] = Unit
  IsOrdered (x ∷ xs) = All (λ y. o.lt (key y) (key x) ≡ false) xs × IsOrdered xs

  insert_on-perm : (x : A) (xs : List A) → Perm (insert_on x xs) (x ∷ xs)
  unfolding insert_on
  insert_on-perm x [] = Perm.refl (x ∷ [])
  insert_on-perm x (y ∷ ys) = elim (Bool-cases (o.lt (key y) (key x))) [
    | inl e ↦ rw e (Perm.trans (Perm.cons y (insert_on-perm x ys)) (Perm.swap x y ys))
    | inr e ↦ rw e (Perm.refl (x ∷ y ∷ ys))
  ]

  pub sort_on-perm : (xs : List A) → Perm (sort_on xs) xs
  unfolding sort_on
  sort_on-perm [] = Perm.refl []
  sort_on-perm (x ∷ xs) = Perm.trans (insert_on-perm x (sort_on xs)) (Perm.cons x (sort_on-perm xs))

  insert_on-All {μ} :
      (P : A → Type μ) (x : A) (xs : List A) → P x → All P xs → All P (insert_on x xs)
  unfolding insert_on
  insert_on-All P x [] h hs = (h, tt)
  insert_on-All P x (y ∷ ys) h hs = elim (Bool-cases (o.lt (key y) (key x))) [
    | inl e ↦ rw e (hs.0, insert_on-All P x ys h hs.1)
    | inr e ↦ rw e (h, hs)
  ]

  pub sort_on-All {μ} : (P : A → Type μ) (xs : List A) → All P xs → All P (sort_on xs)
  unfolding sort_on
  sort_on-All P [] hs = tt
  sort_on-All P (x ∷ xs) hs = insert_on-All P x (sort_on xs) hs.0 (sort_on-All P xs hs.1)

  All-insert_on {μ} :
      (P : A → Type μ) (x : A) (xs : List A) → All P (insert_on x xs) → P x × All P xs
  unfolding insert_on
  All-insert_on P x [] h = h
  All-insert_on P x (y ∷ ys) h = elim (Bool-cases (o.lt (key y) (key x))) [
    | inl e ↦
        let hs = rw e at h in let (first, rest) = All-insert_on P x ys hs.1 in (first, (hs.0, rest))
    | inr e ↦ rw e at h
  ]

  -- What holds of each element of the result holds of each element.
  pub All-sort_on {μ} : (P : A → Type μ) (xs : List A) → All P (sort_on xs) → All P xs
  unfolding sort_on
  All-sort_on P [] h = tt
  All-sort_on P (x ∷ xs) h =
      let (first, rest) = All-insert_on P x (sort_on xs) h in (first, All-sort_on P xs rest)

  below-All :
      (x y : A) (ys : List A)
      → o.lt (key y) (key x) ≡ false
      → All (λ z. o.lt (key z) (key y) ≡ false) ys
      → All (λ z. o.lt (key z) (key x) ≡ false) ys
  below-All x y [] h hs = tt
  below-All x y (z ∷ zs) h hs =
      (not_lt_trans o (key x) (key y) (key z) h hs.0, below-All x y zs h hs.1)

  insert_on-IsOrdered : (x : A) (xs : List A) → IsOrdered xs → IsOrdered (insert_on x xs)
  unfolding insert_on
  insert_on-IsOrdered x [] h = (tt, tt)
  insert_on-IsOrdered x (y ∷ ys) h = elim (Bool-cases (o.lt (key y) (key x))) [
    | inl e ↦ rw e (
      insert_on-All (λ z. o.lt (key z) (key y) ≡ false) x ys (lt_asymm o (key y) (key x) e) h.0,
      insert_on-IsOrdered x ys h.1,
    )
    | inr e ↦ rw e ((e, below-All x y ys e h.0), h)
  ]

  -- The result is ordered.
  pub sort_on-IsOrdered : (xs : List A) → IsOrdered (sort_on xs)
  unfolding sort_on
  sort_on-IsOrdered [] = tt
  sort_on-IsOrdered (x ∷ xs) = insert_on-IsOrdered x (sort_on xs) (sort_on-IsOrdered xs)

  sum_map-insert_on :
      (f : A → ℕ) (x : A) (xs : List A) → sum_map f (insert_on x xs) ≡ f x + sum_map f xs
  unfolding insert_on
  sum_map-insert_on f x [] = refl
  sum_map-insert_on f x (y ∷ ys) = ground (arith, sum_map-insert_on f x ys)

  pub sum_map-sort_on : (f : A → ℕ) (xs : List A) → sum_map f (sort_on xs) ≡ sum_map f xs
  unfolding sort_on
  sum_map-sort_on f [] = refl
  sum_map-sort_on f (x ∷ xs) =
      omega (arith, sum_map-insert_on f x (sort_on xs), sum_map-sort_on f xs)

  length-insert_on : (x : A) (xs : List A) → length (insert_on x xs) ≡ suc (length xs)
  unfolding insert_on
  length-insert_on x [] = refl
  length-insert_on x (y ∷ ys) = ground (arith, length-insert_on x ys)

  pub length-sort_on : (xs : List A) → length (sort_on xs) ≡ length xs
  unfolding sort_on
  length-sort_on [] = refl
  length-sort_on (x ∷ xs) = omega (arith, length-insert_on x (sort_on xs), length-sort_on xs)

  count_if-insert_on :
      (p : A → Bool) (x : A) (xs : List A) → count_if p (insert_on x xs) ≡ count_if p (x ∷ xs)
  unfolding insert_on
  count_if-insert_on p x [] = refl
  count_if-insert_on p x (y ∷ ys) = ground (arith, count_if-insert_on p x ys)

  pub count_if-sort_on : (p : A → Bool) (xs : List A) → count_if p (sort_on xs) ≡ count_if p xs
  unfolding sort_on
  count_if-sort_on p [] = refl
  count_if-sort_on p (x ∷ xs) =
      ground (arith, count_if-insert_on p x (sort_on xs), count_if-sort_on p xs)
