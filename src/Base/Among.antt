-- ===== src/Base/Among.antt =====
-- Membership in a list, as a choice of the place, and Python's `x in xs` as its test.
use mathlib.Core.Path.{◌≡◌, refl, sym, subst}
use mathlib.Core.Bool.{Bool, true, false}
use mathlib.Core.Logic.{◌↔◌, ◌⊎◌, inl, inr}
use mathlib.Core.List.{List, [], ◌∷◌}
use native.Mathlib.Omega.{arith}
use steward_public.Base.Equality.{if◌then◌else◌, Eq, ◌==◌, contains, Bool-cases, eq_of_==}
use steward_public.Base.Lists.{All, filter}

module _ {A : Type 0} where
  abbrev pub Among : A → List A → Type 0
  Among a [] = ⊥
  Among a (x ∷ xs) = (a ≡ x) ⊎ Among a xs

  pub All-Among {κ} : (P : A → Type κ) (a : A) (xs : List A) → All P xs → Among a xs → P a
  All-Among P a [] h m = elim m [ ]
  All-Among P a (x ∷ xs) h (inl e) = subst P (sym e) h.0
  All-Among P a (x ∷ xs) h (inr m) = All-Among P a xs h.1 m

  pub All-of_Among {κ} : (P : A → Type κ) (xs : List A) → ((a : A) → Among a xs → P a) → All P xs
  All-of_Among P [] h = tt
  All-of_Among P (x ∷ xs) h = (h x (inl refl), All-of_Among P xs (λ a m. h a (inr m)))

  Among-if :
      (b : Bool) (a x : A) (ys : List A)
      → Among a (if b then x ∷ ys else ys)
      → ((a ≡ x) × (b ≡ true)) ⊎ Among a ys
  Among-if true a x ys (inl e) = inl (e, refl)
  Among-if true a x ys (inr m) = inr m
  Among-if false a x ys m = inr m

  if-Among :
      (b : Bool) (a x : A) (ys : List A)
      → ((a ≡ x) × (b ≡ true)) ⊎ Among a ys
      → Among a (if b then x ∷ ys else ys)
  if-Among true a x ys (inl (e, _)) = inl e
  if-Among true a x ys (inr m) = inr m
  if-Among false a x ys (inl (_, h)) = cc
  if-Among false a x ys (inr m) = m

  -- The elements of a filtered list are those that pass the test.
  pub Among-filter :
      (p : A → Bool) (a : A) (xs : List A) → Among a (filter p xs) → Among a xs × (p a ≡ true)
  Among-filter p a [] m = elim m [ ]
  Among-filter p a (x ∷ xs) m = elim (Among-if (p x) a x (filter p xs) m) [
    | inl (same, h) ↦ (inl same, subst (λ y. p y ≡ true) (sym same) h)
    | inr later ↦ let (there, h) = Among-filter p a xs later in (inr there, h)
  ]

  pub filter-Among :
      (p : A → Bool) (a : A) (xs : List A) → Among a xs → p a ≡ true → Among a (filter p xs)
  filter-Among p a [] m h = elim m [ ]
  filter-Among p a (x ∷ xs) (inl e) h =
      if-Among (p x) a x (filter p xs) (inl (e, subst (λ y. p y ≡ true) e h))
  filter-Among p a (x ∷ xs) (inr m) h =
      if-Among (p x) a x (filter p xs) (inr (filter-Among p a xs m h))

module _ {A : Type 0} ⦃e : Eq A⦄ where
  contains-Among : (xs : List A) (a : A) → contains xs a ≡ true → Among a xs
  contains-Among [] a h = cc
  contains-Among (x ∷ xs) a h = elim (Bool-cases (a == x)) [
    | inl same ↦ inl (eq_of_== same)
    | inr differ ↦ inr (contains-Among xs a (ground arith))
  ]

  Among-contains : (xs : List A) (a : A) → Among a xs → contains xs a ≡ true
  Among-contains [] a m = elim m [ ]
  Among-contains (x ∷ xs) a (inl same) = ground arith
  Among-contains (x ∷ xs) a (inr m) = ground (arith, Among-contains xs a m)

  pub contains_iff : (xs : List A) (a : A) → (contains xs a ≡ true) ↔ Among a xs
  contains_iff xs a = (contains-Among xs a, Among-contains xs a)
