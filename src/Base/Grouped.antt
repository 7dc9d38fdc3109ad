-- ===== src/Base/Grouped.antt =====
-- The groups of `group_by` as entries of a dict: each is exact, and they are no more than the elements.
use Prim.Native.Nat.{suc, ◌+◌, ◌≤◌}
use mathlib.Core.Path.{◌≡◌, refl, sym, ◌∙◌}
use mathlib.Core.Bool.{Bool, true, false}
use mathlib.Core.Option.{Option, none, some}
use mathlib.Core.List.{List, [], ◌∷◌, ◌++◌}
use native.Mathlib.Omega.{arith}
use steward_public.Base.Equality.{if◌then◌else◌, Eq, ◌==◌, option_eq, if_rule}
use steward_public.Base.Lists.{filter, length, All, All-map}
use steward_public.Base.Dict.{Dict, append_at, has_key, UniqueKeys}
use steward_public.Base.Group.{
  group_by, group_at, has_group_key, group_at-group_by, add_to, group_onto,
}

module _ {ℓ κ} {A : Type ℓ} {K : Type κ} ⦃e : Eq K⦄ where
  has_key-append_at :
      (j k : K) (x : A) (d : Dict K (List A))
      → has_key j (append_at k x d) ≡ (if j == k then true else has_key j d)
  unfolding has_key append_at
  has_key-append_at j k x [] = ground arith
  has_key-append_at j k x ((i, xs) ∷ d) = ground (arith, has_key-append_at j k x d)

  append_at-UniqueKeys :
      (k : K) (x : A) (d : Dict K (List A)) → UniqueKeys d → UniqueKeys (append_at k x d)
  unfolding append_at has_key
  append_at-UniqueKeys k x [] u = (refl, tt)
  append_at-UniqueKeys k x ((j, xs) ∷ d) u =
      if_rule UniqueKeys (k == j) ((j, xs ++ x ∷ []) ∷ d) ((j, xs) ∷ append_at k x d) (λ _. u)
        (λ n. (ground (arith, has_key-append_at j k x d), append_at-UniqueKeys k x d u.1))

  length-append_at :
      (k : K) (x : A) (d : Dict K (List A)) → length (append_at k x d) ≤ suc (length d)
  unfolding append_at
  length-append_at k x [] = omega arith
  length-append_at k x ((j, xs) ∷ d) = ground (arith, length-append_at k x d)

  skip_key :
      (j k : K) (xs : List A) (d : Dict K (List A))
      → has_key j d ≡ false
      → has_key k d ≡ true
      → group_at k ((j, xs) ∷ d) ≡ group_at k d
  unfolding group_at
  skip_key j k xs d fresh there = ground arith

  All-group_at_in :
      (c d : Dict K (List A))
      → UniqueKeys d
      → ((k : K) → has_key k d ≡ true → group_at k c ≡ group_at k d)
      → All (λ p. p.1 ≡ group_at p.0 c) d
  unfolding has_key group_at
  All-group_at_in c [] u h = tt
  All-group_at_in c ((j, xs) ∷ d) u h = (
    sym (h j (ground arith) ∙ ground arith),
    All-group_at_in c d u.1 (λ k there. h k (ground arith) ∙ skip_key j k xs d u.0 there),
  )

  -- a group is what its key finds
  All-group_at : (d : Dict K (List A)) → UniqueKeys d → All (λ p. p.1 ≡ group_at p.0 d) d
  All-group_at d u = All-group_at_in d d u (λ k there. refl)

module _ {ℓ κ} {A : Type ℓ} {K : Type κ} ⦃e : Eq K⦄ (key : A → Option K) where
  add_to-UniqueKeys :
      (o : Option K) (x : A) (d : Dict K (List A)) → UniqueKeys d → UniqueKeys (add_to key o x d)
  add_to-UniqueKeys none x d u = u
  add_to-UniqueKeys (some k) x d u = append_at-UniqueKeys k x d u

  onto-UniqueKeys :
      (d : Dict K (List A)) (xs : List A) → UniqueKeys d → UniqueKeys (group_onto key d xs)
  unfolding group_onto
  onto-UniqueKeys d [] u = u
  onto-UniqueKeys d (x ∷ xs) u =
      onto-UniqueKeys (add_to key (key x) x d) xs (add_to-UniqueKeys (key x) x d u)

  pub group_by-UniqueKeys : (xs : List A) → UniqueKeys (group_by key xs)
  unfolding group_by
  group_by-UniqueKeys xs = onto-UniqueKeys [] xs tt

  -- Every group holds the elements with its key, all of them and in their order.
  pub group_by-exact :
      (xs : List A) → All (λ p. p.1 ≡ filter (has_group_key key p.0) xs) (group_by key xs)
  group_by-exact xs =
      All-map _ _ (λ p h. h ∙ group_at-group_by key p.0 xs) (group_by key xs)
        (All-group_at (group_by key xs) (group_by-UniqueKeys xs))

  abbrev pub lacks_key : A → Bool
  lacks_key x = key x == none

  length-add_to :
      (o : Option K) (x : A) (d : Dict K (List A))
      → length (add_to key o x d) + (if o == none then 1 else 0) ≤ suc (length d)
  length-add_to none x d = ground arith
  length-add_to (some k) x d = ground (arith, length-append_at k x d)

  length-onto :
      (d : Dict K (List A)) (xs : List A)
      → length (group_onto key d xs) + length (filter lacks_key xs) ≤ length d + length xs
  unfolding group_onto
  length-onto d [] = omega arith
  length-onto d (x ∷ xs) =
      ground (arith, length-onto (add_to key (key x) x d) xs, length-add_to (key x) x d)

  -- The groups and the elements without a key are no more than the elements.
  pub length-group_by :
      (xs : List A) → length (group_by key xs) + length (filter lacks_key xs) ≤ length xs
  unfolding group_by
  length-group_by xs = omega (arith, length-onto [] xs)
