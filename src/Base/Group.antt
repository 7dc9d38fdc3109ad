-- ===== src/Base/Group.antt =====
-- Dicts of lists that group elements by a key, and sets as lists without repetition.
use Prim.Native.Nat.{ℕ, suc, ◌+◌, ◌<◌}
use mathlib.Core.Path.{◌≡◌, refl, sym, ◌∙◌, ap}
use mathlib.Core.Bool.{Bool, true, false}
use mathlib.Core.Option.{Option, none, some}
use mathlib.Core.List.{List, [], ◌∷◌, ◌++◌, append-nil, append_assoc}
use native.Mathlib.Omega.{arith}
use steward_public.Base.Equality.{if◌then◌else◌, Eq, ◌==◌, contains, option_eq, if_rule}
use steward_public.Base.Lists.{filter, length, length-append, sum_map, count_if}
use steward_public.Base.Dict.{Dict, append_at, has_key}

abbrev pub is_keyless {ℓ} : {A : Type ℓ} → Option A → Bool
is_keyless none = true
is_keyless (some x) = false

module _ {ℓ κ} {A : Type ℓ} {K : Type κ} ⦃e : Eq K⦄ (key : A → Option K) where
  abbrev pub add_to : Option K → A → Dict K (List A) → Dict K (List A)
  add_to none x groups = groups
  add_to (some k) x groups = append_at k x groups

  unfoldable pub group_onto : Dict K (List A) → List A → Dict K (List A)
  group_onto groups [] = groups
  group_onto groups (x ∷ xs) = group_onto (add_to (key x) x groups) xs

  -- `for x in xs: groups.setdefault(key(x), []).append(x)`, without the elements that have no key
  unfoldable pub group_by : List A → Dict K (List A)
  unfolding group_onto
  group_by xs = group_onto [] xs

  abbrev pub has_group_key : K → A → Bool
  has_group_key k x = key x == some k

split_group {ℓ} :
    {A : Type ℓ} (b : Bool) (g : List A) (x : A) (rest : List A)
    → (if b then g ++ x ∷ [] else g) ++ rest ≡ g ++ (if b then x ∷ rest else rest)
split_group true g x rest = append_assoc g (x ∷ []) rest
split_group false g x rest = refl

module _ {ℓ κ} {A : Type ℓ} {K : Type κ} ⦃e : Eq K⦄ where
  -- the group of a key, empty where there is none
  unfoldable pub group_at : K → Dict K (List A) → List A
  group_at k [] = []
  group_at k ((j, xs) ∷ d) = if k == j then xs else group_at k d

  group_at-append_at :
      (k j : K) (x : A) (d : Dict K (List A))
      → group_at k (append_at j x d) ≡ (if k == j then group_at k d ++ x ∷ [] else group_at k d)
  unfolding group_at append_at
  group_at-append_at k j x [] = ground arith
  group_at-append_at k j x ((i, xs) ∷ d) = ground (arith, group_at-append_at k j x d)

  group_at-add_to :
      (key : A → Option K) (k : K) (o : Option K) (x : A) (d : Dict K (List A))
      → group_at k (add_to key o x d)
        ≡ (if o == some k then group_at k d ++ x ∷ [] else group_at k d)
  group_at-add_to key k none x d = ground arith
  group_at-add_to key k (some j) x d = ground (arith, group_at-append_at k j x d)

  group_at-onto :
      (key : A → Option K) (k : K) (d : Dict K (List A)) (xs : List A)
      → group_at k (group_onto key d xs) ≡ group_at k d ++ filter (has_group_key key k) xs
  unfolding group_onto
  group_at-onto key k d [] = sym (append-nil (group_at k d))
  group_at-onto key k d (x ∷ xs) =
      let rest = filter (has_group_key key k) xs in
      group_at-onto key k (add_to key (key x) x d) xs
      ∙ ap (λ g. g ++ rest) (group_at-add_to key k (key x) x d)
      ∙ split_group (key x == some k) (group_at k d) x rest

  -- A group is the list of the elements with its key, in their order.
  pub group_at-group_by :
      (key : A → Option K) (k : K) (xs : List A)
      → group_at k (group_by key xs) ≡ filter (has_group_key key k) xs
  unfolding group_by group_at
  group_at-group_by key k xs = group_at-onto key k [] xs

-- No group is empty.
abbrev pub NoneEmpty {ℓ κ} : {A : Type ℓ} {K : Type κ} → Dict K (List A) → Type 0
NoneEmpty [] = Unit
NoneEmpty ((_, xs) ∷ d) = (0 < length xs) × NoneEmpty d

module _ {ℓ κ} {A : Type ℓ} {K : Type κ} ⦃e : Eq K⦄ where
  append_at-NoneEmpty :
      (k : K) (x : A) (d : Dict K (List A)) → NoneEmpty d → NoneEmpty (append_at k x d)
  unfolding append_at
  append_at-NoneEmpty k x [] h = (omega arith, tt)
  append_at-NoneEmpty k x ((j, xs) ∷ d) h =
      if_rule NoneEmpty (k == j) ((j, xs ++ x ∷ []) ∷ d) ((j, xs) ∷ append_at k x d)
        (λ _. (omega (arith, length-append xs (x ∷ [])), h.1))
        (λ _. (h.0, append_at-NoneEmpty k x d h.1))

  add_to-NoneEmpty :
      (key : A → Option K) (o : Option K) (x : A) (d : Dict K (List A))
      → NoneEmpty d
      → NoneEmpty (add_to key o x d)
  add_to-NoneEmpty key none x d h = h
  add_to-NoneEmpty key (some k) x d h = append_at-NoneEmpty k x d h

  onto-NoneEmpty :
      (key : A → Option K) (d : Dict K (List A)) (xs : List A)
      → NoneEmpty d
      → NoneEmpty (group_onto key d xs)
  unfolding group_onto
  onto-NoneEmpty key d [] h = h
  onto-NoneEmpty key d (x ∷ xs) h =
      onto-NoneEmpty key (add_to key (key x) x d) xs (add_to-NoneEmpty key (key x) x d h)

  pub group_by-NoneEmpty : (key : A → Option K) (xs : List A) → NoneEmpty (group_by key xs)
  unfolding group_by
  group_by-NoneEmpty key xs = onto-NoneEmpty key [] xs tt

  -- The group of a key that is there is not empty.
  pub group_at-positive :
      (k : K) (d : Dict K (List A)) → NoneEmpty d → has_key k d ≡ true → 0 < length (group_at k d)
  unfolding has_key group_at
  group_at-positive k [] h there = cc
  group_at-positive k ((j, xs) ∷ d) h there = ground (arith, group_at-positive k d h.1)

module _ {ℓ κ} {A : Type ℓ} {K : Type κ} ⦃e : Eq K⦄ where
  abbrev pub members_of : Dict K (List A) → ℕ
  members_of = sum_map (λ g. length g.1)

  members-append_at :
      (k : K) (x : A) (d : Dict K (List A)) → members_of (append_at k x d) ≡ suc (members_of d)
  unfolding append_at
  members-append_at k x [] = refl
  members-append_at k x ((j, xs) ∷ d) =
      ground (arith, members-append_at k x d, length-append xs (x ∷ []))

  members-add_to :
      (key : A → Option K) (o : Option K) (x : A) (d : Dict K (List A))
      → members_of (add_to key o x d) + (if is_keyless o then 1 else 0) ≡ suc (members_of d)
  members-add_to key none x d = omega arith
  members-add_to key (some k) x d = omega (arith, members-append_at k x d)

  members-onto :
      (key : A → Option K) (d : Dict K (List A)) (xs : List A)
      → members_of (group_onto key d xs) + count_if (λ x. is_keyless (key x)) xs
        ≡ members_of d + length xs
  unfolding group_onto
  members-onto key d [] = omega arith
  members-onto key d (x ∷ xs) =
      ground (arith, members-onto key (add_to key (key x) x d) xs, members-add_to key (key x) x d)

  -- Every element is in one group, but for those without a key.
  pub members-group_by :
      (key : A → Option K) (xs : List A)
      → members_of (group_by key xs) + count_if (λ x. is_keyless (key x)) xs ≡ length xs
  unfolding group_by
  members-group_by key xs = omega (arith, members-onto key [] xs)

module _ {ℓ} {A : Type ℓ} ⦃e : Eq A⦄ where
  -- `set(xs)`, in the order in which the elements first appear from the end
  unfoldable pub distinct : List A → List A
  distinct [] = []
  distinct (x ∷ xs) = let rest = distinct xs in if contains rest x then rest else x ∷ rest

-- `Counter`: the elements with their numbers
module _ {ℓ} {A : Type ℓ} ⦃e : Eq A⦄ where
  abbrev count_one : A → Dict A ℕ → Dict A ℕ
  count_one x [] = (x, 1) ∷ []
  count_one x ((y, n) ∷ d) =
      let rest = count_one x d in if x == y then (y, suc n) ∷ d else (y, n) ∷ rest

  tally_onto : Dict A ℕ → List A → Dict A ℕ
  tally_onto counts [] = counts
  tally_onto counts (x ∷ xs) = tally_onto (count_one x counts) xs

  unfoldable pub tally : List A → Dict A ℕ
  unfolding tally_onto
  tally xs = tally_onto [] xs

  count_one-sum :
      (x : A) (d : Dict A ℕ) → sum_map (λ p. p.1) (count_one x d) ≡ suc (sum_map (λ p. p.1) d)
  count_one-sum x [] = refl
  count_one-sum x ((y, n) ∷ d) = ground (arith, count_one-sum x d)

  tally_onto-sum :
      (d : Dict A ℕ) (xs : List A)
      → sum_map (λ p. p.1) (tally_onto d xs) ≡ sum_map (λ p. p.1) d + length xs
  unfolding tally_onto
  tally_onto-sum d [] = omega arith
  tally_onto-sum d (x ∷ xs) = omega (arith, tally_onto-sum (count_one x d) xs, count_one-sum x d)

  -- The numbers of a count add up to the number of elements counted.
  pub tally-sum : (xs : List A) → sum_map (λ p. p.1) (tally xs) ≡ length xs
  unfolding tally
  tally-sum xs = omega (arith, tally_onto-sum [] xs)
