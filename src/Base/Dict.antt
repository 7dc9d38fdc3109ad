-- ===== src/Base/Dict.antt =====
-- Dicts in insertion order. Proofs elsewhere go by the laws.
use mathlib.Core.Path.{◌≡◌, refl, subst}
use mathlib.Core.Bool.{Bool, true, false}
use mathlib.Core.Option.{Option, none, some, some-injective}
use mathlib.Core.List.{List, [], ◌∷◌, ◌++◌}
use native.Mathlib.Omega.{arith}
use steward_public.Base.Equality.{if◌then◌else◌, if_rule, Eq, ◌==◌}
use steward_public.Base.Lists.{All}

abbrev pub Dict {ℓ κ} : Type ℓ → Type κ → Type (ℓ ⊔ κ)
Dict K V = List (K × V)

module _ {ℓ κ} {K : Type ℓ} {V : Type κ} where
  unfoldable pub keys : Dict K V → List K
  keys [] = []
  keys ((k, _) ∷ d) = k ∷ keys d

  unfoldable pub values : Dict K V → List V
  values [] = []
  values ((_, v) ∷ d) = v ∷ values d

module _ {ℓ κ} {K : Type ℓ} {V : Type κ} ⦃e : Eq K⦄ where
  -- `d.get(k)`
  unfoldable pub lookup : K → Dict K V → Option V
  lookup k [] = none
  lookup k ((j, v) ∷ d) = if k == j then some v else lookup k d

  -- `k in d`
  unfoldable pub has_key : K → Dict K V → Bool
  has_key k [] = false
  has_key k ((j, v) ∷ d) = if k == j then true else has_key k d

  -- `d[k] = v`
  unfoldable pub insert : K → V → Dict K V → Dict K V
  insert k v [] = (k, v) ∷ []
  insert k v ((j, w) ∷ d) = if k == j then (k, v) ∷ d else (j, w) ∷ insert k v d

  pub lookup-insert :
      (j k : K) (v : V) (d : Dict K V)
      → lookup j (insert k v d) ≡ (if j == k then some v else lookup j d)
  unfolding insert lookup
  lookup-insert j k v [] = refl
  lookup-insert j k v ((i, w) ∷ d) = ground (arith, lookup-insert j k v d)

  -- What holds of each pair holds of each pair after an insertion, and of what is looked up.
  pub All-insert {μ} :
      (P : K × V → Type μ) (k : K) (v : V) (d : Dict K V)
      → P (k, v)
      → All P d
      → All P (insert k v d)
  unfolding insert
  All-insert P k v [] h hs = (h, tt)
  All-insert P k v ((j, w) ∷ d) h hs =
      if_rule (All P) (k == j) ((k, v) ∷ d) ((j, w) ∷ insert k v d) (λ _. (h, hs.1))
        (λ _. (hs.0, All-insert P k v d h hs.1))

  pub All-lookup {μ} :
      (P : V → Type μ) (k : K) (v : V) (d : Dict K V)
      → All (λ (pair : K × V). P pair.1) d
      → lookup k d ≡ some v
      → P v
  unfolding lookup
  All-lookup P k v [] hs h = cc
  All-lookup P k v ((j, w) ∷ d) hs h =
      if_rule (λ (found : Option V). found ≡ some v → P v) (k == j) (some w) (lookup k d)
        (λ _ e. subst P (some-injective w v e) hs.0) (λ _ e. All-lookup P k v d hs.1 e) h

  pub lookup-insert_self :
      (j k : K) (v : V) (d : Dict K V) → j ≡ k → lookup j (insert k v d) ≡ some v
  lookup-insert_self j k v d e = rw lookup-insert (ground arith)

  pub lookup-insert_ne :
      (j k : K) (v : V) (d : Dict K V) → ¬ (j ≡ k) → lookup j (insert k v d) ≡ lookup j d
  lookup-insert_ne j k v d e = rw lookup-insert (ground arith)

  pub has_key-true : (k : K) (v : V) (d : Dict K V) → lookup k d ≡ some v → has_key k d ≡ true
  unfolding has_key lookup
  has_key-true k v [] h = cc
  has_key-true k v ((j, w) ∷ d) h = ground (arith, has_key-true k v d)

  pub has_key-false : (k : K) (d : Dict K V) → has_key k d ≡ false → lookup k d ≡ none
  unfolding has_key lookup
  has_key-false k [] h = refl
  has_key-false k ((j, v) ∷ d) h = ground (arith, has_key-false k d)

module _ {ℓ κ} {K : Type ℓ} {V : Type κ} ⦃e : Eq K⦄ where
  -- No key stands twice: what a real dict guarantees.
  abbrev pub UniqueKeys : Dict K V → Type 0
  UniqueKeys [] = Unit
  UniqueKeys ((k, _) ∷ d) = (has_key k d ≡ false) × UniqueKeys d

  pub has_key-append :
      (k : K) (c d : Dict K V) → has_key k (c ++ d) ≡ (if has_key k c then true else has_key k d)
  unfolding has_key
  has_key-append k [] d = refl
  has_key-append k ((j, v) ∷ c) d = ground (arith, has_key-append k c d)

  -- Setting a key that is not there puts it at the end.
  pub insert_fresh :
      (k : K) (v : V) (d : Dict K V) → has_key k d ≡ false → insert k v d ≡ d ++ (k, v) ∷ []
  unfolding insert has_key
  insert_fresh k v [] h = refl
  insert_fresh k v ((j, w) ∷ d) h = ground (arith, insert_fresh k v d)

  pub UniqueKeys-append_one :
      (k : K) (v : V) (d : Dict K V)
      → has_key k d ≡ false
      → UniqueKeys d
      → UniqueKeys (d ++ (k, v) ∷ [])
  unfolding has_key
  UniqueKeys-append_one k v [] h u = (refl, tt)
  UniqueKeys-append_one k v ((j, w) ∷ d) h u = (
    ground (arith, has_key-append j d ((k, v) ∷ [])),
    UniqueKeys-append_one k v d (ground arith) u.1,
  )

module _ {ℓ κ} {K : Type ℓ} {V : Type κ} ⦃e : Eq K⦄ where
  -- `d.setdefault(k, []).append(v)`, and `d[k].append(v)` of a `defaultdict(list)`
  unfoldable pub append_at : K → V → Dict K (List V) → Dict K (List V)
  append_at k v [] = (k, v ∷ []) ∷ []
  append_at k v ((j, vs) ∷ d) = if k == j then (j, vs ++ v ∷ []) ∷ d else (j, vs) ∷ append_at k v d

  -- Each key of a dict is there.
  keys-there_in :
      (c d : Dict K (List V))
      → ((k : K) → has_key k d ≡ true → has_key k c ≡ true)
      → All (λ k. has_key k c ≡ true) (keys d)
  unfolding keys has_key
  keys-there_in c [] h = tt
  keys-there_in c ((j, v) ∷ d) h =
      (h j (ground arith), keys-there_in c d (λ k there. h k (ground arith)))

  pub keys-there : (d : Dict K (List V)) → All (λ k. has_key k d ≡ true) (keys d)
  keys-there d = keys-there_in d d (λ k there. there)
