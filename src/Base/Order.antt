-- ===== src/Base/Order.antt =====
-- The `<` by which Python orders numbers, texts, tuples and lists, as a lawful test.
use Prim.Native.Nat.{ℕ, ◌<◌}
use mathlib.Core.Path.{◌≡◌, refl, ap₂}
use mathlib.Core.Bool.{Bool, true, false}
use mathlib.Core.List.{List, [], ◌∷◌, ◌++◌}
use native.Mathlib.Omega.{arith}
use steward_public.Base.Equality.{if◌then◌else◌, ltb}

pub record Order {ℓ} (A : Type ℓ) : Type ℓ where
  pub lt : A → A → Bool
  pub irrefl : (a : A) → lt a a ≡ false
  pub trans : (a b c : A) → lt a b ≡ true → lt b c ≡ true → lt a c ≡ true
  pub connected : (a b : A) → lt a b ≡ false → lt b a ≡ false → a ≡ b

module _ {ℓ} {A : Type ℓ} (o : Order A) where
  pub lt_asymm : (a b : A) → o.lt a b ≡ true → o.lt b a ≡ false
  lt_asymm a b h = ground (arith, o.trans a b a h, o.irrefl a)

  -- "not above" is transitive
  pub not_lt_trans : (a b c : A) → o.lt b a ≡ false → o.lt c b ≡ false → o.lt c a ≡ false
  not_lt_trans a b c p q =
      ground (arith, o.trans c a b, o.trans b c a, o.connected a b, o.connected b c)

nat_connected : (a b : ℕ) → ltb a b ≡ false → ltb b a ≡ false → a ≡ b
nat_connected a b p q = ground arith

nat_trans : (a b c : ℕ) → ltb a b ≡ true → ltb b c ≡ true → ltb a c ≡ true
nat_trans a b c p q = ground arith

nat_irrefl : (a : ℕ) → ltb a a ≡ false
nat_irrefl a = ground arith

instance unfoldable pub nat_order : Order ℕ
unfolding nat_irrefl nat_trans nat_connected
nat_order = record { lt = ltb; irrefl = nat_irrefl; trans = nat_trans; connected = nat_connected }

module _ {ℓ} {A : Type ℓ} ⦃o : Order A⦄ where
  list_lt : List A → List A → Bool
  list_lt [] [] = false
  list_lt [] (y ∷ ys) = true
  list_lt (x ∷ xs) [] = false
  list_lt (x ∷ xs) (y ∷ ys) =
      let rest = list_lt xs ys in if o.lt x y then true else if o.lt y x then false else rest

  list_irrefl : (a : List A) → list_lt a a ≡ false
  unfolding list_lt
  list_irrefl [] = refl
  list_irrefl (x ∷ xs) = ground (arith, o.irrefl x, list_irrefl xs)

  list_trans : (a b c : List A) → list_lt a b ≡ true → list_lt b c ≡ true → list_lt a c ≡ true
  unfolding list_lt
  list_trans [] [] (z ∷ zs) p q = refl
  list_trans [] [] [] p q = q
  list_trans [] (y ∷ ys) [] p q = q
  list_trans [] (y ∷ ys) (z ∷ zs) p q = refl
  list_trans (x ∷ xs) [] c p q = cc
  list_trans (x ∷ xs) (y ∷ ys) [] p q = cc
  list_trans (x ∷ xs) (y ∷ ys) (z ∷ zs) p q = ground (
    arith,
    o.trans x y z,
    not_lt_trans o x y z,
    not_lt_trans o z y x,
    o.connected x y,
    o.connected y z,
    list_trans xs ys zs,
  )

  list_connected : (a b : List A) → list_lt a b ≡ false → list_lt b a ≡ false → a ≡ b
  unfolding list_lt
  list_connected [] [] p q = refl
  list_connected [] (y ∷ ys) p q = cc
  list_connected (x ∷ xs) [] p q = cc
  list_connected (x ∷ xs) (y ∷ ys) p q =
      ap₂ ◌∷◌ (ground (arith, o.connected x y))
        (list_connected xs ys (ground (arith, o.connected x y)) (ground (arith, o.connected x y)))

  instance unfoldable pub list_order : Order (List A)
  unfolding list_lt list_irrefl list_trans list_connected
  list_order = record {
    lt = list_lt;
    irrefl = list_irrefl;
    trans = list_trans;
    connected = list_connected;
  }

-- After a common start, the first difference decides.
pub lt-append :
    (start : List ℕ) (a b : ℕ) (x y : List ℕ)
    → a < b
    → list_order.lt (start ++ a ∷ x) (start ++ b ∷ y) ≡ true
unfolding list_order list_lt nat_order
lt-append [] a b x y less = ground arith
lt-append (c ∷ start) a b x y less = ground (arith, lt-append start a b x y less, nat_irrefl c)

module _ {ℓ κ} {A : Type ℓ} {B : Type κ} ⦃o : Order A⦄ ⦃p : Order B⦄ where
  pair_lt : A × B → A × B → Bool
  pair_lt (a, b) (c, d) = if o.lt a c then true else if o.lt c a then false else p.lt b d

  pair_irrefl : (s : A × B) → pair_lt s s ≡ false
  unfolding pair_lt
  pair_irrefl (a, b) = ground (arith, o.irrefl a, p.irrefl b)

  pair_trans : (s t u : A × B) → pair_lt s t ≡ true → pair_lt t u ≡ true → pair_lt s u ≡ true
  unfolding pair_lt
  pair_trans (a, b) (c, d) (e, f) h k = ground (
    arith,
    o.trans a c e,
    not_lt_trans o a c e,
    not_lt_trans o e c a,
    o.connected a c,
    o.connected c e,
    p.trans b d f,
  )

  pair_connected : (s t : A × B) → pair_lt s t ≡ false → pair_lt t s ≡ false → s ≡ t
  unfolding pair_lt
  pair_connected (a, b) (c, d) h k = ground (arith, o.connected a c, p.connected b d)

  instance unfoldable pub pair_order : Order (A × B)
  unfolding pair_lt pair_irrefl pair_trans pair_connected
  pair_order = record {
    lt = pair_lt;
    irrefl = pair_irrefl;
    trans = pair_trans;
    connected = pair_connected;
  }
