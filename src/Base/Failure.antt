-- ===== src/Base/Failure.antt =====
-- Results of code that may raise: the value, or the exception.
use mathlib.Core.Path.{◌≡◌, refl}
use mathlib.Core.Bool.{Bool, true, false}
use mathlib.Core.List.{List, [], ◌∷◌}
use steward_public.Base.Equality.{if◌then◌else◌}
use steward_public.Base.Lists.{All}

pub data Result {ℓ κ} (E : Type ℓ) (A : Type κ) : Type (ℓ ⊔ κ) where
  ok : A → Result E A
  err : E → Result E A

module _ {ℓ κ μ} {E : Type ℓ} {A : Type κ} {B : Type μ} where
  infixl 5 ◌>>=◌ ◌>>◌
  abbrev pub ◌>>=◌ : Result E A → (A → Result E B) → Result E B
  err e >>= next = err e
  ok value >>= next = next value

  abbrev pub ◌>>◌ : Result E A → Result E B → Result E B
  first >> second = first >>= λ _. second

  -- A sequence of two steps returns only where both do.
  pub >>=-ok :
      (first : Result E A) (next : A → Result E B) {result : B}
      → (first >>= next) ≡ ok result
      → (value : A) × (first ≡ ok value) × (next value ≡ ok result)
  >>=-ok (err e) next returned = cc
  >>=-ok (ok value) next returned = (value, refl, returned)

-- `if test: raise e`
abbrev pub raise_if {ℓ} : {E : Type ℓ} → Bool → E → Result E (Unit {0})
raise_if true e = err e
raise_if false e = ok tt

pub raise_if-ok {ℓ} :
    {E : Type ℓ} (b : Bool) (e : E) {u : Unit {0}} → raise_if b e ≡ ok u → b ≡ false
raise_if-ok true e h = cc
raise_if-ok false e h = refl

-- A test that decides between a value and an exception.
pub if_ok {ℓ κ} :
    {E : Type ℓ} {A : Type κ} (b : Bool) (a r : A) (e : E)
    → (if b then ok a else err e) ≡ ok r
    → (b ≡ true) × (a ≡ r)
if_ok true a r e h = (refl, cc)
if_ok false a r e h = cc

-- An action on a state that returned a value got past its guard: `if test: raise e`.
pub past_guard {ℓ κ μ ν} :
    {E : Type ℓ} {A : Type κ} {S : Type μ} (P : S → Type ν) (a : A) (test : Bool) (e : E) (s : S)
    (rest : Result E A × S)
    → (test ≡ false → rest.0 ≡ ok a → P rest.1)
    → (if test then (err e, s) else rest).0 ≡ ok a
    → P (if test then (err e, s) else rest).1
past_guard P a true e s rest k h = cc
past_guard P a false e s rest k h = k refl h

-- `for x in xs: check(x)`, where a check may raise
abbrev pub for_each {ℓ κ} :
    {E : Type ℓ} {A : Type κ} → (A → Result E (Unit {0})) → List A → Result E (Unit {0})
for_each check [] = ok tt
for_each check (x ∷ xs) = check x >> for_each check xs

module _ {ℓ κ μ} {E : Type ℓ} {A : Type κ} where
  -- A loop of checks passes exactly when each check does.
  pub for_each-ok :
      (P : A → Type μ) (check : A → Result E (Unit {0}))
      → ((x : A) → check x ≡ ok tt → P x)
      → (xs : List A) → for_each check xs ≡ ok tt
      → All P xs
  for_each-ok P check k [] h = tt
  for_each-ok P check k (x ∷ xs) h =
      let (_, first, rest) = >>=-ok (check x) (λ _. for_each check xs) h in
      (k x first, for_each-ok P check k xs rest)

  pub ok-for_each :
      (P : A → Type μ) (check : A → Result E (Unit {0}))
      → ((x : A) → P x → check x ≡ ok tt)
      → (xs : List A) → All P xs
      → for_each check xs ≡ ok tt
  ok-for_each P check k [] h = refl
  ok-for_each P check k (x ∷ xs) h = rw (k x h.0) (ok-for_each P check k xs h.1)

pub ok-injective {ℓ κ} :
    {E : Type ℓ} {A : Type κ} {a b : A} → ◌≡◌ {A = Result E A} (ok a) (ok b) → a ≡ b
ok-injective same = cc
