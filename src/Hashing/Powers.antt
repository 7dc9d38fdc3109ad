-- ===== src/Hashing/Powers.antt =====
-- The test `n & (n - 1)` of payload_hashing.py on binary digits.
use Prim.Native.Nat.{min, digits, bit_and, bit_and-bitwise, ◌^◌, ◌/◌}
use native.Mathlib.Numerals.{unary_clauses}
use steward_public.Base.{ℕ, zero, suc, ◌*◌, ◌≤◌, ◌≡◌, refl, sym, ◌∙◌, ap, ◌⊎◌, ◌↔◌, inl, inr, arith}

abbrev and_digits : ℕ → ℕ → ℕ → ℕ
and_digits n a b = digits (λ _. 0) min n a b

-- A number and itself.
and_self : (n a : ℕ) → a ≤ n → and_digits n a a ≡ a
and_self zero zero small = refl
and_self zero (suc a) small = absurd (omega arith)
and_self (suc n) zero small = refl
and_self (suc n) (suc a) small = omega (arith, and_self n (suc a / 2) (omega arith))

abbrev pub IsPower : ℕ → Type 0
IsPower a = (k : ℕ) × (a ≡ 2 ^ k)

power_suc : (k : ℕ) → 2 ^ suc k ≡ 2 ^ k * 2
power_suc k = simp unary_clauses (omega arith)

even_or_odd : (a : ℕ) → (suc a / 2 ≡ suc (a / 2)) ⊎ (suc a / 2 ≡ a / 2)
even_or_odd a = omega arith

-- No digit in common with the number before: a power of two.
digits-IsPower : (n a : ℕ) → suc a ≤ n → and_digits n (suc a) a ≡ 0 → IsPower (suc a)
digits-IsPower zero a small h = absurd (omega arith)
digits-IsPower (suc n) a small h = elim (even_or_odd a) [
  | inl even ↦
      let (k, half) =
        digits-IsPower n (a / 2) (omega arith)
          (ap (λ m. and_digits n m (a / 2)) (sym even) ∙ omega (arith, h)) in
      (suc k, omega (arith, half, even, power_suc k))
  | inr odd ↦
      let halves : and_digits n (suc a / 2) (a / 2) ≡ a / 2 =
        ap (λ m. and_digits n m (a / 2)) odd ∙ and_self n (a / 2) (omega arith) in
      (0, omega (arith, h, halves, odd))
]

IsPower-digits : (n k a : ℕ) → suc a ≤ n → suc a ≡ 2 ^ k → and_digits n (suc a) a ≡ 0
IsPower-digits zero k a small h = absurd (omega arith)
IsPower-digits (suc n) zero a small h =
    let odd : suc a / 2 ≡ a / 2 = omega (arith, h) in
    let halves : and_digits n (suc a / 2) (a / 2) ≡ a / 2 =
      ap (λ m. and_digits n m (a / 2)) odd ∙ and_self n (a / 2) (omega arith) in
    omega (arith, h, halves)
IsPower-digits (suc n) (suc k) a small h =
    let even : suc a / 2 ≡ suc (a / 2) = omega (arith, h, power_suc k) in
    let halves : and_digits n (suc a / 2) (a / 2) ≡ 0 =
      ap (λ m. and_digits n m (a / 2)) even
      ∙ IsPower-digits n k (a / 2) (omega (arith, h, power_suc k))
          (omega (arith, h, power_suc k)) in
    omega (arith, h, halves, power_suc k)

pub bit_and_iff : (a : ℕ) → (bit_and (suc a) a ≡ 0) ↔ IsPower (suc a)
bit_and_iff a = (
  λ h. digits-IsPower (suc a) a (omega arith) (sym (bit_and-bitwise (suc a) a) ∙ h),
  λ (k, h). bit_and-bitwise (suc a) a ∙ IsPower-digits (suc a) k a (omega arith) h,
)
