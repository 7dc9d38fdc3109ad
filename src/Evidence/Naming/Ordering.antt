-- ===== src/Evidence/Naming/Ordering.antt =====
-- The order of the file names is the order of the sequence numbers.
use Prim.Native.Nat.{◌/◌, ◌%◌, ◌^◌}
use native.Mathlib.Nat.{pow-suc}
use mathlib.Core.List.{append_assoc}
use steward_public.Base.{
  ℕ, zero, suc, ◌+◌, ◌<◌, ◌≡◌, sym, ◌∙◌, subst, subst₂, ◌⊎◌, inl, inr, true, [], ◌∷◌, ◌++◌, ok,
  arith, Bool-cases,
}
use steward_public.Base.Order.{nat_order, list_order, lt-append}
use steward_public.Base.Text.{Text, text}
use steward_public.Evidence.Naming.{is_name, digits, padded, dotted, filename}

parts : (m n : ℕ) → m < n → (m / 10 < n / 10) ⊎ ((m / 10 ≡ n / 10) × (m % 10 < n % 10))
parts m n less = omega arith

-- A smaller number comes first, whatever follows.
digits_lt :
    (width m n : ℕ) (x y : Text)
    → m < n
    → n < 10 ^ width
    → list_order.lt (digits width m ++ x) (digits width n ++ y) ≡ true
unfolding digits
digits_lt zero m n x y less small = absurd (omega arith)
digits_lt (suc width) m n x y less small =
    subst₂ (λ s t. list_order.lt s t ≡ true)
      (sym (append_assoc (digits width (m / 10)) ((b'0' + m % 10) ∷ []) x))
      (sym (append_assoc (digits width (n / 10)) ((b'0' + n % 10) ∷ []) y))
      (elim (parts m n less) [
        | inl higher ↦
            digits_lt width (m / 10) (n / 10) ((b'0' + m % 10) ∷ x) ((b'0' + n % 10) ∷ y) higher
              (omega (arith, small, pow-suc 10 width))
        | inr (same, lower) ↦
            subst
              (λ q.
                list_order.lt (digits width (m / 10) ++ (b'0' + m % 10) ∷ x)
                  (digits width q ++ (b'0' + n % 10) ∷ y)
                ≡ true)
              same
              (lt-append (digits width (m / 10)) (b'0' + m % 10) (b'0' + n % 10) x y (omega arith))
      ])

-- A file name is the digits of its number, more text, and the ending.
filename-spelled :
    (sequence : ℕ) (evidence_type name : Text)
    → sequence < 10 ^ 8
    → filename sequence evidence_type ≡ ok name
    → (rest : Text) × (name ≡ digits 8 sequence ++ b'_' ∷ rest ++ text ".json")
unfolding filename padded
filename-spelled sequence evidence_type name small h =
    elim (Bool-cases (is_name (dotted evidence_type))) [
      | inl good ↦ (dotted evidence_type, ground arith)
      | inr bad ↦ cc (rw bad at h)
    ]

-- The file of a smaller sequence number comes first.
pub filename-lt :
    (s t : ℕ) (type_s type_t a b : Text)
    → filename s type_s ≡ ok a
    → filename t type_t ≡ ok b
    → s < t
    → t < 10 ^ 8
    → list_order.lt a b ≡ true
unfolding digits filename-spelled
filename-lt s t type_s type_t a b is_a is_b less small =
    let (x, at) = filename-spelled s type_s a (omega arith) is_a in
    let (y, bt) = filename-spelled t type_t b small is_b in
    subst₂ (λ p q. list_order.lt p q ≡ true) (sym at) (sym bt)
      (digits_lt 8 s t (b'_' ∷ x ++ text ".json") (b'_' ∷ y ++ text ".json") less small)

-- A file name ends in ".json".
pub filename-ending :
    (sequence : ℕ) (evidence_type name : Text)
    → sequence < 10 ^ 8
    → filename sequence evidence_type ≡ ok name
    → (start : Text) × (name ≡ start ++ text ".json")
unfolding digits
filename-ending sequence evidence_type name small h =
    let (rest, at) = filename-spelled sequence evidence_type name small h in
    (
      digits 8 sequence ++ b'_' ∷ rest,
      at ∙ sym (append_assoc (digits 8 sequence) (b'_' ∷ rest) (text ".json")),
    )
