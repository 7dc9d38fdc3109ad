-- ===== src/Evidence/Naming/Reading.antt =====
-- The file names that are written are file names that the loader reads.
use Prim.Native.Nat.{◌/◌, ◌%◌, ◌^◌}
use native.Mathlib.Nat.{pow-suc}
use mathlib.Core.Path.{ap₂}
use mathlib.Core.Logic.{if_neg}
use mathlib.Core.List.{append_assoc}
use steward_public.Base.{
  ℕ, zero, suc, ◌+◌, ◌-◌, ◌*◌, ◌<◌, ◌≡◌, refl, ap, ◌∙◌, Bool, true, some, [], ◌∷◌, ◌++◌, ok, arith,
  nat_eq, list_eq, length, length-append, take, take-length_append, Bool-cases, inl, inr, subst,
}
use steward_public.Base.Text.{Text, text}
use steward_public.Evidence.Naming.{
  is_name, is_digit, is_decimal, digits, padded, dotted, filename, stem, is_stem, matches, number,
  is_evidence_name,
}

number-append :
    (acc : ℕ) (s : Text) (d : ℕ) (n : ℕ)
    → d < 10
    → number acc s ≡ some n
    → number acc (s ++ (b'0' + d) ∷ []) ≡ some (n * 10 + d)
unfolding number is_digit
number-append acc [] d n small h = ground arith
number-append acc (c ∷ s) d n small h =
    ground (arith, number-append (acc * 10 + (c - b'0')) s d n small)

-- a number of so many digits is read back
number-digits : (width n : ℕ) → n < 10 ^ width → number 0 (digits width n) ≡ some n
unfolding digits number
number-digits zero n h = ap some (omega arith)
number-digits (suc width) n h =
    number-append 0 (digits width (n / 10)) (n % 10) (n / 10) (omega arith)
      (number-digits width (n / 10) (omega (arith, pow-suc 10 width)))
    ∙ ap some (omega arith)

is_decimal-digit :
    (unicode_decimal : ℕ → Bool) (d : ℕ) → d < 10 → is_decimal unicode_decimal (b'0' + d) ≡ true
unfolding is_decimal is_digit
is_decimal-digit u d small = ground arith

matches_decimal :
    (unicode_decimal : ℕ → Bool) (k c : ℕ) (rest : Text)
    → is_decimal unicode_decimal c ≡ true
    → matches unicode_decimal (suc k) (c ∷ rest) ≡ matches unicode_decimal k rest
unfolding matches
matches_decimal u k c rest h = rw h

-- digits are read as the decimals that the pattern wants, one for one
matches-digits :
    (unicode_decimal : ℕ → Bool) (width k n : ℕ) (rest : Text)
    → matches unicode_decimal (width + k) (digits width n ++ rest) ≡ matches unicode_decimal k rest
unfolding digits
matches-digits u zero k n rest = ap (λ w. matches u w rest) (omega arith)
matches-digits u (suc width) k n rest =
    ap₂ (matches u) (omega arith) (append_assoc (digits width (n / 10)) _ _)
    ∙ matches-digits u width (suc k) (n / 10) ((b'0' + n % 10) ∷ rest)
    ∙ matches-one
  where
    matches-one : matches u (suc k) ((b'0' + n % 10) ∷ rest) ≡ matches u k rest
    matches-one =
        matches_decimal u k (b'0' + n % 10) rest (is_decimal-digit u (n % 10) (omega arith))

not_yet : (c : ℕ) (s : Text) → ¬ ((c ∷ (s ++ text ".json")) ≡ text ".json")
not_yet c s e = absurd (omega (arith, ap length e, length-append s (text ".json")))

stem_step :
    (c : ℕ) (s : Text)
    → stem (s ++ text ".json") ≡ some s
    → stem (c ∷ (s ++ text ".json")) ≡ some (c ∷ s)
unfolding stem
stem_step c s h = elim (list_eq.dec (c ∷ (s ++ text ".json")) (text ".json")) [
  | yes p ↦ absurd (not_yet c s p)
  | no n ↦ rw (if_neg _ n, h)
]

stem-suffix : (s : Text) → stem (s ++ text ".json") ≡ some s
unfolding stem list_eq nat_eq
stem-suffix [] = refl
stem-suffix (c ∷ s) = stem_step c s (stem-suffix s)

length-digits : (width n : ℕ) → length (digits width n) ≡ width
unfolding digits
length-digits zero n = refl
length-digits (suc width) n = omega (
  arith,
  length-append (digits width (n / 10)) ((b'0' + n % 10) ∷ []),
  length-digits width (n / 10),
)

written :
    (unicode_decimal : ℕ → Bool) (n : ℕ) (safe : Text)
    → is_name safe ≡ true
    → matches unicode_decimal 8 (digits 8 n ++ b'_' ∷ safe ++ text ".json") ≡ true
unfolding matches is_stem digits
written u n safe good =
    matches-digits u 8 0 n (b'_' ∷ safe ++ text ".json") ∙ rw (stem-suffix safe, is_stem) good

padded_small : (n : ℕ) → n < 10 ^ 8 → padded n ≡ digits 8 n
unfolding padded
padded_small n h = ground arith

-- The loader accepts each file name that is written for a sequence number below 10 ^ 8, and the name
-- begins with eight digits that spell this number.
pub filename-read :
    (unicode_decimal : ℕ → Bool) (sequence : ℕ) (evidence_type name : Text)
    → sequence < 10 ^ 8
    → filename sequence evidence_type ≡ ok name
    → (is_evidence_name unicode_decimal name ≡ true) × (number 0 (take 8 name) ≡ some sequence)
unfolding filename is_evidence_name
filename-read u sequence evidence_type name small h =
    elim (Bool-cases (is_name (dotted evidence_type))) [
      | inl good ↦
          subst
            (λ file. (is_evidence_name u file ≡ true) × (number 0 (take 8 file) ≡ some sequence))
            (spelled good)
            (
              written u sequence (dotted evidence_type) good,
              ap (number 0) (cut sequence (b'_' ∷ dotted evidence_type ++ text ".json"))
                  ∙ number-digits 8 sequence small,
            )
      | inr bad ↦ cc (rw bad at h)
    ]
  where
    cut : (n : ℕ) (rest : Text) → take 8 (digits 8 n ++ rest) ≡ digits 8 n
    cut n rest =
        subst (λ w. take w (digits 8 n ++ rest) ≡ digits 8 n) (length-digits 8 n)
          (take-length_append (digits 8 n) rest)

    spelled :
        is_name (dotted evidence_type) ≡ true
        → digits 8 sequence ++ b'_' ∷ dotted evidence_type ++ text ".json" ≡ name
    spelled good = ground (arith, padded_small sequence small)
