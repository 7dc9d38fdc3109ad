-- ===== src/Evidence/Naming.antt =====
-- `filename` and the pattern `_NAME` of evidence.py.
pub mod Reading
pub mod Ordering
use Prim.Native.Nat.{◌/◌, ◌%◌, ◌^◌}
use steward_public.Base.{ℕ, zero, suc, ◌+◌, ◌-◌, ◌*◌, Bool, true, false, ◌&&◌, ◌||◌}
use steward_public.Base.{Option, none, some, [], ◌∷◌, ◌++◌, map, Result, ok, err}
use steward_public.Base.{leb, ltb, ◌==◌, nat_eq, list_eq, if◌then◌else◌}
use steward_public.Base.Text.{Text, text}

pub data NameError : Type 0 where
  invalid_evidence_type : NameError

is_lower : ℕ → Bool
is_lower c = leb b'a' c && leb c b'z'

is_digit : ℕ → Bool
is_digit c = leb b'0' c && leb c b'9'

-- `[a-z0-9_.-]`
unfoldable is_name_char : ℕ → Bool
unfolding is_lower is_digit
is_name_char c = is_lower c || is_digit c || c == b'_' || c == b'.' || c == b'-'

all : (ℕ → Bool) → Text → Bool
all p [] = true
all p (c ∷ s) = p c && all p s

-- `[a-z][a-z0-9_.-]*`
pub is_name : Text → Bool
unfolding is_lower all is_name_char
is_name [] = false
is_name (c ∷ s) = is_lower c && all is_name_char s

-- `.replace("/", ".")`
dotted : Text → Text
dotted = map (λ c. if c == b'/' then b'.' else c)

-- `f"{n:08d}"`: at least `width` digits, more where the number has more.
digits : ℕ → ℕ → Text
digits zero n = []
digits (suc width) n = digits width (n / 10) ++ (b'0' + n % 10) ∷ []

-- the digits of a number below 10 ^ fuel, from its first one
decimal : ℕ → ℕ → Text
decimal zero n = []
decimal (suc fuel) n =
    let rest = decimal fuel (n / 10) in
    if ltb n 10 then (b'0' + n) ∷ [] else rest ++ (b'0' + n % 10) ∷ []

unfoldable pub padded : ℕ → Text
unfolding digits decimal
padded n = if ltb n (10 ^ 8) then digits 8 n else decimal (suc n) n

unfoldable pub filename : ℕ → Text → Result NameError Text
unfolding dotted is_name padded
filename sequence evidence_type =
    let safe = dotted evidence_type in
    if is_name safe
    then ok (padded sequence ++ b'_' ∷ safe ++ text ".json")
    else err invalid_evidence_type

-- The number that decimal digits spell, by the leading digit first.
pub number : ℕ → Text → Option ℕ
number acc [] = some acc
number acc (c ∷ s) =
    let rest = number (acc * 10 + (c - b'0')) s in if is_digit c then rest else none

-- `\d`: the ASCII digits, and what the Unicode tables of Python call a decimal digit.
is_decimal : (ℕ → Bool) → ℕ → Bool
is_decimal unicode_decimal c = is_digit c || leb 0x80 c && unicode_decimal c

-- what stands before a final ".json"
stem : Text → Option Text
stem [] = none
stem (c ∷ s) =
    let rest = stem s in
    if (c ∷ s) == text ".json" then some [] else elim rest [ none ↦ none | some t ↦ some (c ∷ t) ]

is_stem : Option Text → Bool
unfolding is_name
is_stem none = false
is_stem (some t) = is_name t

-- what is left of the pattern once some of its eight digits are read
matches : (ℕ → Bool) → ℕ → Text → Bool
unfolding is_decimal stem is_stem list_eq nat_eq is_digit
matches unicode_decimal (suc n) (c ∷ s) =
    is_decimal unicode_decimal c && matches unicode_decimal n s
matches unicode_decimal (suc n) [] = false
matches unicode_decimal zero [] = false
matches unicode_decimal zero (c ∷ s) = c == b'_' && is_stem (stem s)

-- `_NAME.fullmatch(name)`
unfoldable pub is_evidence_name : (ℕ → Bool) → Text → Bool
unfolding matches
is_evidence_name unicode_decimal name = matches unicode_decimal 8 name
