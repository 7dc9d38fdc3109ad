-- ===== src/Base/Text.antt =====
-- Texts that the program sorts or cuts, as lists of code points, and their bytes.
use Prim.Native.Nat.{ℕ, ◌+◌, ◌-◌, ◌/◌, ◌%◌}
use Prim.Native.Char.{code}
use Prim.Native.String.{String}
use mathlib.Core.Path.{◌≡◌, refl}
use mathlib.Core.Bool.{Bool, ◌&&◌}
use mathlib.Core.Option.{Option, none, some}
use mathlib.Core.List.{List, [], ◌∷◌, ◌++◌}
use steward_public.Base.Equality.{if◌then◌else◌, ltb, leb, ◌==◌, nat_eq, list_eq}
use steward_public.Base.Lists.{any}

abbrev pub Text : Type 0
Text = List ℕ

abbrev pub text : String → Text
text String.[] = []
text (String.◌∷◌ c s) = code c ∷ text s

-- `s.encode("utf-8", "surrogateescape")`: a lone surrogate U+DC80..U+DCFF stands for one raw byte.
encode_point : ℕ → List ℕ
encode_point c =
    if ltb c 0x80
    then c ∷ []
    else if ltb c 0x800
    then (0xC0 + c / 64) ∷ (0x80 + c % 64) ∷ []
    else if leb 0xDC80 c && leb c 0xDCFF
    then (c - 0xDC00) ∷ []
    else if ltb c 0x10000
    then (0xE0 + c / 4096) ∷ (0x80 + c / 64 % 64) ∷ (0x80 + c % 64) ∷ []
    else (0xF0 + c / 262144) ∷ (0x80 + c / 4096 % 64) ∷ (0x80 + c / 64 % 64) ∷ (0x80 + c % 64) ∷ []

unfoldable pub encode : Text → List ℕ
unfolding encode_point
encode [] = []
encode (c ∷ s) = encode_point c ++ encode s

is_surrogate : ℕ → Bool
is_surrogate c = leb 0xD800 c && leb c 0xDFFF

-- `s.encode("utf-8")`; none for a UnicodeEncodeError
unfoldable pub encode_strict : Text → Option (List ℕ)
unfolding is_surrogate encode
encode_strict s = if any is_surrogate s then none else some (encode s)

-- `any(ord(character) < 32 for character in s)`
abbrev pub has_control : Text → Bool
has_control = any (λ c. ltb c 32)

-- `s.startswith(prefix)`
unfoldable pub starts_with : Text → Text → Bool
starts_with s [] = Bool.true
starts_with [] (p ∷ ps) = Bool.false
starts_with (c ∷ s) (p ∷ ps) = c == p && starts_with s ps

encoded :
    encode (0x41 ∷ 0xE9 ∷ 0xDCFF ∷ 0x20AC ∷ [])
    ≡ 0x41 ∷ 0xC3 ∷ 0xA9 ∷ 0xFF ∷ 0xE2 ∷ 0x82 ∷ 0xAC ∷ []
unfolding encode
encoded = refl
