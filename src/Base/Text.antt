-- ===== src/Base/Text.antt =====
-- What the code uses of `fmt` and `encoding/hex` to build texts: concatenation, `%d`, hex digits.
use Prim.Native.Char.{Char, nul, code}
use Prim.Native.String.{String, ◌++◌ as append}
use Prim.Native.Nat.{ℕ, zero, suc, ◌/◌, ◌%◌}
use mathlib.Core.Bool.{Bool}
use mathlib.Core.Option.{Option, none, some}
use text.Mathlib.Text.{◌==◌}
use mathlib.Core.List.{List, [], ◌∷◌}
use health_go.Base.Tests.{if◌then◌else◌, ltb, eqb, get_or, is_some}
use health_go.Base.Int.{ℤ, pos, negsuc}

infixr 65 ◌<>◌
abbrev pub ◌<>◌ : String → String → String
s <> t = append s t

abbrev pub nth_char : String → ℕ → Char
nth_char String.[] n = nul
nth_char (String.◌∷◌ c s) zero = c
nth_char (String.◌∷◌ c s) (suc n) = nth_char s n

-- the lower-case digits of `encoding/hex`, which begin with the decimal ones
unfoldable pub hex_digit : ℕ → Char
hex_digit n = nth_char "0123456789abcdef" n

-- `hex.EncodeToString`
unfoldable pub encode_to_string : List ℕ → String
unfolding hex_digit
encode_to_string [] = String.[]
encode_to_string (b ∷ bs) =
    String.◌∷◌ (hex_digit (b / 16)) (String.◌∷◌ (hex_digit (b % 16)) (encode_to_string bs))

-- the decimal digits of a number in front of a text; one round of fuel for each digit
unfoldable pub decimal : ℕ → ℕ → String → String
unfolding hex_digit
decimal zero n rest = rest
decimal (suc fuel) n rest =
    let more = decimal fuel (n / 10) (String.◌∷◌ (hex_digit (n % 10)) rest) in
    if ltb n 10 then String.◌∷◌ (hex_digit n) rest else more

-- `fmt.Sprintf("%d", n)`: a number has at most as many digits as its value plus one
unfoldable pub itoa : ℤ → String
unfolding decimal
itoa (pos n) = decimal (suc n) n String.[]
itoa (negsuc n) = "-" <> decimal (suc (suc n)) (suc n) String.[]

-- the rest of a text that begins with the first one
abbrev pub strip_prefix : String → String → Option String
strip_prefix String.[] s = some s
strip_prefix (String.◌∷◌ p ps) String.[] = none
strip_prefix (String.◌∷◌ p ps) (String.◌∷◌ c s) =
    let rest = strip_prefix ps s in if eqb (code p) (code c) then rest else none

-- the text before the last one, if it ends with it
abbrev pub strip_suffix : String → String → Option String
strip_suffix suffix String.[] = if suffix == "" then some String.[] else none
strip_suffix suffix (String.◌∷◌ c s) =
    let rest = strip_suffix suffix s in
    if suffix == String.◌∷◌ c s
    then some String.[]
    else elim rest [ none ↦ none | some before ↦ some (String.◌∷◌ c before) ]

-- `strings.HasPrefix`, `strings.TrimPrefix` and `strings.TrimSuffix`
unfoldable pub has_prefix : String → String → Bool
has_prefix s prefix = is_some (strip_prefix prefix s)

unfoldable pub trim_prefix : String → String → String
trim_prefix s prefix = get_or (strip_prefix prefix s) s

unfoldable pub trim_suffix : String → String → String
trim_suffix s suffix = get_or (strip_suffix suffix s) s
