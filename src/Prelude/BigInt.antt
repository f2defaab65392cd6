-- ===== src/Prelude/BigInt.antt =====
-- JavaScript's `BigInt(text)`: white space around the text is dropped, the empty text is 0, a
-- decimal may have a sign, and `0x`, `0o` and `0b` begin a numeral of another base. `none` is the
-- SyntaxError of any other text.
use Prim.Native.Nat.{ℕ, zero, suc, ◌+◌, ◌-◌, ◌*◌}
use Prim.Native.Char.{Char, code}
use Prim.Native.String.{String}
use mathlib.Core.Path.{◌≡◌, refl}
use mathlib.Core.Bool.{Bool, true, ◌&&◌, ◌||◌}
use mathlib.Core.Option
use mathlib.Core.Option.{Option, none, some}
use veyronis.Prelude.Tests.{◌==◌, leb, ltb, if◌then◌else◌}

-- `negsuc n` is -(n + 1).
pub data ℤ : Type 0 where
  pos : ℕ → ℤ
  negsuc : ℕ → ℤ

abbrev is_space : Char → Bool
is_space c =
    leb 9 (code c) && leb (code c) 13
    || code c == 32
    || code c == 160
    || code c == 5760
    || leb 8192 (code c) && leb (code c) 8202
    || code c == 8232
    || code c == 8233
    || code c == 8239
    || code c == 8287
    || code c == 12288
    || code c == 65279

is_blank : String → Bool
is_blank String.[] = true
is_blank (String.◌∷◌ c s) = is_space c && is_blank s

trim_start : String → String
trim_start String.[] = String.[]
trim_start (String.◌∷◌ c s) = if is_space c then trim_start s else String.◌∷◌ c s

trim_end : String → String
unfolding is_blank
trim_end String.[] = String.[]
trim_end (String.◌∷◌ c s) =
    let rest = trim_end s in if is_blank (String.◌∷◌ c s) then String.[] else String.◌∷◌ c rest

abbrev digit_value : Char → ℕ
digit_value c =
    if leb 48 (code c) && leb (code c) 57
    then code c - 48
    else if leb 97 (code c) && leb (code c) 122
    then code c - 87
    else if leb 65 (code c) && leb (code c) 90
    then code c - 55
    else 99

digits_from : ℕ → ℕ → String → Option ℕ
digits_from base acc String.[] = some acc
digits_from base acc (String.◌∷◌ c s) =
    let rest = digits_from base (acc * base + digit_value c) s in
    if ltb (digit_value c) base then rest else none

digits : ℕ → String → Option ℕ
unfolding digits_from
digits base String.[] = none
digits base (String.◌∷◌ c s) = digits_from base 0 (String.◌∷◌ c s)

negate : ℕ → ℤ
negate zero = pos zero
negate (suc n) = negsuc n

-- The base that the letter behind a leading 0 stands for.
abbrev base_of : Char → Option ℕ
base_of c =
    if code c == b'x' || code c == b'X'
    then some 16
    else if code c == b'o' || code c == b'O'
    then some 8
    else if code c == b'b' || code c == b'B'
    then some 2
    else none

numeral : String → Option ℤ
unfolding digits negate
numeral String.[] = some (pos 0)
numeral (String.◌∷◌ c String.[]) = Option.map pos (digits 10 (String.◌∷◌ c String.[]))
numeral (String.◌∷◌ c (String.◌∷◌ d s)) =
    if code c == b'-'
    then Option.map negate (digits 10 (String.◌∷◌ d s))
    else if code c == b'+'
    then Option.map pos (digits 10 (String.◌∷◌ d s))
    else elim (if code c == b'0' then base_of d else none) [
      | none ↦ Option.map pos (digits 10 (String.◌∷◌ c (String.◌∷◌ d s)))
      | some base ↦ Option.map pos (digits base s)
    ]

unfoldable pub parse_big_int : String → Option ℤ
unfolding trim_start trim_end numeral
parse_big_int s = numeral (trim_end (trim_start s))

parse_big_int_tests :
    (parse_big_int " 0x1F " ≡ some (pos 31))
    × (parse_big_int "-12" ≡ some (negsuc 11))
    × (parse_big_int "" ≡ some (pos 0))
    × (parse_big_int "1e3" ≡ none)
    × (parse_big_int "007" ≡ some (pos 7))
unfolding parse_big_int
parse_big_int_tests = (refl, refl, refl, refl, refl)
