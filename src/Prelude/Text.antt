-- ===== src/Prelude/Text.antt =====
-- `toLowerCase`, `startsWith` and the hexadecimal patterns that the program tests texts by. Lower
-- case is that of the ASCII letters: every text that the program lowers is checked, or made by
-- its libraries, to hold hexadecimal digits.
pub mod Decimal
pub mod Parts
use Prim.Native.Nat.{ℕ, suc, ◌+◌, ◌-◌, ◌*◌, ◌<◌, compare, Ordering}
use Prim.Native.Char.{Char, char, code, IsScalar}
use Prim.Native.String.{String, count}
use mathlib.Core.Path.{◌≡◌, refl, ap, ap₂}
use mathlib.Core.Logic.{dite, ◌⊎◌, inl, inr}
use mathlib.Core.Bool.{Bool, true, false, not, ◌&&◌, ◌||◌}
use mathlib.Core.Option.{Option, none, some}
use native.Mathlib.Omega.{arith}
use native.Mathlib.Decide.{dec_lt}
use veyronis.Prelude.Tests.{◌==◌, leb, if◌then◌else◌}

pub IsScalar-of_lt : (n : ℕ) → n < 55296 → IsScalar n
IsScalar-of_lt n h = let e : compare n 55296 ≡ Ordering.lt = ground arith in rw e tt

-- The character 32 places on, which for "A" to "Z" is the small letter.
lower_at : (c : Char) → code c < 91 → Char
lower_at c h = char (code c + 32) (IsScalar-of_lt (code c + 32) (omega arith))

unfoldable pub lower_char : Char → Char
unfolding lower_at dec_lt
lower_char c =
    dite (dec_lt 64 (code c)) (λ _. dite (dec_lt (code c) 91) (λ h. lower_at c h) (λ _. c)) (λ _. c)

unfoldable pub to_lower_case : String → String
unfolding lower_char
to_lower_case String.[] = String.[]
to_lower_case (String.◌∷◌ c s) = String.◌∷◌ (lower_char c) (to_lower_case s)

lower_char_code : (c : Char) → (64 < code c) × (code c < 91) ⊎ (lower_char c ≡ c)
unfolding lower_char
lower_char_code c = ground arith

code-lower_char : (c : Char) → 64 < code c → code c < 91 → code (lower_char c) ≡ code c + 32
unfolding lower_char
code-lower_char c p q = ground arith

lower_char_idem : (c : Char) → lower_char (lower_char c) ≡ lower_char c
lower_char_idem c = elim (lower_char_code c) [
  | inl (p, q) ↦ elim (lower_char_code (lower_char c)) [
    | inl (r, s) ↦ absurd (omega (arith, code-lower_char c p q))
    | inr e ↦ e
  ]
  | inr e ↦ ap lower_char e
]

-- Lowering a text twice is lowering it once.
pub to_lower_case_idem : (s : String) → to_lower_case (to_lower_case s) ≡ to_lower_case s
unfolding to_lower_case
to_lower_case_idem String.[] = refl
to_lower_case_idem (String.◌∷◌ c s) = ap₂ String.◌∷◌ (lower_char_idem c) (to_lower_case_idem s)

to_lower_case_test : to_lower_case "0xAbZz[@" ≡ "0xabzz[@"
unfolding to_lower_case
to_lower_case_test = refl

-- `/^[0-9]+$/`, `/^[a-fA-F0-9]+$/` and the like, character by character.
abbrev pub is_digit : Char → Bool
is_digit c = leb 48 (code c) && leb (code c) 57

abbrev pub is_hex_digit : Char → Bool
is_hex_digit c =
    is_digit c || leb 97 (code c) && leb (code c) 102 || leb 65 (code c) && leb (code c) 70

unfoldable pub every_char : (Char → Bool) → String → Bool
every_char p String.[] = true
every_char p (String.◌∷◌ c s) = p c && every_char p s

-- `/^0x[a-fA-F0-9]{n}$/`.
unfoldable pub is_hex : ℕ → String → Bool
unfolding every_char
is_hex n (String.◌∷◌ a (String.◌∷◌ b s)) =
    code a == b'0' && code b == b'x' && count s == n && every_char is_hex_digit s
is_hex n _ = false

-- `/^(0|[1-9][0-9]*)$/`.
unfoldable pub is_uint : String → Bool
unfolding every_char
is_uint String.[] = false
is_uint (String.◌∷◌ c String.[]) = is_digit c
is_uint (String.◌∷◌ c s) = is_digit c && not (code c == b'0') && every_char is_digit s

-- `BigInt(s)` for a text of decimal digits.
unfoldable pub digits_from : ℕ → String → ℕ
digits_from acc String.[] = acc
digits_from acc (String.◌∷◌ c s) = digits_from (acc * 10 + (code c - 48)) s

unfoldable pub big_int : String → ℕ
unfolding digits_from
big_int s = digits_from 0 s

-- `s.length`, in UTF-16 code units.
unfoldable pub text_length : String → ℕ
text_length String.[] = 0
text_length (String.◌∷◌ c s) = (if leb 65536 (code c) then 2 else 1) + text_length s

-- The last `n` characters, `s.slice(-n)`.
unfoldable pub slice_last : ℕ → String → String
slice_last n String.[] = String.[]
slice_last n (String.◌∷◌ c s) =
    let rest = slice_last n s in if leb (suc (count s)) n then String.◌∷◌ c s else rest

-- The text, where it is there and not empty: what `if (text)` lets through.
abbrev pub truthy : Option String → Option String
truthy none = none
truthy (some String.[]) = none
truthy (some (String.◌∷◌ c s)) = some (String.◌∷◌ c s)

-- An optional text that is written over another one, unless it is missing or empty.
pub data IsWrittenOver : Option String → Option String → Option String → Type 0 where
  nothing_given : {old : Option String} → IsWrittenOver none old old
  empty_given : {old : Option String} → IsWrittenOver (some "") old old
  given :
      (c : Char) (s : String) {old : Option String}
      → IsWrittenOver (some (String.◌∷◌ c s)) old (some (String.◌∷◌ c s))
