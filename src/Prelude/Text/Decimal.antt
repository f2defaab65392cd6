-- ===== src/Prelude/Text/Decimal.antt =====
-- `String(n)` for a natural number, and that it is read back.
use Prim.Native.Nat.{ℕ, zero, suc, ◌+◌, ◌-◌, ◌*◌, ◌/◌, ◌%◌, ◌≤◌, ◌<◌}
use Prim.Native.Char.{Char, char, code}
use Prim.Native.String.{String}
use mathlib.Core.Path.{◌≡◌, refl, ◌∙◌, ap}
use mathlib.Core.Logic.{inl, inr}
use mathlib.Core.Bool.{true, false}
use native.Mathlib.Omega.{arith}
use veyronis.Prelude.Tests.{ltb, if◌then◌else◌, Bool-cases}
use veyronis.Prelude.Text.{IsScalar-of_lt, digits_from, big_int}

digit_char : ℕ → Char
digit_char n = char (48 + n % 10) (IsScalar-of_lt (48 + n % 10) (omega arith))

-- The digits of `n` in front of `rest`; each round takes one digit, so `n` rounds and one are
-- enough.
digits_onto : ℕ → ℕ → String → String
digits_onto zero n rest = rest
digits_onto (suc fuel) n rest =
    let more = digits_onto fuel (n / 10) (String.◌∷◌ (digit_char n) rest) in
    if ltb n 10 then String.◌∷◌ (digit_char n) rest else more

unfoldable pub decimal : ℕ → String
unfolding digits_onto digit_char
decimal n = digits_onto (suc n) n String.[]

ltb→lt : (a b : ℕ) → ltb a b ≡ true → a < b
ltb→lt a b h = ground arith

ltb→le : (a b : ℕ) → ltb a b ≡ false → b ≤ a
ltb→le a b h = ground arith

code-digit_char : (n : ℕ) → code (digit_char n) ≡ 48 + n % 10
unfolding digit_char
code-digit_char n = refl

-- Reading the digits of `n` and then `rest` is reading `rest` after `n`.
digits_from-digits_onto :
    (fuel n : ℕ) (rest : String)
    → n < fuel
    → digits_from 0 (digits_onto fuel n rest) ≡ digits_from n rest
unfolding digits_onto digits_from
digits_from-digits_onto zero n rest h = elim h [ ]
digits_from-digits_onto (suc fuel) n rest h = elim (Bool-cases (ltb n 10)) [
  | inl small ↦
      let e : 0 * 10 + (code (digit_char n) - 48) ≡ n =
        omega (arith, code-digit_char n, ltb→lt n 10 small) in
      rw small (ap (λ k. digits_from k rest) e)
  | inr large ↦
      let e : n / 10 * 10 + (code (digit_char n) - 48) ≡ n = omega (arith, code-digit_char n) in
      let less : n / 10 < fuel = omega (arith, ltb→le n 10 large) in
      rw large (
        digits_from-digits_onto fuel (n / 10) (String.◌∷◌ (digit_char n) rest) less
        ∙ ap (λ k. digits_from k rest) e)
]

-- A printed number is read back.
pub big_int-decimal : (n : ℕ) → big_int (decimal n) ≡ n
unfolding big_int decimal digits_from
big_int-decimal n = digits_from-digits_onto (suc n) n String.[] (omega arith)
