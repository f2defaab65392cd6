-- ===== src/Frontend/Nim.antt =====
-- frontend/app/wallet/nim-amount.ts: amounts of Luna, 100,000 to a NIM. A value of unknown type is
-- one of the cases below: a number that is not finite, one with a fraction, and a whole one, with
-- its sign; Number.MAX_SAFE_INTEGER is 2^53 - 1.
use Prim.Native.String.{◌++◌}
use Prim.Native.Char.{Char, code}
use veyronis.Prelude.{
  ℕ, zero, suc, ◌-◌, ◌/◌, ◌%◌, ◌^◌, ◌≤◌, String, ◌≡◌, ◌↔◌, refl, Bool, true, false, Option, none,
  some, ltb, ◌==◌, if◌then◌else◌, arith, ◌⊎◌,
}
use Prim.Native.String.{count}
use veyronis.Prelude.Flow.{Flow, next, failed}
use veyronis.Prelude.BigInt.{ℤ, pos, negsuc}
use veyronis.Prelude.Text.Decimal.{decimal}

pub data LunaRejectionReason : Type 0 where
  not_a_number not_finite not_an_integer not_positive unsafe : LunaRejectionReason

pub data Value : Type 0 where
  big : ℤ → Value
  whole : ℤ → Value
  fractional infinite other : Value

abbrev pub max_safe_integer : ℕ
max_safe_integer = 2 ^ 53 - 1

abbrev sign_and_size : ℤ → Option LunaRejectionReason
sign_and_size (negsuc n) = some not_positive
sign_and_size (pos zero) = some not_positive
sign_and_size (pos (suc n)) = if ltb max_safe_integer (suc n) then some unsafe else none

unfoldable pub luna_rejection_reason : Value → Option LunaRejectionReason
luna_rejection_reason (big n) = sign_and_size n
luna_rejection_reason (whole n) = sign_and_size n
luna_rejection_reason fractional = some not_an_integer
luna_rejection_reason infinite = some not_finite
luna_rejection_reason other = some not_a_number

abbrev accepted : Option LunaRejectionReason → Bool
accepted none = true
accepted (some r) = false

unfoldable pub is_valid_luna : Value → Bool
unfolding luna_rejection_reason
is_valid_luna v = accepted (luna_rejection_reason v)

-- `assertLuna`, with the reason of the error that it throws.
abbrev pub Checked : Type 0
Checked = Flow LunaRejectionReason ℕ

abbrev luna_of : Value → ℕ
luna_of (big (pos n)) = n
luna_of (whole (pos n)) = n
luna_of _ = 0

abbrev unless : Option LunaRejectionReason → ℕ → Checked
unless none n = next n
unless (some reason) n = failed reason

unfoldable pub assert_luna : Value → Checked
unfolding luna_rejection_reason
assert_luna v = unless (luna_rejection_reason v) (luna_of v)

unfoldable pub displayable_luna : Value → Checked
displayable_luna (big (negsuc n)) = failed not_positive
displayable_luna (big (pos n)) = next n
displayable_luna (whole (negsuc n)) = failed not_positive
displayable_luna (whole (pos n)) = if ltb max_safe_integer n then failed unsafe else next n
displayable_luna fractional = failed not_an_integer
displayable_luna infinite = failed not_finite
displayable_luna other = failed not_finite

-- `padStart(n, "0")`.
unfoldable pub zeros : ℕ → String
zeros zero = ""
zeros (suc n) = "0" ++ zeros n

unfoldable pub pad_start : ℕ → String → String
unfolding zeros
pad_start n s = zeros (n - count s) ++ s

abbrev drop_last_zero : Char → String → String
drop_last_zero c String.[] = if code c == b'0' then String.[] else String.◌∷◌ c String.[]
drop_last_zero c (String.◌∷◌ d s) = String.◌∷◌ c (String.◌∷◌ d s)

-- `replace(/0+$/, "")`.
unfoldable pub drop_zeros : String → String
drop_zeros String.[] = String.[]
drop_zeros (String.◌∷◌ c s) = drop_last_zero c (drop_zeros s)

unfoldable pub format_luna : ℕ → String
unfolding pad_start drop_zeros
format_luna luna =
    let fraction = luna % 100000 in
    if fraction == 0
    then decimal (luna / 100000) ++ " NIM"
    else decimal (luna / 100000) ++ ("." ++ (drop_zeros (pad_start 5 (decimal fraction)) ++ " NIM"))

abbrev formatted : Checked → Flow LunaRejectionReason String
formatted (next n) = next (format_luna n)
formatted (failed reason) = failed reason
formatted Flow.threw = Flow.threw

unfoldable pub format_nim : Value → Flow LunaRejectionReason String
unfolding displayable_luna
format_nim v = formatted (displayable_luna v)

format_nim_tests :
    (format_nim (whole (pos 150000)) ≡ next "1.5 NIM")
    × (format_nim (big (pos 1)) ≡ next "0.00001 NIM")
    × (format_nim (big (pos 0)) ≡ next "0 NIM")
    × (format_nim (whole (negsuc 0)) ≡ failed not_positive)
unfolding format_nim format_luna decimal
format_nim_tests = (refl, refl, refl, refl)

-- What `assertLuna` returns is the number or bigint that it is given, and is from 1 to the
-- greatest safe integer; it throws for everything else.
assert_luna_iff :
    (v : Value) (n : ℕ)
    → (assert_luna v ≡ next n)
      ↔ (((v ≡ big (pos n)) ⊎ (v ≡ whole (pos n))) × (1 ≤ n) × (n ≤ max_safe_integer))
unfolding assert_luna luna_rejection_reason
assert_luna_iff (big (pos zero)) n = ground arith
assert_luna_iff (big (pos (suc m))) n = ground arith
assert_luna_iff (big (negsuc m)) n = ground arith
assert_luna_iff (whole (pos zero)) n = ground arith
assert_luna_iff (whole (pos (suc m))) n = ground arith
assert_luna_iff (whole (negsuc m)) n = ground arith
assert_luna_iff fractional n = ground arith
assert_luna_iff infinite n = ground arith
assert_luna_iff other n = ground arith
