-- ===== src/Prelude/Decimal.antt =====
-- `strconv.FormatInt(x, 10)` and the verb `%d`.
pub mod Digits
use Prim.Native.Nat.{ℕ, zero, suc, ◌<◌, ◌+◌, ◌/◌, ◌%◌}
use Prim.Native.String.{String, ◌++◌ as str_append}
use dtvn.Prelude.Tests.{nat_beq, ltb, if◌then◌else◌, Bool-cases}
use mathlib.Core.Path.{◌≡◌}
use mathlib.Core.Logic.{inl, inr}
use native.Mathlib.Omega.{arith}
use dtvn.Prelude.Int.{ℤ, pos, negsuc}

unfoldable pub format_digit : ℕ → String
format_digit d =
    if nat_beq d 0
    then "0"
    else if nat_beq d 1
    then "1"
    else if nat_beq d 2
    then "2"
    else if nat_beq d 3
    then "3"
    else if nat_beq d 4
    then "4"
    else if nat_beq d 5
    then "5"
    else if nat_beq d 6
    then "6"
    else if nat_beq d 7
    then "7"
    else if nat_beq d 8
    then "8"
    else "9"

-- The digits of `n` in front of `rest`. Fuel `n + 1` is enough: a round divides `n` by 10.
unfoldable pub format_from : ℕ → ℕ → String → String
unfolding format_digit
format_from zero n rest = rest
format_from (suc fuel) n rest =
    let more = format_from fuel (n / 10) (str_append (format_digit (n % 10)) rest) in
    if ltb n 10 then str_append (format_digit n) rest else more

unfoldable pub format_int : ℤ → String
unfolding format_from
format_int (pos n) = format_from (n + 1) n ""
format_int (negsuc n) = str_append "-" (format_from (n + 2) (n + 1) "")

-- More fuel than `n` gives the same digits, so that the fuel of `format_int` never runs out.
pub format_from-enough :
    (f g n : ℕ) (rest : String) → n < f → n < g → format_from f n rest ≡ format_from g n rest
unfolding format_from
format_from-enough zero g n rest h k = absurd (omega arith)
format_from-enough (suc f) zero n rest h k = absurd (omega arith)
format_from-enough (suc f) (suc g) n rest h k = elim (Bool-cases (ltb n 10)) [
  | inl e ↦ rw e
  | inr e ↦ rw e (
      format_from-enough f g (n / 10) (str_append (format_digit (n % 10)) rest) (ground arith)
        (ground arith))
]
