-- ===== src/Base/Decimal.antt =====
-- `%d` of an integer, and the division of integers by a positive number.
use Prim.Native.Nat.{ℕ, zero, suc, ◌/◌, ◌%◌, ◌<◌}
use mathlib.Core.Path.{◌≡◌}
use native.Mathlib.Omega.{arith}
use Prim.Native.String.{String, ◌++◌ as ◌<>◌}
use Prim.Native.Char.{Char}
use ma_secure.Base.Int.{ℤ, pos, negsuc}
use ma_secure.Base.Tests.{eqb, ltb, if◌then◌else◌}

digit : ℕ → Char
digit n =
    if eqb n 0
    then "0"
    else if eqb n 1
    then "1"
    else if eqb n 2
    then "2"
    else if eqb n 3
    then "3"
    else if eqb n 4
    then "4"
    else if eqb n 5
    then "5"
    else if eqb n 6
    then "6"
    else if eqb n 7
    then "7"
    else if eqb n 8
    then "8"
    else "9"

-- The digits of `n` before `rest`; a number has no more digits than itself and one.
digits_before : ℕ → ℕ → String → String
digits_before zero n rest = rest
digits_before (suc fuel) n rest =
    let longer = digits_before fuel (n / 10) (String.◌∷◌ (digit (n % 10)) rest) in
    if ltb n 10 then String.◌∷◌ (digit n) rest else longer

-- More fuel than the number itself changes nothing.
digits_before-enough :
    (fuel n : ℕ) (rest : String)
    → n < fuel
    → digits_before (suc fuel) n rest ≡ digits_before fuel n rest
unfolding digits_before
digits_before-enough zero n rest h = absurd (omega (arith, h))
digits_before-enough (suc fuel) n rest h =
    ground (arith, digits_before-enough fuel (n / 10) (String.◌∷◌ (digit (n % 10)) rest))

unfoldable pub print_nat : ℕ → String
unfolding digits_before digit
print_nat n = digits_before (suc n) n ""

unfoldable pub print_int : ℤ → String
unfolding print_nat
print_int (pos n) = print_nat n
print_int (negsuc n) = "-" <> print_nat (suc n)

negate : ℕ → ℤ
negate zero = pos 0
negate (suc n) = negsuc n

-- Go's `/` cuts towards zero.
unfoldable pub quotient : ℤ → ℕ → ℤ
unfolding negate
quotient (pos n) d = pos (n / d)
quotient (negsuc n) d = negate (suc n / d)
