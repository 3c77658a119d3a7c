-- ===== src/Decimal.antt =====
-- Python's `decimal.Decimal` under the default context: 28 significant digits, ROUND_HALF_EVEN.
-- A finite number is the whole number of its units 10 ^ -e, where e is -Etiny of the context
-- (1000026 by default) or any other precision of the grid: all definitions take e. Two decimals are
-- equal here when their values are: the trailing zeros that only `str` shows are not kept. NaN, the
-- infinities and the overflow at 10 ^ 1000000 are not modelled.
pub mod Laws
pub mod Signed
pub mod Quantize
pub mod Mean
use pricestream.Base.{ℕ, zero, suc, ◌*◌, ◌^◌, List, [], ◌∷◌, ltb, if◌then◌else◌}
use pricestream.Base.Int.{ℤ, pos, negsuc, sub_ℕ, ◌+ℤ◌, ◌-ℤ◌}
use pricestream.Base.Result.{Result, ok, raise, division_by_zero, invalid_operation}
use pricestream.Rounding.{half_even, round}

abbrev pub Decimal : Type 0
Decimal = ℤ

-- The context's precision: coefficients lie below 10 ^ 28.
abbrev pub max_coefficient : ℕ
max_coefficient = 10 ^ 28

-- -n
abbrev pub negate : ℕ → Decimal
negate n = sub_ℕ 0 n

-- `Decimal(n)` of an int.
abbrev pub from_int : ℕ → ℕ → Decimal
from_int e n = pos (n * 10 ^ e)

-- The quotient of two magnitudes, to 28 digits.
unfoldable pub magnitude : ℕ → ℕ → ℕ
magnitude p q = round 10 max_coefficient p q

-- An exact sum, to 28 digits.
unfoldable pub fix : Decimal → Decimal
fix (pos n) = pos (magnitude n 1)
fix (negsuc n) = negate (magnitude (suc n) 1)

unfoldable pub add : Decimal → Decimal → Decimal
add a b = fix (a +ℤ b)

unfoldable pub sub : Decimal → Decimal → Decimal
sub a b = fix (a -ℤ b)

unfoldable pub mul : ℕ → Decimal → Decimal → Decimal
mul e (pos m) (pos n) = pos (magnitude (m * n) (10 ^ e))
mul e (pos m) (negsuc n) = negate (magnitude (m * suc n) (10 ^ e))
mul e (negsuc m) (pos n) = negate (magnitude (suc m * n) (10 ^ e))
mul e (negsuc m) (negsuc n) = pos (magnitude (suc m * suc n) (10 ^ e))

-- `a / b`: 0 / 0 is an InvalidOperation, any other division by 0 a DivisionByZero.
unfoldable pub div : ℕ → Decimal → Decimal → Result Decimal
div e (pos zero) (pos zero) = raise invalid_operation
div e (pos (suc m)) (pos zero) = raise division_by_zero
div e (negsuc m) (pos zero) = raise division_by_zero
div e (pos m) (pos (suc n)) = ok (pos (magnitude (m * 10 ^ e) (suc n)))
div e (negsuc m) (pos (suc n)) = ok (negate (magnitude (suc m * 10 ^ e) (suc n)))
div e (pos m) (negsuc n) = ok (negate (magnitude (m * 10 ^ e) (suc n)))
div e (negsuc m) (negsuc n) = ok (pos (magnitude (suc m * 10 ^ e) (suc n)))

-- `a.quantize(…)` to multiples of so many grid units. It raises where the coefficient reaches the
-- limit of the context.
unfoldable pub quantize : ℕ → ℕ → Decimal → Result Decimal
quantize limit unit (pos m) =
    let c = half_even m unit in if ltb c limit then ok (pos (c * unit)) else raise invalid_operation
quantize limit unit (negsuc m) =
    let c = half_even (suc m) unit in
    if ltb c limit then ok (negate (c * unit)) else raise invalid_operation

-- `sum(xs, Decimal(0))`, from the left.
unfoldable pub sum_from : Decimal → List Decimal → Decimal
sum_from acc [] = acc
sum_from acc (x ∷ xs) = sum_from (add acc x) xs
