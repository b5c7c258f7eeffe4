-- ===== src/Double/Arith.antt =====
-- The arithmetic of `double` that the code uses, on the bits: each operation is the exact result,
-- rounded to the nearest double, the even one at a tie, as IEEE 754 has it. A finite double is a
-- natural number of units of 2^-1074 with a sign.
use polyphonic_audio_to_midi.Prelude.{
  ℕ, zero, suc, ◌+◌, ◌-◌, ◌*◌, ◌/◌, ◌%◌, ◌^◌, not, ◌&&◌, ◌||◌, ltb, leb, ◌==◌, if◌then◌else◌,
}
use polyphonic_audio_to_midi.Double.{
  Double, sign_bit, exponent_bits, magnitude_bits, infinity_bits, is_finite, is_nan, less,
}

-- The units in 1.
abbrev pub one_units : ℕ
one_units = 2 ^ 1074

abbrev pub quiet_nan : Double
quiet_nan = 0x7ff8000000000000

abbrev pub with_sign : ℕ → ℕ → Double
with_sign sign magnitude = sign * 2 ^ 63 + magnitude

-- The magnitude of a finite double, in units.
unfoldable pub units : Double → ℕ
units d =
    let e = exponent_bits d in if e == 0 then d % 2 ^ 52 else (d % 2 ^ 52 + 2 ^ 52) * 2 ^ (e - 1)

-- The exponent of the highest bit of `n`, found by halving the range of 2^steps bits.
unfoldable pub log2 : ℕ → ℕ → ℕ
log2 zero n = 0
log2 (suc steps) n =
    let w = 2 ^ steps in
    let high = leb (2 ^ w) n in (if high then w else 0) + log2 steps (if high then n / 2 ^ w else n)

-- The quotient rounded to the nearest number, to the even one at a tie.
unfoldable pub round_even : ℕ → ℕ → ℕ
round_even n d =
    let q = n / d in
    let r = n % d in if ltb d (2 * r) || (2 * r == d && q % 2 == 1) then q + 1 else q

-- The bits of the double next to `n / d` units; too large a one is infinite.
unfoldable pub nearest : ℕ → ℕ → ℕ
unfolding log2 round_even
nearest n d =
    let k = log2 12 (n / d) - 52 in
    let bits = k * 2 ^ 52 + round_even n (d * 2 ^ k) in
    if ltb bits infinity_bits then bits else infinity_bits

-- The double next to the fraction `n / d`.
unfoldable pub of_fraction : ℕ → ℕ → Double
unfolding nearest
of_fraction n d = nearest (n * one_units) d

-- `static_cast<double>` of an unsigned integer.
unfoldable pub of_nat : ℕ → Double
unfolding of_fraction
of_nat n = of_fraction n 1

abbrev pub negate : Double → Double
negate d = with_sign (1 - sign_bit d) (magnitude_bits d)

-- `std::abs`
abbrev pub abs : Double → Double
abs d = magnitude_bits d

-- The sum of two finite doubles; the sum of opposites is the zero of positive sign.
unfoldable pub add_finite : Double → Double → Double
unfolding nearest units
add_finite a b =
    let x = units a in
    let y = units b in
    if sign_bit a == sign_bit b
    then with_sign (sign_bit a) (nearest (x + y) 1)
    else if x == y
    then 0
    else if ltb y x
    then with_sign (sign_bit a) (nearest (x - y) 1)
    else with_sign (sign_bit b) (nearest (y - x) 1)

unfoldable pub add : Double → Double → Double
unfolding add_finite is_finite is_nan
add a b =
    if is_nan a || is_nan b
    then quiet_nan
    else if is_finite a && is_finite b
    then add_finite a b
    else if is_finite a
    then b
    else if is_finite b || sign_bit a == sign_bit b
    then a
    else quiet_nan

unfoldable pub sub : Double → Double → Double
unfolding add
sub a b = add a (negate b)

abbrev pub product_sign : Double → Double → ℕ
product_sign a b = if sign_bit a == sign_bit b then 0 else 1

unfoldable pub mul : Double → Double → Double
unfolding nearest units is_finite is_nan
mul a b =
    if is_nan a || is_nan b
    then quiet_nan
    else if is_finite a && is_finite b
    then with_sign (product_sign a b) (nearest (units a * units b) one_units)
    else if magnitude_bits a == 0 || magnitude_bits b == 0
    then quiet_nan
    else with_sign (product_sign a b) infinity_bits

unfoldable pub div : Double → Double → Double
unfolding nearest units is_finite is_nan
div a b =
    if is_nan a || is_nan b
    then quiet_nan
    else if not (is_finite a)
    then (if is_finite b then with_sign (product_sign a b) infinity_bits else quiet_nan)
    else if not (is_finite b)
    then with_sign (product_sign a b) 0
    else if magnitude_bits b == 0
    then (if magnitude_bits a == 0 then quiet_nan else with_sign (product_sign a b) infinity_bits)
    else with_sign (product_sign a b) (nearest (units a * one_units) (units b))

-- The nearest integer, away from zero at a tie.
unfoldable pub round_units : ℕ → ℕ
round_units n = (2 * n + one_units) / (2 * one_units)

-- `std::round`
unfoldable pub round : Double → Double
unfolding round_units of_nat units is_finite
round d = if is_finite d then with_sign (sign_bit d) (of_nat (round_units (units d))) else d

-- `std::max` and `std::min`, which give the first argument where neither is less.
unfoldable pub max : Double → Double → Double
unfolding less
max a b = if less a b then b else a

unfoldable pub min : Double → Double → Double
unfolding less
min a b = if less b a then b else a

-- The integer part of a finite double that is not negative, as a cast to an unsigned integer has it
-- where it fits.
unfoldable pub truncate : Double → ℕ
unfolding units
truncate d = units d / one_units
