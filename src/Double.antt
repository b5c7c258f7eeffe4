-- ===== src/Double.antt =====
-- `double`, as the 64 bits of its IEEE 754 representation: `std::memcpy` between a `double` and a
-- `std::uint64_t` is then the identity, and the tests that the code makes are computed.
pub mod Arith
pub mod Order
pub mod Rounding
pub mod Steps
pub mod Grid
pub mod Small
use polyphonic_audio_to_midi.Prelude.{
  ℕ, ◌*◌, ◌/◌, ◌%◌, ◌^◌, Bool, not, ◌&&◌, ◌||◌, ltb, ◌==◌, if◌then◌else◌,
}

abbrev pub Double : Type 0
Double = ℕ

abbrev pub sign_bit : Double → ℕ
sign_bit d = d / 2 ^ 63 % 2

abbrev pub exponent_bits : Double → ℕ
exponent_bits d = d / 2 ^ 52 % 2 ^ 11

-- The bits below the sign, which order the magnitudes.
abbrev pub magnitude_bits : Double → ℕ
magnitude_bits d = d % 2 ^ 63

abbrev pub infinity_bits : ℕ
infinity_bits = 2047 * 2 ^ 52

-- `std::isfinite`
unfoldable pub is_finite : Double → Bool
is_finite d = not (exponent_bits d == 2047)

-- `std::isnan`
unfoldable pub is_nan : Double → Bool
is_nan d = ltb infinity_bits (magnitude_bits d)

-- `a < b`: false if either is a NaN; the zeros of both signs are equal.
unfoldable pub less : Double → Double → Bool
unfolding is_nan
less a b =
    not (is_nan a)
    && not (is_nan b)
    && (if sign_bit a == 0
        then sign_bit b == 0 && ltb (magnitude_bits a) (magnitude_bits b)
        else if sign_bit b == 0
        then not (magnitude_bits a == 0 && magnitude_bits b == 0)
        else ltb (magnitude_bits b) (magnitude_bits a))

-- `a == b`
unfoldable pub equal : Double → Double → Bool
unfolding is_nan
equal a b =
    not (is_nan a)
    && not (is_nan b)
    && (magnitude_bits a == 0 && magnitude_bits b == 0
        || sign_bit a == sign_bit b && magnitude_bits a == magnitude_bits b)
