-- ===== src/Double/Grid.antt =====
-- A value in a range, less the least one, divided by an increment and rounded, is a whole number of
-- steps, no more than there are.
use native.Mathlib.Nat.{mul-le-mul_right}
use polyphonic_audio_to_midi.Prelude.{
  ℕ, ◌+◌, ◌*◌, ◌/◌, ◌^◌, ◌≤◌, ◌<◌, ◌≡◌, ap, ◌∙◌, Bool, true, false, ◌&&◌, ltb, leb, ◌==◌, arith,
}
use polyphonic_audio_to_midi.Double.{Double, sign_bit, magnitude_bits, infinity_bits, is_finite}
use polyphonic_audio_to_midi.Double.Arith.{
  units, nearest, div, round, round_units, of_nat, one_units,
}
use polyphonic_audio_to_midi.Double.Order.{units_mono}
use polyphonic_audio_to_midi.Double.Rounding.{nearest_mono, div_mono}
use polyphonic_audio_to_midi.Double.Steps.{span, finite_magnitude, is_finite-is_nan}

-- The quotient of two finite doubles of positive sign, before it is rounded to an integer.
abbrev ratio : Double → Double → Double
ratio s increment = nearest (units s * one_units) (units increment)

-- The test of a range that is evaluated for it: the width and the number of steps in it are finite.
abbrev pub is_stepped : Double → Double → Double → ℕ → Bool
is_stepped low high increment count =
    ltb increment (2 ^ 63)
    && is_finite increment
    && ltb 0 increment
    && ltb (span low high / 1) (2 ^ 2 ^ 12)
    && ltb (nearest (span low high) 1) infinity_bits
    && ltb (units (nearest (span low high) 1) * one_units / units increment) (2 ^ 2 ^ 12)
    && ltb (ratio (nearest (span low high) 1) increment) infinity_bits
    && leb (round_units (units (ratio (nearest (span low high) 1) increment))) count

pub record IsStepped (low high increment : Double) (count : ℕ) : Type 0 where
  positive : increment < 2 ^ 63
  finite : is_finite increment ≡ true
  some : 0 < increment
  span_fits : span low high / 1 < 2 ^ 2 ^ 12
  span_finite : nearest (span low high) 1 < infinity_bits
  ratio_fits : units (nearest (span low high) 1) * one_units / units increment < 2 ^ 2 ^ 12
  ratio_finite : ratio (nearest (span low high) 1) increment < infinity_bits
  counted : round_units (units (ratio (nearest (span low high) 1) increment)) ≤ count

div_positive :
    (s increment : Double)
    → s < infinity_bits
    → increment < 2 ^ 63
    → is_finite increment ≡ true
    → 0 < increment
    → div s increment ≡ ratio s increment
unfolding div
div_positive s increment h p f k =
    let finite_s = finite_magnitude s (omega (arith, h)) in
    let nonzero : (magnitude_bits increment == 0) ≡ false = ground (arith, p, k) in
    let positive_s : sign_bit s ≡ 0 = omega (arith, h) in
    let positive_increment : sign_bit increment ≡ 0 = omega (arith, p) in
    rw
      (
        is_finite-is_nan s finite_s,
        is_finite-is_nan increment f,
        finite_s,
        f,
        nonzero,
        positive_s,
        positive_increment,
      )
      (omega arith)

round_positive : (u : Double) → u < infinity_bits → round u ≡ of_nat (round_units (units u))
unfolding round
round_positive u h =
    let positive_u : sign_bit u ≡ 0 = omega (arith, h) in
    rw (finite_magnitude u (omega (arith, h)), positive_u) (omega arith)

round_units_mono : (m n : ℕ) → m ≤ n → round_units m ≤ round_units n
unfolding round_units
round_units_mono m n h =
    div_mono (2 * one_units) (2 * m + one_units) (2 * n + one_units) (omega (arith, h))

module _ (low high increment : Double) (count : ℕ) (r : IsStepped low high increment count) where
  pub above_step :
      (t : ℕ) (s : Double)
      → t ≤ span low high
      → s ≡ nearest t 1
      → (n : ℕ) × (n ≤ count) × (round (div s increment) ≡ of_nat n)
  above_step t s le e =
      let widest = nearest (span low high) 1 in
      let s_le : s ≤ widest = omega (arith, e, nearest_mono t (span low high) 1 le r.span_fits) in
      let units_le = units_mono s widest (omega (arith, s_le, r.span_finite)) in
      let ratio_le : ratio s increment ≤ ratio widest increment =
        nearest_mono _ _ (units increment) (mul-le-mul_right one_units units_le) r.ratio_fits in
      let finite_ratio : ratio s increment < infinity_bits =
        omega (arith, ratio_le, r.ratio_finite) in
      (
        round_units (units (ratio s increment)),
        omega (
          arith,
          round_units_mono _ _ (
              units_mono (ratio s increment) (ratio widest increment)
                (omega (arith, ratio_le, r.ratio_finite))),
          r.counted,
        ),
        ap round (
              div_positive s increment (omega (arith, s_le, r.span_finite)) r.positive r.finite
                r.some)
            ∙ round_positive (ratio s increment) finite_ratio,
      )

pub is_stepped-IsStepped :
    (low high increment : Double) (count : ℕ)
    → is_stepped low high increment count ≡ true
    → IsStepped low high increment count
is_stepped-IsStepped low high increment count h = ground (arith, h)
