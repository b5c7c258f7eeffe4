-- ===== src/Double/Small.antt =====
-- The doubles of the integers below 256, each of them checked by evaluation.
use polyphonic_audio_to_midi.Prelude.{
  ℕ, ◌%◌, ◌^◌, ◌≤◌, ◌<◌, ◌≡◌, refl, Bool, true, false, not, ◌&&◌, ltb, ◌==◌, arith, all_below,
  all_below_sound,
}
use polyphonic_audio_to_midi.Double.{Double, is_finite, is_nan}
use polyphonic_audio_to_midi.Double.Arith.{of_nat, truncate}
use polyphonic_audio_to_midi.Double.Order.{IsWithin, IsWithin-magnitude_bits, truncate_mono}

-- A positive, finite number whose integer part is the integer.
abbrev is_exact : ℕ → Bool
is_exact n =
    ltb (of_nat n) (2 ^ 63)
    && is_finite (of_nat n)
    && not (is_nan (of_nat n))
    && truncate (of_nat n) == n

exact_table : all_below 256 is_exact ≡ true
unfolding all_below of_nat is_finite is_nan truncate
exact_table = refl

pub record IsExact (n : ℕ) : Type 0 where
  pub positive : of_nat n < 2 ^ 63
  pub finite : is_finite (of_nat n) ≡ true
  pub a_number : is_nan (of_nat n) ≡ false
  pub same : truncate (of_nat n) ≡ n

pub of_nat-IsExact : (n : ℕ) → n < 256 → IsExact n
of_nat-IsExact n h = ground (arith, all_below_sound 256 is_exact n exact_table h)

-- The byte that is stored for a value between two integers is between them.
pub truncate-bounds :
    (low high : ℕ) (value : Double)
    → low < 256
    → high < 256
    → IsWithin (of_nat low) (of_nat high) value
    → (low ≤ truncate value % 256) × (truncate value % 256 ≤ high)
truncate-bounds low high value hl hh w =
    let l = of_nat-IsExact low hl in
    let h = of_nat-IsExact high hh in
    let (a, b) =
      IsWithin-magnitude_bits (of_nat low) (of_nat high) value l.positive h.positive l.a_number
        h.a_number w in
    omega (
      arith,
      l.positive,
      h.positive,
      l.same,
      h.same,
      truncate_mono (of_nat low) value (omega (arith, l.positive)),
      truncate_mono value (of_nat high) (omega (arith, h.positive)),
    )
