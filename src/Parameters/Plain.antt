-- ===== src/Parameters/Plain.antt =====
-- The values that a parameter keeps: they can be saved, and are stored as they are. The integers of
-- the rows are checked by evaluation.
use mathlib.Core.Path.{subst}
use polyphonic_audio_to_midi.Prelude.{
  ℕ, ◌+◌, ◌^◌, ◌-◌, ◌≤◌, ◌<◌, ◌≡◌, refl, Bool, true, false, not, ◌&&◌, arith, ◌==◌, ltb, all_below,
  all_below_sound,
}
use polyphonic_audio_to_midi.Double.{Double, is_finite, less}
use polyphonic_audio_to_midi.Double.Arith.{of_nat, truncate}
use polyphonic_audio_to_midi.Double.Order.{IsWithin}
use polyphonic_audio_to_midi.Parameters.{
  Parameter, row, canonical_plain, byte_of, routing, mode, a4, trim, sensitivity, response, lowest,
  highest, polyphony, fret, velocity, fixed_velocity, channel, panic_action, dry, status_telemetry,
}
use polyphonic_audio_to_midi.Parameters.Grid.{IsStep, fixed}

-- A value that the parameter keeps: it can be saved, and it is stored as it is.
pub record IsPlain (p : Parameter) (value : Double) : Type 0 where
  pub finite : is_finite value ≡ true
  pub same : canonical_plain (row p) value ≡ value
  pub not_below : less value (row p).minimum ≡ false
  pub not_above : less (row p).maximum value ≡ false
  pub fits : value < 2 ^ 64

-- A row of integers keeps those in its range.
abbrev is_plain : Parameter → ℕ → Bool
is_plain p n =
    let value = of_nat n in
    is_finite value
    && canonical_plain (row p) value == value
    && not (less value (row p).minimum)
    && not (less (row p).maximum value)
    && ltb value (2 ^ 64)
    && byte_of value == n

-- From the least value on.
abbrev integers : Parameter → ℕ → ℕ → Bool
integers p low count = all_below count (λ k. is_plain p (low + k))

is_plain-IsPlain :
    (p : Parameter) (n : ℕ) → is_plain p n ≡ true → IsPlain p (of_nat n) × (byte_of (of_nat n) ≡ n)
is_plain-IsPlain p n h = ground (arith, h)

integers-IsPlain :
    (p : Parameter) (low count n : ℕ)
    → integers p low count ≡ true
    → low ≤ n
    → n < low + count
    → IsPlain p (of_nat n) × (byte_of (of_nat n) ≡ n)
integers-IsPlain p low count n h lo hi =
    let same : low + (n - low) ≡ n = omega (arith, lo) in
    is_plain-IsPlain p n (
      subst (λ k. is_plain p k ≡ true) same
        (all_below_sound count (λ k. is_plain p (low + k)) (n - low) h (omega (arith, lo, hi))))

-- The least of the integers of a row, and how many there are.
abbrev pub extent : Parameter → ℕ × ℕ
extent routing = (0, 2)
extent mode = (0, 2)
extent sensitivity = (0, 101)
extent response = (0, 101)
extent lowest = (24, 85)
extent highest = (24, 85)
extent polyphony = (1, 8)
extent fret = (0, 37)
extent velocity = (0, 2)
extent fixed_velocity = (1, 127)
extent channel = (1, 16)
extent dry = (0, 2)
extent a4 = (0, 0)
extent trim = (0, 0)
extent panic_action = (0, 0)
extent status_telemetry = (0, 0)

extent_table : (p : Parameter) → integers p (extent p).0 (extent p).1 ≡ true
unfolding all_below is_finite canonical_plain less of_nat truncate
extent_table routing = refl
extent_table mode = refl
extent_table sensitivity = refl
extent_table response = refl
extent_table lowest = refl
extent_table highest = refl
extent_table polyphony = refl
extent_table fret = refl
extent_table velocity = refl
extent_table fixed_velocity = refl
extent_table channel = refl
extent_table dry = refl
extent_table a4 = refl
extent_table trim = refl
extent_table panic_action = refl
extent_table status_telemetry = refl

pub integer-IsPlain :
    (p : Parameter) (n : ℕ)
    → (extent p).0 ≤ n
    → n < (extent p).0 + (extent p).1
    → IsPlain p (of_nat n) × (byte_of (of_nat n) ≡ n)
integer-IsPlain p n = integers-IsPlain p (extent p).0 (extent p).1 n (extent_table p)

pub step-IsPlain :
    (p : Parameter) (value : Double)
    → IsStep p value
    → IsWithin (row p).minimum (row p).maximum value
    → IsPlain p value
step-IsPlain p value s w =
    let (finite, fits, same, _) = fixed p value s in
    record {
      finite = finite;
      same = same;
      not_below = w.not_below;
      not_above = w.not_above;
      fits = fits;
    }
