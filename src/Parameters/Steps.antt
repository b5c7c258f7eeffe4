-- ===== src/Parameters/Steps.antt =====
-- The steps of the parameters' values, each of them checked by evaluation: it is its own plain value
-- and comes back from its normalized value.
use polyphonic_audio_to_midi.Prelude.{
  ℕ, suc, ◌^◌, ◌≡◌, refl, Bool, true, ◌&&◌, ltb, ◌==◌, all_below,
}
use polyphonic_audio_to_midi.Double.{Double, sign_bit, is_finite}
use polyphonic_audio_to_midi.Double.Arith.{
  units, nearest, round_units, of_nat, add, mul, div, round, max, min,
}
use polyphonic_audio_to_midi.Double.Grid.{is_stepped}
use polyphonic_audio_to_midi.Parameters.{
  Parameter, row, bounded, canonical_plain, plain_to_normalized, normalized_to_plain, routing, mode,
  a4, trim, sensitivity, response, lowest, highest, polyphony, fret, velocity, fixed_velocity,
  channel, panic_action, dry, status_telemetry,
}

-- The value at a number of steps above the least one.
unfoldable pub step_value : Parameter → Double → Double
unfolding add mul max min
step_value p steps = let spec = row p in bounded spec (add spec.minimum (mul steps spec.increment))

abbrev pub steps_fit : Parameter → Bool
steps_fit p =
    let spec = row p in
    is_stepped spec.minimum spec.maximum spec.increment spec.step_count
    && sign_bit spec.maximum == 0

pub row-steps_fit : (p : Parameter) → steps_fit p ≡ true
unfolding is_finite units nearest round_units of_nat
row-steps_fit routing = refl
row-steps_fit mode = refl
row-steps_fit a4 = refl
row-steps_fit trim = refl
row-steps_fit sensitivity = refl
row-steps_fit response = refl
row-steps_fit lowest = refl
row-steps_fit highest = refl
row-steps_fit polyphony = refl
row-steps_fit fret = refl
row-steps_fit velocity = refl
row-steps_fit fixed_velocity = refl
row-steps_fit channel = refl
row-steps_fit panic_action = refl
row-steps_fit dry = refl
row-steps_fit status_telemetry = refl

abbrev pub is_fixed : Parameter → ℕ → Bool
is_fixed p n =
    is_finite (step_value p (of_nat n))
    && ltb (step_value p (of_nat n)) (2 ^ 64)
    && canonical_plain (row p) (step_value p (of_nat n)) == step_value p (of_nat n)
    && normalized_to_plain (row p) (plain_to_normalized (row p) (step_value p (of_nat n)))
      == step_value p (of_nat n)

-- No step, and no negative one.
abbrev pub from_zero : Parameter → Bool
from_zero p = step_value p (round (div (2 ^ 63) (row p).increment)) == step_value p (of_nat 0)

abbrev pub is_checked : Parameter → Bool
is_checked p = all_below (suc (row p).step_count) (is_fixed p) && from_zero p

a4_checked : is_checked a4 ≡ true
unfolding all_below is_finite canonical_plain normalized_to_plain plain_to_normalized step_value div
    round of_nat
a4_checked = refl

trim_checked : is_checked trim ≡ true
unfolding all_below is_finite canonical_plain normalized_to_plain plain_to_normalized step_value div
    round of_nat
trim_checked = refl

pub row-is_checked : (p : Parameter) → is_checked p ≡ true
unfolding all_below is_finite canonical_plain normalized_to_plain plain_to_normalized step_value div
    round of_nat
row-is_checked routing = refl
row-is_checked mode = refl
row-is_checked a4 = a4_checked
row-is_checked trim = trim_checked
row-is_checked sensitivity = refl
row-is_checked response = refl
row-is_checked lowest = refl
row-is_checked highest = refl
row-is_checked polyphony = refl
row-is_checked fret = refl
row-is_checked velocity = refl
row-is_checked fixed_velocity = refl
row-is_checked channel = refl
row-is_checked panic_action = refl
row-is_checked dry = refl
row-is_checked status_telemetry = refl
