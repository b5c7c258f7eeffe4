-- ===== src/PreparedConfig.antt =====
-- native/plugin/prepared_config_exchange.cpp: `stage_prepared_config`, which prepares a configuration
-- for the exchange. The counter of the tests is left out.
pub mod Staged
use polyphonic_audio_to_midi.Prelude.{
  ℕ, Bool, true, false, not, ◌&&◌, ◌||◌, Option, none, some, if◌then◌else◌, all,
}
use polyphonic_audio_to_midi.Types.{PersistentConfig, Status, decision_quantum}
use polyphonic_audio_to_midi.Double.{Double, is_finite, less}
use polyphonic_audio_to_midi.Double.Arith.{of_nat, of_fraction, abs, sub, div}
use polyphonic_audio_to_midi.Parameters.{
  ParameterId, row, find_parameter, parameter_value, canonical_plain,
}
use polyphonic_audio_to_midi.StateImage.{persistent_ids}

pub record PreparedConfig : Type 0 where
  pub requested : PersistentConfig
  pub sample_rate : Double
  pub sample_period : Double
  pub decision_period : Double

-- A turn of the loop: the value is finite and not far from the plain one.
unfoldable pub valid_parameter : PersistentConfig → ParameterId → Bool
unfolding find_parameter parameter_value canonical_plain sub of_fraction less
valid_parameter config id = elim (find_parameter id) [
  | none ↦ false
  | some p ↦ elim (parameter_value config Status.ready id) [
    | none ↦ false
    | some value ↦
        let canonical = canonical_plain (row p) value in
        not (
          not (is_finite value)
          || not (is_finite canonical)
          || less (of_fraction 1 1000000000000) (abs (sub value canonical)))
  ]
]

unfoldable pub valid_requested_config : PersistentConfig → Bool
unfolding valid_parameter
valid_requested_config config = all (valid_parameter config) persistent_ids

-- `value <= 0.0` of a value that is a number.
abbrev pub is_positive : Double → Bool
is_positive value = is_finite value && less 0 value

unfoldable pub stage_prepared_config : PersistentConfig → Double → Option PreparedConfig
unfolding valid_requested_config div of_nat
stage_prepared_config requested sample_rate =
    let sample_period = div (of_nat 1) sample_rate in
    let decision_period = div (of_nat decision_quantum) sample_rate in
    if not (is_positive sample_rate)
    then none
    else if not (is_positive sample_period)
        || not (is_positive decision_period)
        || not (valid_requested_config requested)
    then none
    else some (record {
      requested = requested;
      sample_rate = sample_rate;
      sample_period = sample_period;
      decision_period = decision_period;
    })
