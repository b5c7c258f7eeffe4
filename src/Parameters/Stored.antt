-- ===== src/Parameters/Stored.antt =====
-- The configurations that the defaults and the parameters give: the enumerators have names, and the
-- pitch and the trim are values of their parameters.
use polyphonic_audio_to_midi.Prelude.{ℕ, ◌≤◌, refl, arith}
use polyphonic_audio_to_midi.Types.{PersistentConfig, default_config}
use polyphonic_audio_to_midi.Double.{Double, is_nan, less}
use polyphonic_audio_to_midi.Double.Arith.{of_nat, of_fraction}
use polyphonic_audio_to_midi.Double.Order.{IsWithin}
use polyphonic_audio_to_midi.Double.Small.{truncate-bounds}
use polyphonic_audio_to_midi.ConfigRequest.{routing_of, profile_of, velocity_of}
use polyphonic_audio_to_midi.ConfigRequest.RoundTrip.{RoutingNamed, ProfileNamed, VelocityNamed}
use polyphonic_audio_to_midi.Parameters.{
  Parameter, row, byte_of, store_field, apply_parameter, routing, mode, a4, trim, sensitivity,
  response, lowest, highest, polyphony, fret, velocity, fixed_velocity, channel, panic_action, dry,
  status_telemetry,
}
use polyphonic_audio_to_midi.Parameters.Range.{
  IsInRange, apply_parameter-IsInRange, canonical_plain-IsWithin,
}
use polyphonic_audio_to_midi.Parameters.Apply.{Kept, apply_parameter_keeps}
use polyphonic_audio_to_midi.Parameters.Steps.{step_value}
use polyphonic_audio_to_midi.Parameters.Grid.{IsStep, canonical_plain-IsStep}

abbrev pub IsNamed : PersistentConfig → Type 0
IsNamed c =
    RoutingNamed c.midi_routing
    × ProfileNamed c.profile_mode
    × VelocityNamed c.velocity_mode
    × IsStep a4 c.a4_hz
    × IsStep trim c.input_trim_db

pub record IsStored (c : PersistentConfig) : Type 0 where
  pub in_range : IsInRange c
  pub named : IsNamed c

routing_of-RoutingNamed : (n : ℕ) → n ≤ 1 → RoutingNamed (routing_of n)
routing_of-RoutingNamed n h = ground arith

profile_of-ProfileNamed : (n : ℕ) → n ≤ 1 → ProfileNamed (profile_of n)
profile_of-ProfileNamed n h = ground arith

velocity_of-VelocityNamed : (n : ℕ) → n ≤ 1 → VelocityNamed (velocity_of n)
velocity_of-VelocityNamed n h = ground arith

small : (value : Double) → IsWithin (of_nat 0) (of_nat 1) value → byte_of value ≤ 1
small value w = (truncate-bounds 0 1 value (omega arith) (omega arith) w).1

store_field-IsNamed :
    (p : Parameter) (value : Double) (c : PersistentConfig)
    → IsNamed c
    → IsStep p value
    → IsWithin (row p).minimum (row p).maximum value
    → Kept IsNamed (store_field p value c)
unfolding store_field of_nat
store_field-IsNamed routing value c (r, m, v, a, t) s w =
    (routing_of-RoutingNamed _ (small value w), m, v, a, t)
store_field-IsNamed mode value c (r, m, v, a, t) s w =
    (r, profile_of-ProfileNamed _ (small value w), v, a, t)
store_field-IsNamed a4 value c (r, m, v, a, t) s w = (r, m, v, s, t)
store_field-IsNamed trim value c (r, m, v, a, t) s w = (r, m, v, a, s)
store_field-IsNamed sensitivity value c h s w = h
store_field-IsNamed response value c h s w = h
store_field-IsNamed lowest value c h s w = h
store_field-IsNamed highest value c h s w = h
store_field-IsNamed polyphony value c h s w = h
store_field-IsNamed fret value c h s w = h
store_field-IsNamed velocity value c (r, m, v, a, t) s w =
    (r, m, velocity_of-VelocityNamed _ (small value w), a, t)
store_field-IsNamed fixed_velocity value c h s w = h
store_field-IsNamed channel value c h s w = h
store_field-IsNamed panic_action value c h s w = tt
store_field-IsNamed dry value c h s w = h
store_field-IsNamed status_telemetry value c h s w = tt

-- Whatever number is applied under whatever identifier, a stored configuration stays one.
pub apply_parameter-IsStored :
    (c : PersistentConfig) (id : ℕ) (value : Double)
    → IsStored c
    → IsStored (apply_parameter c id value).1
apply_parameter-IsStored c id value h = record {
  in_range = apply_parameter-IsInRange c id value h.in_range;
  named =
      apply_parameter_keeps IsNamed
        (λ p d e f n.
          store_field-IsNamed p _ e n (canonical_plain-IsStep p d f)
            (canonical_plain-IsWithin p d f))
        c id value h.named;
}

default_a4 : IsStep a4 default_config.a4_hz
unfolding step_value of_nat
default_a4 = record { count = 400; counted = omega arith; same = refl }

default_trim : IsStep trim default_config.input_trim_db
unfolding step_value of_nat
default_trim = record { count = 240; counted = omega arith; same = refl }

a4-IsWithin : IsWithin (row a4).minimum (row a4).maximum default_config.a4_hz
unfolding less is_nan of_nat of_fraction
a4-IsWithin = record { not_below = refl; not_above = refl; a_number = refl }

trim-IsWithin : IsWithin (row trim).minimum (row trim).maximum default_config.input_trim_db
unfolding less is_nan of_nat of_fraction
trim-IsWithin = record { not_below = refl; not_above = refl; a_number = refl }

pub default_config-IsStored : IsStored default_config
default_config-IsStored = record {
  in_range = record {
    routing_in = omega arith;
    mode_in = omega arith;
    a4_in = a4-IsWithin;
    trim_in = trim-IsWithin;
    sensitivity_in = omega arith;
    response_in = omega arith;
    lowest_in = omega arith;
    highest_in = omega arith;
    polyphony_in = omega arith;
    fret_in = omega arith;
    velocity_in = omega arith;
    fixed_velocity_in = omega arith;
    channel_in = omega arith;
  };
  named = (tt, tt, tt, default_a4, default_trim);
}
