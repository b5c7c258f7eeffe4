-- ===== src/Parameters/Range.antt =====
-- The ranges of the parameters: whatever is applied to a configuration leaves it within them.
use polyphonic_audio_to_midi.Prelude.{ℕ, ◌≤◌, ◌≡◌, refl, Bool, true, not, ◌||◌, arith, if_elim}
use polyphonic_audio_to_midi.Types.{PersistentConfig, MidiRouting, ProfileMode, VelocityMode}
use polyphonic_audio_to_midi.Double.{Double, is_finite, less}
use polyphonic_audio_to_midi.Double.Arith.{of_nat}
use polyphonic_audio_to_midi.Double.Order.{IsWithin, clamp-IsWithin}
use polyphonic_audio_to_midi.Double.Small.{truncate-bounds}
use polyphonic_audio_to_midi.ConfigRequest.{
  routing_of, profile_of, velocity_of, routing_value, profile_value, velocity_value,
}
use polyphonic_audio_to_midi.Parameters.Apply.{Kept, apply_parameter_keeps}
use polyphonic_audio_to_midi.Parameters.{
  Parameter, ParameterSpec, row, valid_spec, rounded, canonical_plain, store_field, apply_parameter,
  routing, mode, a4, trim, sensitivity, response, lowest, highest, polyphony, fret, velocity,
  fixed_velocity, channel, panic_action, dry, status_telemetry,
}

-- Every field is within the range of its parameter.
pub record IsInRange (c : PersistentConfig) : Type 0 where
  pub routing_in : routing_value c.midi_routing ≤ 1
  pub mode_in : profile_value c.profile_mode ≤ 1
  pub a4_in : IsWithin (row a4).minimum (row a4).maximum c.a4_hz
  pub trim_in : IsWithin (row trim).minimum (row trim).maximum c.input_trim_db
  pub sensitivity_in : c.sensitivity ≤ 100
  pub response_in : c.response ≤ 100
  pub lowest_in : (24 ≤ c.lowest_note) × (c.lowest_note ≤ 108)
  pub highest_in : (24 ≤ c.highest_note) × (c.highest_note ≤ 108)
  pub polyphony_in : (1 ≤ c.max_polyphony) × (c.max_polyphony ≤ 8)
  pub fret_in : c.max_fret ≤ 36
  pub velocity_in : velocity_value c.velocity_mode ≤ 1
  pub fixed_velocity_in : (1 ≤ c.fixed_velocity) × (c.fixed_velocity ≤ 127)
  pub channel_in : (1 ≤ c.midi_channel) × (c.midi_channel ≤ 16)

-- Every row of the table is well formed.
pub row-valid_spec : (p : Parameter) → valid_spec (row p) ≡ true
unfolding valid_spec of_nat is_finite less
row-valid_spec routing = refl
row-valid_spec mode = refl
row-valid_spec a4 = refl
row-valid_spec trim = refl
row-valid_spec sensitivity = refl
row-valid_spec response = refl
row-valid_spec lowest = refl
row-valid_spec highest = refl
row-valid_spec polyphony = refl
row-valid_spec fret = refl
row-valid_spec velocity = refl
row-valid_spec fixed_velocity = refl
row-valid_spec channel = refl
row-valid_spec panic_action = refl
row-valid_spec dry = refl
row-valid_spec status_telemetry = refl

valid_spec-less :
    (spec : ParameterSpec) → valid_spec spec ≡ true → less spec.minimum spec.maximum ≡ true
unfolding valid_spec
valid_spec-less spec h = ground arith

both : {a b : Bool} → a ≡ true → b ≡ true → (not a || not b) ≡ true → ⊥
both {a} {b} p q r = ground arith

pub canonical_plain-IsWithin :
    (p : Parameter) (value : Double)
    → is_finite value ≡ true
    → IsWithin (row p).minimum (row p).maximum (canonical_plain (row p) value)
unfolding canonical_plain
canonical_plain-IsWithin p value h =
    if_elim (IsWithin (row p).minimum (row p).maximum)
      (not (valid_spec (row p)) || not (is_finite value)) _ _
      (λ bad. absurd (both (row-valid_spec p) h bad))
      (λ _.
        clamp-IsWithin (row p).minimum (row p).maximum (rounded (row p) value)
          (valid_spec-less (row p) (row-valid_spec p)))

-- One field is replaced.
module _ (c : PersistentConfig) (v : IsInRange c) where
  put_midi_routing :
      (r : MidiRouting) → routing_value r ≤ 1 → IsInRange (record c { midi_routing = r })
  put_midi_routing r h = ground arith

  put_profile_mode :
      (m : ProfileMode) → profile_value m ≤ 1 → IsInRange (record c { profile_mode = m })
  put_profile_mode m h = ground arith

  put_a4_hz :
      (d : Double)
      → IsWithin (row a4).minimum (row a4).maximum d
      → IsInRange (record c { a4_hz = d })
  put_a4_hz d h = ground arith

  put_input_trim_db :
      (d : Double)
      → IsWithin (row trim).minimum (row trim).maximum d
      → IsInRange (record c { input_trim_db = d })
  put_input_trim_db d h = ground arith

  put_sensitivity : (n : ℕ) → n ≤ 100 → IsInRange (record c { sensitivity = n })
  put_sensitivity n h = ground arith

  put_response : (n : ℕ) → n ≤ 100 → IsInRange (record c { response = n })
  put_response n h = ground arith

  put_lowest_note : (n : ℕ) → (24 ≤ n) × (n ≤ 108) → IsInRange (record c { lowest_note = n })
  put_lowest_note n h = ground arith

  put_highest_note : (n : ℕ) → (24 ≤ n) × (n ≤ 108) → IsInRange (record c { highest_note = n })
  put_highest_note n h = ground arith

  put_max_polyphony : (n : ℕ) → (1 ≤ n) × (n ≤ 8) → IsInRange (record c { max_polyphony = n })
  put_max_polyphony n h = ground arith

  put_max_fret : (n : ℕ) → n ≤ 36 → IsInRange (record c { max_fret = n })
  put_max_fret n h = ground arith

  put_velocity_mode :
      (m : VelocityMode) → velocity_value m ≤ 1 → IsInRange (record c { velocity_mode = m })
  put_velocity_mode m h = ground arith

  put_fixed_velocity : (n : ℕ) → (1 ≤ n) × (n ≤ 127) → IsInRange (record c { fixed_velocity = n })
  put_fixed_velocity n h = ground arith

  put_midi_channel : (n : ℕ) → (1 ≤ n) × (n ≤ 16) → IsInRange (record c { midi_channel = n })
  put_midi_channel n h = ground arith

  put_dry_passthrough : (b : Bool) → IsInRange (record c { dry_passthrough = b })
  put_dry_passthrough b = ground arith

named_routing : (n : ℕ) → n ≤ 1 → routing_value (routing_of n) ≤ 1
named_routing n h = ground arith

named_profile : (n : ℕ) → n ≤ 1 → profile_value (profile_of n) ≤ 1
named_profile n h = ground arith

named_velocity : (n : ℕ) → n ≤ 1 → velocity_value (velocity_of n) ≤ 1
named_velocity n h = ground arith

store_field-Fits :
    (p : Parameter) (value : Double) (c : PersistentConfig)
    → IsInRange c
    → IsWithin (row p).minimum (row p).maximum value
    → Kept IsInRange (store_field p value c)
unfolding store_field of_nat
store_field-Fits routing value c v w =
    put_midi_routing c v _
      (named_routing _ (truncate-bounds 0 1 value (omega arith) (omega arith) w).1)
store_field-Fits mode value c v w =
    put_profile_mode c v _
      (named_profile _ (truncate-bounds 0 1 value (omega arith) (omega arith) w).1)
store_field-Fits a4 value c v w = put_a4_hz c v value w
store_field-Fits trim value c v w = put_input_trim_db c v value w
store_field-Fits sensitivity value c v w =
    put_sensitivity c v _ (truncate-bounds 0 100 value (omega arith) (omega arith) w).1
store_field-Fits response value c v w =
    put_response c v _ (truncate-bounds 0 100 value (omega arith) (omega arith) w).1
store_field-Fits lowest value c v w =
    put_lowest_note c v _ (truncate-bounds 24 108 value (omega arith) (omega arith) w)
store_field-Fits highest value c v w =
    put_highest_note c v _ (truncate-bounds 24 108 value (omega arith) (omega arith) w)
store_field-Fits polyphony value c v w =
    put_max_polyphony c v _ (truncate-bounds 1 8 value (omega arith) (omega arith) w)
store_field-Fits fret value c v w =
    put_max_fret c v _ (truncate-bounds 0 36 value (omega arith) (omega arith) w).1
store_field-Fits velocity value c v w =
    put_velocity_mode c v _
      (named_velocity _ (truncate-bounds 0 1 value (omega arith) (omega arith) w).1)
store_field-Fits fixed_velocity value c v w =
    put_fixed_velocity c v _ (truncate-bounds 1 127 value (omega arith) (omega arith) w)
store_field-Fits channel value c v w =
    put_midi_channel c v _ (truncate-bounds 1 16 value (omega arith) (omega arith) w)
store_field-Fits panic_action value c v w = tt
store_field-Fits dry value c v w = put_dry_passthrough c v _
store_field-Fits status_telemetry value c v w = tt

-- Whatever number is applied under whatever identifier, a configuration within the ranges of its
-- parameters stays within them.
pub apply_parameter-IsInRange :
    (c : PersistentConfig) (id : ℕ) (value : Double)
    → IsInRange c
    → IsInRange (apply_parameter c id value).1
apply_parameter-IsInRange c id value v =
    apply_parameter_keeps IsInRange
      (λ p d e h w. store_field-Fits p _ e w (canonical_plain-IsWithin p d h)) c id value v
