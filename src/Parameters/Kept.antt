-- ===== src/Parameters/Kept.antt =====
-- A stored configuration has values that their parameters keep, and storing them copies its fields.
use polyphonic_audio_to_midi.Prelude.{◌≡◌, refl, ap, ◌∙◌, Bool, true, false, not, some, arith, All}
use polyphonic_audio_to_midi.Types.{PersistentConfig, Status}
use polyphonic_audio_to_midi.Double.{less}
use polyphonic_audio_to_midi.Double.Arith.{of_nat}
use polyphonic_audio_to_midi.ConfigRequest.{
  routing_of, profile_of, velocity_of, routing_value, profile_value, velocity_value, bool_value,
}
use polyphonic_audio_to_midi.ConfigRequest.RoundTrip.{routing_round, profile_round, velocity_round}
use polyphonic_audio_to_midi.Parameters.{
  Parameter, persistent_parameters, store_field, field_value, routing, mode, a4, trim, sensitivity,
  response, lowest, highest, polyphony, fret, velocity, fixed_velocity, channel, panic_action, dry,
  status_telemetry,
}
use polyphonic_audio_to_midi.Parameters.Plain.{IsPlain, integer-IsPlain, step-IsPlain}
use polyphonic_audio_to_midi.Parameters.Stored.{IsStored}

-- One field of the first configuration is put into the second.
abbrev pub copy_field : Parameter → PersistentConfig → PersistentConfig → PersistentConfig
copy_field routing c d = record d { midi_routing = c.midi_routing }
copy_field mode c d = record d { profile_mode = c.profile_mode }
copy_field a4 c d = record d { a4_hz = c.a4_hz }
copy_field trim c d = record d { input_trim_db = c.input_trim_db }
copy_field sensitivity c d = record d { sensitivity = c.sensitivity }
copy_field response c d = record d { response = c.response }
copy_field lowest c d = record d { lowest_note = c.lowest_note }
copy_field highest c d = record d { highest_note = c.highest_note }
copy_field polyphony c d = record d { max_polyphony = c.max_polyphony }
copy_field fret c d = record d { max_fret = c.max_fret }
copy_field velocity c d = record d { velocity_mode = c.velocity_mode }
copy_field fixed_velocity c d = record d { fixed_velocity = c.fixed_velocity }
copy_field channel c d = record d { midi_channel = c.midi_channel }
copy_field panic_action c d = d
copy_field dry c d = record d { dry_passthrough = c.dry_passthrough }
copy_field status_telemetry c d = d

flag_back : (b : Bool) → not (less (of_nat (bool_value b)) (of_nat 1)) ≡ b
unfolding less of_nat
flag_back true = refl
flag_back false = refl

abbrev pub IsKept : PersistentConfig → Parameter → Type 0
IsKept c p =
    IsPlain p (field_value c Status.ready p)
    × ((d : PersistentConfig)
        → store_field p (field_value c Status.ready p) d ≡ some (copy_field p c d))

flag-IsPlain : (b : Bool) → IsPlain dry (of_nat (bool_value b))
flag-IsPlain true = (integer-IsPlain dry 1 (omega arith) (omega arith)).0
flag-IsPlain false = (integer-IsPlain dry 0 (omega arith) (omega arith)).0

module _ (c : PersistentConfig) (h : IsStored c) where
  routing-IsKept : IsKept c routing
  unfolding field_value store_field
  routing-IsKept =
      let (plain, same) =
        integer-IsPlain routing (routing_value c.midi_routing) (omega arith)
          (omega (arith, h.in_range.routing_in)) in
      (
        plain,
        λ d.
            ap (λ x. some (record d { midi_routing = x }))
              (ap routing_of same ∙ routing_round c.midi_routing h.named.0),
      )

  mode-IsKept : IsKept c mode
  unfolding field_value store_field
  mode-IsKept =
      let (plain, same) =
        integer-IsPlain mode (profile_value c.profile_mode) (omega arith)
          (omega (arith, h.in_range.mode_in)) in
      (
        plain,
        λ d.
            ap (λ x. some (record d { profile_mode = x }))
              (ap profile_of same ∙ profile_round c.profile_mode h.named.1),
      )

  velocity-IsKept : IsKept c velocity
  unfolding field_value store_field
  velocity-IsKept =
      let (plain, same) =
        integer-IsPlain velocity (velocity_value c.velocity_mode) (omega arith)
          (omega (arith, h.in_range.velocity_in)) in
      (
        plain,
        λ d.
            ap (λ x. some (record d { velocity_mode = x }))
              (ap velocity_of same ∙ velocity_round c.velocity_mode h.named.2),
      )

  sensitivity-IsKept : IsKept c sensitivity
  unfolding field_value store_field
  sensitivity-IsKept =
      let (plain, same) =
        integer-IsPlain sensitivity c.sensitivity (omega (arith, h.in_range.sensitivity_in))
          (omega (arith, h.in_range.sensitivity_in)) in
      (plain, λ d. ap (λ x. some (record d { sensitivity = x })) same)

  response-IsKept : IsKept c response
  unfolding field_value store_field
  response-IsKept =
      let (plain, same) =
        integer-IsPlain response c.response (omega (arith, h.in_range.response_in))
          (omega (arith, h.in_range.response_in)) in
      (plain, λ d. ap (λ x. some (record d { response = x })) same)

  lowest-IsKept : IsKept c lowest
  unfolding field_value store_field
  lowest-IsKept =
      let (plain, same) =
        integer-IsPlain lowest c.lowest_note (omega (arith, h.in_range.lowest_in))
          (omega (arith, h.in_range.lowest_in)) in
      (plain, λ d. ap (λ x. some (record d { lowest_note = x })) same)

  highest-IsKept : IsKept c highest
  unfolding field_value store_field
  highest-IsKept =
      let (plain, same) =
        integer-IsPlain highest c.highest_note (omega (arith, h.in_range.highest_in))
          (omega (arith, h.in_range.highest_in)) in
      (plain, λ d. ap (λ x. some (record d { highest_note = x })) same)

  polyphony-IsKept : IsKept c polyphony
  unfolding field_value store_field
  polyphony-IsKept =
      let (plain, same) =
        integer-IsPlain polyphony c.max_polyphony (omega (arith, h.in_range.polyphony_in))
          (omega (arith, h.in_range.polyphony_in)) in
      (plain, λ d. ap (λ x. some (record d { max_polyphony = x })) same)

  fret-IsKept : IsKept c fret
  unfolding field_value store_field
  fret-IsKept =
      let (plain, same) =
        integer-IsPlain fret c.max_fret (omega (arith, h.in_range.fret_in))
          (omega (arith, h.in_range.fret_in)) in
      (plain, λ d. ap (λ x. some (record d { max_fret = x })) same)

  fixed_velocity-IsKept : IsKept c fixed_velocity
  unfolding field_value store_field
  fixed_velocity-IsKept =
      let (plain, same) =
        integer-IsPlain fixed_velocity c.fixed_velocity
          (omega (arith, h.in_range.fixed_velocity_in))
          (omega (arith, h.in_range.fixed_velocity_in)) in
      (plain, λ d. ap (λ x. some (record d { fixed_velocity = x })) same)

  channel-IsKept : IsKept c channel
  unfolding field_value store_field
  channel-IsKept =
      let (plain, same) =
        integer-IsPlain channel c.midi_channel (omega (arith, h.in_range.channel_in))
          (omega (arith, h.in_range.channel_in)) in
      (plain, λ d. ap (λ x. some (record d { midi_channel = x })) same)

  a4-IsKept : IsKept c a4
  unfolding field_value store_field
  a4-IsKept = (step-IsPlain a4 c.a4_hz h.named.3 h.in_range.a4_in, λ d. refl)

  trim-IsKept : IsKept c trim
  unfolding field_value store_field
  trim-IsKept = (step-IsPlain trim c.input_trim_db h.named.4 h.in_range.trim_in, λ d. refl)

  dry-IsKept : IsKept c dry
  unfolding field_value store_field
  dry-IsKept = (
    flag-IsPlain c.dry_passthrough,
    λ d. ap (λ x. some (record d { dry_passthrough = x })) (flag_back c.dry_passthrough),
  )

  pub persistent-IsKept : All (IsKept c) persistent_parameters
  persistent-IsKept = (
    routing-IsKept,
    (
      mode-IsKept,
      (
        a4-IsKept,
        (
          trim-IsKept,
          (
            sensitivity-IsKept,
            (
              response-IsKept,
              (
                lowest-IsKept,
                (
                  highest-IsKept,
                  (
                    polyphony-IsKept,
                    (
                      fret-IsKept,
                      (
                        velocity-IsKept,
                        (fixed_velocity-IsKept, (channel-IsKept, (dry-IsKept, tt))),
                      ),
                    ),
                  ),
                ),
              ),
            ),
          ),
        ),
      ),
    ),
  )
