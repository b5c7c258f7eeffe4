-- ===== src/ConfigRequest/RoundTrip.antt =====
-- The configuration goes through the fourteen words and comes out the same.
use polyphonic_audio_to_midi.Prelude.{
  ℕ, suc, ◌%◌, ◌<◌, ◌≡◌, refl, Bool, true, false, not, some, arith, if◌then◌else◌, ◌==◌,
}
use polyphonic_audio_to_midi.Types.{PersistentConfig, MidiRouting, ProfileMode, VelocityMode}
use polyphonic_audio_to_midi.ConfigRequest.{
  generation_newer, store_fields, load_fields, routing_value, routing_of, profile_value, profile_of,
  velocity_value, velocity_of, bool_value, AtomicConfigRequest, publish, snapshot,
  copy_structural_config, copy_runtime_config,
}

abbrev pub RoutingNamed : MidiRouting → Type 0
RoutingNamed MidiRouting.single = Unit
RoutingNamed MidiRouting.per_voice = Unit
RoutingNamed (MidiRouting.unnamed n) = ⊥

abbrev pub ProfileNamed : ProfileMode → Type 0
ProfileNamed ProfileMode.m3 = Unit
ProfileNamed ProfileMode.general = Unit
ProfileNamed (ProfileMode.unnamed n) = ⊥

abbrev pub VelocityNamed : VelocityMode → Type 0
VelocityNamed VelocityMode.fixed = Unit
VelocityNamed VelocityMode.dynamic = Unit
VelocityNamed (VelocityMode.unnamed n) = ⊥

-- The enumerations have named values, and the byte fields hold bytes.
pub record IsConfig (c : PersistentConfig) : Type 0 where
  pub routing : RoutingNamed c.midi_routing
  pub profile : ProfileNamed c.profile_mode
  pub velocity : VelocityNamed c.velocity_mode
  pub sensitivity : c.sensitivity < 256
  pub response : c.response < 256
  pub lowest : c.lowest_note < 256
  pub highest : c.highest_note < 256
  pub polyphony : c.max_polyphony < 256
  pub fret : c.max_fret < 256
  pub fixed : c.fixed_velocity < 256
  pub channel : c.midi_channel < 256

pub routing_round : (r : MidiRouting) → RoutingNamed r → routing_of (routing_value r) ≡ r
routing_round MidiRouting.single h = refl
routing_round MidiRouting.per_voice h = refl
routing_round (MidiRouting.unnamed n) h = absurd h

pub profile_round : (r : ProfileMode) → ProfileNamed r → profile_of (profile_value r) ≡ r
profile_round ProfileMode.m3 h = refl
profile_round ProfileMode.general h = refl
profile_round (ProfileMode.unnamed n) h = absurd h

pub velocity_round : (r : VelocityMode) → VelocityNamed r → velocity_of (velocity_value r) ≡ r
velocity_round VelocityMode.fixed h = refl
velocity_round VelocityMode.dynamic h = refl
velocity_round (VelocityMode.unnamed n) h = absurd h

byte_round : (n : ℕ) → n < 256 → n % 256 ≡ n
byte_round n h = omega arith

flag_round : (b : Bool) → not (bool_value b == 0) ≡ b
flag_round true = refl
flag_round false = refl

pub load-store_fields : (c : PersistentConfig) → IsConfig c → load_fields (store_fields c) ≡ c
unfolding load_fields store_fields
load-store_fields c v = λ i. record {
  midi_routing = routing_round c.midi_routing v.routing i;
  profile_mode = profile_round c.profile_mode v.profile i;
  a4_hz = c.a4_hz;
  input_trim_db = c.input_trim_db;
  sensitivity = byte_round c.sensitivity v.sensitivity i;
  response = byte_round c.response v.response i;
  lowest_note = byte_round c.lowest_note v.lowest i;
  highest_note = byte_round c.highest_note v.highest i;
  max_polyphony = byte_round c.max_polyphony v.polyphony i;
  max_fret = byte_round c.max_fret v.fret i;
  velocity_mode = velocity_round c.velocity_mode v.velocity i;
  fixed_velocity = byte_round c.fixed_velocity v.fixed i;
  midi_channel = byte_round c.midi_channel v.channel i;
  dry_passthrough = flag_round c.dry_passthrough i;
}

-- Undisturbed, at an even sequence: a publication is taken exactly if its generation is newer; a
-- snapshot, with one attempt or more, then gives the published configuration and generation, and
-- after a refusal what it gave before.
pub snapshot-publish :
    (c : PersistentConfig) (generation attempts : ℕ) (r : AtomicConfigRequest)
    → IsConfig c
    → r.sequence % 2 ≡ 0
    → let (ok, r') = publish c generation r in
      (ok ≡ generation_newer generation r.generation)
      × (snapshot (suc attempts) r' ≡ (
          if ok
          then some (record { config = c; generation = generation })
          else snapshot (suc attempts) r))
unfolding publish snapshot
snapshot-publish c generation attempts r v even = ground (arith, load-store_fields c v)

-- The two copies together carry over the whole configuration, in either order.
pub copy_configs :
    (destination source : PersistentConfig)
    → (copy_runtime_config (copy_structural_config destination source) source ≡ source)
      × (copy_structural_config (copy_runtime_config destination source) source ≡ source)
unfolding copy_structural_config copy_runtime_config
copy_configs destination source = (refl, refl)
