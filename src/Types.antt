-- ===== src/Types.antt =====
-- native/include/m3/constants.hpp and types.hpp: the limits, the enumerations and the plain records
-- that the components exchange. `unnamed` stands for a value of the underlying integer type that no
-- enumerator names; the code tests for it.
use polyphonic_audio_to_midi.Prelude.{ℕ, Bool, true, false}
use polyphonic_audio_to_midi.Double.{Double}

abbrev pub decision_quantum : ℕ
decision_quantum = 64

abbrev pub max_host_frames : ℕ
max_host_frames = 16384

abbrev pub max_voices : ℕ
max_voices = 8

abbrev pub max_candidates : ℕ
max_candidates = 87

abbrev pub max_tick_transitions : ℕ
max_tick_transitions = 16

abbrev pub unassigned_voice_id : ℕ
unassigned_voice_id = 0xff

pub data MidiRouting : Type 0 where
  single per_voice : MidiRouting
  unnamed : ℕ → MidiRouting

pub data TransitionKind : Type 0 where
  note_off note_on : TransitionKind
  unnamed : ℕ → TransitionKind

abbrev pub is_single : MidiRouting → Bool
is_single MidiRouting.single = true
is_single MidiRouting.per_voice = false
is_single (MidiRouting.unnamed n) = false

abbrev pub is_per_voice : MidiRouting → Bool
is_per_voice MidiRouting.single = false
is_per_voice MidiRouting.per_voice = true
is_per_voice (MidiRouting.unnamed n) = false

abbrev pub is_note_off : TransitionKind → Bool
is_note_off TransitionKind.note_off = true
is_note_off TransitionKind.note_on = false
is_note_off (TransitionKind.unnamed n) = false

abbrev pub is_note_on : TransitionKind → Bool
is_note_on TransitionKind.note_off = false
is_note_on TransitionKind.note_on = true
is_note_on (TransitionKind.unnamed n) = false

-- The integer behind the enumerator.
abbrev pub kind_value : TransitionKind → ℕ
kind_value TransitionKind.note_off = 0
kind_value TransitionKind.note_on = 1
kind_value (TransitionKind.unnamed n) = n

pub record VoiceTransition : Type 0 where
  pub sample_offset : ℕ
  pub kind : TransitionKind
  pub note : ℕ
  pub velocity : ℕ
  pub sequence : ℕ
  pub voice_id : ℕ

pub data ProfileMode : Type 0 where
  m3 general : ProfileMode
  unnamed : ℕ → ProfileMode

pub data VelocityMode : Type 0 where
  fixed dynamic : VelocityMode
  unnamed : ℕ → VelocityMode

pub data Status : Type 0 where
  ready panic_hold reconfiguring midi_output_blocked invalid_input_or_state unsupported_layout :
      Status

abbrev pub status_value : Status → ℕ
status_value ready = 0
status_value panic_hold = 1
status_value reconfiguring = 2
status_value midi_output_blocked = 3
status_value invalid_input_or_state = 4
status_value unsupported_layout = 5

pub record PersistentConfig : Type 0 where
  pub midi_routing : MidiRouting
  pub profile_mode : ProfileMode
  pub a4_hz : Double
  pub input_trim_db : Double
  pub sensitivity : ℕ
  pub response : ℕ
  pub lowest_note : ℕ
  pub highest_note : ℕ
  pub max_polyphony : ℕ
  pub max_fret : ℕ
  pub velocity_mode : VelocityMode
  pub fixed_velocity : ℕ
  pub midi_channel : ℕ
  pub dry_passthrough : Bool

-- `PersistentConfig{}`; 440.0 and 0.0 by their bits.
abbrev pub default_config : PersistentConfig
default_config = record {
  midi_routing = MidiRouting.single;
  profile_mode = ProfileMode.m3;
  a4_hz = 0x407b800000000000;
  input_trim_db = 0;
  sensitivity = 50;
  response = 25;
  lowest_note = 32;
  highest_note = 84;
  max_polyphony = 8;
  max_fret = 24;
  velocity_mode = VelocityMode.dynamic;
  fixed_velocity = 100;
  midi_channel = 1;
  dry_passthrough = true;
}
