-- ===== src/TunerTelemetry.antt =====
-- native/src/tuner_telemetry.cpp and native/include/m3/tuner_telemetry.hpp: the transport of tuner
-- frames from the audio thread to the editor, each call run undisturbed. The arrays of words are
-- functions of the index. The bits that `|` joins do not overlap, so they are added; cents_q8 is the
-- 16-bit pattern of the signed number.
pub mod Voice
pub mod Frame
use polyphonic_audio_to_midi.Prelude.{
  ℕ, zero, suc, ◌+◌, ◌*◌, ◌/◌, ◌%◌, ◌^◌, ◌≤◌, ◌<◌, ◌≡◌, Bool, true, false, not, ◌&&◌, ◌||◌, ltb,
  leb, ◌==◌, if◌then◌else◌,
}
use polyphonic_audio_to_midi.Types.{max_voices, max_candidates}
use polyphonic_audio_to_midi.Double.{is_finite, less}

pub data TunerFrameState : Type 0 where
  unavailable no_signal frame_tracking : TunerFrameState

pub data TunerVoiceState : Type 0 where
  settling coasting tracking : TunerVoiceState

abbrev pub frame_state_value : TunerFrameState → ℕ
frame_state_value unavailable = 0
frame_state_value no_signal = 1
frame_state_value frame_tracking = 2

abbrev pub voice_state_value : TunerVoiceState → ℕ
voice_state_value settling = 0
voice_state_value coasting = 1
voice_state_value tracking = 2

abbrev pub unassigned_tuner_string : ℕ
unassigned_tuner_string = 255

pub record TunerVoice : Type 0 where
  pub midi_note : ℕ
  pub cents_q8 : ℕ
  pub confidence_q15 : ℕ
  pub age_ticks : ℕ
  pub state : TunerVoiceState
  pub cents_valid : Bool
  pub string_index : ℕ
  pub pitch_evidence_group_id : ℕ
  pub pitch_evidence_member_mask : ℕ
  pub beat_hz_q8 : ℕ

abbrev pub default_voice : TunerVoice
default_voice = record {
  midi_note = 0;
  cents_q8 = 0;
  confidence_q15 = 0;
  age_ticks = 0;
  state = settling;
  cents_valid = false;
  string_index = unassigned_tuner_string;
  pitch_evidence_group_id = 0;
  pitch_evidence_member_mask = 0;
  beat_hz_q8 = 0;
}

pub record TunerSnapshot : Type 0 where
  pub generation : ℕ
  pub state : TunerFrameState
  pub voice_count : ℕ
  pub max_polyphony : ℕ
  pub input_peak_q15 : ℕ
  pub voices : ℕ → TunerVoice

pub record TunerTelemetry : Type 0 where
  pub sequence : ℕ
  pub generation : ℕ
  pub header : ℕ
  pub input_peak_q15 : ℕ
  pub voice_words_a : ℕ → ℕ
  pub voice_words_b : ℕ → ℕ
  pub voice_words_c : ℕ → ℕ

abbrev pub at_most : ℕ → ℕ → ℕ
at_most high n = if leb n high then n else high

abbrev pub clamp : ℕ → ℕ → ℕ → ℕ
clamp low high n = if ltb n low then low else at_most high n

abbrev pub bit : ℕ → Bool → ℕ
bit n b = if b then 2 ^ n else 0

unfoldable pub pack_header : TunerFrameState → ℕ → ℕ → ℕ
pack_header state voice_count max_polyphony =
    clamp 1 max_voices max_polyphony * 2 ^ 16
    + at_most 2 (frame_state_value state) * 2 ^ 8
    + at_most max_voices voice_count

unfoldable pub frame_state_of : ℕ → TunerFrameState
frame_state_of n = if n == 1 then no_signal else if n == 2 then frame_tracking else unavailable

unfoldable pub unpack_frame_state : ℕ → TunerFrameState
unfolding frame_state_of
unpack_frame_state header = frame_state_of (header / 2 ^ 8 % 2 ^ 8)

unfoldable pub unpack_max_polyphony : ℕ → ℕ
unpack_max_polyphony header = clamp 1 max_voices (header / 2 ^ 16)

-- `clamp` to [-50 * 256, 50 * 256] on the patterns.
abbrev pub clamp_cents : ℕ → ℕ
clamp_cents n = if ltb n (2 ^ 15) then at_most 12800 n else if ltb n 52736 then 52736 else n

unfoldable pub pack_voice_a : TunerVoice → ℕ
pack_voice_a voice =
    let string_valid = ltb voice.string_index max_voices in
    at_most 127 voice.midi_note
    + at_most 2 (voice_state_value voice.state) * 2 ^ 8
    + bit 10 voice.cents_valid
    + bit 11 string_valid
    + (if string_valid then voice.string_index * 2 ^ 12 else 0)
    + clamp_cents voice.cents_q8 * 2 ^ 16

unfoldable pub pack_voice_b : TunerVoice → ℕ
pack_voice_b voice = at_most 32767 voice.confidence_q15 + voice.age_ticks * 2 ^ 16

unfoldable pub pack_voice_c : TunerVoice → ℕ
pack_voice_c voice =
    let group_valid =
      not (voice.pitch_evidence_group_id == 0)
      && leb voice.pitch_evidence_group_id max_candidates in
    (if group_valid then voice.pitch_evidence_group_id else 0)
    + (if group_valid then voice.pitch_evidence_member_mask else 0) * 2 ^ 8
    + voice.beat_hz_q8 * 2 ^ 16

unfoldable pub voice_state_of : ℕ → TunerVoiceState
voice_state_of n = if n == 1 then coasting else if n == 2 then tracking else settling

unfoldable pub unpack_voice : ℕ → ℕ → ℕ → TunerVoice
unfolding voice_state_of
unpack_voice word_a word_b word_c = record {
  midi_note = word_a % 2 ^ 8;
  cents_q8 = word_a / 2 ^ 16;
  confidence_q15 = word_b % 2 ^ 16;
  age_ticks = word_b / 2 ^ 16;
  state = voice_state_of (word_a / 2 ^ 8 % 2 ^ 2);
  cents_valid = word_a / 2 ^ 10 % 2 == 1;
  string_index =
      if word_a / 2 ^ 11 % 2 == 1 then word_a / 2 ^ 12 % 2 ^ 3 else unassigned_tuner_string;
  pitch_evidence_group_id = word_c % 2 ^ 8;
  pitch_evidence_member_mask = word_c / 2 ^ 8 % 2 ^ 8;
  beat_hz_q8 = word_c / 2 ^ 16;
}

-- `before | 1U`
abbrev pub with_bit : ℕ → ℕ
with_bit n = if n % 2 == 0 then n + 1 else n

abbrev pub padded : ℕ → TunerSnapshot → ℕ → TunerVoice
padded count snapshot index = if ltb index count then snapshot.voices index else default_voice

abbrev pub words_of : (TunerVoice → ℕ) → ℕ → TunerSnapshot → (ℕ → ℕ) → ℕ → ℕ
words_of pack count snapshot words index =
    if ltb index max_voices then pack (padded count snapshot index) else words index

unfoldable pub publish : TunerSnapshot → TunerTelemetry → TunerTelemetry
unfolding pack_header pack_voice_a pack_voice_b pack_voice_c
publish snapshot t =
    let count = at_most max_voices snapshot.voice_count in
    record {
      sequence = (with_bit t.sequence + 1) % 2 ^ 32;
      generation = (t.generation + 1) % 2 ^ 32;
      header = pack_header snapshot.state count snapshot.max_polyphony;
      input_peak_q15 = t.input_peak_q15;
      voice_words_a = words_of pack_voice_a count snapshot t.voice_words_a;
      voice_words_b = words_of pack_voice_b count snapshot t.voice_words_b;
      voice_words_c = words_of pack_voice_c count snapshot t.voice_words_c;
    }

-- One attempt of `read_latest`; undisturbed, the others see the same.
unfoldable pub read_latest : TunerTelemetry → TunerSnapshot → Bool × TunerSnapshot
unfolding unpack_voice unpack_frame_state unpack_max_polyphony
read_latest t snapshot =
    if not (t.sequence % 2 == 0) || t.sequence == 0 then (false, snapshot) else (
      true,
      record {
        generation = t.generation;
        state = unpack_frame_state t.header;
        voice_count = at_most max_voices (t.header % 2 ^ 4);
        max_polyphony = unpack_max_polyphony t.header;
        input_peak_q15 = at_most 32767 t.input_peak_q15;
        voices = λ index.
            if ltb index (at_most max_voices (t.header % 2 ^ 4))
            then unpack_voice (t.voice_words_a index) (t.voice_words_b index)
                (t.voice_words_c index)
            else default_voice;
      },
    )

-- The level in [0, 1]; one and zero are doubles.
abbrev pub bounded_peak : ℕ → ℕ
bounded_peak peak =
    if not (is_finite peak)
    then 0
    else if less peak 0
    then 0
    else if less (1023 * 2 ^ 52) peak
    then 1023 * 2 ^ 52
    else peak

-- `to_q15` is the product with 32767 and its rounding, `std::lround`, on doubles.
module _ (to_q15 : ℕ → ℕ) where
  unfoldable pub publish_input_peak : ℕ → TunerTelemetry → TunerTelemetry
  publish_input_peak peak t =
      let encoded = to_q15 (bounded_peak peak) in
      if t.input_peak_q15 == encoded then t else record t {
        sequence = (with_bit t.sequence + 1) % 2 ^ 32;
        generation = (t.generation + 1) % 2 ^ 32;
        input_peak_q15 = encoded;
      }

  -- `clear`: an empty snapshot in the given state, with the initial values of its fields.
  unfoldable pub clear : TunerFrameState → TunerTelemetry → TunerTelemetry
  unfolding publish publish_input_peak
  clear state t = publish_input_peak 0 (
      publish
        (record {
          generation = 0;
          state = state;
          voice_count = 0;
          max_polyphony = 1;
          input_peak_q15 = 0;
          voices = λ _. default_voice;
        })
        t)
