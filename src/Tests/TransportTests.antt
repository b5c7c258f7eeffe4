-- ===== src/Tests/TransportTests.antt =====
-- The theorems on the tuner transport and on the state streams.
use mathlib.Core.Path.{subst}
use polyphonic_audio_to_midi.Prelude.{
  ℕ, ◌≤◌, ◌≡◌, refl, ap, inl, inr, true, List, [], ◌∷◌, ◌++◌, none, some, arith, length, take,
}
use polyphonic_audio_to_midi.TunerTelemetry
use polyphonic_audio_to_midi.TunerTelemetry.{
  TunerVoice, TunerVoiceState, TunerSnapshot, TunerTelemetry, tracking, frame_tracking,
  default_voice, unpack_voice, pack_voice_a, pack_voice_b, pack_voice_c, read_latest,
}
use polyphonic_audio_to_midi.TunerTelemetry.Voice.{IsTunerVoice, unpack_voice-pack_voice}
use polyphonic_audio_to_midi.TunerTelemetry.Frame.{Shows, read_latest-publish}
use polyphonic_audio_to_midi.StateStream.{Stream, Codec, bytes_of, save_state, load_state}
use polyphonic_audio_to_midi.StateStream.RoundTrip.{IsStream, IsCodec, load_state-save_state}

-- A string a quarter tone flat, half a cent more.
abbrev voice : TunerVoice
voice = record {
  midi_note = 64;
  cents_q8 = 52736;
  confidence_q15 = 30000;
  age_ticks = 12;
  state = tracking;
  cents_valid = true;
  string_index = 5;
  pitch_evidence_group_id = 3;
  pitch_evidence_member_mask = 36;
  beat_hz_q8 = 512;
}

voice-IsTunerVoice : IsTunerVoice voice
voice-IsTunerVoice = record {
  note_fits = omega arith;
  cents_fit = inr (omega arith, omega arith);
  confidence_fits = omega arith;
  age_fits = omega arith;
  string_fits = inl (omega arith);
  group_fits = inl (omega arith, omega arith);
  mask_fits = omega arith;
  beat_fits = omega arith;
}

unpack_voice-pack_voice_example :
    unpack_voice (pack_voice_a voice) (pack_voice_b voice) (pack_voice_c voice) ≡ voice
unpack_voice-pack_voice_example = unpack_voice-pack_voice voice voice-IsTunerVoice

abbrev frame : TunerSnapshot
frame = record {
  generation = 0;
  state = frame_tracking;
  voice_count = 2;
  max_polyphony = 6;
  input_peak_q15 = 0;
  voices = λ _. voice;
}

abbrev transport : TunerTelemetry
transport = record {
  sequence = 4;
  generation = 9;
  header = 0;
  input_peak_q15 = 1000;
  voice_words_a = λ _. 0;
  voice_words_b = λ _. 0;
  voice_words_c = λ _. 0;
}

read_latest-publish_example :
    ((read_latest (TunerTelemetry.publish frame transport) frame).0 ≡ true)
    × Shows frame transport (read_latest (TunerTelemetry.publish frame transport) frame).1
read_latest-publish_example =
    read_latest-publish frame transport frame
      (record {
        count_fits = omega arith;
        polyphony_low = omega arith;
        polyphony_high = omega arith;
        voices_fit = λ i lt. voice-IsTunerVoice;
      })
      (record { even = refl; room = omega arith; peak_fits = omega arith })

-- A stream in memory that moves one byte at a time.
abbrev rest_of : List ℕ → List ℕ
rest_of [] = []
rest_of (x ∷ xs) = xs

abbrev pub memory : Stream (List ℕ)
memory = record {
  write = λ s bytes. (1, s ++ take 1 bytes);
  read = λ s n. (some (take 1 s), rest_of s);
}

at_most_one : (s : List ℕ) (n : ℕ) → 1 ≤ n → length (take 1 s) ≤ n
at_most_one [] n h = omega arith
at_most_one (x ∷ s) n h = h

parts : (s : List ℕ) → take 1 s ++ rest_of s ≡ s
parts [] = refl
parts (x ∷ s) = refl

empty : (s : List ℕ) → length (take 1 s) ≡ 0 → s ≡ []
empty [] h = refl
empty (x ∷ s) h = ground arith

pub memory-IsStream : IsStream memory (λ s. s) (λ s. s)
memory-IsStream = record {
  writes = λ s bytes h. (omega arith, h, refl);
  reads = λ s n h. (take 1 s, refl, at_most_one s n h, parts s, empty s);
}

abbrev byte_codec : Codec ℕ
byte_codec = record {
  size = 2;
  encode = λ n. some (n ∷ 77 ∷ []);
  decode = λ bytes. elim bytes [ [] ↦ none | (x ∷ xs) ↦ some x ];
}

byte_codec-IsCodec : IsCodec byte_codec (λ n. Unit)
byte_codec-IsCodec = record {
  sizes = λ c image h e. subst (λ l. length l ≡ 2) (ap bytes_of e) refl;
  decodes = λ c image h e. subst (λ l. byte_codec.decode l ≡ some c) (ap bytes_of e) refl;
}

load_state-save_state_example :
    ((save_state memory byte_codec 5 []).0 ≡ true)
    × ((save_state memory byte_codec 5 []).1 ≡ 5 ∷ 77 ∷ [])
    × ((load_state memory byte_codec (save_state memory byte_codec 5 []).1).0 ≡ some 5)
load_state-save_state_example =
    load_state-save_state memory (λ s. s) (λ s. s) byte_codec (λ n. Unit) 5 (5 ∷ 77 ∷ []) []
      (save_state memory byte_codec 5 []).1 memory-IsStream byte_codec-IsCodec tt refl refl refl
