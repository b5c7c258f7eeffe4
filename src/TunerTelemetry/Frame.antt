-- ===== src/TunerTelemetry/Frame.antt =====
-- A whole frame, published and read.
use polyphonic_audio_to_midi.Prelude.{
  ℕ, ◌+◌, ◌*◌, ◌/◌, ◌%◌, ◌^◌, ◌≤◌, ◌<◌, ◌≡◌, refl, Bool, true, false, not, ◌||◌, ltb, ◌==◌, arith,
  if_elim,
}
use polyphonic_audio_to_midi.Types.{max_voices}
use polyphonic_audio_to_midi.TunerTelemetry.{
  TunerFrameState, unavailable, no_signal, frame_tracking, frame_state_value, frame_state_of,
  default_voice, TunerSnapshot, TunerTelemetry, at_most, clamp, pack_header, unpack_frame_state,
  unpack_max_polyphony, unpack_voice, pack_voice_a, pack_voice_b, pack_voice_c, with_bit, words_of,
  publish, read_latest,
}
use polyphonic_audio_to_midi.TunerTelemetry.Voice.{
  IsTunerVoice, unpack_voice-pack_voice, at_most-id,
}

-- A snapshot within the ranges that the transport keeps.
pub record IsTunerSnapshot (s : TunerSnapshot) : Type 0 where
  pub count_fits : s.voice_count ≤ max_voices
  pub polyphony_low : 1 ≤ s.max_polyphony
  pub polyphony_high : s.max_polyphony ≤ max_voices
  pub voices_fit : (i : ℕ) → i < s.voice_count → IsTunerVoice (s.voices i)

-- A transport between two publications, whose counter does not turn over at the next.
pub record IsIdle (t : TunerTelemetry) : Type 0 where
  pub even : t.sequence % 2 ≡ 0
  pub room : t.sequence + 2 < 2 ^ 32
  pub peak_fits : t.input_peak_q15 ≤ 32767

header-parts :
    (polyphony state count : ℕ)
    → state ≤ 2
    → count ≤ 8
    → let w = polyphony * 2 ^ 16 + state * 2 ^ 8 + count in
      (w / 2 ^ 16 ≡ polyphony) × (w / 2 ^ 8 % 2 ^ 8 ≡ state) × (w % 2 ^ 4 ≡ count)
header-parts polyphony state count p q = (omega arith, omega arith, omega arith)

frame_state-round :
    (s : TunerFrameState)
    → (at_most 2 (frame_state_value s) ≤ 2) × (frame_state_of (at_most 2 (frame_state_value s)) ≡ s)
unfolding frame_state_of
frame_state-round unavailable = (ground arith, refl)
frame_state-round no_signal = (ground arith, refl)
frame_state-round frame_tracking = (ground arith, refl)

clamp-id : (low high n : ℕ) → low ≤ n → n ≤ high → clamp low high n ≡ n
clamp-id low high n p q = ground arith

pack_header-parts :
    (s : TunerSnapshot)
    → IsTunerSnapshot s
    → let w = pack_header s.state (at_most max_voices s.voice_count) s.max_polyphony in
      (unpack_max_polyphony w ≡ s.max_polyphony)
      × (unpack_frame_state w ≡ s.state)
      × (at_most max_voices (w % 2 ^ 4) ≡ s.voice_count)
unfolding pack_header unpack_max_polyphony unpack_frame_state
pack_header-parts s h =
    let c = at_most-id max_voices s.voice_count h.count_fits in
    let (p, q, r) =
      header-parts s.max_polyphony (at_most 2 (frame_state_value s.state)) s.voice_count
        (frame_state-round s.state).0 h.count_fits in
    let m = clamp-id 1 max_voices s.max_polyphony h.polyphony_low h.polyphony_high in
    rw (m, c, c) (rw (p, q, r) (m, (frame_state-round s.state).1, c))

ltb-true : (a b : ℕ) → a < b → ltb a b ≡ true
ltb-true a b h = ground arith

ltb-false : (a b : ℕ) → b ≤ a → ltb a b ≡ false
ltb-false a b h = ground arith

publish-sequence :
    (n : ℕ)
    → n % 2 ≡ 0
    → n + 2 < 2 ^ 32
    → (not ((with_bit n + 1) % 2 ^ 32 % 2 == 0) || (with_bit n + 1) % 2 ^ 32 == 0) ≡ false
publish-sequence n e r = ground arith

voices-round :
    (s : TunerSnapshot) (t : TunerTelemetry) (i : ℕ)
    → IsTunerSnapshot s
    → i < s.voice_count
    → unpack_voice
        (words_of pack_voice_a s.voice_count s t.voice_words_a i)
        (words_of pack_voice_b s.voice_count s t.voice_words_b i)
        (words_of pack_voice_c s.voice_count s t.voice_words_c i)
      ≡ s.voices i
voices-round s t i h lt =
    rw (ltb-true i max_voices (ground (arith, lt, h.count_fits)), ltb-true i s.voice_count lt)
      (unpack_voice-pack_voice (s.voices i) (h.voices_fit i lt))

-- What a reader is to see of a published snapshot.
pub record Shows (s : TunerSnapshot) (t : TunerTelemetry) (seen : TunerSnapshot) : Type 0 where
  pub same_generation : seen.generation ≡ (t.generation + 1) % 2 ^ 32
  pub same_state : seen.state ≡ s.state
  pub same_count : seen.voice_count ≡ s.voice_count
  pub same_polyphony : seen.max_polyphony ≡ s.max_polyphony
  pub same_peak : seen.input_peak_q15 ≡ t.input_peak_q15
  pub same_voices : (i : ℕ) → i < s.voice_count → seen.voices i ≡ s.voices i
  pub no_others : (i : ℕ) → s.voice_count ≤ i → seen.voices i ≡ default_voice

-- A snapshot within the transport's ranges, published into an idle transport whose counter does
-- not turn over, is read back at once: the reader sees its state, count, polyphony and voices, and
-- no other voice; the generation is the transport's next, and the peak the one measured last.
pub read_latest-publish :
    (s : TunerSnapshot) (t : TunerTelemetry) (old : TunerSnapshot)
    → IsTunerSnapshot s
    → IsIdle t
    → ((read_latest (publish s t) old).0 ≡ true) × Shows s t (read_latest (publish s t) old).1
unfolding read_latest publish
read_latest-publish s t old h idle =
    let (polyphony, state, count) = pack_header-parts s h in
    let c = at_most-id max_voices s.voice_count h.count_fits in
    if_elim (λ (r : Bool × TunerSnapshot). (r.0 ≡ true) × Shows s t r.1) _ (false, old) _
      (λ k. ground (arith, k, publish-sequence t.sequence idle.even idle.room))
      (λ _. (
        refl,
        record {
          same_generation = refl;
          same_state = state;
          same_count = count;
          same_polyphony = polyphony;
          same_peak = at_most-id 32767 t.input_peak_q15 idle.peak_fits;
          same_voices =
              λ i lt. rw (count, ltb-true i s.voice_count lt) (rw c (voices-round s t i h lt));
          no_others = λ i le. rw (count, ltb-false i s.voice_count le) refl;
        },
      ))
