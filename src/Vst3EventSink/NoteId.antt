-- ===== src/Vst3EventSink/NoteId.antt =====
-- The identifiers by which the host pairs the start of a note with its end.
use mathlib.Core.Logic.{◌↔◌}
use polyphonic_audio_to_midi.Prelude.{ℕ, ◌+◌, ◌*◌, ◌≤◌, ◌<◌, ◌≡◌, true, ltb, if◌then◌else◌, arith}
use polyphonic_audio_to_midi.Types.{VoiceTransition, max_voices}
use polyphonic_audio_to_midi.Vst3EventSink.{can_push, note_identity}

identity_value :
    (t : VoiceTransition)
    → note_identity t ≡ (if ltb t.voice_id max_voices then t.voice_id else 0) * 128 + t.note
unfolding note_identity
identity_value t = ground arith

with_lane :
    (t : VoiceTransition) → t.voice_id < max_voices → note_identity t ≡ t.voice_id * 128 + t.note
with_lane t h = ground (arith, h, identity_value t)

without_lane : (t : VoiceTransition) → max_voices ≤ t.voice_id → note_identity t ≡ t.note
without_lane t h = ground (arith, h, identity_value t)

can_push-note : (t : VoiceTransition) (c : ℕ) → can_push t c ≡ true → t.note ≤ 127
unfolding can_push
can_push-note t c h = ground arith

-- Of two transitions that are sent: if both are on a lane, their identifiers are equal exactly if note
-- and lane are; if neither is, exactly if the notes are; and one on a lane shares its identifier
-- with one on none exactly if the notes are equal and the lane is the first.
pub note_identity_lem :
    (t u : VoiceTransition) (c d : ℕ)
    → can_push t c ≡ true
    → can_push u d ≡ true
    → (t.voice_id < max_voices
        → u.voice_id < max_voices
        → (note_identity t ≡ note_identity u) ↔ ((t.note ≡ u.note) × (t.voice_id ≡ u.voice_id)))
      × (max_voices ≤ t.voice_id
          → max_voices ≤ u.voice_id
          → (note_identity t ≡ note_identity u) ↔ (t.note ≡ u.note))
      × (t.voice_id < max_voices
          → max_voices ≤ u.voice_id
          → (note_identity t ≡ note_identity u) ↔ ((t.note ≡ u.note) × (t.voice_id ≡ 0)))
note_identity_lem t u c d p q =
    let nt = can_push-note t c p in
    let nu = can_push-note u d q in
    (
      λ h k. (
        λ e. omega (arith, e, with_lane t h, with_lane u k, nt, nu),
        λ (n, l). omega (arith, n, l, with_lane t h, with_lane u k),
      ),
      λ h k. (
        λ e. omega (arith, e, without_lane t h, without_lane u k),
        λ n. omega (arith, n, without_lane t h, without_lane u k),
      ),
      λ h k. (
        λ e. omega (arith, e, with_lane t h, without_lane u k, nt, nu),
        λ (n, l). omega (arith, n, l, with_lane t h, without_lane u k),
      ),
    )
