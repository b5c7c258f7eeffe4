-- ===== src/Vst3EventSink.antt =====
-- native/vst3/vst3_event_sink.cpp, push_vst3_note: the ledger's sink of the VST3 plug-in. The host's
-- `addEvent`, over the state of the host, is a parameter; a result that is OK or true is `true`.
pub mod NoteId
use polyphonic_audio_to_midi.Prelude.{
  ℕ, ◌+◌, ◌-◌, ◌*◌, ◌^◌, Bool, true, false, not, ◌&&◌, ◌||◌, Option, none, some, ltb, leb, ◌==◌,
  if◌then◌else◌,
}
use polyphonic_audio_to_midi.Types.{VoiceTransition, is_note_off, is_note_on, max_voices}

-- The event of a note, with the fields that depend on the transition: the velocity is over 127, and
-- `negated_id` is the note's identifier with its sign turned.
pub data Vst3Event : Type 0 where
  note_on_event note_off_event : (sample_offset channel pitch velocity negated_id : ℕ) → Vst3Event

unfoldable pub valid_velocity : VoiceTransition → Bool
valid_velocity t =
    is_note_on t.kind && ltb 0 t.velocity && leb t.velocity 127
    || is_note_off t.kind && t.velocity == 0

-- The conditions under which an event is made; 2^31 - 1 is the largest `int32`.
unfoldable pub can_push : VoiceTransition → ℕ → Bool
unfolding valid_velocity
can_push t channel = not (
    ltb channel 1
    || ltb 16 channel
    || ltb 127 t.note
    || not (valid_velocity t)
    || (not (is_note_on t.kind) && not (is_note_off t.kind))
    || ltb (2 ^ 31 - 1) t.sample_offset)

unfoldable pub note_identity : VoiceTransition → ℕ
note_identity t = if ltb t.voice_id max_voices then t.voice_id * 128 + t.note else t.note

unfoldable pub vst3_event : VoiceTransition → ℕ → Vst3Event
unfolding note_identity
vst3_event t channel =
    if is_note_on t.kind
    then note_on_event t.sample_offset (channel - 1) t.note t.velocity (1000 + note_identity t)
    else note_off_event t.sample_offset (channel - 1) t.note 0 (1000 + note_identity t)

module _ {H : Type 0} (add_event : Option (H → Vst3Event → Bool × H)) where
  -- `none` is a null context or list of events.
  unfoldable pub push_vst3_note : VoiceTransition → ℕ → H → Bool × H
  unfolding can_push vst3_event
  push_vst3_note t channel h = elim add_event [
    | none ↦ (false, h)
    | some add ↦ if can_push t channel then add h (vst3_event t channel) else (false, h)
  ]
