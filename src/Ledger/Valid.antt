-- ===== src/Ledger/Valid.antt =====
-- Every call of the ledger keeps its invariant.
use polyphonic_audio_to_midi.Prelude.{
  ℕ, ◌≤◌, ◌<◌, ◌≡◌, inl, inr, Bool, true, false, refl, arith, length, All-get_or, ◌∙◌,
}
use polyphonic_audio_to_midi.Types.{VoiceTransition, MidiRouting, max_voices}
use polyphonic_audio_to_midi.Double.{Double}
use polyphonic_audio_to_midi.Ledger.{Ledger, ActiveVoice, free_voice, in_use, valid_transition}
use polyphonic_audio_to_midi.Ledger.Delivery.{NoteEventSink, voice_at, push, deliver}
use polyphonic_audio_to_midi.Ledger.Invariant.{
  IsValid, IsVoiceId, VoiceOk, QueuedOk, enter_blocked-IsValid, clear_voice-IsValid,
  mark_pending-IsValid, start_voice-IsValid, voice_at-enter_blocked,
}
use polyphonic_audio_to_midi.Ledger.Rule.{Keeps, push-ledger}
use polyphonic_audio_to_midi.Ledger.Calls.{deliver-Keeps}

-- A voice in use is active.
pub in_use-active :
    {l : Ledger} (slot : ℕ)
    → IsValid l
    → slot < max_voices
    → in_use (voice_at l slot) ≡ true
    → (voice_at l slot).active ≡ true
in_use-active {l} slot v h u =
    let ok = All-get_or VoiceOk l.voices slot free_voice v.voices_ok (omega (arith, v.size)) in
    ground (arith, ok.pending_active)

pub valid_transition-note :
    (t : VoiceTransition) → QueuedOk t → (t.note ≤ 127) × IsVoiceId t.voice_id
unfolding valid_transition
valid_transition-note t q = ground arith

module _ {C : Type 0} (sink : NoteEventSink C) where
  pub push-IsValid :
      (t : VoiceTransition) (channel : ℕ) (c : C) {l : Ledger}
      → IsValid l
      → IsValid (push sink t channel c l).2
  push-IsValid t channel c {l} v = elim (push-ledger sink t channel c l) [
    | inl e ↦ rw e v
    | inr e ↦ rw e (enter_blocked-IsValid v)
  ]

  -- A push leaves every voice's fields but the mark of a pending release.
  pub push-voice_at :
      (t : VoiceTransition) (channel slot : ℕ) (c : C) (l : Ledger)
      → slot < length l.voices
      → ((voice_at (push sink t channel c l).2 slot).active ≡ (voice_at l slot).active)
        × ((voice_at (push sink t channel c l).2 slot).note ≡ (voice_at l slot).note)
        × ((voice_at (push sink t channel c l).2 slot).channel ≡ (voice_at l slot).channel)
        × ((voice_at (push sink t channel c l).2 slot).voice_id ≡ (voice_at l slot).voice_id)
  push-voice_at t channel slot c l h = elim (push-ledger sink t channel c l) [
    | inl e ↦ rw e (refl, refl, refl, refl)
    | inr e ↦ rw (e, voice_at-enter_blocked l slot h) (refl, refl, refl, refl)
  ]

  pub IsValid-Keeps : Keeps sink (λ c l. IsValid l)
  IsValid-Keeps = record {
    sized = λ c l v. v.size;
    queued = λ c l v. v.queue_ok;
    flags = λ c l i b cc p r h v. record {
      size = v.size;
      counted = v.counted;
      voices_ok = v.voices_ok;
      queue_fits = v.queue_fits;
      queue_ok = v.queue_ok;
    };
    blocks = λ c l v. enter_blocked-IsValid v;
    refuses = λ t channel c l v no_. push-IsValid t channel c v;
    marks = λ slot c l v h u. mark_pending-IsValid slot v h (in_use-active slot v h u);
    ends = λ t slot c l v h off e ok.
        clear_voice-IsValid slot (push-IsValid t (voice_at l slot).channel c v) h (
          (push-voice_at t (voice_at l slot).channel slot c l (omega (arith, v.size))).0
          ∙ in_use-active slot v h e.used);
    starts = λ t slot channel c l v h free q on id range ok.
        start_voice-IsValid slot t channel (push-IsValid t channel c v) h
          ((push-voice_at t channel slot c l (omega (arith, v.size))).0
            ∙ idle_voice (voice_at l slot) free)
          (valid_transition-note t q).0 (valid_transition-note t q).1 range.0 range.1;
  }
    where
      idle_voice : (v : ActiveVoice) → in_use v ≡ false → v.active ≡ false
      idle_voice v e = ground arith

  -- Whatever the sink answers, and whatever it reports while it runs, `deliver` keeps the invariant
  -- of the ledger: eight voices, an exact count of the active ones, releases pending for active
  -- voices only, notes and channels in the MIDI range, a queue within the storage.
  pub deliver-IsValid :
      (frames : ℕ) (peak : Double) (finite_input supported_layout : Bool) (routing : MidiRouting)
      (start_channel : ℕ) (c : C) {l : Ledger}
      → IsValid l
      → let (r, c', l') =
          deliver sink frames peak finite_input supported_layout routing start_channel c l in
        IsValid l'
  deliver-IsValid frames peak finite_input supported_layout routing start_channel c {l} v =
      deliver-Keeps IsValid-Keeps frames peak finite_input supported_layout routing start_channel c
        l v
