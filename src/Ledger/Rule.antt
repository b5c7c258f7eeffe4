-- ===== src/Ledger/Rule.antt =====
-- The rule for the calls that push: a property of the sink's context and the ledger that the
-- updates of single voices keep is kept by every call, whatever the sink answers.
use polyphonic_audio_to_midi.Prelude.{
  ℕ, ◌≤◌, ◌<◌, ◌≡◌, ◌⊎◌, inl, inr, Bool, true, false, not, arith, length, All, find_index_hit,
}
use polyphonic_audio_to_midi.Types.{VoiceTransition, is_note_off, max_voices}
use polyphonic_audio_to_midi.Ledger.{
  Ledger, ActiveVoice, free_voice, enter_blocked, in_use, valid_transition, find_voice,
  find_free_voice, holds,
}
use polyphonic_audio_to_midi.Ledger.Delivery.{
  NoteEventSink, voice_at, clear_voice, mark_pending, start_voice, push, identity_in_use,
}
use polyphonic_audio_to_midi.Ledger.Invariant.{QueuedOk, voice_at-enter_blocked}

-- The voice is the one that a note-off of `t` ends.
pub record EndsVoice (t : VoiceTransition) (v : ActiveVoice) : Type 0 where
  pub used : in_use v ≡ true
  pub same_note : v.note ≡ t.note
  pub same_id : v.voice_id ≡ t.voice_id

-- The flags and the counter that say what the ledger may deliver.
abbrev pub with_flags : Bool → Bool → Bool → Bool → Bool → ℕ → Ledger → Ledger
with_flags invalid blocked complete hold recovery calls l = record l {
  invalid_transition = invalid;
  output_blocked = blocked;
  cleanup_complete = complete;
  panic_hold = hold;
  recovery_requested = recovery;
  hold_calls_remaining = calls;
}

pub record Keeps {C : Type 0} (sink : NoteEventSink C) (P : C → Ledger → Type 0) : Type 0 where
  pub sized : (c : C) (l : Ledger) → P c l → length l.voices ≡ max_voices
  pub queued : (c : C) (l : Ledger) → P c l → All QueuedOk l.queue
  pub flags :
      (c : C) (l : Ledger) (i b cc p r : Bool) (h : ℕ) → P c l → P c (with_flags i b cc p r h l)
  pub blocks : (c : C) (l : Ledger) → P c l → P c (enter_blocked l)
  pub refuses :
      (t : VoiceTransition) (channel : ℕ) (c : C) (l : Ledger)
      → P c l
      → (push sink t channel c l).0 ≡ false
      → P (push sink t channel c l).1 (push sink t channel c l).2
  pub marks :
      (slot : ℕ) (c : C) (l : Ledger)
      → P c l
      → slot < max_voices
      → in_use (voice_at l slot) ≡ true
      → P c (mark_pending slot l)
  pub ends :
      (t : VoiceTransition) (slot : ℕ) (c : C) (l : Ledger)
      → P c l
      → slot < max_voices
      → is_note_off t.kind ≡ true
      → EndsVoice t (voice_at l slot)
      → (push sink t (voice_at l slot).channel c l).0 ≡ true
      → P
          (push sink t (voice_at l slot).channel c l).1
          (clear_voice slot (push sink t (voice_at l slot).channel c l).2)
  pub starts :
      (t : VoiceTransition) (slot channel : ℕ) (c : C) (l : Ledger)
      → P c l
      → slot < max_voices
      → in_use (voice_at l slot) ≡ false
      → QueuedOk t
      → is_note_off t.kind ≡ false
      → identity_in_use l t ≡ false
      → (1 ≤ channel) × (channel ≤ 16)
      → (push sink t channel c l).0 ≡ true
      → P (push sink t channel c l).1 (start_voice slot t channel (push sink t channel c l).2)

-- A slot below the size is in use after a push if it was before.
pub push-ledger :
    {C : Type 0} (sink : NoteEventSink C) (t : VoiceTransition) (channel : ℕ) (c : C) (l : Ledger)
    → ((push sink t channel c l).2 ≡ l) ⊎ ((push sink t channel c l).2 ≡ enter_blocked l)
unfolding push
push-ledger sink t channel c l = ground arith

pub push-in_use :
    {C : Type 0} (sink : NoteEventSink C) (t : VoiceTransition) (channel slot : ℕ) (c : C)
    (l : Ledger)
    → slot < length l.voices
    → in_use (voice_at l slot) ≡ true
    → in_use (voice_at (push sink t channel c l).2 slot) ≡ true
push-in_use sink t channel slot c l h u = elim (push-ledger sink t channel c l) [
  | inl e ↦ rw e u
  | inr e ↦ rw (e, voice_at-enter_blocked l slot h) (ground arith)
]

-- What an accepted push says of the channel.
pub push-channel :
    {C : Type 0} (sink : NoteEventSink C) (t : VoiceTransition) (channel : ℕ) (c : C) (l : Ledger)
    → (push sink t channel c l).0 ≡ true
    → (1 ≤ channel) × (channel ≤ 16)
unfolding push
push-channel sink t channel c l h = ground arith

holds-EndsVoice :
    (t : VoiceTransition) (v : ActiveVoice) → QueuedOk t → holds t v ≡ true → EndsVoice t v
unfolding holds valid_transition
holds-EndsVoice t v q h = record {
  used = ground arith;
  same_note = ground arith;
  same_id = ground arith;
}

pub find_voice-EndsVoice :
    (l : Ledger) (t : VoiceTransition)
    → QueuedOk t
    → find_voice l t < length l.voices
    → EndsVoice t (voice_at l (find_voice l t))
unfolding find_voice
find_voice-EndsVoice l t q h =
    holds-EndsVoice t _ q (find_index_hit (holds t) l.voices free_voice h)

pub find_free_voice-free :
    (l : Ledger)
    → find_free_voice l < length l.voices
    → in_use (voice_at l (find_free_voice l)) ≡ false
unfolding find_free_voice
find_free_voice-free l h =
    ground (arith, find_index_hit (λ v. not (in_use v)) l.voices free_voice h)
