-- ===== src/Ledger/Identity.antt =====
-- No two active voices are the same note to the host: a lane sounds at most one note, and a note
-- without a lane sounds at most once.
use polyphonic_audio_to_midi.Prelude.{
  ℕ, ◌≤◌, ◌<◌, ◌≡◌, refl, inl, inr, Bool, true, false, ◌&&◌, ◌||◌, List, [], ◌∷◌, arith, ◌==◌, ltb,
  length, any, count_if, count_if-map, count_if-set, find_index,
}
use polyphonic_audio_to_midi.Types.{VoiceTransition, MidiRouting, max_voices}
use polyphonic_audio_to_midi.Double.{Double}
use polyphonic_audio_to_midi.Ledger.{
  Ledger, ActiveVoice, free_voice, mark_voice, enter_blocked, in_use, holds, find_voice,
  valid_transition,
}
use polyphonic_audio_to_midi.Ledger.Delivery.{
  NoteEventSink, voice_at, push, deliver, clear_voice, mark_pending, start_voice, identity_in_use,
}
use polyphonic_audio_to_midi.Ledger.Invariant.{IsValid, QueuedOk}
use polyphonic_audio_to_midi.Ledger.Rule.{Keeps, push-ledger}
use polyphonic_audio_to_midi.Ledger.Calls.{deliver-Keeps}
use polyphonic_audio_to_midi.Ledger.Valid.{IsValid-Keeps, push-IsValid}

-- The voice sounds under this identity: its lane, or its note if it has no lane.
abbrev pub sounds_as : ℕ → ℕ → ActiveVoice → Bool
sounds_as id n v = v.active && v.voice_id == id && (ltb id max_voices || v.note == n)

-- At most one active voice for each lane, and for each note without a lane.
abbrev pub IsDistinct : Ledger → Type 0
IsDistinct l = (id n : ℕ) → count_if (sounds_as id n) l.voices ≤ 1

enter_blocked-sounds :
    (id n : ℕ) (l : Ledger)
    → count_if (sounds_as id n) (enter_blocked l).voices ≡ count_if (sounds_as id n) l.voices
unfolding enter_blocked
enter_blocked-sounds id n l = count_if-map (sounds_as id n) mark_voice l.voices (λ v. refl)

-- A free identity is that of no active voice.
unused-none :
    (t : VoiceTransition) (vs : List ActiveVoice)
    → length vs ≤ find_index (holds t) vs
    → (ltb t.voice_id max_voices && any (λ v. in_use v && v.voice_id == t.voice_id) vs) ≡ false
    → QueuedOk t
    → count_if (sounds_as t.voice_id t.note) vs ≡ 0
unfolding holds valid_transition
unused-none t [] h e q = refl
unused-none t (v ∷ vs) h e q = ground (arith, unused-none t vs)

identity_in_use-none :
    (l : Ledger) (t : VoiceTransition)
    → length l.voices ≡ max_voices
    → identity_in_use l t ≡ false
    → QueuedOk t
    → count_if (sounds_as t.voice_id t.note) l.voices ≡ 0
unfolding identity_in_use find_voice
identity_in_use-none l t z e q = unused-none t l.voices (ground arith) (ground arith) q

-- Two names for one identity.
sounds_as-same :
    (id n : ℕ) (t : VoiceTransition) (vs : List ActiveVoice)
    → t.voice_id ≡ id
    → (ltb id max_voices || t.note == n) ≡ true
    → count_if (sounds_as id n) vs ≡ count_if (sounds_as t.voice_id t.note) vs
sounds_as-same id n t [] e h = refl
sounds_as-same id n t (v ∷ vs) e h = ground (arith, sounds_as-same id n t vs e h)

module _ {C : Type 0} (sink : NoteEventSink C) where
  push-sounds :
      (id n : ℕ) (t : VoiceTransition) (channel : ℕ) (c : C) (l : Ledger)
      → count_if (sounds_as id n) (push sink t channel c l).2.voices
        ≡ count_if (sounds_as id n) l.voices
  push-sounds id n t channel c l = elim (push-ledger sink t channel c l) [
    | inl e ↦ rw e
    | inr e ↦ rw e (enter_blocked-sounds id n l)
  ]

  end-IsDistinct :
      (t : VoiceTransition) (slot channel : ℕ) (c : C) (l : Ledger)
      → IsValid l
      → IsDistinct l
      → slot < max_voices
      → IsDistinct (clear_voice slot (push sink t channel c l).2)
  unfolding clear_voice
  end-IsDistinct t slot channel c l v d h id n =
      let l' = (push sink t channel c l).2 in
      ground (
        arith,
        d id n,
        push-sounds id n t channel c l,
        count_if-set (sounds_as id n) l'.voices slot free_voice free_voice
            (omega (arith, (push-IsValid sink t channel c v).size)),
      )

  start-IsDistinct :
      (t : VoiceTransition) (slot channel : ℕ) (c : C) (l : Ledger)
      → IsValid l
      → IsDistinct l
      → slot < max_voices
      → QueuedOk t
      → identity_in_use l t ≡ false
      → IsDistinct (start_voice slot t channel (push sink t channel c l).2)
  unfolding start_voice
  start-IsDistinct t slot channel c l v d h q free id n =
      let l' = (push sink t channel c l).2 in
      let started : ActiveVoice = record {
        active = true;
        pending_release = false;
        note = t.note;
        channel = channel;
        voice_id = t.voice_id;
      } in
      ground (
        arith,
        d id n,
        push-sounds id n t channel c l,
        identity_in_use-none l t v.size free q,
        sounds_as-same id n t l.voices,
        count_if-set (sounds_as id n) l'.voices slot started free_voice
            (omega (arith, (push-IsValid sink t channel c v).size)),
      )

  mark-IsDistinct :
      (slot : ℕ) (l : Ledger)
      → IsValid l
      → IsDistinct l
      → slot < max_voices
      → IsDistinct (mark_pending slot l)
  unfolding mark_pending
  mark-IsDistinct slot l v d h id n =
      let marked : ActiveVoice = record (voice_at l slot) { pending_release = true } in
      omega (
        arith,
        d id n,
        count_if-set (sounds_as id n) l.voices slot marked free_voice (omega (arith, v.size)),
      )

  IsDistinct-Keeps : Keeps sink (λ c l. IsValid l × IsDistinct l)
  IsDistinct-Keeps =
      let valid = IsValid-Keeps sink in
      record {
        sized = λ c l p. p.0.size;
        queued = λ c l p. p.0.queue_ok;
        flags = λ c l i b cc q r h p. (valid.flags c l i b cc q r h p.0, p.1);
        blocks =
            λ c l p. (valid.blocks c l p.0, λ id n. rw (enter_blocked-sounds id n l) (p.1 id n));
        refuses = λ t ch c l p no_.
            (valid.refuses t ch c l p.0 no_, λ id n. rw (push-sounds id n t ch c l) (p.1 id n));
        marks = λ slot c l p h u. (valid.marks slot c l p.0 h u, mark-IsDistinct slot l p.0 p.1 h);
        ends = λ t slot c l p h off e ok. (
          valid.ends t slot c l p.0 h off e ok,
          end-IsDistinct t slot (voice_at l slot).channel c l p.0 p.1 h,
        );
        starts = λ t slot ch c l p h free q on id range ok. (
          valid.starts t slot ch c l p.0 h free q on id range ok,
          start-IsDistinct t slot ch c l p.0 p.1 h q id,
        );
      }

  -- In a valid ledger, if each lane has at most one active voice and each note without a lane at
  -- most one, then so it is after `deliver`, whatever the sink answers.
  pub deliver-IsDistinct :
      (frames : ℕ) (peak : Double) (finite_input supported_layout : Bool) (routing : MidiRouting)
      (start_channel : ℕ) (c : C) {l : Ledger}
      → IsValid l
      → IsDistinct l
      → let (r, c', l') =
          deliver sink frames peak finite_input supported_layout routing start_channel c l in
        IsDistinct l'
  deliver-IsDistinct frames peak finite_input supported_layout routing start_channel c {l} v d =
      (deliver-Keeps IsDistinct-Keeps frames peak finite_input supported_layout routing
        start_channel c l (v, d)).1
