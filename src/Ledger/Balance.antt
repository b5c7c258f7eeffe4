-- ===== src/Ledger/Balance.antt =====
-- The ledger against the stream of events that the sink took: what the host still sounds is what
-- the ledger holds.
use polyphonic_audio_to_midi.Prelude.{
  ℕ, ◌+◌, ◌<◌, ◌≡◌, refl, inl, inr, Bool, true, false, not, ◌&&◌, List, ◌∷◌, none, some, arith,
  ◌==◌, if◌then◌else◌, length, count_if, count_if-map, count_if-set,
}
use polyphonic_audio_to_midi.Types.{VoiceTransition, MidiRouting, is_note_off, max_voices}
use polyphonic_audio_to_midi.Double.{Double}
use polyphonic_audio_to_midi.Ledger.{
  Ledger, ActiveVoice, free_voice, mark_voice, enter_blocked, in_use,
}
use polyphonic_audio_to_midi.Ledger.Delivery.{
  NoteEventSink, Reply, voice_at, push, deliver, clear_voice, mark_pending, start_voice,
}
use polyphonic_audio_to_midi.Ledger.Invariant.{IsValid}
use polyphonic_audio_to_midi.Ledger.Rule.{Keeps, EndsVoice, push-ledger}
use polyphonic_audio_to_midi.Ledger.Calls.{deliver-Keeps}
use polyphonic_audio_to_midi.Ledger.Valid.{
  IsValid-Keeps, in_use-active, push-voice_at, push-IsValid,
}

-- The events that a sink took with their channels, newest first.
abbrev pub EventLog : Type 0
EventLog = List (VoiceTransition × ℕ)

abbrev pub log_reply :
    {C : Type 0} → Reply C → EventLog → VoiceTransition → ℕ → Reply (C × EventLog)
log_reply r log t channel = record {
  accepted = r.accepted;
  reported = r.reported;
  context = (r.context, if r.accepted then (t, channel) ∷ log else log);
}

-- A sink that answers as the given one does, and keeps a log.
abbrev pub logged : {C : Type 0} → NoteEventSink C → NoteEventSink (C × EventLog)
logged sink = record {
  push = elim sink.push [
    | none ↦ none
    | some f ↦ some (λ (c, log) t channel. log_reply (f c t channel) log t channel)
  ];
}

-- One sounding note: its number, its channel and the identity of its voice.
pub record NoteKey : Type 0 where
  pub note : ℕ
  pub channel : ℕ
  pub voice_id : ℕ

abbrev pub starts_key : NoteKey → VoiceTransition × ℕ → Bool
starts_key k (t, channel) =
    not (is_note_off t.kind) && t.note == k.note && channel == k.channel && t.voice_id == k.voice_id

abbrev pub ends_key : NoteKey → VoiceTransition × ℕ → Bool
ends_key k (t, channel) =
    is_note_off t.kind && t.note == k.note && channel == k.channel && t.voice_id == k.voice_id

abbrev pub holds_key : NoteKey → ActiveVoice → Bool
holds_key k v = v.active && v.note == k.note && v.channel == k.channel && v.voice_id == k.voice_id

-- For each key, the note-ons taken are the note-offs taken and the active voices together.
abbrev pub Balanced : EventLog → Ledger → Type 0
Balanced log l =
    (k : NoteKey)
    → count_if (starts_key k) log ≡ count_if (ends_key k) log + count_if (holds_key k) l.voices

enter_blocked-held :
    (k : NoteKey) (l : Ledger)
    → count_if (holds_key k) (enter_blocked l).voices ≡ count_if (holds_key k) l.voices
unfolding enter_blocked
enter_blocked-held k l = count_if-map (holds_key k) mark_voice l.voices (λ v. refl)

module _ {C : Type 0} (sink : NoteEventSink C) where
  push-held :
      (k : NoteKey) (t : VoiceTransition) (channel : ℕ) (c : C × EventLog) (l : Ledger)
      → count_if (holds_key k) (push (logged sink) t channel c l).2.voices
        ≡ count_if (holds_key k) l.voices
  push-held k t channel c l = elim (push-ledger (logged sink) t channel c l) [
    | inl e ↦ rw e
    | inr e ↦ rw e (enter_blocked-held k l)
  ]

  push-log :
      (t : VoiceTransition) (channel : ℕ) (c : C × EventLog) (l : Ledger)
      → (push (logged sink) t channel c l).1.1
        ≡ (if (push (logged sink) t channel c l).0 then (t, channel) ∷ c.1 else c.1)
  unfolding push
  push-log t channel c l = ground arith

  -- One more event in the log, and the voices written in one slot.
  refuse-Balanced :
      (t : VoiceTransition) (channel : ℕ) (c : C × EventLog) (l : Ledger)
      → Balanced c.1 l
      → (push (logged sink) t channel c l).0 ≡ false
      → Balanced (push (logged sink) t channel c l).1.1 (push (logged sink) t channel c l).2
  refuse-Balanced t channel c l b no_ k =
      rw (push-log t channel c l, no_, push-held k t channel c l) (b k)

  end-Balanced :
      (t : VoiceTransition) (slot : ℕ) (c : C × EventLog) (l : Ledger)
      → IsValid l
      → Balanced c.1 l
      → slot < max_voices
      → is_note_off t.kind ≡ true
      → EndsVoice t (voice_at l slot)
      → (push (logged sink) t (voice_at l slot).channel c l).0 ≡ true
      → Balanced
          (push (logged sink) t (voice_at l slot).channel c l).1.1
          (clear_voice slot (push (logged sink) t (voice_at l slot).channel c l).2)
  unfolding clear_voice
  end-Balanced t slot c l v b h off e ok k =
      let channel = (voice_at l slot).channel in
      let l' = (push (logged sink) t channel c l).2 in
      let inside : slot < length l.voices = omega (arith, v.size) in
      let same = push-voice_at (logged sink) t channel slot c l inside in
      rw (push-log t channel c l, ok)
        (ground (
          arith,
          b k,
          push-held k t channel c l,
          same,
          off,
          in_use-active slot v h e.used,
          count_if-set (holds_key k) l'.voices slot free_voice free_voice
              (omega (arith, (push-IsValid (logged sink) t channel c v).size)),
        ))

  start-Balanced :
      (t : VoiceTransition) (slot channel : ℕ) (c : C × EventLog) (l : Ledger)
      → IsValid l
      → Balanced c.1 l
      → slot < max_voices
      → in_use (voice_at l slot) ≡ false
      → is_note_off t.kind ≡ false
      → (push (logged sink) t channel c l).0 ≡ true
      → Balanced
          (push (logged sink) t channel c l).1.1
          (start_voice slot t channel (push (logged sink) t channel c l).2)
  unfolding start_voice
  start-Balanced t slot channel c l v b h free on ok k =
      let l' = (push (logged sink) t channel c l).2 in
      let inside : slot < length l.voices = omega (arith, v.size) in
      let same = push-voice_at (logged sink) t channel slot c l inside in
      let started : ActiveVoice = record {
        active = true;
        pending_release = false;
        note = t.note;
        channel = channel;
        voice_id = t.voice_id;
      } in
      rw (push-log t channel c l, ok)
        (ground (
          arith,
          b k,
          push-held k t channel c l,
          same,
          on,
          free,
          count_if-set (holds_key k) l'.voices slot started free_voice
              (omega (arith, (push-IsValid (logged sink) t channel c v).size)),
        ))

  mark-Balanced :
      (slot : ℕ) (log : EventLog) (l : Ledger)
      → IsValid l
      → Balanced log l
      → slot < max_voices
      → Balanced log (mark_pending slot l)
  unfolding mark_pending
  mark-Balanced slot log l v b h k =
      let marked : ActiveVoice = record (voice_at l slot) { pending_release = true } in
      omega (
        arith,
        b k,
        count_if-set (holds_key k) l.voices slot marked free_voice (omega (arith, v.size)),
      )

  Balanced-Keeps : Keeps (logged sink) (λ c l. IsValid l × Balanced c.1 l)
  Balanced-Keeps =
      let valid = IsValid-Keeps (logged sink) in
      record {
        sized = λ c l p. p.0.size;
        queued = λ c l p. p.0.queue_ok;
        flags = λ c l i b cc q r h p. (valid.flags c l i b cc q r h p.0, p.1);
        blocks = λ c l p. (valid.blocks c l p.0, λ k. rw (enter_blocked-held k l) (p.1 k));
        refuses =
            λ t ch c l p no_. (valid.refuses t ch c l p.0 no_, refuse-Balanced t ch c l p.1 no_);
        marks =
            λ slot c l p h u. (valid.marks slot c l p.0 h u, mark-Balanced slot c.1 l p.0 p.1 h);
        ends = λ t slot c l p h off e ok.
            (valid.ends t slot c l p.0 h off e ok, end-Balanced t slot c l p.0 p.1 h off e ok);
        starts = λ t slot ch c l p h free q on id range ok. (
          valid.starts t slot ch c l p.0 h free q on id range ok,
          start-Balanced t slot ch c l p.0 p.1 h free on ok,
        );
      }

  -- If for each note, channel and voice identity the note-ons that the sink has taken are as many
  -- as the note-offs that it has taken and the active voices of the ledger together, then so they
  -- are after `deliver`, whatever the sink answers to each push and reports meanwhile, for a valid
  -- ledger.
  pub deliver-Balanced :
      (frames : ℕ) (peak : Double) (finite_input supported_layout : Bool) (routing : MidiRouting)
      (start_channel : ℕ) (c : C × EventLog) {l : Ledger}
      → IsValid l
      → Balanced c.1 l
      → let (r, c', l') =
          deliver
            (logged sink)
            frames
            peak
            finite_input
            supported_layout
            routing
            start_channel
            c
            l in
        Balanced c'.1 l'
  deliver-Balanced frames peak finite_input supported_layout routing start_channel c {l} v b =
      (deliver-Keeps Balanced-Keeps frames peak finite_input supported_layout routing start_channel
        c l (v, b)).1
