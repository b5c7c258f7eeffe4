-- ===== src/MidiPipeline/Sounding.antt =====
-- The host's view of the generated notes: nothing sounds that the ledger does not hold.
use polyphonic_audio_to_midi.Prelude.{
  ℕ, suc, ◌+◌, ◌-◌, ◌≤◌, ◌<◌, ◌≡◌, ◌∙◌, refl, inl, inr, Bool, true, false, ◌&&◌, List, ◌∷◌, Option,
  none, some, arith, ◌==◌, if◌then◌else◌, count_if, count_if-map, count_if-set,
}
use polyphonic_audio_to_midi.Types.{VoiceTransition, is_note_off, is_note_on, max_voices}
use polyphonic_audio_to_midi.Ledger.{
  Ledger, ActiveVoice, free_voice, mark_voice, enter_blocked, in_use,
}
use polyphonic_audio_to_midi.Ledger.Delivery.{
  voice_at, push, clear_voice, mark_pending, start_voice,
}
use polyphonic_audio_to_midi.Ledger.Invariant.{IsValid}
use polyphonic_audio_to_midi.MidiPipeline.{InputEvent, OutputEvent, midi, forwarded, OutputEvents}
use polyphonic_audio_to_midi.MidiPipeline.Delivery.{
  DeliveryContext, Block, push_output, take_input, flush_inputs, note_event, push_generated,
  pipeline_sink,
}
use polyphonic_audio_to_midi.Ledger.Rule.{Keeps, EndsVoice, push-ledger, push-channel}
use polyphonic_audio_to_midi.Ledger.Valid.{
  IsValid-Keeps, in_use-active, push-voice_at, push-IsValid,
}
use polyphonic_audio_to_midi.MidiPipeline.Flush.{flush_loop_rule}

-- A host that answers as the given one does, and keeps what it took, newest first.
abbrev pub logging : {H : Type 0} → OutputEvents H → OutputEvents (H × List OutputEvent)
logging o = record {
  try_push = elim o.try_push [
    | none ↦ none
    | some f ↦ some (λ (h, log) e. let (ok, h') = f h e in (ok, (h', if ok then e ∷ log else log)))
  ];
}

abbrev pub logged_output :
    {H : Type 0} → Option (OutputEvents H) → Option (OutputEvents (H × List OutputEvent))
logged_output none = none
logged_output (some o) = some (logging o)

abbrev pub logged_block : {H : Type 0} → Block H → Block (H × List OutputEvent)
logged_block b = record {
  abi = b.abi;
  input = b.input;
  output = logged_output b.output;
  frames = b.frames;
  input_count = b.input_count;
  routing = b.routing;
  start_channel = b.start_channel;
}

-- The pipeline's own events that start and that end a note on a channel.
abbrev pub starts_note : ℕ → ℕ → OutputEvent → Bool
starts_note n channel (midi offset status data1 data2) =
    status == 0x90 + (channel - 1) && data1 == n
starts_note n channel (forwarded e) = false

abbrev pub ends_note : ℕ → ℕ → OutputEvent → Bool
ends_note n channel (midi offset status data1 data2) = status == 0x80 + (channel - 1) && data1 == n
ends_note n channel (forwarded e) = false

abbrev pub sounds_note : ℕ → ℕ → ActiveVoice → Bool
sounds_note n channel v = v.active && v.note == n && v.channel == channel

-- For each note and MIDI channel, the note-ons that the host took from the pipeline are the
-- note-offs that it took and the active voices together.
abbrev pub HostBalanced : List OutputEvent → Ledger → Type 0
HostBalanced log l =
    (n channel : ℕ)
    → 1 ≤ channel
    → channel ≤ 16
    → count_if (starts_note n channel) log
      ≡ count_if (ends_note n channel) log + count_if (sounds_note n channel) l.voices

pub enter_blocked-sounds_note :
    (n channel : ℕ) (l : Ledger)
    → count_if (sounds_note n channel) (enter_blocked l).voices
      ≡ count_if (sounds_note n channel) l.voices
unfolding enter_blocked
enter_blocked-sounds_note n channel l =
    count_if-map (sounds_note n channel) mark_voice l.voices (λ v. refl)

module _ {H : Type 0} (b : Block H) where
  pub push_output-log :
      (e : OutputEvent) (h : H × List OutputEvent)
      → (push_output (logged_block b) e h).1.1
        ≡ (if (push_output (logged_block b) e h).0 then e ∷ h.1 else h.1)
  unfolding push_output
  push_output-log e h = ground arith

  module _ (p : OutputEvent → Bool) (own : (e : InputEvent) → p (forwarded e) ≡ false) where
    take_input-count :
        (e : InputEvent) (c : DeliveryContext (H × List OutputEvent))
        → count_if p (take_input (logged_block b) e c).1.host.1 ≡ count_if p c.host.1
    unfolding take_input
    take_input-count e c = ground (arith, push_output-log (forwarded e) c.host, own e)

    -- Events of the host that are passed on are none of the pipeline's own.
    pub flush_inputs-count :
        (boundary : ℕ) (inclusive final_flush : Bool) (c : DeliveryContext (H × List OutputEvent))
        → count_if p (flush_inputs (logged_block b) boundary inclusive final_flush c).1.host.1
          ≡ count_if p c.host.1
    unfolding flush_inputs
    flush_inputs-count boundary inclusive final_flush c =
        flush_loop_rule (logged_block b) (λ a d. count_if p d.host.1 ≡ count_if p c.host.1) boundary
          inclusive final_flush (λ a d h. h) (λ a d e h. take_input-count e d ∙ h) _ true c refl

    push_generated-count :
        (c : DeliveryContext (H × List OutputEvent)) (t : VoiceTransition) (channel : ℕ)
        → let r = push_generated (logged_block b) c t channel in
          count_if p r.context.host.1 ≡ (
            if r.accepted && p (note_event (logged_block b) t channel)
            then suc (count_if p c.host.1)
            else count_if p c.host.1)
    unfolding push_generated
    push_generated-count c t channel =
        let c0 : DeliveryContext (H × List OutputEvent) = record c { reported = false } in
        let f = flush_inputs (logged_block b) t.sample_offset (is_note_on t.kind) false c0 in
        ground (
          arith,
          flush_inputs-count t.sample_offset (is_note_on t.kind) false c0,
          push_output-log (note_event (logged_block b) t channel) f.1.host,
        )

    push-count :
        (t : VoiceTransition) (channel : ℕ) (c : DeliveryContext (H × List OutputEvent))
        (l : Ledger)
        → let r = push (pipeline_sink (logged_block b)) t channel c l in
          count_if p r.1.host.1 ≡ (
            if r.0 && p (note_event (logged_block b) t channel)
            then suc (count_if p c.host.1)
            else count_if p c.host.1)
    unfolding push
    push-count t channel c l = ground (arith, push_generated-count c t channel)

  push-sounds_note :
      (n channel : ℕ) (t : VoiceTransition) (ch : ℕ) (c : DeliveryContext (H × List OutputEvent))
      (l : Ledger)
      → count_if (sounds_note n channel) (push (pipeline_sink (logged_block b)) t ch c l).2.voices
        ≡ count_if (sounds_note n channel) l.voices
  push-sounds_note n channel t ch c l =
      elim (push-ledger (pipeline_sink (logged_block b)) t ch c l) [
        | inl e ↦ rw e
        | inr e ↦ rw e (enter_blocked-sounds_note n channel l)
      ]

  -- The two counts of the host's log after a push.
  push-starts :
      (n channel : ℕ) (t : VoiceTransition) (ch : ℕ) (c : DeliveryContext (H × List OutputEvent))
      (l : Ledger)
      → let r = push (pipeline_sink (logged_block b)) t ch c l in
        count_if (starts_note n channel) r.1.host.1 ≡ (
          if r.0 && starts_note n channel (note_event (logged_block b) t ch)
          then suc (count_if (starts_note n channel) c.host.1)
          else count_if (starts_note n channel) c.host.1)
  push-starts n channel = push-count (starts_note n channel) (λ e. refl)

  push-ends :
      (n channel : ℕ) (t : VoiceTransition) (ch : ℕ) (c : DeliveryContext (H × List OutputEvent))
      (l : Ledger)
      → let r = push (pipeline_sink (logged_block b)) t ch c l in
        count_if (ends_note n channel) r.1.host.1 ≡ (
          if r.0 && ends_note n channel (note_event (logged_block b) t ch)
          then suc (count_if (ends_note n channel) c.host.1)
          else count_if (ends_note n channel) c.host.1)
  push-ends n channel = push-count (ends_note n channel) (λ e. refl)

  refuse-HostBalanced :
      (t : VoiceTransition) (ch : ℕ) (c : DeliveryContext (H × List OutputEvent)) (l : Ledger)
      → HostBalanced c.host.1 l
      → (push (pipeline_sink (logged_block b)) t ch c l).0 ≡ false
      → HostBalanced
          (push (pipeline_sink (logged_block b)) t ch c l).1.host.1
          (push (pipeline_sink (logged_block b)) t ch c l).2
  refuse-HostBalanced t ch c l h no_ n channel lo hi = ground (
    arith,
    h n channel lo hi,
    push-sounds_note n channel t ch c l,
    push-starts n channel t ch c l,
    push-ends n channel t ch c l,
  )

  end-HostBalanced :
      (t : VoiceTransition) (slot : ℕ) (c : DeliveryContext (H × List OutputEvent)) (l : Ledger)
      → IsValid l
      → HostBalanced c.host.1 l
      → slot < max_voices
      → is_note_off t.kind ≡ true
      → EndsVoice t (voice_at l slot)
      → (push (pipeline_sink (logged_block b)) t (voice_at l slot).channel c l).0 ≡ true
      → HostBalanced
          (push (pipeline_sink (logged_block b)) t (voice_at l slot).channel c l).1.host.1
          (clear_voice slot
            (push (pipeline_sink (logged_block b)) t (voice_at l slot).channel c l).2)
  unfolding clear_voice
  end-HostBalanced t slot c l v h small off e ok n channel lo hi =
      let sink = pipeline_sink (logged_block b) in
      let ch = (voice_at l slot).channel in
      let l' = (push sink t ch c l).2 in
      ground (
        arith,
        h n channel lo hi,
        push-sounds_note n channel t ch c l,
        push-starts n channel t ch c l,
        push-ends n channel t ch c l,
        push-voice_at sink t ch slot c l (omega (arith, v.size)),
        push-channel sink t ch c l ok,
        in_use-active slot v small e.used,
        count_if-set (sounds_note n channel) l'.voices slot free_voice free_voice
            (omega (arith, (push-IsValid sink t ch c v).size)),
      )

  start-HostBalanced :
      (t : VoiceTransition) (slot ch : ℕ) (c : DeliveryContext (H × List OutputEvent)) (l : Ledger)
      → IsValid l
      → HostBalanced c.host.1 l
      → slot < max_voices
      → in_use (voice_at l slot) ≡ false
      → is_note_off t.kind ≡ false
      → (push (pipeline_sink (logged_block b)) t ch c l).0 ≡ true
      → HostBalanced
          (push (pipeline_sink (logged_block b)) t ch c l).1.host.1
          (start_voice slot t ch (push (pipeline_sink (logged_block b)) t ch c l).2)
  unfolding start_voice
  start-HostBalanced t slot ch c l v h small free on ok n channel lo hi =
      let sink = pipeline_sink (logged_block b) in
      let l' = (push sink t ch c l).2 in
      let started : ActiveVoice = record {
        active = true;
        pending_release = false;
        note = t.note;
        channel = ch;
        voice_id = t.voice_id;
      } in
      ground (
        arith,
        h n channel lo hi,
        push-sounds_note n channel t ch c l,
        push-starts n channel t ch c l,
        push-ends n channel t ch c l,
        push-voice_at sink t ch slot c l (omega (arith, v.size)),
        push-channel sink t ch c l ok,
        count_if-set (sounds_note n channel) l'.voices slot started free_voice
            (omega (arith, (push-IsValid sink t ch c v).size)),
      )

  mark-HostBalanced :
      (slot : ℕ) (log : List OutputEvent) (l : Ledger)
      → IsValid l
      → HostBalanced log l
      → slot < max_voices
      → HostBalanced log (mark_pending slot l)
  unfolding mark_pending
  mark-HostBalanced slot log l v h small n channel lo hi =
      let marked : ActiveVoice = record (voice_at l slot) { pending_release = true } in
      omega (
        arith,
        h n channel lo hi,
        count_if-set (sounds_note n channel) l.voices slot marked free_voice
            (omega (arith, v.size)),
      )

  pub HostBalanced-Keeps :
      Keeps (pipeline_sink (logged_block b)) (λ c l. IsValid l × HostBalanced c.host.1 l)
  HostBalanced-Keeps =
      let valid = IsValid-Keeps (pipeline_sink (logged_block b)) in
      record {
        sized = λ c l p. p.0.size;
        queued = λ c l p. p.0.queue_ok;
        flags = λ c l i b cc q r h p. (valid.flags c l i b cc q r h p.0, p.1);
        blocks = λ c l p. (
          valid.blocks c l p.0,
          λ n ch lo hi. rw (enter_blocked-sounds_note n ch l) (p.1 n ch lo hi),
        );
        refuses = λ t ch c l p no_.
            (valid.refuses t ch c l p.0 no_, refuse-HostBalanced t ch c l p.1 no_);
        marks = λ slot c l p h u.
            (valid.marks slot c l p.0 h u, mark-HostBalanced slot c.host.1 l p.0 p.1 h);
        ends = λ t slot c l p h off e ok.
            (valid.ends t slot c l p.0 h off e ok, end-HostBalanced t slot c l p.0 p.1 h off e ok);
        starts = λ t slot ch c l p h free q on id range ok. (
          valid.starts t slot ch c l p.0 h free q on id range ok,
          start-HostBalanced t slot ch c l p.0 p.1 h free on ok,
        );
      }
