-- ===== src/Ledger/Delivery.antt =====
-- native/src/generated_note_ledger.cpp: the calls that push transitions to a sink, and the recovery
-- from a panic.
-- A sink is the pair of a context and a function pointer. The function may call
-- `report_output_failure` on the ledger while it runs, as the MIDI pipeline's does; since that call
-- is idempotent, a reply says whether it was made.
use polyphonic_audio_to_midi.Prelude.{
  ℕ, zero, suc, ◌+◌, ◌-◌, ◌%◌, Bool, true, false, not, ◌&&◌, ◌||◌, List, [], ◌∷◌, Option, none,
  some, ltb, leb, ◌==◌, if◌then◌else◌, get_or, set, any,
}
use polyphonic_audio_to_midi.Types.{
  VoiceTransition, TransitionKind, MidiRouting, is_note_off, is_single, is_per_voice, max_voices,
}
use polyphonic_audio_to_midi.Double.{Double, is_finite, less}
use polyphonic_audio_to_midi.Ledger.{
  Ledger, ActiveVoice, free_voice, enter_blocked, release_pending, find_voice, find_free_voice,
  allocate_channel, in_use,
}

pub record Reply (C : Type 0) : Type 0 where
  pub accepted : Bool
  pub reported : Bool
  pub context : C

-- `none` is a null function pointer.
pub record NoteEventSink (C : Type 0) : Type 0 where
  pub push : Option (C → VoiceTransition → ℕ → Reply C)

-- `kQuietPeak`, the double nearest to 0.0001.
abbrev pub quiet_peak : Double
quiet_peak = 0x3f1a36e2eb1c432d

pub record NoteDeliveryResult : Type 0 where
  pub output_blocked : Bool
  pub panic_hold : Bool
  pub detection_allowed : Bool

-- `voices_[slot]`, read.
abbrev pub voice_at : Ledger → ℕ → ActiveVoice
voice_at l slot = get_or l.voices slot free_voice

abbrev pub put_voice : ℕ → ActiveVoice → Ledger → Ledger
put_voice slot v l = record l { voices = set l.voices slot v }

-- The end of a note that the sink has taken: `active_count_` falls and the voice is cleared.
unfoldable pub clear_voice : ℕ → Ledger → Ledger
clear_voice slot l = record l {
  voices = set l.voices slot free_voice;
  active_count =
      if (voice_at l slot).active && ltb 0 l.active_count
      then l.active_count - 1
      else l.active_count;
}

unfoldable pub mark_pending : ℕ → Ledger → Ledger
mark_pending slot l = put_voice slot (record (voice_at l slot) { pending_release = true }) l

-- `voices_[slot] = ActiveVoice{true, false, ...}; ++active_count_`, the count a byte.
unfoldable pub start_voice : ℕ → VoiceTransition → ℕ → Ledger → Ledger
start_voice slot t channel l = record l {
  voices = set l.voices slot (record {
    active = true;
    pending_release = false;
    note = t.note;
    channel = channel;
    voice_id = t.voice_id;
  });
  active_count = (l.active_count + 1) % 256;
}

unfoldable pub finish_hold : Double → Bool → Bool → Ledger → Ledger
finish_hold selected_peak finite_input supported_layout l =
    if not l.panic_hold
    then l
    else if ltb 0 l.hold_calls_remaining
    then record l { hold_calls_remaining = l.hold_calls_remaining - 1 }
    else if l.recovery_requested
        && l.cleanup_complete
        && finite_input
        && supported_layout
        && is_finite selected_peak
        && less selected_peak quiet_peak
    then record l {
      panic_hold = false;
      recovery_requested = false;
      output_blocked = false;
      cleanup_complete = false;
    }
    else l

-- The test at the head of the loop over the queue.
unfoldable pub identity_in_use : Ledger → VoiceTransition → Bool
identity_in_use l t =
    ltb (find_voice l t) max_voices
    || (ltb t.voice_id max_voices && any (λ v. in_use v && v.voice_id == t.voice_id) l.voices)

-- What a call leaves: its result, the sink's context and the ledger.
abbrev pub Outcome : Type 0 → Type 0
Outcome C = Bool × C × Ledger

-- The release that `retry_pending_releases` sends for a voice.
abbrev pub release_of : ActiveVoice → ℕ → VoiceTransition
release_of v n = record {
  sample_offset = 0;
  kind = TransitionKind.note_off;
  note = v.note;
  velocity = 0;
  sequence = n;
  voice_id = v.voice_id;
}

abbrev pub delivery_result : Ledger → NoteDeliveryResult
delivery_result l = record {
  output_blocked = l.output_blocked;
  panic_hold = l.panic_hold;
  detection_allowed = not l.invalid_transition && not l.output_blocked && not l.panic_hold;
}

-- The two checks of `deliver_queued` that only record an invalid transition.
abbrev pub check_delivery : MidiRouting → ℕ → ℕ → Ledger → Ledger
check_delivery routing start_channel frames l = record l {
  invalid_transition =
      l.invalid_transition
      || ltb start_channel 1
      || ltb 16 start_channel
      || not (is_single routing || is_per_voice routing)
      || any (λ t. leb frames t.sample_offset) l.queue;
}

module _ {C : Type 0} (sink : NoteEventSink C) where
  -- `GeneratedNoteLedger::push`
  unfoldable pub push : VoiceTransition → ℕ → C → Ledger → Outcome C
  push t channel c l =
      if leb 1 channel && leb channel 16
      then elim sink.push [
        | none ↦ (false, c, l)
        | some f ↦
            let r = f c t channel in
            (r.accepted, r.context, if r.reported then enter_blocked l else l)
      ]
      else (false, c, l)

  -- `Outcome` is false where the loop over the queue breaks.
  unfoldable pub deliver_off : VoiceTransition → C → Ledger → Outcome C
  deliver_off t c l =
      let slot = find_voice l t in
      let (ok, c', l') = push t (voice_at l slot).channel c l in
      if leb max_voices slot
      then (false, c, enter_blocked l)
      else if ok
      then (true, c', clear_voice slot l')
      else (false, c', enter_blocked (mark_pending slot l'))

  unfoldable pub deliver_on : MidiRouting → ℕ → VoiceTransition → C → Ledger → Outcome C
  deliver_on routing start_channel t c l =
      let channel = allocate_channel l routing start_channel t in
      let slot = find_free_voice l in
      let (ok, c', l') = push t channel c l in
      if l.panic_hold
      then (true, c, l)
      else if identity_in_use l t
      then (false, c, enter_blocked l)
      else if leb max_voices l.active_count
      then (false, c, enter_blocked l)
      else if channel == 0 || leb max_voices slot
      then (false, c, enter_blocked l)
      else if ok
      then (true, c', start_voice slot t channel l')
      else (false, c', enter_blocked l')

  unfoldable pub deliver_event : MidiRouting → ℕ → VoiceTransition → C → Ledger → Outcome C
  deliver_event routing start_channel t c l =
      if is_note_off t.kind then deliver_off t c l else deliver_on routing start_channel t c l

  -- The loop over the queue; a transition past the block is skipped.
  unfoldable pub deliver_events :
      MidiRouting → ℕ → ℕ → List VoiceTransition → C → Ledger → C × Ledger
  deliver_events routing start_channel frames [] c l = (c, l)
  deliver_events routing start_channel frames (t ∷ ts) c l =
      let skipped = deliver_events routing start_channel frames ts c l in
      let (continues, c', l') = deliver_event routing start_channel t c l in
      let rest = deliver_events routing start_channel frames ts c' l' in
      if leb frames t.sample_offset then skipped else if continues then rest else (c', l')

  -- The inner loop, over the voices from `slot` on; false where it returns early.
  unfoldable pub retry_slots : ℕ → ℕ → ℕ → C → Ledger → Outcome C
  retry_slots n slot zero c l = (true, c, l)
  retry_slots n slot (suc left) c l =
      let v = voice_at l slot in
      let skipped = retry_slots n (slot + 1) left c l in
      let (ok, c', l') = push (release_of v n) v.channel c l in
      let rest = retry_slots n (slot + 1) left c' (clear_voice slot l') in
      if not v.pending_release || not (v.note == n)
      then skipped
      else if ok
      then rest
      else (false, c', enter_blocked l')

  -- The outer loop, over the notes from `n` on.
  unfoldable pub retry_notes : ℕ → ℕ → C → Ledger → Outcome C
  retry_notes n zero c l = (true, c, record l { cleanup_complete = true })
  retry_notes n (suc left) c l =
      let (ok, c', l') = retry_slots n 0 max_voices c l in
      let rest = retry_notes (n + 1) left c' l' in if ok then rest else (false, c', l')

  unfoldable pub retry_pending_releases : C → Ledger → Outcome C
  retry_pending_releases c l =
      if release_pending l
      then retry_notes 0 128 c l
      else (true, c, record l { cleanup_complete = true })

  abbrev pub deliver_unblocked : MidiRouting → ℕ → ℕ → C → Ledger → C × Ledger
  deliver_unblocked routing start_channel frames c l =
      if not (release_pending l) && not l.output_blocked
      then deliver_events routing start_channel frames l.queue c l
      else (c, l)

  unfoldable pub deliver_queued :
      ℕ → Double → Bool → Bool → MidiRouting → ℕ → C → Ledger → NoteDeliveryResult × C × Ledger
  deliver_queued frames peak finite_input supported_layout routing start_channel c l =
      if not l.allocated || frames == 0 || ltb l.max_frames frames
      then (
        record {
          output_blocked = l.output_blocked;
          panic_hold = l.panic_hold;
          detection_allowed = false;
        },
        c,
        record l { invalid_transition = true },
      )
      else (let checked = check_delivery routing start_channel frames l in
          let (c', l') = deliver_unblocked routing start_channel frames c checked in
          let finished = finish_hold peak finite_input supported_layout l' in
          (delivery_result finished, c', finished))

  unfoldable pub deliver :
      ℕ → Double → Bool → Bool → MidiRouting → ℕ → C → Ledger → NoteDeliveryResult × C × Ledger
  deliver frames peak finite_input supported_layout routing start_channel c l =
      let (done, c', l') = retry_pending_releases c l in
      deliver_queued frames peak finite_input supported_layout routing start_channel c' l'
