-- ===== src/MidiPipeline/Delivery.antt =====
-- native/plugin/midi_pipeline.cpp: `process` and what it calls, `flush_inputs`, `push_generated` and
-- `retry_channel_panics`.
use polyphonic_audio_to_midi.Prelude.{
  ℕ, zero, suc, ◌+◌, ◌-◌, Bool, true, false, not, ◌&&◌, ◌||◌, Option, none, some, ltb, leb, ◌==◌,
  if◌then◌else◌, get_or, set,
}
use polyphonic_audio_to_midi.Types.{
  VoiceTransition, TransitionKind, MidiRouting, is_note_off, is_note_on, is_single, is_per_voice,
  max_host_frames,
}
use polyphonic_audio_to_midi.Double.{Double}
use polyphonic_audio_to_midi.Ledger.{report_output_failure, release_pending}
use polyphonic_audio_to_midi.Ledger.Delivery.{NoteEventSink, Reply, deliver}
use polyphonic_audio_to_midi.MidiPipeline.{
  ClapAbi, InputEvent, OutputEvent, midi, forwarded, InputEvents, OutputEvents, PanicMask,
  any_panic, MidiPipeline, mark_route_for_panic, MidiProcessResult,
}

-- The part of the pipeline and of `DeliveryContext` that changes while the ledger delivers, and the
-- state of the host. `reported` says that `ledger_.report_output_failure()` was called.
pub record DeliveryContext (H : Type 0) : Type 0 where
  pub host : H
  pub invalid_event : Bool
  pub channel_panic_mask : PanicMask
  pub input_index : ℕ
  pub last_input_offset : ℕ
  pub have_last_input : Bool
  pub reported : Bool

-- What stays as it is during one call of `process`.
pub record Block (H : Type 0) : Type 0 where
  pub abi : ClapAbi
  pub input : Option InputEvents
  pub output : Option (OutputEvents H)
  pub frames : ℕ
  pub input_count : ℕ
  pub routing : MidiRouting
  pub start_channel : ℕ

-- `input != nullptr && input->size != nullptr ? input->size(input) : 0U`
abbrev pub count_inputs : Option InputEvents → ℕ
count_inputs none = 0
count_inputs (some input) = elim input.size [ none ↦ 0 | some n ↦ n ]

-- `context.input->get(context.input, index)`, or a null header.
abbrev pub header_at : Option InputEvents → ℕ → Option InputEvent
header_at none index = none
header_at (some input) index = elim input.get [ none ↦ none | some get ↦ get index ]

module _ {H : Type 0} (b : Block H) where
  -- `output->try_push`, false where it is missing.
  unfoldable pub push_output : OutputEvent → H → Bool × H
  push_output e h = elim b.output [
    | none ↦ (false, h)
    | some output ↦ elim output.try_push [ none ↦ (false, h) | some f ↦ f h e ]
  ]

  -- `enter_output_blocked`, as it is called while the ledger delivers.
  abbrev pub block_context : DeliveryContext H → DeliveryContext H
  block_context c = record c {
    channel_panic_mask = mark_route_for_panic b.routing b.start_channel c.channel_panic_mask;
    reported = true;
  }

  abbrev pub next_input : DeliveryContext H → DeliveryContext H
  next_input c = record c { input_index = c.input_index + 1 }

  abbrev pub invalid_input : DeliveryContext H → DeliveryContext H
  invalid_input c = record c { invalid_event = true }

  abbrev pub input_due : ℕ → Bool → Bool → InputEvent → Bool
  input_due boundary inclusive final_flush e =
      final_flush || ltb e.time boundary || inclusive && e.time == boundary

  -- The body of the loop on an event that is due: false where `accepted` becomes false.
  unfoldable pub take_input : InputEvent → DeliveryContext H → Bool × DeliveryContext H
  unfolding push_output
  take_input e c =
      let n = next_input c in
      let seen = record n { last_input_offset = e.time; have_last_input = true } in
      let (ok, h) = push_output (forwarded e) c.host in
      let pushed = record seen { host = h } in
      if leb b.frames e.time || c.have_last_input && ltb e.time c.last_input_offset
      then (true, invalid_input n)
      else if not (e.space_id == b.abi.core_space_id) || not (e.type_id == b.abi.midi_type)
      then (true, seen)
      else if ltb e.size b.abi.midi_size
      then (true, invalid_input seen)
      else if ok
      then (true, pushed)
      else (false, block_context pushed)

  -- The loop of `flush_inputs`: `left` is `input_count - input_index`.
  unfoldable pub flush_loop :
      ℕ → Bool → Bool → ℕ → Bool → DeliveryContext H → Bool × DeliveryContext H
  unfolding take_input
  flush_loop boundary inclusive final_flush zero accepted c = (accepted, c)
  flush_loop boundary inclusive final_flush (suc left) accepted c =
      elim (header_at b.input c.input_index) [
        | none ↦
            flush_loop boundary inclusive final_flush left accepted (invalid_input (next_input c))
        | some e ↦
            let (ok, c') = take_input e c in
            let rest = flush_loop boundary inclusive final_flush left (accepted && ok) c' in
            if input_due boundary inclusive final_flush e then rest else (accepted, c)
      ]

  unfoldable pub flush_inputs : ℕ → Bool → Bool → DeliveryContext H → Bool × DeliveryContext H
  unfolding flush_loop
  flush_inputs boundary inclusive final_flush c =
      flush_loop boundary inclusive final_flush (b.input_count - c.input_index) true c

  -- `0x80 | (channel - 1)` or `0x90 | (channel - 1)`, for a channel from 1 to 16.
  abbrev pub note_status : TransitionKind → ℕ → ℕ
  note_status kind channel = (if is_note_off kind then 0x80 else 0x90) + (channel - 1)

  abbrev pub note_event : VoiceTransition → ℕ → OutputEvent
  note_event t channel =
      midi t.sample_offset (note_status t.kind channel) t.note
        (if is_note_off t.kind then 0 else t.velocity)

  abbrev pub reply_of : Bool → DeliveryContext H → Reply (DeliveryContext H)
  reply_of accepted c = record { accepted = accepted; reported = c.reported; context = c }

  unfoldable pub push_generated :
      DeliveryContext H → VoiceTransition → ℕ → Reply (DeliveryContext H)
  push_generated c t channel =
      let (flushed, c') =
        flush_inputs t.sample_offset (is_note_on t.kind) false (record c { reported = false }) in
      let (ok, h) = push_output (note_event t channel) c'.host in
      let pushed = record c' { host = h } in
      if not flushed
      then reply_of false c'
      else if ok
      then reply_of true pushed
      else reply_of false (block_context pushed)

  abbrev pub pipeline_sink : NoteEventSink (DeliveryContext H)
  pipeline_sink = record { push = some push_generated }

  -- The loop of `retry_channel_panics` over the channels left, from `channel` on: whether all went
  -- out, the mask and the host.
  unfoldable pub retry_channels : ℕ → ℕ → PanicMask → H → Bool × PanicMask × H
  unfolding push_output
  retry_channels channel zero mask h = (true, mask, h)
  retry_channels channel (suc left) mask h =
      let status = 0xb0 + (channel - 1) in
      let skipped = retry_channels (channel + 1) left mask h in
      let (ok1, h1) = push_output (midi 0 status 123 0) h in
      let (ok2, h2) = push_output (midi 0 status 120 0) h1 in
      let rest = retry_channels (channel + 1) left (set mask (channel - 1) false) h2 in
      if not (get_or mask (channel - 1) false)
      then skipped
      else if not ok1
      then (false, mask, h1)
      else if not ok2
      then (false, mask, h2)
      else rest

  unfoldable pub retry_channel_panics : H → MidiPipeline → Bool × H × MidiPipeline
  retry_channel_panics h p =
      if not (any_panic p.channel_panic_mask) || release_pending p.ledger
      then (not (any_panic p.channel_panic_mask), h, p)
      else (let (ok, mask, h') = retry_channels 1 16 p.channel_panic_mask h in
          (
            ok,
            h',
            record p {
              channel_panic_mask = mask;
              ledger = if ok then p.ledger else report_output_failure p.ledger;
            },
          ))

  -- `DeliveryContext context{}` and the assignments behind it.
  abbrev pub start_context : H → MidiPipeline → DeliveryContext H
  start_context h p = record {
    host = h;
    invalid_event = p.invalid_event;
    channel_panic_mask = p.channel_panic_mask;
    input_index = 0;
    last_input_offset = 0;
    have_last_input = false;
    reported = false;
  }

  -- The call of `ledger_.deliver` and the two tests of its result.
  unfoldable pub deliver_block :
      Double → Bool → Bool → H → MidiPipeline → DeliveryContext H × MidiPipeline
  deliver_block peak finite_input supported_layout h p =
      let (generated, c, l) =
        deliver pipeline_sink b.frames peak finite_input supported_layout b.routing b.start_channel
          (start_context h p) p.ledger in
      let unexplained =
        not generated.detection_allowed
        && not generated.output_blocked
        && not generated.panic_hold in
      (
        c,
        record p {
          ledger = l;
          invalid_event = c.invalid_event || unexplained;
          channel_panic_mask =
              if generated.output_blocked && not (any_panic c.channel_panic_mask)
              then mark_route_for_panic b.routing b.start_channel c.channel_panic_mask
              else c.channel_panic_mask;
        },
      )

  -- `if (retry_channel_this_call)`
  unfoldable pub retry_block : Bool → H → MidiPipeline → H × MidiPipeline
  retry_block retry h p =
      let (done, h', q) = retry_channel_panics h p in if retry then (h', q) else (h, p)

  -- The last flush, which passes on what is left of the input.
  unfoldable pub flush_block : DeliveryContext H → H → MidiPipeline → H × MidiPipeline
  flush_block c h p =
      let before : DeliveryContext H = record c {
        host = h;
        invalid_event = p.invalid_event;
        channel_panic_mask = p.channel_panic_mask;
        reported = false;
      } in
      let (flushed, after) = flush_inputs b.frames false true before in
      (
        after.host,
        record p {
          invalid_event = after.invalid_event;
          channel_panic_mask = after.channel_panic_mask;
          ledger = if after.reported then report_output_failure p.ledger else p.ledger;
        },
      )

  abbrev pub process_result : MidiPipeline → MidiProcessResult
  process_result p = record {
    invalid_event = p.invalid_event;
    output_blocked = p.ledger.output_blocked;
    panic_hold = p.ledger.panic_hold;
    detection_allowed =
        not p.invalid_event && not p.ledger.output_blocked && not p.ledger.panic_hold;
  }

  -- `process` past its first check, `p` with the route of the call.
  unfoldable pub run_block :
      Double → Bool → Bool → H → MidiPipeline → MidiProcessResult × H × MidiPipeline
  run_block peak finite_input supported_layout h p =
      let (c, delivered) = deliver_block peak finite_input supported_layout h p in
      let (h1, retried) = retry_block (any_panic p.channel_panic_mask) c.host delivered in
      let (h2, final) = flush_block c h1 retried in (process_result final, h2, final)

-- The input count is the host's answer.
abbrev pub block_of :
    {H : Type 0}
    → ClapAbi
    → Option InputEvents
    → Option (OutputEvents H)
    → ℕ
    → ℕ
    → MidiRouting
    → Block H
block_of abi input output frames channel routing = record {
  abi = abi;
  input = input;
  output = output;
  frames = frames;
  input_count = count_inputs input;
  routing = routing;
  start_channel = channel;
}

unfoldable pub process :
    {H : Type 0} (abi : ClapAbi) (frames one_based_channel : ℕ) (input : Option InputEvents)
    (output : Option (OutputEvents H)) (peak : Double) (finite_input supported_layout : Bool)
    (routing : MidiRouting)
    → H
    → MidiPipeline
    → MidiProcessResult × H × MidiPipeline
process abi frames one_based_channel input output peak finite_input supported_layout routing h p =
    if frames == 0
      || ltb max_host_frames frames
      || one_based_channel == 0
      || ltb 16 one_based_channel
      || not (is_single routing || is_per_voice routing)
    then (
      record {
        invalid_event = true;
        output_blocked = p.ledger.output_blocked;
        panic_hold = p.ledger.panic_hold;
        detection_allowed = false;
      },
      h,
      record p { invalid_event = true },
    )
    else run_block (block_of abi input output frames one_based_channel routing) peak finite_input
        supported_layout h (record p { routing = routing; start_channel = one_based_channel })
