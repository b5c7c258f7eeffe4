-- ===== src/MidiPipeline/Process.antt =====
-- One call of `process`, from the host's side.
use polyphonic_audio_to_midi.Prelude.{
  ℕ, zero, suc, ◌+◌, ◌-◌, ◌≤◌, ◌≡◌, refl, Bool, true, false, not, ◌||◌, List, Option, arith,
  count_if, if_elim, set,
}
use polyphonic_audio_to_midi.Types.{MidiRouting}
use polyphonic_audio_to_midi.Double.{Double}
use polyphonic_audio_to_midi.Ledger.{Ledger, report_output_failure, release_pending}
use polyphonic_audio_to_midi.Ledger.Invariant.{IsValid}
use polyphonic_audio_to_midi.MidiPipeline.{
  ClapAbi, OutputEvent, midi, InputEvents, OutputEvents, PanicMask, any_panic, MidiPipeline,
  MidiProcessResult,
}
use polyphonic_audio_to_midi.MidiPipeline.Delivery.{
  DeliveryContext, Block, push_output, flush_inputs, retry_channels, retry_channel_panics,
  run_block, deliver_block, retry_block, flush_block, start_context, process, block_of,
}
use polyphonic_audio_to_midi.Ledger.Calls.{deliver-Keeps}
use polyphonic_audio_to_midi.Ledger.Invariant.{enter_blocked-IsValid}
use polyphonic_audio_to_midi.MidiPipeline.Sounding.{
  logged_block, logged_output, starts_note, ends_note, HostBalanced, HostBalanced-Keeps,
  push_output-log, flush_inputs-count, enter_blocked-sounds_note,
}

-- A valid ledger that accounts for what the host sounds.
abbrev Good : List OutputEvent → Ledger → Type 0
Good log l = IsValid l × HostBalanced log l

report_output_failure-Good :
    (log : List OutputEvent) (l : Ledger) → Good log l → Good log (report_output_failure l)
unfolding report_output_failure
report_output_failure-Good log l g = (
  enter_blocked-IsValid g.0,
  λ n channel lo hi. rw (enter_blocked-sounds_note n channel l) (g.1 n channel lo hi),
)

-- Equal counts of the host's log keep the account.
recount-Good :
    (log log' : List OutputEvent) (l : Ledger)
    → ((n channel : ℕ)
        → channel ≤ 16
        → 1 ≤ channel
        → (count_if (starts_note n channel) log' ≡ count_if (starts_note n channel) log)
          × (count_if (ends_note n channel) log' ≡ count_if (ends_note n channel) log))
    → Good log l
    → Good log' l
recount-Good log log' l same g =
    (g.0, λ n channel lo hi. let s = same n channel hi lo in rw (s.0, s.1) (g.1 n channel lo hi))

module _ {H : Type 0} (b : Block H) where
  retry_channels-count :
      (p : OutputEvent → Bool)
      → ((status data1 : ℕ) → 0xb0 ≤ status → p (midi 0 status data1 0) ≡ false)
      → (channel left : ℕ) (mask : PanicMask) (h : H × List OutputEvent)
      → count_if p (retry_channels (logged_block b) channel left mask h).2.1 ≡ count_if p h.1
  unfolding retry_channels
  retry_channels-count p other channel zero mask h = refl
  retry_channels-count p other channel (suc left) mask h =
      let status = 0xb0 + (channel - 1) in
      let one = push_output (logged_block b) (midi 0 status 123 0) h in
      let two = push_output (logged_block b) (midi 0 status 120 0) one.1 in
      ground (
        arith,
        other status 123,
        other status 120,
        push_output-log b (midi 0 status 123 0) h,
        push_output-log b (midi 0 status 120 0) one.1,
        retry_channels-count p other (channel + 1) left mask h,
        retry_channels-count p other (channel + 1) left (set mask (channel - 1) false) two.1,
      )

  retry_channel_panics-Good :
      (h : H × List OutputEvent) (p : MidiPipeline)
      → Good h.1 p.ledger
      → Good
          (retry_channel_panics (logged_block b) h p).1.1
          (retry_channel_panics (logged_block b) h p).2.ledger
  unfolding retry_channel_panics
  retry_channel_panics-Good h p g =
      if_elim (λ (r : Bool × (H × List OutputEvent) × MidiPipeline). Good r.1.1 r.2.ledger)
        (not (any_panic p.channel_panic_mask) || release_pending p.ledger) _ _ (λ e. g)
        (λ e.
          let r = retry_channels (logged_block b) 1 16 p.channel_panic_mask h in
          let counted =
            recount-Good h.1 r.2.1 p.ledger
              (λ n channel hi lo. (
                retry_channels-count (starts_note n channel) (λ st d k. ground arith) 1 16
                    p.channel_panic_mask h,
                retry_channels-count (ends_note n channel) (λ st d k. ground arith) 1 16
                    p.channel_panic_mask h,
              ))
              g in
          if_elim (Good r.2.1) r.0 _ _ (λ ok. counted)
            (λ no_. report_output_failure-Good r.2.1 p.ledger counted))

  flush_inputs-Good :
      (boundary : ℕ) (inclusive final_flush : Bool) (c : DeliveryContext (H × List OutputEvent))
      (l : Ledger)
      → Good c.host.1 l
      → Good (flush_inputs (logged_block b) boundary inclusive final_flush c).1.host.1 l
  flush_inputs-Good boundary inclusive final_flush c l =
      recount-Good c.host.1
        (flush_inputs (logged_block b) boundary inclusive final_flush c).1.host.1 l
        (λ n channel hi lo. (
          flush_inputs-count b (starts_note n channel) (λ e. refl) boundary inclusive final_flush c,
          flush_inputs-count b (ends_note n channel) (λ e. refl) boundary inclusive final_flush c,
        ))

  deliver_block-Good :
      (peak : Double) (finite_input supported_layout : Bool) (h : H × List OutputEvent)
      (p : MidiPipeline)
      → Good h.1 p.ledger
      → Good
          (deliver_block (logged_block b) peak finite_input supported_layout h p).0.host.1
          (deliver_block (logged_block b) peak finite_input supported_layout h p).1.ledger
  unfolding deliver_block
  deliver_block-Good peak finite_input supported_layout h p g =
      deliver-Keeps (HostBalanced-Keeps b) b.frames peak finite_input supported_layout b.routing
        b.start_channel (start_context (logged_block b) h p) p.ledger g

  retry_block-Good :
      (retry : Bool) (h : H × List OutputEvent) (p : MidiPipeline)
      → Good h.1 p.ledger
      → Good
          (retry_block (logged_block b) retry h p).0.1
          (retry_block (logged_block b) retry h p).1.ledger
  unfolding retry_block
  retry_block-Good true h p g = retry_channel_panics-Good h p g
  retry_block-Good false h p g = g

  flush_block-Good :
      (c : DeliveryContext (H × List OutputEvent)) (h : H × List OutputEvent) (p : MidiPipeline)
      → Good h.1 p.ledger
      → Good (flush_block (logged_block b) c h p).0.1 (flush_block (logged_block b) c h p).1.ledger
  unfolding flush_block
  flush_block-Good c h p g =
      let before : DeliveryContext (H × List OutputEvent) = record c {
        host = h;
        invalid_event = p.invalid_event;
        channel_panic_mask = p.channel_panic_mask;
        reported = false;
      } in
      let log = (flush_inputs (logged_block b) b.frames false true before).1.host.1 in
      let flushed = flush_inputs-Good b.frames false true before p.ledger g in
      if_elim (Good log) (flush_inputs (logged_block b) b.frames false true before).1.reported
        (report_output_failure p.ledger) p.ledger
        (λ e. report_output_failure-Good log p.ledger flushed) (λ e. flushed)

  run_block-Good :
      (peak : Double) (finite_input supported_layout : Bool) (h : H × List OutputEvent)
      (p : MidiPipeline)
      → Good h.1 p.ledger
      → Good
          (run_block (logged_block b) peak finite_input supported_layout h p).1.1
          (run_block (logged_block b) peak finite_input supported_layout h p).2.ledger
  unfolding run_block
  run_block-Good peak finite_input supported_layout h p g = flush_block-Good _ _ _ (
      retry_block-Good (any_panic p.channel_panic_mask) _ _
        (deliver_block-Good peak finite_input supported_layout h p g))

-- Before and after `process` the host sounds what the ledger holds: if for each note and MIDI
-- channel the note-ons that the host took from the pipeline are as many as the note-offs that it
-- took and the active voices of a valid ledger together, then so it is after the call, and the
-- ledger is valid, whatever input events there are and whichever output events the host refuses.
pub process-HostBalanced :
    {H : Type 0} (abi : ClapAbi) (frames one_based_channel : ℕ) (input : Option InputEvents)
    (output : Option (OutputEvents H)) (peak : Double) (finite_input supported_layout : Bool)
    (routing : MidiRouting) (h : H × List OutputEvent) (p : MidiPipeline)
    → IsValid p.ledger
    → HostBalanced h.1 p.ledger
    → let (r, h', p') =
        process abi frames one_based_channel input
          (logged_output output)
          peak
          finite_input
          supported_layout
          routing
          h
          p in
      IsValid p'.ledger × HostBalanced h'.1 p'.ledger
unfolding process
process-HostBalanced {H} abi frames channel input output peak finite_input supported_layout routing
      h p v g =
    if_elim
      (λ (r : MidiProcessResult × (H × List OutputEvent) × MidiPipeline). Good r.1.1 r.2.ledger) _ _
      _ (λ e. (v, g))
      (λ e.
        run_block-Good (block_of abi input output frames channel routing) peak finite_input
          supported_layout h (record p { routing = routing; start_channel = channel }) (v, g))
