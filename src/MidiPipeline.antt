-- ===== src/MidiPipeline.antt =====
-- native/plugin/midi_pipeline.cpp and midi_pipeline.hpp: the pipeline that puts the generated notes
-- and the host's own MIDI events in one stream of output events.
-- CLAP itself is not modelled: its constants are the record `ClapAbi`, and a host is a state with
-- the functions of its event lists, any of which may be null.
pub mod Delivery
pub mod Flush
pub mod Sounding
pub mod Process
use polyphonic_audio_to_midi.Prelude.{
  ℕ, zero, suc, ◌+◌, ◌-◌, ◌%◌, Bool, true, false, not, ◌&&◌, ◌||◌, List, [], ◌∷◌, Option, none,
  some, ltb, leb, ◌==◌, if◌then◌else◌, get_or, set, replicate, any, length,
}
use polyphonic_audio_to_midi.Types.{
  VoiceTransition, TransitionKind, MidiRouting, is_note_off, is_note_on, is_single, is_per_voice,
  max_voices, max_host_frames,
}
use polyphonic_audio_to_midi.Double.{Double}
use polyphonic_audio_to_midi.Ledger
use polyphonic_audio_to_midi.Ledger.{
  Ledger, new_ledger, slot_channel, report_output_failure, release_pending, queue_active_releases,
  request_recovery, request_release_all,
}
use polyphonic_audio_to_midi.Ledger.Delivery.{NoteEventSink, Reply, deliver}

-- `CLAP_CORE_EVENT_SPACE_ID`, `CLAP_EVENT_MIDI` and `sizeof(clap_event_midi_t)`.
pub record ClapAbi : Type 0 where
  pub core_space_id : ℕ
  pub midi_type : ℕ
  pub midi_size : ℕ

-- An input event: its header, and the bytes behind it, which are only passed on.
pub record InputEvent : Type 0 where
  pub time : ℕ
  pub space_id : ℕ
  pub type_id : ℕ
  pub size : ℕ
  pub bytes : List ℕ

-- What is pushed to the host: an event of the pipeline's own, or an input event passed on.
pub data OutputEvent : Type 0 where
  midi : (offset status data1 data2 : ℕ) → OutputEvent
  forwarded : InputEvent → OutputEvent

-- `clap_input_events_t`
pub record InputEvents : Type 0 where
  pub size : Option ℕ
  pub get : Option (ℕ → Option InputEvent)

-- `clap_output_events_t`, over the state of the host.
pub record OutputEvents (H : Type 0) : Type 0 where
  pub try_push : Option (H → OutputEvent → Bool × H)

-- `channel_panic_mask_` as its sixteen bits, the lowest first.
abbrev pub PanicMask : Type 0
PanicMask = List Bool

abbrev pub no_panic : PanicMask
no_panic = replicate 16 false

-- `channel_panic_mask_ != 0`
abbrev pub any_panic : PanicMask → Bool
any_panic mask = any (λ bit. bit) mask

pub record MidiPipeline : Type 0 where
  pub ledger : Ledger
  pub invalid_event : Bool
  pub channel_panic_mask : PanicMask
  pub routing : MidiRouting
  pub start_channel : ℕ

-- `MidiPipeline{}`
abbrev pub new_pipeline : MidiPipeline
new_pipeline = record {
  ledger = new_ledger;
  invalid_event = false;
  channel_panic_mask = no_panic;
  routing = MidiRouting.single;
  start_channel = 1;
}

unfoldable pub deactivate : MidiPipeline → MidiPipeline
deactivate p = record {
  ledger = Ledger.deactivate p.ledger;
  invalid_event = false;
  channel_panic_mask = no_panic;
  routing = MidiRouting.single;
  start_channel = 1;
}

unfoldable pub activate : (granted : Bool) → ℕ → MidiPipeline → Bool × MidiPipeline
unfolding deactivate
activate granted max_frames p =
    let q = deactivate p in
    let (ok, l) = Ledger.activate granted max_frames q.ledger in (ok, record q { ledger = l })

unfoldable pub begin_block : MidiPipeline → MidiPipeline
begin_block p = record p { ledger = Ledger.begin_block p.ledger; invalid_event = false }

unfoldable pub queue_transition : VoiceTransition → ℕ → MidiPipeline → Bool × MidiPipeline
queue_transition t frames p =
    let (ok, l) = Ledger.queue_transition t frames p.ledger in
    (ok, record p { ledger = l; invalid_event = p.invalid_event || not ok })

-- The loop of `mark_route_for_panic` over the slots left, from `slot` on.
unfoldable pub mark_slots : ℕ → ℕ → ℕ → PanicMask → PanicMask
mark_slots start_channel slot zero mask = mask
mark_slots start_channel slot (suc left) mask =
    mark_slots start_channel (slot + 1) left (set mask (slot_channel start_channel slot - 1) true)

unfoldable pub mark_route_for_panic : MidiRouting → ℕ → PanicMask → PanicMask
unfolding mark_slots
mark_route_for_panic routing start_channel mask =
    mark_slots start_channel 0 (if is_per_voice routing then max_voices else 1) mask

unfoldable pub enter_output_blocked : MidiPipeline → MidiPipeline
enter_output_blocked p = record p {
  ledger = report_output_failure p.ledger;
  channel_panic_mask = mark_route_for_panic p.routing p.start_channel p.channel_panic_mask;
}

unfoldable pub request_panic : ℕ → ℕ → MidiPipeline → Bool × MidiPipeline
unfolding enter_output_blocked
request_panic offset frames p =
    let (complete, l) = queue_active_releases offset frames (request_recovery p.ledger) in
    let q = record p { ledger = l } in (complete, if complete then q else enter_output_blocked q)

unfoldable pub request_reset : MidiPipeline → MidiPipeline
request_reset p = record p { ledger = request_recovery (request_release_all p.ledger) }

pub record MidiProcessResult : Type 0 where
  pub invalid_event : Bool
  pub output_blocked : Bool
  pub panic_hold : Bool
  pub detection_allowed : Bool
