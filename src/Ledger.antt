-- ===== src/Ledger.antt =====
-- native/src/generated_note_ledger.cpp and native/include/m3/generated_note_ledger.hpp: the ledger
-- of generated notes, its queue of transitions and the calls that change them without a sink.
-- The queue is the part of `storage_` below `size_`, and `allocated` says that `storage_` is not
-- null. `Ledger.Delivery` has the calls that push to a sink.
pub mod Delivery
pub mod Invariant
pub mod Rule
pub mod Calls
pub mod Valid
pub mod Balance
pub mod Order
pub mod Sorted
pub mod Hold
pub mod Quiet
pub mod Recovery
pub mod Retry
pub mod Identity
use polyphonic_audio_to_midi.Prelude.{
  ℕ, zero, suc, ◌+◌, ◌-◌, ◌*◌, ◌/◌, ◌%◌, ◌^◌, Bool, true, false, not, ◌&&◌, ◌||◌, List, [], ◌∷◌,
  ◌++◌, ltb, leb, ◌==◌, if◌then◌else◌, length, get_or, set, replicate, any, find_index, map,
}
use polyphonic_audio_to_midi.Types.{
  VoiceTransition, TransitionKind, MidiRouting, is_note_off, is_note_on, is_single, is_per_voice,
  kind_value, max_host_frames, decision_quantum, max_tick_transitions, max_voices,
  unassigned_voice_id,
}

pub record ActiveVoice : Type 0 where
  pub active : Bool
  pub pending_release : Bool
  pub note : ℕ
  pub channel : ℕ
  pub voice_id : ℕ

-- `ActiveVoice{}`
abbrev pub free_voice : ActiveVoice
free_voice = record {
  active = false;
  pending_release = false;
  note = 0;
  channel = 0;
  voice_id = unassigned_voice_id;
}

pub record Ledger : Type 0 where
  pub allocated : Bool
  pub queue : List VoiceTransition
  pub capacity : ℕ
  pub max_frames : ℕ
  pub voices : List ActiveVoice
  pub active_count : ℕ
  pub invalid_transition : Bool
  pub output_blocked : Bool
  pub cleanup_complete : Bool
  pub panic_hold : Bool
  pub recovery_requested : Bool
  pub hold_calls_remaining : ℕ

-- `GeneratedNoteLedger{}`
abbrev pub new_ledger : Ledger
new_ledger = record {
  allocated = false;
  queue = [];
  capacity = 0;
  max_frames = 0;
  voices = replicate max_voices free_voice;
  active_count = 0;
  invalid_transition = false;
  output_blocked = false;
  cleanup_complete = false;
  panic_hold = false;
  recovery_requested = false;
  hold_calls_remaining = 0;
}

-- Decision ticks in a block of `max_frames`, rounded up.
abbrev pub tick_count : ℕ → ℕ
tick_count max_frames = (max_frames + decision_quantum - 1) / decision_quantum

-- `granted` is the answer of the allocator.
unfoldable pub allocate_storage : (granted : Bool) → ℕ → Ledger → Bool × Ledger
allocate_storage granted max_frames l =
    if max_frames == 0 || ltb max_host_frames max_frames
    then (false, l)
    else if ltb ((2 ^ 64 - 1 - max_voices) / max_tick_transitions) (tick_count max_frames)
    then (false, l)
    else if not granted
    then (false, l)
    else (
      true,
      record l {
        allocated = true;
        capacity = tick_count max_frames * max_tick_transitions + max_voices;
        max_frames = max_frames;
      },
    )

abbrev pub drop_storage : Ledger → Ledger
drop_storage l = record l {
  allocated = false;
  queue = [];
  capacity = 0;
  max_frames = 0;
  invalid_transition = false;
}

unfoldable pub deactivate : Ledger → Ledger
deactivate l = record (drop_storage l) {
  voices = replicate max_voices free_voice;
  active_count = 0;
  output_blocked = false;
  cleanup_complete = false;
  panic_hold = false;
  recovery_requested = false;
  hold_calls_remaining = 0;
}

unfoldable pub activate : (granted : Bool) → ℕ → Ledger → Bool × Ledger
unfolding deactivate allocate_storage
activate granted max_frames l = allocate_storage granted max_frames (deactivate l)

unfoldable pub activate_preserving_pending : (granted : Bool) → ℕ → Ledger → Bool × Ledger
unfolding allocate_storage
activate_preserving_pending granted max_frames l =
    allocate_storage granted max_frames (drop_storage l)

-- The loop of `request_release_all` on one voice.
abbrev pub mark_voice : ActiveVoice → ActiveVoice
mark_voice v = record v { pending_release = v.active || v.pending_release }

unfoldable pub request_release_all : Ledger → Ledger
request_release_all l = record l {
  voices = map mark_voice l.voices;
  cleanup_complete = if any (λ v. v.active) l.voices then false else l.cleanup_complete;
}

unfoldable pub enter_blocked : Ledger → Ledger
unfolding request_release_all
enter_blocked l = request_release_all (record l { output_blocked = true; cleanup_complete = false })

unfoldable pub report_output_failure : Ledger → Ledger
unfolding enter_blocked
report_output_failure l = enter_blocked l

unfoldable pub release_storage_preserving_pending : Ledger → Ledger
unfolding request_release_all
release_storage_preserving_pending l = drop_storage (request_release_all l)

unfoldable pub request_recovery : Ledger → Ledger
request_recovery l = record l {
  panic_hold = true;
  recovery_requested = true;
  hold_calls_remaining = 1;
}

unfoldable pub begin_block : Ledger → Ledger
begin_block l = record l { queue = []; invalid_transition = false }

unfoldable pub transition_before : VoiceTransition → VoiceTransition → Bool
transition_before left right =
    if not (left.sample_offset == right.sample_offset)
    then ltb left.sample_offset right.sample_offset
    else if not (kind_value left.kind == kind_value right.kind)
    then is_note_off left.kind
    else ltb left.sequence right.sequence

-- The loop that opens a place for `t`: `position` counts down from `size_` and each step moves one
-- element of the array up.
unfoldable pub shift_in : ℕ → VoiceTransition → List VoiceTransition → List VoiceTransition
shift_in zero t storage = set storage 0 t
shift_in (suc position) t storage =
    let previous = get_or storage position t in
    let moved = shift_in position t (set storage (suc position) previous) in
    if transition_before t previous then moved else set storage (suc position) t

unfoldable pub valid_transition : VoiceTransition → Bool
valid_transition t =
    let off = is_note_off t.kind in
    let on = is_note_on t.kind in
    (off || on)
    && leb t.note 127
    && ((off && t.velocity == 0) || (on && ltb 0 t.velocity && leb t.velocity 127))
    && (t.voice_id == unassigned_voice_id || ltb t.voice_id max_voices)

unfoldable pub accepts : Ledger → VoiceTransition → ℕ → Bool
unfolding valid_transition
accepts l t frames =
    l.allocated
    && ltb (length l.queue) l.capacity
    && not (frames == 0)
    && leb frames l.max_frames
    && ltb t.sample_offset frames
    && valid_transition t

unfoldable pub queue_transition : VoiceTransition → ℕ → Ledger → Bool × Ledger
unfolding accepts shift_in
queue_transition t frames l =
    if accepts l t frames
    then (true, record l { queue = shift_in (length l.queue) t (l.queue ++ t ∷ []) })
    else (false, record l { invalid_transition = true })

-- The loop of `queue_active_releases` over the voices, with the running `sequence` and `complete`.
unfoldable pub queue_releases : List ActiveVoice → ℕ → ℕ → ℕ → Bool → Ledger → Bool × Ledger
unfolding queue_transition
queue_releases [] offset frames sequence complete l = (complete, l)
queue_releases (v ∷ vs) offset frames sequence complete l =
    let t : VoiceTransition = record {
      sample_offset = offset;
      kind = TransitionKind.note_off;
      note = v.note;
      velocity = 0;
      sequence = sequence;
      voice_id = v.voice_id;
    } in
    let queued = queue_transition t frames l in
    queue_releases vs offset frames (if v.active then sequence + 1 else sequence)
      (if v.active then queued.0 && complete else complete) (if v.active then queued.1 else l)

unfoldable pub queue_active_releases : ℕ → ℕ → Ledger → Bool × Ledger
unfolding queue_releases
queue_active_releases offset frames l = queue_releases l.voices offset frames 0 true l

abbrev pub in_use : ActiveVoice → Bool
in_use v = v.active || v.pending_release

-- The test of `find_voice` on one voice.
unfoldable pub holds : VoiceTransition → ActiveVoice → Bool
holds t v =
    in_use v
    && v.note == t.note
    && (if ltb t.voice_id max_voices
        then v.voice_id == t.voice_id
        else v.voice_id == unassigned_voice_id)

unfoldable pub find_voice : Ledger → VoiceTransition → ℕ
unfolding holds
find_voice l t = find_index (holds t) l.voices

unfoldable pub find_free_voice : Ledger → ℕ
find_free_voice l = find_index (λ v. not (in_use v)) l.voices

unfoldable pub is_active : Ledger → ℕ → Bool
is_active l n = leb n 127 && any (λ v. v.active && v.note == n) l.voices

unfoldable pub is_pending_release : Ledger → ℕ → Bool
is_pending_release l n = leb n 127 && any (λ v. v.pending_release && v.note == n) l.voices

unfoldable pub release_pending : Ledger → Bool
release_pending l = any (λ v. v.pending_release) l.voices

abbrev pub channel_used : Ledger → ℕ → Bool
channel_used l channel = any (λ v. in_use v && v.channel == channel) l.voices

-- `((start_channel - 1 + slot) % 16) + 1`; `start_channel` is at least 1 where it is called.
abbrev pub slot_channel : ℕ → ℕ → ℕ
slot_channel start_channel slot = (start_channel - 1 + slot) % 16 + 1

-- The loop over the slots left, from `slot` on.
unfoldable pub first_unused : Ledger → ℕ → ℕ → ℕ → ℕ
first_unused l start_channel slot zero = 0
first_unused l start_channel slot (suc left) =
    let rest = first_unused l start_channel (slot + 1) left in
    if channel_used l (slot_channel start_channel slot)
    then rest
    else slot_channel start_channel slot

unfoldable pub allocate_channel : Ledger → MidiRouting → ℕ → VoiceTransition → ℕ
unfolding first_unused
allocate_channel l routing start_channel t =
    if ltb start_channel 1 || ltb 16 start_channel
    then 0
    else if is_single routing
    then start_channel
    else if not (is_per_voice routing)
    then 0
    else if ltb t.voice_id max_voices
    then (let channel = slot_channel start_channel t.voice_id in
        if channel_used l channel then 0 else channel)
    else first_unused l start_channel 0 max_voices
