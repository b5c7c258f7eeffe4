-- ===== src/ClapAdapter.antt =====
-- native/plugin/clap_adapter.cpp: the state of the CLAP plug-in, and its parameters from the host's
-- events to the request that the main thread reads. An atomic member is a value, as each function
-- runs undisturbed here. A test of a null adapter is
-- left out, and the constants and the event layout of CLAP are the record `ParameterAbi`.
pub mod Events
pub mod Configs
pub mod MainThread
pub mod LifeCycle
pub mod Kept
pub mod Reached
use Prim.Native.Nat.{min}
use polyphonic_audio_to_midi.Prelude.{
  ℕ, zero, suc, ◌+◌, ◌-◌, ◌^◌, Bool, true, false, not, ◌&&◌, ◌||◌, Option, none, some, ltb, ◌==◌,
  if◌then◌else◌,
}
use polyphonic_audio_to_midi.Types.{PersistentConfig, Status, status_value, default_config}
use polyphonic_audio_to_midi.Double.{Double}
use polyphonic_audio_to_midi.Parameters.{
  ParameterId, ParameterUpdateClass, row, find_parameter, apply_parameter, ParameterApplyResult,
  rejected, unchanged, changed, panic,
}
use polyphonic_audio_to_midi.ConfigRequest
use polyphonic_audio_to_midi.ConfigRequest.{
  AtomicConfigRequest, new_request, add64, snapshot, generation_newer,
}
use polyphonic_audio_to_midi.ConfigExchange.{Exchange, free}
use polyphonic_audio_to_midi.PreparedConfig.{PreparedConfig}
use polyphonic_audio_to_midi.MidiPipeline.{InputEvent, InputEvents, MidiPipeline, new_pipeline}
use polyphonic_audio_to_midi.MidiPipeline.Delivery.{header_at}

pub data Lifecycle : Type 0 where
  created initialized active processing : Lifecycle

-- `clap_event_param_value_t` behind its header; an integer is its two's complement.
pub record ParameterEvent : Type 0 where
  pub param_id : ℕ
  pub note_id : ℕ
  pub port_index : ℕ
  pub channel : ℕ
  pub key : ℕ
  pub value : Double

-- `CLAP_CORE_EVENT_SPACE_ID`, `CLAP_EVENT_PARAM_VALUE`, `sizeof(clap_event_param_value_t)`, and what
-- the bytes behind a header are as such an event.
pub record ParameterAbi : Type 0 where
  pub core_space_id : ℕ
  pub param_value_type : ℕ
  pub param_value_size : ℕ
  pub event_of : InputEvent → ParameterEvent

-- The host has `request_callback`, or its parameters `rescan`, and it was called so many times.
pub record Adapter : Type 0 where
  pub has_callback : Bool
  pub callbacks : ℕ
  pub lifecycle : Lifecycle
  pub status : Status
  pub values_dirty : Bool
  pub main_config : PersistentConfig
  pub config_request : AtomicConfigRequest
  pub generation_counter : ℕ
  pub requested_structural_generation : ℕ
  pub reconfiguration_pending : Bool
  pub main_generation : ℕ
  pub audio_requested_config : PersistentConfig
  pub audio_request_generation : ℕ
  pub audio_publication_pending : Bool
  pub pending_audio_structural : Bool
  pub panic_requested : Bool
  pub panic_offset : ℕ
  pub has_rescan : Bool
  pub rescans : ℕ
  pub prepared_exchange : Exchange PreparedConfig
  pub pending_prepared : PreparedConfig
  pub pending_prepared_generation : ℕ
  pub prepared_publication_pending : Bool
  pub sample_rate : Double
  pub min_frames : ℕ
  pub max_frames : ℕ
  pub active_config : PersistentConfig
  pub midi_pipeline : MidiPipeline
  pub release_channel_pending : Bool

-- `PreparedConfig{}`
abbrev no_prepared : PreparedConfig
no_prepared = record {
  requested = default_config;
  sample_rate = 0;
  sample_period = 0;
  decision_period = 0;
}

-- The constructor.
abbrev pub new_adapter : Bool → Adapter
unfolding new_request
new_adapter has_callback = record {
  has_callback = has_callback;
  callbacks = 0;
  lifecycle = created;
  status = Status.ready;
  values_dirty = false;
  main_config = default_config;
  config_request = new_request default_config 1;
  generation_counter = 1;
  requested_structural_generation = 1;
  reconfiguration_pending = false;
  main_generation = 1;
  audio_requested_config = default_config;
  audio_request_generation = 1;
  audio_publication_pending = false;
  pending_audio_structural = false;
  panic_requested = false;
  panic_offset = 0;
  has_rescan = false;
  rescans = 0;
  prepared_exchange = record {
    slots = λ i. record { prepared = no_prepared; generation = 0; state = free };
    active_index = 0;
    active_generation = 0;
    publisher_generation = 0;
    initialized = false;
  };
  pending_prepared = no_prepared;
  pending_prepared_generation = 0;
  prepared_publication_pending = false;
  sample_rate = 0;
  min_frames = 0;
  max_frames = 0;
  active_config = default_config;
  midi_pipeline = new_pipeline;
  release_channel_pending = false;
}

unfoldable pub mark_values_dirty : Adapter → Adapter
mark_values_dirty a = record a {
  values_dirty = true;
  callbacks = if not a.values_dirty && a.has_callback then a.callbacks + 1 else a.callbacks;
}

-- The compare-exchange succeeds at last, as nobody stores between.
unfoldable pub latch_status : Status → Adapter → Adapter
unfolding mark_values_dirty
latch_status status a =
    if ltb (status_value a.status) (status_value status)
    then mark_values_dirty (record a { status = status })
    else a

pub record ParameterBatchResult : Type 0 where
  pub changed : Bool
  pub structural : Bool
  pub panic : Bool
  pub panic_offset : ℕ

-- `ParameterBatchResult{}`
abbrev pub no_change : ParameterBatchResult
no_change = record { changed = false; structural = false; panic = false; panic_offset = 0 }

abbrev pub next_generation : Adapter → ℕ × Adapter
next_generation a =
    let next = add64 a.generation_counter 1 in (next, record a { generation_counter = next })

abbrev pub is_structural : ParameterUpdateClass → Bool
is_structural ParameterUpdateClass.structural = true
is_structural ParameterUpdateClass.runtime = false
is_structural ParameterUpdateClass.action = false
is_structural ParameterUpdateClass.telemetry = false

-- The class of the row of an identifier.
unfoldable pub changes_structure : ParameterId → Bool
unfolding find_parameter
changes_structure id = elim (find_parameter id) [
  | none ↦ false
  | some p ↦ is_structural (row p).update_class
]

-- What an event does to the batch.
abbrev pub batch_result :
    ParameterApplyResult → (id time frames_count : ℕ) → ParameterBatchResult → ParameterBatchResult
unfolding changes_structure
batch_result rejected id time frames_count b = b
batch_result unchanged id time frames_count b = b
batch_result changed id time frames_count b = record b {
  changed = true;
  structural = b.structural || changes_structure id;
}
batch_result panic id time frames_count b = record b {
  panic = true;
  panic_offset = if frames_count == 0 then 0 else min time (frames_count - 1);
}

module _ (abi : ParameterAbi) where
  -- A parameter event for the whole plug-in, and not for a note.
  abbrev pub is_parameter : InputEvent → Bool
  is_parameter header =
      let event = abi.event_of header in
      header.space_id == abi.core_space_id
      && header.type_id == abi.param_value_type
      && not (ltb header.size abi.param_value_size)
      && event.note_id == 2 ^ 32 - 1
      && event.port_index == 2 ^ 16 - 1
      && event.channel == 2 ^ 16 - 1
      && event.key == 2 ^ 16 - 1

  -- A turn of the loop.
  unfoldable pub apply_event :
      Option InputEvent
      → ℕ
      → PersistentConfig × ParameterBatchResult
      → PersistentConfig × ParameterBatchResult
  unfolding apply_parameter
  apply_event none frames_count (config, batch) = (config, batch)
  apply_event (some header) frames_count (config, batch) =
      let event = abi.event_of header in
      let (result, applied) = apply_parameter config event.param_id event.value in
      if is_parameter header
      then (applied, batch_result result event.param_id header.time frames_count batch)
      else (config, batch)

  -- The events from `index` on, of which so many are left.
  unfoldable pub apply_events :
      Option InputEvents
      → (index left frames_count : ℕ) → PersistentConfig × ParameterBatchResult
      → PersistentConfig × ParameterBatchResult
  unfolding apply_event
  apply_events input index zero frames_count s = s
  apply_events input index (suc left) frames_count s =
      apply_events input (index + 1) left frames_count
        (apply_event (header_at input index) frames_count s)

  -- No event is read of a list that is null or has a null function.
  unfoldable pub readable_count : Option InputEvents → ℕ
  readable_count none = 0
  readable_count (some input) = elim input.size [
    | none ↦ 0
    | some count ↦ elim input.get [ none ↦ 0 | some get ↦ count ]
  ]

  unfoldable pub apply_parameter_events_to :
      PersistentConfig → Option InputEvents → ℕ → PersistentConfig × ParameterBatchResult
  unfolding apply_events readable_count
  apply_parameter_events_to config input frames_count =
      apply_events input 0 (readable_count input) frames_count (config, no_change)

unfoldable pub accept_panic : ParameterBatchResult → Adapter → Adapter
unfolding mark_values_dirty
accept_panic batch a =
    if batch.panic
    then mark_values_dirty (record a { panic_offset = batch.panic_offset; panic_requested = true })
    else a

-- The part of `publish_audio_config` for a structural change.
unfoldable pub request_reconfiguration : ℕ → Adapter → Adapter
unfolding latch_status
request_reconfiguration generation a = latch_status Status.reconfiguring (record a {
  requested_structural_generation = generation;
  reconfiguration_pending = true;
  pending_audio_structural = false;
})

unfoldable pub publish_audio_config : Bool → Adapter → Bool × Adapter
unfolding ConfigRequest.publish request_reconfiguration mark_values_dirty
publish_audio_config structural before =
    let (generation, a) = next_generation before in
    let (published, request) =
      ConfigRequest.publish a.audio_requested_config generation a.config_request in
    let sent = record a {
      config_request = request;
      audio_request_generation = generation;
      audio_publication_pending = false;
    } in
    if not published
    then (
      false,
      record a {
        config_request = request;
        audio_publication_pending = true;
        pending_audio_structural = a.pending_audio_structural || structural;
      },
    )
    else (
      true,
      mark_values_dirty (
          if structural || a.pending_audio_structural
          then request_reconfiguration generation sent
          else sent),
    )

-- The part of `synchronize_audio_request` behind a pending publication.
unfoldable pub take_request : Adapter → Adapter
unfolding snapshot generation_newer
take_request a = elim (snapshot 3 a.config_request) [
  | none ↦ a
  | some s ↦
      if generation_newer s.generation a.audio_request_generation
      then record a { audio_requested_config = s.config; audio_request_generation = s.generation }
      else a
]

unfoldable pub synchronize_audio_request : Adapter → Adapter
unfolding publish_audio_config take_request
synchronize_audio_request a =
    let tried = (publish_audio_config a.pending_audio_structural a).1 in
    if not a.audio_publication_pending
    then take_request a
    else if tried.audio_publication_pending
    then tried
    else take_request tried

abbrev pub is_running : Lifecycle → Bool
is_running created = false
is_running initialized = false
is_running active = true
is_running processing = true

module _ (abi : ParameterAbi) where
  unfoldable pub apply_audio_parameter_events : Option InputEvents → ℕ → Adapter → Adapter
  unfolding apply_parameter_events_to accept_panic publish_audio_config
  apply_audio_parameter_events input frames_count a =
      let (config, batch) =
        apply_parameter_events_to abi a.audio_requested_config input frames_count in
      let accepted = accept_panic batch (record a { audio_requested_config = config }) in
      if batch.changed then (publish_audio_config batch.structural accepted).1 else accepted

  unfoldable pub apply_inactive_parameter_events : Option InputEvents → Adapter → Adapter
  unfolding apply_parameter_events_to accept_panic ConfigRequest.publish latch_status
  apply_inactive_parameter_events input before =
      let (candidate, batch) = apply_parameter_events_to abi before.main_config input 0 in
      let (generation, a) = next_generation (accept_panic batch before) in
      let (published, request) = ConfigRequest.publish candidate generation a.config_request in
      if not batch.changed
      then accept_panic batch before
      else if not published
      then latch_status Status.invalid_input_or_state (record a { config_request = request })
      else record a {
        config_request = request;
        main_config = candidate;
        main_generation = generation;
      }

  unfoldable pub params_flush : Option InputEvents → Adapter → Adapter
  unfolding synchronize_audio_request apply_audio_parameter_events apply_inactive_parameter_events
  params_flush input a =
      if is_running a.lifecycle
      then apply_audio_parameter_events input 0 (synchronize_audio_request a)
      else apply_inactive_parameter_events input a
