-- ===== src/ClapAdapter/LifeCycle.antt =====
-- native/plugin/clap_adapter.cpp: the life cycle, without the calls of the probe. Whether the storage
-- of the pipeline is granted, and whether the host has `rescan`, are arguments.
use polyphonic_audio_to_midi.Prelude.{
  ℕ, Bool, true, false, not, ◌&&◌, none, some, if◌then◌else◌, ltb, ◌==◌,
}
use polyphonic_audio_to_midi.Types.{Status, max_host_frames}
use polyphonic_audio_to_midi.Double.{Double}
use polyphonic_audio_to_midi.ConfigRequest.{snapshot, generation_newer, ConfigRequestSnapshot}
use polyphonic_audio_to_midi.ConfigExchange
use polyphonic_audio_to_midi.MidiPipeline
use polyphonic_audio_to_midi.PreparedConfig.{PreparedConfig, stage_prepared_config, is_positive}
use polyphonic_audio_to_midi.ClapAdapter.{
  Adapter, Lifecycle, created, initialized, active, processing, is_running, latch_status,
}

abbrev pub is_created : Lifecycle → Bool
is_created created = true
is_created initialized = false
is_created active = false
is_created processing = false

abbrev pub is_initialized : Lifecycle → Bool
is_initialized created = false
is_initialized initialized = true
is_initialized active = false
is_initialized processing = false

abbrev pub is_suspended : Lifecycle → Bool
is_suspended created = false
is_suspended initialized = false
is_suspended active = true
is_suspended processing = false

abbrev pub is_processing : Lifecycle → Bool
is_processing created = false
is_processing initialized = false
is_processing active = false
is_processing processing = true

-- Whether the call succeeds, and the state after it.
unfoldable pub start_processing : Adapter → Bool × Adapter
start_processing a =
    if is_suspended a.lifecycle then (true, record a { lifecycle = processing }) else (false, a)

unfoldable pub stop_processing : Adapter → Adapter
stop_processing a = if is_processing a.lifecycle then record a { lifecycle = active } else a

unfoldable pub plugin_init : (has_rescan : Bool) → Adapter → Bool × Adapter
plugin_init has_rescan a =
    if is_created a.lifecycle
    then (true, record a { has_rescan = has_rescan; lifecycle = initialized })
    else (false, a)

-- The frames and the rate that `plugin_activate` takes.
abbrev pub valid_activation : Double → (min_frames max_frames : ℕ) → Bool
valid_activation sample_rate min_frames max_frames =
    is_positive sample_rate
    && not (min_frames == 0)
    && not (max_frames == 0)
    && not (ltb max_frames min_frames)
    && not (ltb max_host_frames max_frames)

-- The stores of an activation whose pipeline was activated.
unfoldable pub enter_active :
    Double
    → (min_frames max_frames : ℕ) → ConfigRequestSnapshot
    → PreparedConfig
    → Adapter
    → Adapter
unfolding ConfigExchange.initialize
enter_active sample_rate min_frames max_frames s prepared a = record a {
  sample_rate = sample_rate;
  min_frames = min_frames;
  max_frames = max_frames;
  main_config = s.config;
  main_generation = s.generation;
  audio_requested_config = s.config;
  audio_request_generation = s.generation;
  active_config = s.config;
  prepared_exchange = (ConfigExchange.initialize prepared s.generation a.prepared_exchange).1;
  requested_structural_generation = s.generation;
  reconfiguration_pending = false;
  prepared_publication_pending = false;
  audio_publication_pending = false;
  pending_audio_structural = false;
  release_channel_pending = false;
  status = Status.ready;
  lifecycle = active;
}

unfoldable pub plugin_activate :
    (granted : Bool) → Double → (min_frames max_frames : ℕ) → Adapter → Bool × Adapter
unfolding snapshot stage_prepared_config MidiPipeline.activate enter_active
plugin_activate granted sample_rate min_frames max_frames a = elim (snapshot 3 a.config_request) [
  | none ↦ (false, a)
  | some s ↦ elim (stage_prepared_config s.config sample_rate) [
    | none ↦ (false, a)
    | some prepared ↦
        let (activated, pipeline) = MidiPipeline.activate granted max_frames a.midi_pipeline in
        let after = record a { midi_pipeline = pipeline } in
        if not (is_initialized a.lifecycle && valid_activation sample_rate min_frames max_frames)
        then (false, a)
        else if not activated
        then (false, after)
        else (true, enter_active sample_rate min_frames max_frames s prepared after)
  ]
]

-- A request that is newer than the configuration of the main thread is kept.
unfoldable pub keep_request : Adapter → Adapter
unfolding snapshot generation_newer
keep_request a = elim (snapshot 3 a.config_request) [
  | none ↦ a
  | some s ↦
      if generation_newer s.generation a.main_generation
      then record a { main_config = s.config; main_generation = s.generation }
      else a
]

unfoldable pub plugin_deactivate : Adapter → Adapter
unfolding keep_request MidiPipeline.deactivate ConfigExchange.reset
plugin_deactivate before =
    let a = keep_request before in
    if is_suspended before.lifecycle
    then record a {
      lifecycle = initialized;
      sample_rate = 0;
      min_frames = 0;
      max_frames = 0;
      midi_pipeline = MidiPipeline.deactivate a.midi_pipeline;
      prepared_exchange = ConfigExchange.reset a.prepared_exchange;
      prepared_publication_pending = false;
      audio_publication_pending = false;
      pending_audio_structural = false;
      release_channel_pending = false;
      reconfiguration_pending = false;
    }
    else before

unfoldable pub plugin_reset : Adapter → Adapter
unfolding MidiPipeline.request_reset latch_status
plugin_reset a =
    if is_running a.lifecycle
    then latch_status Status.panic_hold
        (record a { midi_pipeline = MidiPipeline.request_reset a.midi_pipeline })
    else a
