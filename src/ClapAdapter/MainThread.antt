-- ===== src/ClapAdapter/MainThread.antt =====
-- native/plugin/clap_adapter.cpp: the calls on the main thread that change the configurations.
use polyphonic_audio_to_midi.Prelude.{
  ℕ, zero, suc, Bool, true, false, not, ◌&&◌, Option, none, some, if◌then◌else◌, ◌+◌,
}
use polyphonic_audio_to_midi.Types.{PersistentConfig, Status}
use polyphonic_audio_to_midi.ConfigRequest
use polyphonic_audio_to_midi.ConfigRequest.{
  snapshot, generation_newer, structural_config_equal, ConfigRequestSnapshot,
}
use polyphonic_audio_to_midi.ConfigExchange
use polyphonic_audio_to_midi.PreparedConfig.{PreparedConfig, stage_prepared_config}
use polyphonic_audio_to_midi.StateStream.{Stream, load_state}
use polyphonic_audio_to_midi.StateImage.{state_codec}
use polyphonic_audio_to_midi.ClapAdapter.{
  Adapter, is_running, next_generation, latch_status, mark_values_dirty,
}

-- A configuration that was staged is given to the exchange.
unfoldable pub publish_staged : PreparedConfig → ℕ → Adapter → Bool × Adapter
unfolding ConfigExchange.publish
publish_staged prepared generation a =
    let (published, exchange) = ConfigExchange.publish prepared generation a.prepared_exchange in
    (
      published,
      record a {
        prepared_exchange = exchange;
        pending_prepared = prepared;
        pending_prepared_generation = generation;
        prepared_publication_pending = not published;
      },
    )

unfoldable pub stage_for_publication : PersistentConfig → ℕ → Adapter → Bool × Adapter
unfolding stage_prepared_config publish_staged latch_status
stage_for_publication config generation a = elim (stage_prepared_config config a.sample_rate) [
  | none ↦ (false, latch_status Status.invalid_input_or_state a)
  | some prepared ↦ publish_staged prepared generation a
]

-- The attempts of `state_load` that are left; the generation of the one that succeeds.
unfoldable pub publish_loaded : ℕ → PersistentConfig → Adapter → Option ℕ × Adapter
unfolding ConfigRequest.publish
publish_loaded zero candidate a = (none, a)
publish_loaded (suc attempts) candidate before =
    let (generation, a) = next_generation before in
    let (published, request) = ConfigRequest.publish candidate generation a.config_request in
    let tried = record a { config_request = request } in
    let rest = publish_loaded attempts candidate tried in
    if published then (some generation, tried) else rest

-- A structural change of the main thread asks for a reconfiguration.
abbrev pub ask_reconfiguration : ℕ → Adapter → Adapter
ask_reconfiguration generation a = record a {
  requested_structural_generation = generation;
  reconfiguration_pending = true;
}

unfoldable pub rescan : Adapter → Adapter
rescan a = record a { rescans = if a.has_rescan then a.rescans + 1 else a.rescans }

-- What `state_load` does with a configuration that was published.
unfoldable pub adopt_loaded : PersistentConfig → ℕ → Adapter → Adapter
unfolding stage_for_publication latch_status mark_values_dirty
adopt_loaded candidate generation before =
    let a = record before {
      main_config = candidate;
      main_generation = generation;
      panic_requested = false;
    } in
    let staged =
      (stage_for_publication candidate generation (ask_reconfiguration generation a)).1 in
    let latched = latch_status Status.reconfiguring staged in
    if not (is_running a.lifecycle)
    then record a { status = Status.ready }
    else if latched.prepared_publication_pending
    then mark_values_dirty latched
    else latched

module _ {S : Type 0} (stream : Stream S) where
  unfoldable pub state_load : S → Adapter → Bool × Adapter
  unfolding load_state publish_loaded adopt_loaded rescan
  state_load s a = elim (load_state stream state_codec s).0 [
    | none ↦ (false, a)
    | some candidate ↦
        let (published, tried) = publish_loaded 3 candidate a in
        elim published [
          | none ↦ (false, tried)
          | some generation ↦ (true, rescan (adopt_loaded candidate generation tried))
        ]
  ]

-- The part of `plugin_on_main_thread` for a request that is newer; with it, whether to call back.
unfoldable pub adopt_request : ConfigRequestSnapshot → Adapter → Bool × Adapter
unfolding structural_config_equal stage_for_publication latch_status
adopt_request s before =
    let structural = not (structural_config_equal before.main_config s.config) in
    let a = record before { main_config = s.config; main_generation = s.generation } in
    let latched = latch_status Status.reconfiguring (ask_reconfiguration s.generation a) in
    let (staged, after) = stage_for_publication s.config s.generation latched in
    if structural && is_running a.lifecycle
    then (not staged && after.prepared_publication_pending, after)
    else (false, a)

-- The part before the publication that is pending is tried again.
unfoldable pub read_request : Adapter → Bool × Adapter
unfolding snapshot generation_newer adopt_request
read_request a = elim (snapshot 3 a.config_request) [
  | none ↦ (true, a)
  | some s ↦
      if generation_newer s.generation a.main_generation then adopt_request s a else (false, a)
]

-- A publication that is pending is tried again.
unfoldable pub retry_publication : Bool → Adapter → Bool × Adapter
unfolding ConfigExchange.publish
retry_publication retry a =
    let (published, exchange) =
      ConfigExchange.publish a.pending_prepared a.pending_prepared_generation a.prepared_exchange in
    if not a.prepared_publication_pending
    then (retry, a)
    else if published
    then (retry, record a { prepared_exchange = exchange; prepared_publication_pending = false })
    else (true, record a { prepared_exchange = exchange })

unfoldable pub on_main_thread : Adapter → Adapter
unfolding read_request retry_publication rescan mark_values_dirty
on_main_thread before =
    let (retry, a) = read_request (record before { values_dirty = false }) in
    let (again, b) = retry_publication retry a in
    let c = if before.values_dirty then rescan b else b in if again then mark_values_dirty c else c
