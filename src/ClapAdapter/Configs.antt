-- ===== src/ClapAdapter/Configs.antt =====
-- The configurations of the adapter are ones that can be saved, whatever the host sends.
use mathlib.Core.Path.{subst}
use mathlib.Core.Option.{some-injective, none-ne-some}
use polyphonic_audio_to_midi.Prelude.{
  ℕ, zero, suc, ◌+◌, ◌%◌, ◌≡◌, refl, sym, Bool, true, false, not, ◌||◌, Option, none, some, ltb,
  ◌==◌, if◌then◌else◌, if_elim, arith,
}
use polyphonic_audio_to_midi.Types.{PersistentConfig, Status, status_value, default_config}
use polyphonic_audio_to_midi.Parameters.Stored.{
  IsStored, default_config-IsStored, apply_parameter-IsStored,
}
use polyphonic_audio_to_midi.ConfigRequest
use polyphonic_audio_to_midi.ConfigRequest.{
  AtomicConfigRequest, ConfigRequestSnapshot, new_request, store_fields, load_fields, snapshot,
  generation_newer, add64,
}
use polyphonic_audio_to_midi.ConfigRequest.RoundTrip.{IsConfig, load-store_fields}
use polyphonic_audio_to_midi.MidiPipeline.{InputEvent, InputEvents}
use polyphonic_audio_to_midi.MidiPipeline.Delivery.{header_at}
use polyphonic_audio_to_midi.ClapAdapter.{
  Adapter, ParameterAbi, ParameterBatchResult, new_adapter, is_parameter, apply_event, apply_events,
  apply_parameter_events_to, readable_count, mark_values_dirty, latch_status, accept_panic,
  request_reconfiguration, publish_audio_config, take_request, synchronize_audio_request,
  apply_audio_parameter_events, apply_inactive_parameter_events, params_flush, no_change,
  is_running,
}

pub IsStored-IsConfig : (c : PersistentConfig) → IsStored c → IsConfig c
IsStored-IsConfig c h = record {
  routing = h.named.0;
  profile = h.named.1;
  velocity = h.named.2;
  sensitivity = omega (arith, h.in_range.sensitivity_in);
  response = omega (arith, h.in_range.response_in);
  lowest = omega (arith, h.in_range.lowest_in);
  highest = omega (arith, h.in_range.highest_in);
  polyphony = omega (arith, h.in_range.polyphony_in);
  fret = omega (arith, h.in_range.fret_in);
  fixed = omega (arith, h.in_range.fixed_velocity_in);
  channel = omega (arith, h.in_range.channel_in);
}

store_fields-IsStored :
    (c : PersistentConfig) → IsStored c → IsStored (load_fields (store_fields c))
store_fields-IsStored c h = subst IsStored (sym (load-store_fields c (IsStored-IsConfig c h))) h

-- The configurations of the two threads and of the request between them are stored ones.
pub record HasStored (a : Adapter) : Type 0 where
  pub main : IsStored a.main_config
  pub audio : IsStored a.audio_requested_config
  pub request : IsStored (load_fields a.config_request.fields)

pub new_adapter-HasStored : (has_callback : Bool) → HasStored (new_adapter has_callback)
unfolding new_request
new_adapter-HasStored b = record {
  main = default_config-IsStored;
  audio = default_config-IsStored;
  request = store_fields-IsStored default_config default_config-IsStored;
}

module _ (abi : ParameterAbi) where
  apply_event-IsStored :
      (header : Option InputEvent) (frames : ℕ) (c : PersistentConfig) (b : ParameterBatchResult)
      → IsStored c
      → IsStored (apply_event abi header frames (c, b)).0
  unfolding apply_event
  apply_event-IsStored none frames c b h = h
  apply_event-IsStored (some header) frames c b h =
      let event = abi.event_of header in
      if_elim (λ (r : PersistentConfig × ParameterBatchResult). IsStored r.0)
        (is_parameter abi header) _ _ (λ _. apply_parameter-IsStored c event.param_id event.value h)
        (λ _. h)

  apply_events-IsStored :
      (input : Option InputEvents) (index left frames : ℕ)
      (s : PersistentConfig × ParameterBatchResult)
      → IsStored s.0
      → IsStored (apply_events abi input index left frames s).0
  unfolding apply_events
  apply_events-IsStored input index zero frames s h = h
  apply_events-IsStored input index (suc left) frames s h =
      apply_events-IsStored input (index + 1) left frames
        (apply_event abi (header_at input index) frames s)
        (apply_event-IsStored (header_at input index) frames s.0 s.1 h)

  batch-IsStored :
      (c : PersistentConfig) (input : Option InputEvents) (frames : ℕ)
      → IsStored c
      → IsStored (apply_parameter_events_to abi c input frames).0
  unfolding apply_parameter_events_to
  batch-IsStored c input frames h =
      apply_events-IsStored input 0 (readable_count abi input) frames (c, no_change) h

pub publish-IsStored :
    (c : PersistentConfig) (generation : ℕ) (r : AtomicConfigRequest)
    → IsStored c
    → IsStored (load_fields r.fields)
    → IsStored (load_fields (ConfigRequest.publish c generation r).1.fields)
unfolding ConfigRequest.publish
publish-IsStored c generation r h k =
    if_elim (λ (x : Bool × AtomicConfigRequest). IsStored (load_fields x.1.fields))
      (r.sequence % 2 == 1) _ _ (λ _. k)
      (λ _.
        if_elim (λ (x : Bool × AtomicConfigRequest). IsStored (load_fields x.1.fields))
          (not (generation_newer generation r.generation)) _ _ (λ _. k)
          (λ _. store_fields-IsStored c h))

taken :
    (b : Bool) (again : Option ConfigRequestSnapshot) (now s : ConfigRequestSnapshot)
    → IsStored now.config
    → (again ≡ some s → IsStored s.config)
    → (if b then again else some now) ≡ some s
    → IsStored s.config
taken true again now s h k e = k e
taken false again now s h k e = subst (λ t. IsStored t.config) (some-injective now s e) h

pub snapshot-IsStored :
    (attempts : ℕ) (r : AtomicConfigRequest) (s : ConfigRequestSnapshot)
    → IsStored (load_fields r.fields)
    → snapshot attempts r ≡ some s
    → IsStored s.config
unfolding snapshot
snapshot-IsStored zero r s h e = absurd (none-ne-some s e)
snapshot-IsStored (suc attempts) r s h e =
    taken (r.sequence % 2 == 1) (snapshot attempts r) _ s h (snapshot-IsStored attempts r s h) e

pub latch_status-HasStored :
    (status : Status) (a : Adapter) → HasStored a → HasStored (latch_status status a)
unfolding latch_status mark_values_dirty
latch_status-HasStored status a h =
    if_elim HasStored (ltb (status_value a.status) (status_value status)) _ _
      (λ _. record { main = h.main; audio = h.audio; request = h.request }) (λ _. h)

accept_panic-HasStored :
    (batch : ParameterBatchResult) (a : Adapter) → HasStored a → HasStored (accept_panic batch a)
unfolding accept_panic mark_values_dirty
accept_panic-HasStored batch a h =
    if_elim HasStored batch.panic _ _
      (λ _. record { main = h.main; audio = h.audio; request = h.request }) (λ _. h)

request_reconfiguration-HasStored :
    (generation : ℕ) (a : Adapter) → HasStored a → HasStored (request_reconfiguration generation a)
unfolding request_reconfiguration
request_reconfiguration-HasStored generation a h =
    latch_status-HasStored Status.reconfiguring
      (record a {
        requested_structural_generation = generation;
        reconfiguration_pending = true;
        pending_audio_structural = false;
      })
      (record { main = h.main; audio = h.audio; request = h.request })

pub mark_values_dirty-HasStored : (a : Adapter) → HasStored a → HasStored (mark_values_dirty a)
unfolding mark_values_dirty
mark_values_dirty-HasStored a h = record { main = h.main; audio = h.audio; request = h.request }

publish_audio_config-HasStored :
    (structural : Bool) (a : Adapter)
    → HasStored a
    → HasStored (publish_audio_config structural a).1
unfolding publish_audio_config
publish_audio_config-HasStored structural a h =
    let generation = add64 a.generation_counter 1 in
    let published = ConfigRequest.publish a.audio_requested_config generation a.config_request in
    let request =
      publish-IsStored a.audio_requested_config generation a.config_request h.audio h.request in
    let sent : Adapter = record a {
      generation_counter = generation;
      config_request = published.1;
      audio_request_generation = generation;
      audio_publication_pending = false;
    } in
    if_elim (λ (x : Bool × Adapter). HasStored x.1) (not published.0) _ _
      (λ _. record { main = h.main; audio = h.audio; request = request })
      (λ _. mark_values_dirty-HasStored _ (
        if_elim HasStored (structural || a.pending_audio_structural) _ _
          (λ _.
            request_reconfiguration-HasStored generation sent
              (record { main = h.main; audio = h.audio; request = request }))
          (λ _. record { main = h.main; audio = h.audio; request = request })))

took :
    (o : Option ConfigRequestSnapshot) (a : Adapter)
    → HasStored a
    → ((s : ConfigRequestSnapshot) → o ≡ some s → IsStored s.config)
    → HasStored (elim o [
      | none ↦ a
      | some s ↦
          if generation_newer s.generation a.audio_request_generation
          then record a {
            audio_requested_config = s.config;
            audio_request_generation = s.generation;
          }
          else a
    ])
took none a h k = h
took (some s) a h k =
    if_elim HasStored (generation_newer s.generation a.audio_request_generation) _ _
      (λ _. record { main = h.main; audio = k s refl; request = h.request }) (λ _. h)

take_request-HasStored : (a : Adapter) → HasStored a → HasStored (take_request a)
unfolding take_request
take_request-HasStored a h =
    took (snapshot 3 a.config_request) a h (λ s. snapshot-IsStored 3 a.config_request s h.request)

synchronize-HasStored : (a : Adapter) → HasStored a → HasStored (synchronize_audio_request a)
unfolding synchronize_audio_request
synchronize-HasStored a h =
    let tried = (publish_audio_config a.pending_audio_structural a).1 in
    let after = publish_audio_config-HasStored a.pending_audio_structural a h in
    if_elim HasStored (not a.audio_publication_pending) _ _ (λ _. take_request-HasStored a h)
      (λ _.
        if_elim HasStored tried.audio_publication_pending _ _ (λ _. after)
          (λ _. take_request-HasStored tried after))

module _ (abi : ParameterAbi) where
  audio_events-HasStored :
      (input : Option InputEvents) (frames : ℕ) (a : Adapter)
      → HasStored a
      → HasStored (apply_audio_parameter_events abi input frames a)
  unfolding apply_audio_parameter_events
  audio_events-HasStored input frames a h =
      let batch = (apply_parameter_events_to abi a.audio_requested_config input frames).1 in
      let config = (apply_parameter_events_to abi a.audio_requested_config input frames).0 in
      let applied : Adapter = record a { audio_requested_config = config } in
      let accepted = accept_panic-HasStored batch applied (record {
        main = h.main;
        audio = batch-IsStored abi a.audio_requested_config input frames h.audio;
        request = h.request;
      }) in
      if_elim HasStored batch.changed _ _
        (λ _. publish_audio_config-HasStored batch.structural (accept_panic batch applied) accepted)
        (λ _. accepted)

  inactive_events-HasStored :
      (input : Option InputEvents) (a : Adapter)
      → HasStored a
      → HasStored (apply_inactive_parameter_events abi input a)
  unfolding apply_inactive_parameter_events
  inactive_events-HasStored input a h =
      let batch = (apply_parameter_events_to abi a.main_config input 0).1 in
      let candidate = batch-IsStored abi a.main_config input 0 h.main in
      let accepted = accept_panic-HasStored batch a h in
      let before = accept_panic batch a in
      let generation = add64 before.generation_counter 1 in
      let config = (apply_parameter_events_to abi a.main_config input 0).0 in
      let published = ConfigRequest.publish config generation before.config_request in
      let request =
        publish-IsStored config generation before.config_request candidate accepted.request in
      if_elim HasStored (not batch.changed) _ _ (λ _. accepted)
        (λ _.
          if_elim HasStored (not published.0) _ _
            (λ _.
              latch_status-HasStored Status.invalid_input_or_state
                (record before { generation_counter = generation; config_request = published.1 })
                (record { main = accepted.main; audio = accepted.audio; request = request }))
            (λ _. record { main = candidate; audio = accepted.audio; request = request }))

  -- Whatever parameter events the host flushes, in whatever state, the configurations of the main
  -- thread and of the audio thread, and the one that is requested, stay ones that can be saved.
  pub params_flush-HasStored :
      (input : Option InputEvents) (a : Adapter)
      → HasStored a
      → HasStored (params_flush abi input a)
  unfolding params_flush
  params_flush-HasStored input a h =
      if_elim HasStored (is_running a.lifecycle) _ _
        (λ _.
          audio_events-HasStored input 0 (synchronize_audio_request a) (synchronize-HasStored a h))
        (λ _. inactive_events-HasStored input a h)
