-- ===== src/ClapAdapter/Reached.antt =====
-- Whatever calls the host makes, in whatever order, the plug-in's configuration can be saved.
use mathlib.Core.Option.{none-ne-some}
use polyphonic_audio_to_midi.Prelude.{
  ℕ, ◌≡◌, refl, Bool, true, false, not, ◌&&◌, Option, none, some, if◌then◌else◌, if_elim, List,
}
use polyphonic_audio_to_midi.Types.{PersistentConfig, Status}
use polyphonic_audio_to_midi.Parameters.Stored.{IsStored}
use polyphonic_audio_to_midi.ConfigRequest.{snapshot, generation_newer, ConfigRequestSnapshot}
use polyphonic_audio_to_midi.PreparedConfig.{PreparedConfig, stage_prepared_config}
use polyphonic_audio_to_midi.StateStream.{Stream, load_state, read_exact, read_eof}
use polyphonic_audio_to_midi.StateImage.{state_codec, decode_state, encode_state}
use polyphonic_audio_to_midi.StateImage.RoundTrip.{
  Restored, decode_state-IsStored, decode_state-encode_state,
}
use polyphonic_audio_to_midi.MidiPipeline.{InputEvents}
use polyphonic_audio_to_midi.ClapAdapter.{
  Adapter, ParameterAbi, new_adapter, is_running, params_flush,
}
use polyphonic_audio_to_midi.ClapAdapter.Configs.{
  HasStored, new_adapter-HasStored, params_flush-HasStored, latch_status-HasStored,
  snapshot-IsStored,
}
use polyphonic_audio_to_midi.ClapAdapter.Kept.{
  Stored, publish_loaded-HasStored, adopt_loaded-HasStored, rescan-HasStored,
  on_main_thread-HasStored,
}
use polyphonic_audio_to_midi.ClapAdapter.MainThread.{
  publish_loaded, rescan, adopt_loaded, state_load, on_main_thread,
}
use polyphonic_audio_to_midi.ClapAdapter.LifeCycle.{
  start_processing, stop_processing, is_suspended, is_processing, is_created, is_initialized,
  plugin_init, plugin_activate, plugin_deactivate, plugin_reset, enter_active, keep_request,
  valid_activation,
}
use polyphonic_audio_to_midi.MidiPipeline
use polyphonic_audio_to_midi.Double.{Double}

start_processing-HasStored : (a : Adapter) → HasStored a → HasStored (start_processing a).1
unfolding start_processing
start_processing-HasStored a h =
    if_elim Stored (is_suspended a.lifecycle) _ _
      (λ _. record { main = h.main; audio = h.audio; request = h.request }) (λ _. h)

stop_processing-HasStored : (a : Adapter) → HasStored a → HasStored (stop_processing a)
unfolding stop_processing
stop_processing-HasStored a h =
    if_elim HasStored (is_processing a.lifecycle) _ _
      (λ _. record { main = h.main; audio = h.audio; request = h.request }) (λ _. h)

plugin_init-HasStored :
    (has_rescan : Bool) (a : Adapter) → HasStored a → HasStored (plugin_init has_rescan a).1
unfolding plugin_init
plugin_init-HasStored has_rescan a h =
    if_elim Stored (is_created a.lifecycle) _ _
      (λ _. record { main = h.main; audio = h.audio; request = h.request }) (λ _. h)

enter_active-HasStored :
    (rate : Double) (min_frames max_frames : ℕ) (s : ConfigRequestSnapshot)
    (prepared : PreparedConfig) (a : Adapter)
    → IsStored s.config
    → HasStored a
    → HasStored (enter_active rate min_frames max_frames s prepared a)
unfolding enter_active
enter_active-HasStored rate min_frames max_frames s prepared a k h = record {
  main = k;
  audio = k;
  request = h.request;
}

activated :
    (o : Option ConfigRequestSnapshot) (granted : Bool) (rate : Double) (min_frames max_frames : ℕ)
    (a : Adapter)
    → HasStored a
    → ((s : ConfigRequestSnapshot) → o ≡ some s → IsStored s.config)
    → (let r : Bool × Adapter = elim o [
      | none ↦ (false, a)
      | some s ↦ elim (stage_prepared_config s.config rate) [
        | none ↦ (false, a)
        | some prepared ↦
            let (ok, pipeline) = MidiPipeline.activate granted max_frames a.midi_pipeline in
            let after = record a { midi_pipeline = pipeline } in
            if not (is_initialized a.lifecycle && valid_activation rate min_frames max_frames)
            then (false, a)
            else if not ok
            then (false, after)
            else (true, enter_active rate min_frames max_frames s prepared after)
      ]
    ] in
        HasStored r.1)
activated none granted rate min_frames max_frames a h k = h
activated (some s) granted rate min_frames max_frames a h k =
    elim (stage_prepared_config s.config rate)
      as (λ o.
        let r : Bool × Adapter = elim o [
          | none ↦ (false, a)
          | some prepared ↦
              let (ok, pipeline) = MidiPipeline.activate granted max_frames a.midi_pipeline in
              let after = record a { midi_pipeline = pipeline } in
              if not (is_initialized a.lifecycle && valid_activation rate min_frames max_frames)
              then (false, a)
              else if not ok
              then (false, after)
              else (true, enter_active rate min_frames max_frames s prepared after)
        ] in
        HasStored r.1) [
          | none ↦ h
          | some prepared ↦
              let result = MidiPipeline.activate granted max_frames a.midi_pipeline in
              let after : Adapter = record a { midi_pipeline = result.1 } in
              let kept : HasStored after = record {
                main = h.main;
                audio = h.audio;
                request = h.request;
              } in
              if_elim Stored
                (not (is_initialized a.lifecycle && valid_activation rate min_frames max_frames)) _
                _ (λ _. h)
                (λ _.
                  if_elim Stored (not result.0) _ _ (λ _. kept)
                    (λ _.
                      enter_active-HasStored rate min_frames max_frames s prepared after (k s refl)
                        kept))
        ]

plugin_activate-HasStored :
    (granted : Bool) (rate : Double) (min_frames max_frames : ℕ) (a : Adapter)
    → HasStored a
    → HasStored (plugin_activate granted rate min_frames max_frames a).1
unfolding plugin_activate
plugin_activate-HasStored granted rate min_frames max_frames a h =
    activated (snapshot 3 a.config_request) granted rate min_frames max_frames a h
      (λ s. snapshot-IsStored 3 a.config_request s h.request)

kept_request :
    (o : Option ConfigRequestSnapshot) (a : Adapter)
    → HasStored a
    → ((s : ConfigRequestSnapshot) → o ≡ some s → IsStored s.config)
    → HasStored (elim o [
      | none ↦ a
      | some s ↦
          if generation_newer s.generation a.main_generation
          then record a { main_config = s.config; main_generation = s.generation }
          else a
    ])
kept_request none a h k = h
kept_request (some s) a h k =
    if_elim HasStored (generation_newer s.generation a.main_generation) _ _
      (λ _. record { main = k s refl; audio = h.audio; request = h.request }) (λ _. h)

keep_request-HasStored : (a : Adapter) → HasStored a → HasStored (keep_request a)
unfolding keep_request
keep_request-HasStored a h =
    kept_request (snapshot 3 a.config_request) a h
      (λ s. snapshot-IsStored 3 a.config_request s h.request)

plugin_deactivate-HasStored : (a : Adapter) → HasStored a → HasStored (plugin_deactivate a)
unfolding plugin_deactivate
plugin_deactivate-HasStored a h =
    let kept = keep_request-HasStored a h in
    if_elim HasStored (is_suspended a.lifecycle) _ _
      (λ _. record { main = kept.main; audio = kept.audio; request = kept.request }) (λ _. h)

plugin_reset-HasStored : (a : Adapter) → HasStored a → HasStored (plugin_reset a)
unfolding plugin_reset
plugin_reset-HasStored a h =
    if_elim HasStored (is_running a.lifecycle) _ _
      (λ _.
        latch_status-HasStored Status.panic_hold
          (record a { midi_pipeline = MidiPipeline.request_reset a.midi_pipeline })
          (record { main = h.main; audio = h.audio; request = h.request }))
      (λ _. h)

-- What is loaded was decoded.
decoded :
    {S : Type 0} (image : Option (List ℕ)) (at_end : Bool) (after last : S) (c : PersistentConfig)
    → (let r : Option PersistentConfig × S = elim image [
      | none ↦ (none, after)
      | some bytes ↦ if at_end then (decode_state bytes, last) else (none, last)
    ] in
        r.0 ≡ some c)
    → IsStored c
decoded none at_end after last c e = absurd (none-ne-some c e)
decoded (some bytes) true after last c e = decode_state-IsStored bytes c e
decoded (some bytes) false after last c e = absurd (none-ne-some c e)

loaded :
    (o : Option ℕ) (candidate : PersistentConfig) (tried : Adapter)
    → IsStored candidate
    → HasStored tried
    → (let r : Bool × Adapter = elim o [
      | none ↦ (false, tried)
      | some generation ↦ (true, rescan (adopt_loaded candidate generation tried))
    ] in
        HasStored r.1)
loaded none candidate tried k h = h
loaded (some generation) candidate tried k h =
    rescan-HasStored (adopt_loaded candidate generation tried)
      (adopt_loaded-HasStored candidate generation tried k h)

published :
    (o : Option PersistentConfig) (a : Adapter)
    → HasStored a
    → ((c : PersistentConfig) → o ≡ some c → IsStored c)
    → (let r : Bool × Adapter = elim o [
      | none ↦ (false, a)
      | some candidate ↦
          let (generation, tried) = publish_loaded 3 candidate a in
          elim generation [
            | none ↦ (false, tried)
            | some g ↦ (true, rescan (adopt_loaded candidate g tried))
          ]
    ] in
        HasStored r.1)
published none a h k = h
published (some candidate) a h k =
    loaded (publish_loaded 3 candidate a).0 candidate (publish_loaded 3 candidate a).1
      (k candidate refl) (publish_loaded-HasStored 3 candidate a (k candidate refl) h)

module _ {S : Type 0} (stream : Stream S) where
  load_state-IsStored :
      (s : S) (c : PersistentConfig) → (load_state stream state_codec s).0 ≡ some c → IsStored c
  unfolding load_state decode_state encode_state
  load_state-IsStored s c e =
      decoded (read_exact stream 184 184 s).0 (read_eof stream (read_exact stream 184 184 s).1).0 _
        _ c e

  state_load-HasStored : (s : S) (a : Adapter) → HasStored a → HasStored (state_load stream s a).1
  unfolding state_load
  state_load-HasStored s a h =
      published (load_state stream state_codec s).0 a h (load_state-IsStored s)

-- The calls of the host, with what they are given.
pub data Call (abi : ParameterAbi) {S : Type 0} (stream : Stream S) (a : Adapter)
    : Adapter → Type 0 where
  flush : (input : Option InputEvents) → Call abi stream a (params_flush abi input a)
  load : (s : S) → Call abi stream a (state_load stream s a).1
  main_thread : Call abi stream a (on_main_thread a)
  start : Call abi stream a (start_processing a).1
  stop : Call abi stream a (stop_processing a)
  set_up : (has_rescan : Bool) → Call abi stream a (plugin_init has_rescan a).1
  activate :
      (granted : Bool) (rate : Double) (min_frames max_frames : ℕ)
      → Call abi stream a (plugin_activate granted rate min_frames max_frames a).1
  deactivate : Call abi stream a (plugin_deactivate a)
  recover : Call abi stream a (plugin_reset a)

-- The states after any calls since the creation.
pub data Reached (abi : ParameterAbi) {S : Type 0} (stream : Stream S) : Adapter → Type 0 where
  fresh : (has_callback : Bool) → Reached abi stream (new_adapter has_callback)
  next : {a b : Adapter} → Reached abi stream a → Call abi stream a b → Reached abi stream b

module _ (abi : ParameterAbi) {S : Type 0} (stream : Stream S) where
  Call-HasStored : (a b : Adapter) → Call abi stream a b → HasStored a → HasStored b
  Call-HasStored a b (flush input) h = params_flush-HasStored abi input a h
  Call-HasStored a b (load s) h = state_load-HasStored stream s a h
  Call-HasStored a b main_thread h = on_main_thread-HasStored a h
  Call-HasStored a b start h = start_processing-HasStored a h
  Call-HasStored a b stop h = stop_processing-HasStored a h
  Call-HasStored a b (set_up has_rescan) h = plugin_init-HasStored has_rescan a h
  Call-HasStored a b (activate granted rate min_frames max_frames) h =
      plugin_activate-HasStored granted rate min_frames max_frames a h
  Call-HasStored a b deactivate h = plugin_deactivate-HasStored a h
  Call-HasStored a b recover h = plugin_reset-HasStored a h

  Reached-HasStored : (a : Adapter) → Reached abi stream a → HasStored a
  Reached-HasStored a (fresh has_callback) = new_adapter-HasStored has_callback
  Reached-HasStored b (next {a} r call) = Call-HasStored a b call (Reached-HasStored a r)

  -- After any sequence of initializations, activations, deactivations, starts, stops and resets,
  -- flushed parameter events, loaded states and callbacks on the main thread, each undisturbed and
  -- whatever the host passes, the configuration of the main thread has an image, and the image gives
  -- it back. Processing calls are not among them.
  pub Reached-Restored : (a : Adapter) → Reached abi stream a → Restored a.main_config
  Reached-Restored a r = decode_state-encode_state a.main_config (Reached-HasStored a r).main
