-- ===== src/ClapAdapter/Kept.antt =====
-- The calls on the main thread keep the configurations of the adapter ones that can be saved.
use polyphonic_audio_to_midi.Prelude.{
  ℕ, zero, suc, ◌≡◌, refl, Bool, true, false, not, ◌&&◌, Option, none, some, if◌then◌else◌, if_elim,
}
use polyphonic_audio_to_midi.Types.{PersistentConfig, Status}
use polyphonic_audio_to_midi.Parameters.Stored.{IsStored}
use polyphonic_audio_to_midi.ConfigRequest
use polyphonic_audio_to_midi.ConfigRequest.{
  snapshot, generation_newer, structural_config_equal, ConfigRequestSnapshot, add64, load_fields,
}
use polyphonic_audio_to_midi.ConfigExchange
use polyphonic_audio_to_midi.PreparedConfig.{PreparedConfig, stage_prepared_config}
use polyphonic_audio_to_midi.ClapAdapter.{Adapter, is_running, latch_status}
use polyphonic_audio_to_midi.ClapAdapter.Configs.{
  HasStored, latch_status-HasStored, mark_values_dirty-HasStored, publish-IsStored,
  snapshot-IsStored,
}
use polyphonic_audio_to_midi.ClapAdapter.MainThread.{
  publish_staged, stage_for_publication, publish_loaded, ask_reconfiguration, rescan, adopt_loaded,
  adopt_request, read_request, retry_publication, on_main_thread,
}

abbrev pub Stored : Bool × Adapter → Type 0
Stored r = HasStored r.1

staged :
    (o : Option PreparedConfig) (generation : ℕ) (a : Adapter)
    → HasStored a
    → (let r : Bool × Adapter = elim o [
      | none ↦ (false, latch_status Status.invalid_input_or_state a)
      | some prepared ↦ publish_staged prepared generation a
    ] in
        HasStored r.1)
unfolding publish_staged
staged none generation a h = latch_status-HasStored Status.invalid_input_or_state a h
staged (some prepared) generation a h = record {
  main = h.main;
  audio = h.audio;
  request = h.request;
}

stage_for_publication-HasStored :
    (config : PersistentConfig) (generation : ℕ) (a : Adapter)
    → HasStored a
    → HasStored (stage_for_publication config generation a).1
unfolding stage_for_publication
stage_for_publication-HasStored config generation a h =
    staged (stage_prepared_config config a.sample_rate) generation a h

pub publish_loaded-HasStored :
    (attempts : ℕ) (candidate : PersistentConfig) (a : Adapter)
    → IsStored candidate
    → HasStored a
    → HasStored (publish_loaded attempts candidate a).1
unfolding publish_loaded
publish_loaded-HasStored zero candidate a k h = h
publish_loaded-HasStored (suc attempts) candidate a k h =
    let generation = add64 a.generation_counter 1 in
    let published = ConfigRequest.publish candidate generation a.config_request in
    let tried : Adapter = record a {
      generation_counter = generation;
      config_request = published.1;
    } in
    let kept : HasStored tried = record {
      main = h.main;
      audio = h.audio;
      request = publish-IsStored candidate generation a.config_request k h.request;
    } in
    if_elim (λ (r : Option ℕ × Adapter). HasStored r.1) published.0 _ _ (λ _. kept)
      (λ _. publish_loaded-HasStored attempts candidate tried k kept)

pub adopt_loaded-HasStored :
    (candidate : PersistentConfig) (generation : ℕ) (before : Adapter)
    → IsStored candidate
    → HasStored before
    → HasStored (adopt_loaded candidate generation before)
unfolding adopt_loaded
adopt_loaded-HasStored candidate generation before k h =
    let a : Adapter = record before {
      main_config = candidate;
      main_generation = generation;
      panic_requested = false;
    } in
    let asked : HasStored (ask_reconfiguration generation a) = record {
      main = k;
      audio = h.audio;
      request = h.request;
    } in
    let staged_adapter =
      (stage_for_publication candidate generation (ask_reconfiguration generation a)).1 in
    let latched = latch_status Status.reconfiguring staged_adapter in
    let kept = latch_status-HasStored Status.reconfiguring staged_adapter (
      stage_for_publication-HasStored candidate generation (ask_reconfiguration generation a)
        asked) in
    if_elim HasStored (not (is_running a.lifecycle)) _ _
      (λ _. record { main = k; audio = h.audio; request = h.request })
      (λ _.
        if_elim HasStored latched.prepared_publication_pending _ _
          (λ _. mark_values_dirty-HasStored latched kept) (λ _. kept))

pub rescan-HasStored : (a : Adapter) → HasStored a → HasStored (rescan a)
unfolding rescan
rescan-HasStored a h = record { main = h.main; audio = h.audio; request = h.request }

adopt_request-HasStored :
    (s : ConfigRequestSnapshot) (before : Adapter)
    → IsStored s.config
    → HasStored before
    → HasStored (adopt_request s before).1
unfolding adopt_request
adopt_request-HasStored s before k h =
    let structural = not (structural_config_equal before.main_config s.config) in
    let a : Adapter = record before { main_config = s.config; main_generation = s.generation } in
    let taken : HasStored a = record { main = k; audio = h.audio; request = h.request } in
    let asked : HasStored (ask_reconfiguration s.generation a) = record {
      main = k;
      audio = h.audio;
      request = h.request;
    } in
    let latched = latch_status Status.reconfiguring (ask_reconfiguration s.generation a) in
    let kept =
      latch_status-HasStored Status.reconfiguring (ask_reconfiguration s.generation a) asked in
    if_elim Stored (structural && is_running a.lifecycle) _ _
      (λ _. stage_for_publication-HasStored s.config s.generation latched kept) (λ _. taken)

read :
    (o : Option ConfigRequestSnapshot) (a : Adapter)
    → HasStored a
    → ((s : ConfigRequestSnapshot) → o ≡ some s → IsStored s.config)
    → (let r : Bool × Adapter = elim o [
      | none ↦ (true, a)
      | some s ↦
          if generation_newer s.generation a.main_generation then adopt_request s a else (false, a)
    ] in
        HasStored r.1)
read none a h k = h
read (some s) a h k =
    if_elim Stored (generation_newer s.generation a.main_generation) _ _
      (λ _. adopt_request-HasStored s a (k s refl) h) (λ _. h)

read_request-HasStored : (a : Adapter) → HasStored a → HasStored (read_request a).1
unfolding read_request
read_request-HasStored a h =
    read (snapshot 3 a.config_request) a h (λ s. snapshot-IsStored 3 a.config_request s h.request)

retry_publication-HasStored :
    (retry : Bool) (a : Adapter) → HasStored a → HasStored (retry_publication retry a).1
unfolding retry_publication
retry_publication-HasStored retry a h =
    let published =
      ConfigExchange.publish a.pending_prepared a.pending_prepared_generation a.prepared_exchange in
    if_elim Stored (not a.prepared_publication_pending) _ _ (λ _. h)
      (λ _.
        if_elim Stored published.0 _ _
          (λ _. record { main = h.main; audio = h.audio; request = h.request })
          (λ _. record { main = h.main; audio = h.audio; request = h.request }))

pub on_main_thread-HasStored : (a : Adapter) → HasStored a → HasStored (on_main_thread a)
unfolding on_main_thread
on_main_thread-HasStored before h =
    let cleared : Adapter = record before { values_dirty = false } in
    let first = read_request cleared in
    let b = retry_publication first.0 first.1 in
    let read_kept =
      read_request-HasStored cleared
        (record { main = h.main; audio = h.audio; request = h.request }) in
    let kept = retry_publication-HasStored first.0 first.1 read_kept in
    let c = if before.values_dirty then rescan b.1 else b.1 in
    let rescanned : HasStored c =
      if_elim HasStored before.values_dirty _ _ (λ _. rescan-HasStored b.1 kept) (λ _. kept) in
    if_elim HasStored b.0 _ _ (λ _. mark_values_dirty-HasStored c rescanned) (λ _. rescanned)
