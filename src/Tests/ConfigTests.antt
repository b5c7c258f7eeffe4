-- ===== src/Tests/ConfigTests.antt =====
-- The theorems on the configuration requests and on the exchange of prepared configurations.
use polyphonic_audio_to_midi.Prelude.{
  ℕ, ◌+◌, ◌-◌, ◌<◌, ◌⊎◌, ◌^◌, ◌≡◌, refl, true, false, some, arith, if◌then◌else◌, suc,
}
use polyphonic_audio_to_midi.Types.{PersistentConfig, default_config}
use polyphonic_audio_to_midi.ConfigRequest
use polyphonic_audio_to_midi.ConfigRequest.{
  AtomicConfigRequest, ConfigRequestSnapshot, new_request, generation_newer, snapshot,
  copy_structural_config, copy_runtime_config,
}
use polyphonic_audio_to_midi.ConfigRequest.Generation.{behind, generation_newer_order}
use polyphonic_audio_to_midi.ConfigRequest.RoundTrip.{IsConfig, snapshot-publish, copy_configs}

-- Pitch 432 Hz, all else as by default.
abbrev tuned : PersistentConfig
tuned = record default_config { a4_hz = 0x407b000000000000; max_polyphony = 4 }

tuned-IsConfig : IsConfig tuned
tuned-IsConfig = record {
  routing = tt;
  profile = tt;
  velocity = tt;
  sensitivity = omega arith;
  response = omega arith;
  lowest = omega arith;
  highest = omega arith;
  polyphony = omega arith;
  fret = omega arith;
  fixed = omega arith;
  channel = omega arith;
}

default-IsConfig : IsConfig default_config
default-IsConfig = record {
  routing = tt;
  profile = tt;
  velocity = tt;
  sensitivity = omega arith;
  response = omega arith;
  lowest = omega arith;
  highest = omega arith;
  polyphony = omega arith;
  fret = omega arith;
  fixed = omega arith;
  channel = omega arith;
}

-- Past the wrap-around.
generation_newer_order_example :
    let last : ℕ = 2 ^ 64 - 1 in
    let a : ℕ = 3 in
    let b : ℕ = 1 in
    (generation_newer 3 1 ≡ true → generation_newer 1 3 ≡ false)
    × (generation_newer 3 1 ≡ false
        → generation_newer 1 3 ≡ false
        → (a ≡ b) ⊎ (behind 3 1 ≡ 2 ^ 63))
    × (generation_newer 3 1 ≡ true
        → generation_newer 1 last ≡ true
        → behind 3 1 + behind 1 last < 2 ^ 63
        → generation_newer 3 last ≡ true)
generation_newer_order_example =
    generation_newer_order 3 1 (2 ^ 64 - 1) (omega arith) (omega arith) (omega arith)

snapshot-publish_example :
    let (ok, r') = ConfigRequest.publish tuned 7 (new_request default_config 6) in
    (ok ≡ generation_newer 7 (new_request default_config 6).generation)
    × (snapshot (suc 2) r' ≡ (
        if ok
        then some (record { config = tuned; generation = 7 })
        else snapshot (suc 2) (new_request default_config 6)))
unfolding new_request
snapshot-publish_example =
    snapshot-publish tuned 7 2 (new_request default_config 6) tuned-IsConfig refl

copy_configs_example :
    (copy_runtime_config (copy_structural_config default_config tuned) tuned ≡ tuned)
    × (copy_structural_config (copy_runtime_config default_config tuned) tuned ≡ tuned)
copy_configs_example = copy_configs default_config tuned
