-- ===== src/Tests/AdapterTests.antt =====
-- The theorems on the parameters of the CLAP adapter and on what is staged for the exchange.
use mathlib.Core.Logic.{◌↔◌}
use polyphonic_audio_to_midi.Prelude.{
  ℕ, ◌-◌, ◌^◌, ◌≡◌, refl, true, [], ◌∷◌, Option, some, get_elem?,
}
use polyphonic_audio_to_midi.Types.{default_config}
use polyphonic_audio_to_midi.Double.{is_finite, less, is_nan}
use polyphonic_audio_to_midi.Double.Arith.{of_nat, div}
use polyphonic_audio_to_midi.Parameters.Stored.{default_config-IsStored}
use polyphonic_audio_to_midi.Parameters.Structural.{structural_config_equal_iff}
use polyphonic_audio_to_midi.ConfigRequest.{
  structural_config_equal, copy_structural_config, snapshot, generation_newer, new_request, add64,
}
use polyphonic_audio_to_midi.MidiPipeline.{InputEvents}
use polyphonic_audio_to_midi.PreparedConfig.{stage_prepared_config}
use polyphonic_audio_to_midi.PreparedConfig.Staged.{
  IsRate, prepared, stage_prepared_config-IsStored,
}
use polyphonic_audio_to_midi.ClapAdapter.{
  Adapter, ParameterAbi, new_adapter, params_flush, publish_audio_config,
}
use polyphonic_audio_to_midi.ClapAdapter.Configs.{IsStored-IsConfig}
use polyphonic_audio_to_midi.ClapAdapter.Reached.{Call, Reached, Reached-Restored}
use polyphonic_audio_to_midi.StateImage.RoundTrip.{Restored}
use polyphonic_audio_to_midi.Tests.TransportTests.{memory}
use polyphonic_audio_to_midi.ClapAdapter.Events.{Sent, publish_audio_config_lem}

-- The value of the event is its time.
abbrev abi : ParameterAbi
unfolding of_nat
abi = record {
  core_space_id = 0;
  param_value_type = 5;
  param_value_size = 56;
  event_of = λ e. record {
    param_id = 0x4d330009;
    note_id = 2 ^ 32 - 1;
    port_index = 2 ^ 16 - 1;
    channel = 2 ^ 16 - 1;
    key = 2 ^ 16 - 1;
    value = of_nat e.time;
  };
}

-- The polyphony is set to 3, and then to 20, which is out of its range.
abbrev events : Option InputEvents
events = some (record {
  size = some 2;
  get = some (λ i.
      get_elem?
        (record { time = 3; space_id = 0; type_id = 5; size = 56; bytes = [] }
          ∷ record { time = 20; space_id = 0; type_id = 5; size = 56; bytes = [] }
          ∷ [])
        i);
})

abbrev flushed : Adapter
unfolding params_flush
flushed = params_flush abi events (new_adapter true)

flushed-Reached : Reached abi memory flushed
unfolding params_flush
flushed-Reached = Reached.next (Reached.fresh true) (Call.flush events)

Reached-Restored_example : Restored flushed.main_config
Reached-Restored_example = Reached-Restored abi memory flushed flushed-Reached

newer :
    generation_newer
      (add64 (new_adapter true).generation_counter 1)
      (new_adapter true).config_request.generation
    ≡ true
unfolding generation_newer new_request
newer = refl

publish_audio_config_example :
    ((publish_audio_config true (new_adapter true)).0 ≡ true)
    × Sent
        (λ q. snapshot 3 q ≡ some (record { config = default_config; generation = 2 }))
        true
        2
        (publish_audio_config true (new_adapter true)).1
unfolding new_request
publish_audio_config_example =
    publish_audio_config_lem true (new_adapter true)
      (IsStored-IsConfig default_config default_config-IsStored) refl newer

-- 48 kHz.
abbrev rate : ℕ
unfolding of_nat
rate = of_nat 48000

rate-IsRate : IsRate rate
unfolding is_finite less is_nan div of_nat
rate-IsRate = record { rate = refl; sample = refl; decision = refl }

stage_prepared_config-IsStored_example :
    stage_prepared_config default_config rate ≡ some (prepared default_config rate)
stage_prepared_config-IsStored_example =
    stage_prepared_config-IsStored default_config rate default_config-IsStored rate-IsRate

structural_config_equal_iff_example :
    (structural_config_equal default_config default_config ≡ true)
    ↔ (copy_structural_config default_config default_config ≡ default_config)
structural_config_equal_iff_example =
    structural_config_equal_iff default_config default_config default_config-IsStored
      default_config-IsStored
