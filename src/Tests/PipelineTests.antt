-- ===== src/Tests/PipelineTests.antt =====
-- The theorems on the MIDI pipeline, for the sample ledger and a host that takes every other event.
use polyphonic_audio_to_midi.Prelude.{◌≡◌, Bool, true, false, List, [], ◌∷◌, some, arith, replicate}
use polyphonic_audio_to_midi.Types.{MidiRouting}
use polyphonic_audio_to_midi.Ledger.Invariant.{IsValid}
use polyphonic_audio_to_midi.Ledger.Retry.{IsHonest}
use polyphonic_audio_to_midi.MidiPipeline.{
  ClapAbi, InputEvent, OutputEvent, midi, InputEvents, OutputEvents, MidiPipeline, new_pipeline,
}
use polyphonic_audio_to_midi.MidiPipeline.Delivery.{
  process, Block, DeliveryContext, flush_inputs, pipeline_sink,
}
use polyphonic_audio_to_midi.MidiPipeline.Flush.{flush_inputs-final, pipeline_sink-IsHonest}
use polyphonic_audio_to_midi.MidiPipeline.Sounding.{logged_output, HostBalanced}
use polyphonic_audio_to_midi.MidiPipeline.Process.{process-HostBalanced}
use polyphonic_audio_to_midi.Tests.Samples.{sample, sample-IsValid}

abbrev clap : ClapAbi
clap = record { core_space_id = 0; midi_type = 10; midi_size = 24 }

abbrev input_event : InputEvent
input_event = record {
  time = 16;
  space_id = 0;
  type_id = 10;
  size = 24;
  bytes = 0x90 ∷ 40 ∷ 70 ∷ [];
}

abbrev inputs : InputEvents
inputs = record { size = some 2; get = some (λ _. some input_event) }

abbrev host : OutputEvents Bool
host = record { try_push = some (λ h e. (h, elim h [ true ↦ false | false ↦ true ])) }

abbrev sample_pipeline : MidiPipeline
sample_pipeline = record new_pipeline { ledger = sample }

-- The note-on that the host has taken for the note that sounds.
abbrev host_log : List OutputEvent
host_log = midi 0 0x90 60 80 ∷ []

host_log-HostBalanced : HostBalanced host_log sample
host_log-HostBalanced n channel lo hi = ground arith

process-HostBalanced_example :
    let (r, h', p') =
      process clap 64 1
        (some inputs)
        (logged_output (some host))
        0
        true
        true
        MidiRouting.single
        (true, host_log)
        sample_pipeline in
    IsValid p'.ledger × HostBalanced h'.1 p'.ledger
process-HostBalanced_example =
    process-HostBalanced clap 64 1 (some inputs) (some host) 0 true true MidiRouting.single
      (true, host_log) sample_pipeline sample-IsValid host_log-HostBalanced

abbrev sample_block : Block Bool
sample_block = record {
  abi = clap;
  input = some inputs;
  output = some host;
  frames = 64;
  input_count = 2;
  routing = MidiRouting.single;
  start_channel = 1;
}

abbrev sample_context : DeliveryContext Bool
sample_context = record {
  host = true;
  invalid_event = false;
  channel_panic_mask = replicate 16 false;
  input_index = 1;
  last_input_offset = 16;
  have_last_input = true;
  reported = false;
}

flush_inputs-final_example :
    (flush_inputs sample_block 64 true true sample_context).1.input_index ≡ 2
flush_inputs-final_example = flush_inputs-final sample_block 64 true sample_context (omega arith)

pipeline_sink-IsHonest_example : IsHonest (pipeline_sink sample_block)
pipeline_sink-IsHonest_example = pipeline_sink-IsHonest sample_block
