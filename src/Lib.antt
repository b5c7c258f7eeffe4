-- ===== src/Lib.antt =====
-- A plug-in that turns polyphonic guitar audio into MIDI. A detector (native/src) finds the notes; a
-- ledger of generated notes sends their starts and ends to the host and recovers when the host
-- refuses events; in the CLAP plug-in (native/plugin) a MIDI pipeline merges them with the host's own
-- events. Configurations go from the main thread to the audio thread through a request of atomic
-- words and an exchange of three slots, tuner frames and string calibrations go through blocks of
-- atomic words, and the
-- hosts keep the state as a stream of bytes.
--
-- Which file is about what:
--   Prelude: tests and lists. Double: the bits of a `double`, with their arithmetic (Double.Arith), as
--     IEEE 754 has it for each operation by itself, rounded to the nearest.
--   Types: native/include/m3/constants.hpp and types.hpp.
--   Ledger: native/src/generated_note_ledger.cpp, GeneratedNoteLedger; Ledger.Delivery has the calls
--     that push to a sink. A function has the name of the member function; a member function that
--     changes the object gives the new state beside its result, and a sink is a function on a state.
--   MidiPipeline: native/plugin/midi_pipeline.cpp, MidiPipeline; MidiPipeline.Delivery has `process`.
--   SeqLock: the odd/even sequence of the transports with sequentially consistent accesses, as a step
--     relation. CalibrationBankTransport: native/src/calibration_bank_transport.cpp, an instance of it.
--   ConfigRequest: native/plugin/prepared_config_exchange.cpp, AtomicConfigRequest and the copies of
--     configurations, each call as it runs undisturbed.
--   ConfigExchange: the same file, PreparedConfigExchange.
--   TunerTelemetry: native/src/tuner_telemetry.cpp.
--   Parameters: native/src/parameter_contract.cpp, the table of parameters and the values by parameter.
--   StateImage: native/src/state_image.cpp, the image of a configuration with its checksum.
--   PreparedConfig: native/plugin/prepared_config_exchange.cpp, stage_prepared_config.
--   ClapAdapter: native/plugin/clap_adapter.cpp, the parameters from the host's events to the request;
--     ClapAdapter.MainThread has the loading of states and the callback, ClapAdapter.LifeCycle the
--     activations. A member function that returns a Boolean gives it beside the new state.
--   Vst3EventSink: native/vst3/vst3_event_sink.cpp.
--   StateStream: native/plugin/clap_state_stream.cpp and native/vst3/vst3_state_stream.cpp.
--   Tests: the theorems at concrete inputs.
--
-- How the parts meet: the pipeline keeps a ledger and hands it a sink that first flushes the input
-- events due; the sink may report a failure on the ledger while the ledger delivers. The request and
-- the exchange share the comparison of generations. The streams use a codec of images as an
-- interface; the codec of the state images, which applies what it reads through the parameters, is an
-- instance. The CLAP adapter applies the host's events through the parameters and publishes the
-- configuration in the request.
--
-- Bounds and fuel: numbers are natural numbers, with the wrap-around written out where the code
-- relies on it (generations modulo 2^64, the sequences of the transports modulo 2^32). The
-- logarithm of the arithmetic on doubles runs on the 12 bits of its result, which is enough for every
-- number of less than 4096 bits, as the finite doubles and their quotients here are. The scans
-- run over the eight voices, the sixteen channels, the 128 notes or the three slots. The loop over the
-- input events runs on the number of events left, the loops of the streams on the bytes left, and the
-- attempts of a reader, a publisher or a claim on the count that the code allows; each turn uses up
-- one, so the fuel is enough.
--
-- Not modelled: the signal processing of the detector, the texts of parameters, the processing calls of
-- the CLAP adapter, the VST3 component, null streams, the interfaces of CLAP and VST3 beyond the
-- calls that are parameters, the user interface, and the offline tools. The accesses of the calibration
-- bank transport are taken in one order, as `memory_order_seq_cst` has it; its reset, which is made
-- while nobody else is at work, is left out. The calls of the configuration request, whose accesses
-- are relaxed, and those of the exchange and of the tuner transport are each taken undisturbed.
pub mod Prelude
pub mod Double
pub mod Types
pub mod Parameters
pub mod StateImage
pub mod PreparedConfig
pub mod ClapAdapter
pub mod Ledger
pub mod MidiPipeline
pub mod Vst3EventSink
pub mod TunerTelemetry
pub mod StateStream
pub mod SeqLock
pub mod CalibrationBankTransport
pub mod ConfigRequest
pub mod ConfigExchange
pub mod Tests
