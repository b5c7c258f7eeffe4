-- ===== src/Tests.antt =====
-- The theorems of each component at concrete inputs.
mod Samples
mod LedgerTests
mod PipelineTests
mod ConfigTests
mod CalibrationTests
mod ExchangeTests
mod TransportTests
mod StateTests
mod AdapterTests
