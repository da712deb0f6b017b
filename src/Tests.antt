-- ===== src/Tests.antt =====
-- Runs of the model at concrete inputs.
mod BlocksTests
mod ChainListTests
mod BlockTimeTests
mod IndexerTests
mod MulticallTests
mod StorageTests
mod WatchTests
mod ChainTests
mod SchedulerTests
mod CoverageTests
mod HistoryTests
mod StoreTests
mod BatchTests
mod QueryTests
mod LiveTests
mod ErrorTests
mod WsTests
mod HttpTests
mod ReadsTests
mod ModelTests
mod EndpointsTests
