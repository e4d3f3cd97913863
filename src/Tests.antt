-- ===== src/Tests.antt =====
-- The properties at concrete inputs, and runs of the definitions.
mod RdmaTests
mod BusTests
mod OrderBookTests
mod SchedulerTests
mod HeartbeatTests
mod WorkerTests
mod EngineTests
mod MarketTests
mod RefinementTests
mod SettlementTests
