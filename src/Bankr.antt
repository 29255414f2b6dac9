-- ===== src/Bankr.antt =====
-- The runtime behind the gateway's tools, services/gateway/src/bankr-adapter.ts.
pub mod Http
pub mod Adapter
pub mod Writes
pub mod Payments
pub mod Runtime
pub mod Governed
pub mod Submitted
mod Tests
