-- ===== src/Approval.antt =====
-- Sealed approvals and their use, services/gateway/src/bankr-approval-store.ts.
pub mod Types
pub mod Canonical
pub mod Parse
pub mod Own
pub mod Sealed
pub mod Lookup
pub mod Usage
pub mod Replay
pub mod Tests
