-- ===== src/Intake.antt =====
-- The intake of requests to the council and the workshop (services/gateway/src/intake.ts): what is
-- recorded, and what a wallet reads of its ledger.
pub mod Requests
pub mod Ledger
pub mod Listing
pub mod Created
mod Tests
