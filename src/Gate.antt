-- ===== src/Gate.antt =====
-- The gated turn, services/gateway/src/identity-kernel-gate.ts.
pub mod Turn
pub mod Context
pub mod Events
pub mod Release
pub mod Kernel
mod Tests
