-- ===== src/Passport.antt =====
-- Passports: how the document behind an on-chain passport becomes a session's passport
-- (services/gateway/src/identity-kernel-passport-resolver.ts), and how the document is given a
-- grant to read (services/gateway/src/identity-kernel-passport-grant-update.ts).
pub mod Fields
pub mod Document
pub mod Owner
pub mod Update
pub mod Plan
pub mod Updated
pub mod Execution
mod Tests
mod UpdateTests
