-- ===== src/Access.antt =====
-- Who may use the public gateway, and how much: the holder's session token and the free prompts
-- (services/gateway/src/chat/freebies.ts), and the rate limit (services/gateway/src/security.ts).
pub mod Session
pub mod Holder
pub mod FreePrompts
pub mod Metering
pub mod RateLimit
pub mod Window
pub mod Hits
mod Tests
