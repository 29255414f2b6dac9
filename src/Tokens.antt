-- ===== src/Tokens.antt =====
-- The access tokens of the MCP routes, services/gateway/src/mcp-tokens.ts.
pub mod Types
pub mod Store
pub mod Single
pub mod Verify
mod Tests
