-- ===== src/Mcp.antt =====
-- The passport-governed MCP gateway, services/gateway/src/mcp-base.ts.
pub mod Tools
pub mod Session
pub mod Args
pub mod Approved
pub mod Store
pub mod Resolve
pub mod Grant
pub mod Verdict
pub mod Execution
pub mod Call
pub mod Policy
pub mod Authorised
pub mod Lifecycle
pub mod Files
pub mod Raw
pub mod Binding
pub mod Rpc
pub mod Requests
pub mod Tests
mod RpcTests
