-- ===== src/Kernel.antt =====
-- The identity kernel, packages/identity-kernel/src/index.ts: verdicts over the prompt, the context,
-- tool calls and the output of an agent turn.
pub mod Types
pub mod Patterns
pub mod Authority
pub mod Evaluate
pub mod Tools
pub mod Prompt
mod Tests
