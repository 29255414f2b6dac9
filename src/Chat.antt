-- ===== src/Chat.antt =====
-- The chat agent (services/gateway/src/chat): the history that a turn works on, its compaction, the
-- tools and the loop.
pub mod History
pub mod Compaction
pub mod Tools
pub mod Agent
pub mod Run
pub mod Turn
mod Tests
