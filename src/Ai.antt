-- ===== src/Ai.antt =====
-- The assistant of web/src/ai.
mod Tests
pub mod Diff
pub mod Threads
pub mod Stream
pub mod Send
pub mod Apply
