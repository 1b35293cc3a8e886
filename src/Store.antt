-- ===== src/Store.antt =====
-- The stores of web/src/store.
mod Tests
pub mod Flow
pub mod Run
pub mod Session
