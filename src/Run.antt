-- ===== src/Run.antt =====
-- What the pages of web/src/run compute.
mod Tests
pub mod Keys
pub mod Trigger
