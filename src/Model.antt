-- ===== src/Model.antt =====
-- web/src/model: the flow tree, its edits and its checks.
mod Tests
pub mod Types
pub mod Tree
pub mod Update
pub mod Edits
pub mod Nodes
pub mod Problems
pub mod Validate
pub mod Layout
pub mod Json
pub mod Normal
pub mod Params
