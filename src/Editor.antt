-- ===== src/Editor.antt =====
-- web/src/editor: how the flow tree becomes the cards and the edges of the canvas.
pub mod Geometry
pub mod Canvas
mod Tests
