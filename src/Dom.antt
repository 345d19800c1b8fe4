-- ===== src/Dom.antt =====
-- The document object model: the life cycle of a document, and its events.
pub mod Tree
mod TreeTests
pub mod Lifecycle
pub mod Events
mod DomTests
