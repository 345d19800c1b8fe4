-- ===== src/Script.antt =====
-- The scripts of a document.
pub mod ScriptRunner
pub mod ScriptStreamer
pub mod ClassicPendingScript
pub mod ScriptLoader
mod ScriptTests
mod LoadingTests
