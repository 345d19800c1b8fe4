-- ===== src/Dom/Events.antt =====
-- chromium/third_party/blink/renderer/core/dom/events: the listeners of a target and their firing.
pub mod Listener
pub mod Event
pub mod ListenerMap
pub mod Target
pub mod Dispatcher
