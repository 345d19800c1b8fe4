-- ===== src/Js.antt =====
-- blinkit/js: the values that scripts yield, and the context that runs them. Duktape is what its
-- documentation says of the calls that are made of it.
pub mod Value
pub mod Pins
pub mod Context
mod JsTests
