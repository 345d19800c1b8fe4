-- ===== src/Http.antt =====
-- blinkit/common and blinkit/http: header maps, URLs, responses and requests.
pub mod Ascii
pub mod Code
pub mod HeaderMap
pub mod Request
pub mod Response
pub mod Url
pub mod WinInet
pub mod WinRequest
mod HeaderTests
mod UrlTests
pub mod Fixtures
mod RequestTests
mod ResponseTests
mod WinTests
