-- ===== src/Loader.antt =====
-- blinkit/crawler, blinkit/loader_tasks and blink_impl/url_loader_impl.cpp: from a request of a
-- crawler to what the loader's client hears.
pub mod CookieJar
pub mod Crawler
pub mod HttpLoader
pub mod HttpLoaderTask
mod LoaderTests
mod CookieTests
