-- ===== src/View.antt =====
-- blinkit/view: the mouse and the updates of a view, in an older interface that the build for
-- crawlers leaves out.
pub mod Updates
pub mod Mouse
