-- ===== src/App/WinBackground.antt =====
-- blinkit/app/win_app.cpp: the application of the background mode on Windows, that is the thread that
-- calls `BkInitialize`, the background thread, and a thread that calls `BkExitApp` once
-- `BkInitialize` has come back. A turn runs a thread to its next program point. `data_misuse` is a use
-- of the launcher's local variable after its life. `app_misuse` is one of the application after its
-- life, or closing a handle that another thread waits on, which Windows leaves undefined.
pub mod Safety
pub mod Exit
use blinkit.Prelude.{
  Bool, true, false, not, ◌&&◌, ◌||◌, List, [], ◌∷◌, Option, none, some, if◌then◌else◌, ℤ,
}

-- `InitializeBackgroundInstance`: before `CreateThread`, before the assignment of its result to
-- `data.hThread`, at `WaitForSingleObject`, and after the return.
pub data Launcher : Type 0 where
  creating storing awaiting launched : Launcher

-- `BackgroundThread`: before `new WinApp`, `AppImpl::Initialize`, `IsGUIThread`, `SetEvent`, at
-- `GetMessage`, before `delete this`, and after the return. `failing` is the branch of no
-- application, before its `CloseHandle`, and `reporting` before its `SetEvent`.
pub data Background : Type 0 where
  absent constructing initializing entering signalling pumping deleting ended : Background
  failing reporting failed : Background

-- `WinApp::Exit`: before the call, after `PostThreadMessage`, at `WaitForSingleObject`, at its end.
pub data Caller : Type 0 where
  idle posted joining exited : Caller

pub record World : Type 0 where
  pub launcher : Launcher
  pub background : Background
  pub caller : Caller
  pub h_thread : Bool
  pub event : Bool
  pub held : Bool
  pub closed : Bool
  pub initialized : Bool
  pub queue : Bool
  pub quit : Option ℤ
  pub exit_code : Option ℤ
  pub data_misuse : Bool
  pub app_misuse : Bool

abbrev pub start : World
start = record {
  launcher = creating;
  background = absent;
  caller = idle;
  h_thread = false;
  event = false;
  held = false;
  closed = false;
  initialized = false;
  queue = false;
  quit = none;
  exit_code = none;
  data_misuse = false;
  app_misuse = false;
}

unfoldable pub is_launched : Launcher → Bool
is_launched launched = true
is_launched _ = false

unfoldable pub is_absent : Background → Bool
is_absent absent = true
is_absent _ = false

unfoldable pub is_joining : Caller → Bool
is_joining joining = true
is_joining _ = false

unfoldable pub is_ended : Background → Bool
is_ended ended = true
is_ended _ = false

-- After `delete this`.
unfoldable pub is_deleted : World → Bool
unfolding is_ended
is_deleted w = is_ended w.background

-- `InitializeBackgroundInstance`; `creates` says whether `CreateThread` makes a thread.
unfoldable pub launch : Bool → World → Launcher → World
unfolding is_absent
launch true w creating = record w { launcher = storing; background = constructing }
launch false w creating = record w { launcher = storing }
launch creates w storing = record w { launcher = awaiting; h_thread = not (is_absent w.background) }
launch creates w awaiting = if w.event then record w { launcher = launched; event = false } else w
launch creates w launched = w

-- A use of `data` in the background thread.
unfoldable pub use_data : World → World
unfolding is_launched
use_data w = record w { data_misuse = w.data_misuse || is_launched w.launcher }

-- `delete this`: `~WinApp` closes the handle that it has.
unfoldable pub delete_app : World → World
unfolding is_joining
delete_app w = record w {
  background = ended;
  closed = w.closed || w.held;
  exit_code = w.quit;
  app_misuse = w.app_misuse || (w.held && is_joining w.caller);
}

unfoldable pub get_message : World → Option ℤ → World
get_message w none = w
get_message w (some code) = record w { background = deleting }

-- The background thread; `allocates` says whether `new WinApp` gives an application.
unfoldable pub background_thread : Bool → World → Background → World
unfolding use_data delete_app get_message
background_thread allocates w absent = w
background_thread true w constructing = record (use_data w) {
  background = initializing;
  held = w.h_thread;
}
background_thread false w constructing = record w { background = failing }
background_thread allocates w initializing = record w { background = entering; initialized = true }
background_thread allocates w entering = record w { background = signalling; queue = true }
background_thread allocates w signalling = record (use_data w) {
  background = pumping;
  event = true;
}
background_thread allocates w pumping = get_message w w.quit
background_thread allocates w deleting = delete_app w
background_thread allocates w ended = w
background_thread allocates w failing = record (use_data w) {
  background = reporting;
  closed = w.h_thread;
}
background_thread allocates w reporting = record (use_data w) { background = failed; event = true }
background_thread allocates w failed = w

-- `WinApp::Exit`; a message to a thread without a queue is lost.
unfoldable pub exit : ℤ → World → Caller → World
unfolding is_launched is_ended is_deleted
exit code w idle =
    if is_launched w.launcher && w.initialized
    then record w { caller = posted; quit = if w.queue then some code else w.quit }
    else w
exit code w posted = record w {
  caller = if w.held then joining else exited;
  app_misuse = w.app_misuse || is_deleted w;
}
exit code w joining = if is_ended w.background then record w { caller = exited } else w
exit code w exited = w

pub data Turn : Type 0 where
  launcher_turn background_turn : Bool → Turn
  caller_turn : ℤ → Turn

unfoldable pub take_turn : Turn → World → World
unfolding launch background_thread exit
take_turn (launcher_turn creates) w = launch creates w w.launcher
take_turn (background_turn allocates) w = background_thread allocates w w.background
take_turn (caller_turn code) w = exit code w w.caller

unfoldable pub run : List Turn → World → World
unfolding take_turn
run [] w = w
run (t ∷ ts) w = run ts (take_turn t w)
