-- ===== src/App.antt =====
-- blinkit/app/app_impl.h, app_impl.cpp and posix_app.cpp: the application object and the calls that
-- start, run and end it, on POSIX systems and without assertions. `Platform::Current()` is what it
-- was set to for good, so the object behind it may have been deleted; a use of it then, or of a
-- null pointer, is `undefined`. A client is its 24 bytes in memory: its size, its data and `Exit`.
pub mod Lifetime
pub mod WinBackground
mod AppTests
use blinkit.Prelude.{
  ℕ, zero, suc, ◌+◌, Bool, true, false, not, List, [], ◌∷◌, Option, none, some, ◌==◌, if◌then◌else◌,
  Bytes, ℤ, pos, any, drop,
}
use blinkit.Runtime.TaskLoop.{TaskLoop, Place, returned, new_task_loop, exit, post_task}
use blinkit.Runtime.TaskLoop.Order.{run_steps}

-- `BkAppMode`, and any other number.
pub data AppMode : Type 0 where
  main_thread background other_mode : AppMode

pub record App : Type 0 where
  pub mode : AppMode
  pub client : Bytes
  pub task_loop : TaskLoop
  pub deletes : ℕ
  pub exit_calls : ℕ

-- A call: undefined behaviour, a call that has not come back yet, or its result and the object at
-- `Platform::Current()`.
pub data Outcome (A : Type 0) : Type 0 where
  undefined : Outcome A
  running : Outcome A
  done : A → Option App → Outcome A

-- `memset` and `memcpy` in the constructor of `AppImpl`, of `size` bytes at most.
unfoldable pub copy_client : ℕ → ℕ → Bytes → Bytes
copy_client zero size bytes = []
copy_client (suc total) zero bytes = 0 ∷ copy_client total zero bytes
copy_client (suc total) (suc size) [] = 0 ∷ copy_client total size []
copy_client (suc total) (suc size) (b ∷ bytes) = b ∷ copy_client total size bytes

abbrev pub client_size : ℕ
client_size = 24

abbrev pub exit_offset : ℕ
exit_offset = 16

-- `nullptr != m_client.Exit`
unfoldable pub has_exit : Bytes → Bool
has_exit client = any (λ (b : ℕ). not (b == 0)) (drop exit_offset client)

-- `AppImpl(mode, client)`, with the size in the client, or 0 for no client.
unfoldable pub new_app : AppMode → ℕ → Bytes → App
unfolding copy_client
new_app mode size bytes = record {
  mode = mode;
  client = copy_client client_size size bytes;
  task_loop = new_task_loop;
  deletes = 0;
  exit_calls = 0;
}

-- `~AppImpl`
unfoldable pub delete_app : App → App
unfolding has_exit
delete_app a = record a {
  deletes = a.deletes + 1;
  exit_calls = a.exit_calls + (if has_exit a.client then 1 else 0);
}

-- `BkInitialize`; `InitializeBackgroundInstance` of `PosixApp` does nothing.
unfoldable pub bk_initialize : AppMode → ℕ → Bytes → Option App → Bool × Option App
unfolding new_app
bk_initialize mode size bytes (some a) = (false, some a)
bk_initialize main_thread size bytes none = (true, some (new_app main_thread size bytes))
bk_initialize background size bytes none = (true, none)
bk_initialize other_mode size bytes none = (false, none)

-- The object at `AppImpl::Get()`, for a call that goes by its mode.
unfoldable pub with_app : {A : Type 0} → (App → AppMode → Outcome A) → Option App → Outcome A
with_app f none = undefined
with_app f (some a) = if a.deletes == 0 then f a a.mode else undefined

unfoldable pub app_execute : ℕ → App → AppMode → Outcome Bool
app_execute task a background =
    done true (some (record a { task_loop = post_task task a.task_loop }))
app_execute task a _ = done false (some a)

unfoldable pub bk_app_execute : ℕ → Option App → Outcome Bool
unfolding with_app app_execute
bk_app_execute task = with_app (app_execute task)

unfoldable pub app_exit : ℤ → App → AppMode → Outcome (Unit {0})
app_exit code a other_mode = done tt (some a)
app_exit code a _ = done tt (some (record a { task_loop = exit code a.task_loop }))

unfoldable pub bk_exit_app : ℤ → Option App → Outcome (Unit {0})
unfolding with_app app_exit
bk_exit_app code = with_app (app_exit code)

unfoldable pub app_finalize : App → AppMode → Outcome (Unit {0})
unfolding delete_app
app_finalize a main_thread = done tt (some (delete_app a))
app_finalize a _ = done tt (some a)

unfoldable pub bk_finalize : Option App → Outcome (Unit {0})
unfolding with_app app_finalize
bk_finalize none = done tt none
bk_finalize (some a) = with_app app_finalize (some a)

abbrev pub exit_failure : ℤ
exit_failure = pos 1

-- `RunAndFinalize`, after a number of steps of the loop.
unfoldable pub finish_run : App → Place → Outcome ℤ
unfolding delete_app
finish_run a (returned code) = done code (some (delete_app a))
finish_run a _ = running

unfoldable pub run_and_finalize : ℕ → App → AppMode → Outcome ℤ
unfolding finish_run
run_and_finalize steps a main_thread =
    let l = run_steps steps a.task_loop in finish_run (record a { task_loop = l }) l.place
run_and_finalize steps a _ = done exit_failure (some a)

unfoldable pub bk_run_app : ℕ → Option App → Outcome ℤ
unfolding with_app run_and_finalize
bk_run_app steps = with_app (run_and_finalize steps)
