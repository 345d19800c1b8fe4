-- ===== src/Runtime/WinTaskRunners.antt =====
-- blinkit/blink_impl/win_single_thread_task_runner.cpp and win_task_runner.cpp: the two task runners
-- of Windows. A task and a timer are numbers, timer 0 is a failure of `SetTimer`; ticks, delays and
-- times are `DWORD`s in milliseconds. What a task does to its own runner is the argument `effect`.
pub mod SingleThread
pub mod Cloned
pub mod Timing
pub mod Timers
use blinkit.Prelude.{
  put_key, erase_key, ℕ, ◌+◌, ◌-◌, ◌%◌, Bool, true, false, List, [], ◌∷◌, ◌++◌, Option, none, some,
  ◌==◌, if◌then◌else◌,
}

pub record TaskData : Type 0 where
  pub start_tick : ℕ
  pub task : ℕ
  pub delay_in_ms : ℕ

-- `m_tasks` as pairs of a timer and a task; the timers that Windows runs, with the time that they
-- were set to; the messages of the thread; and the tasks that were run, the last one first.
pub record Runner : Type 0 where
  pub tasks : List (ℕ × ℕ)
  pub timers : List (ℕ × ℕ)
  pub messages : List TaskData
  pub ran : List ℕ

abbrev pub new_runner : Runner
new_runner = record { tasks = []; timers = []; messages = []; ran = [] }

abbrev pub dword : ℕ
dword = 4294967296

-- The difference of two `DWORD`s.
abbrev pub minus : ℕ → ℕ → ℕ
minus a b = (a + dword - b) % dword

-- `KillTimer`, and a call of `SetTimer` that yields the timer `id`.
abbrev pub kill_timer : ℕ → Runner → Runner
kill_timer id r = record r { timers = erase_key id r.timers }

unfoldable pub start_timer : ℕ → ℕ → ℕ → Runner → Runner
unfolding put_key
start_timer id task elapse r = record r {
  tasks = put_key id task r.tasks;
  timers = (id, elapse) ∷ r.timers;
}

abbrev pub post_message : TaskData → Runner → Runner
post_message td r = record r { messages = r.messages ++ (td ∷ []) }

abbrev pub run : (ℕ → Runner → Runner) → ℕ → Runner → Runner
run effect task r = effect task (record r { ran = task ∷ r.ran })
