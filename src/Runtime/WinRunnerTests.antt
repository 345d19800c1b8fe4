-- ===== src/Runtime/WinRunnerTests.antt =====
-- Tests and concrete instances of the theorems on the task runners of Windows.
use blinkit.Prelude.{ℕ, ◌≡◌, [], ◌∷◌, arith}
use blinkit.Runtime.WinTaskRunners.{Runner, TaskData, new_runner, start_timer}
use blinkit.Runtime.WinTaskRunners.SingleThread
use blinkit.Runtime.WinTaskRunners.Cloned
use blinkit.Runtime.WinTaskRunners.Timing.{process_message_due}

-- A task that only runs.
abbrev idle : ℕ → Runner → Runner
idle task r = r

abbrev posted : TaskData
posted = record { start_tick = 1000; task = 7; delay_in_ms = 500 }

process_message_due_example :
    Cloned.process_message idle 3 1600 posted new_runner ≡ start_timer 3 7 4294967196 new_runner
process_message_due_example =
    process_message_due idle 3 600 posted new_runner (omega arith) (omega arith) (omega arith)
      (omega arith)

abbrev armed : Runner
armed = record new_runner { tasks = (3, 7) ∷ []; timers = (3, 100) ∷ [] }

abbrev again : ℕ → Runner → Runner
again task q = (SingleThread.set_timer 3 8 50 q).1
