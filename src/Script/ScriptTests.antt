-- ===== src/Script/ScriptTests.antt =====
-- Tests and concrete instances of the theorems on the script runner.
use blinkit.Prelude.{ℕ, ◌+◌, ◌<◌, Bool, false, ◌≡◌, refl, [], ◌∷◌, some, length}
use blinkit.Script.ScriptRunner.{
  PendingScript, ScriptRunner, new_script_runner, queue_script_for_execution, notify_script_ready,
  try_stream_any, try_stream_first, execute_task, execute_async_at,
}
use blinkit.Script.ScriptRunner.Tasks.{streamers}
use blinkit.Script.ScriptRunner.Reach.{here, next, queues, readies, RunnerReach-tasks}

abbrev never : ℕ → Bool
never n = false

abbrev first_script : PendingScript
first_script = record { script = 1; is_currently_streaming = false }

abbrev queued : ScriptRunner
queued = queue_script_for_execution never first_script new_script_runner

abbrev ready : ScriptRunner
ready = notify_script_ready false never 0 queued

RunnerReach-tasks_example :
    (ready.load_event_delay_count
      ≡ length ready.pending_async_scripts + length ready.async_scripts_to_execute_soon)
    × (0 < ready.tasks → (q : ScriptRunner) × (execute_task ready ≡ some q))
    × (ready.tasks + streamers ready ≡ 0 → length ready.async_scripts_to_execute_soon ≡ 0)
    × (false ≡ false → ready.asserted ≡ false)
unfolding queue_script_for_execution
RunnerReach-tasks_example =
    RunnerReach-tasks false ready
      (next (next here (queues never first_script refl)) (readies never 0 first_script refl))

execute_test : (q : ScriptRunner) × (execute_task ready ≡ some q) × (q.executed ≡ 1 ∷ [])
unfolding queue_script_for_execution notify_script_ready try_stream_any try_stream_first
    execute_task execute_async_at
execute_test = (_, refl, refl)
