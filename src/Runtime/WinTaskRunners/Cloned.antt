-- ===== src/Runtime/WinTaskRunners/Cloned.antt =====
-- blinkit/blink_impl/win_task_runner.cpp: `WinTaskRunner`.
use blinkit.Prelude.{find_key, ℕ, Bool, none, some, ◌==◌, if◌then◌else◌}
use blinkit.Runtime.WinTaskRunners.{
  TaskData, Runner, minus, kill_timer, start_timer, post_message, run,
}

unfoldable pub create_task_data : ℕ → ℕ → ℕ → TaskData
create_task_data now task delay_ms = record {
  start_tick = if delay_ms == 0 then 0 else now;
  task = task;
  delay_in_ms = delay_ms;
}

unfoldable pub post_delayed_task : Bool → ℕ → ℕ → ℕ → ℕ → Runner → Runner
unfolding start_timer create_task_data
post_delayed_task on_thread id now task delay_ms r =
    if on_thread
    then start_timer id task delay_ms r
    else post_message (create_task_data now task delay_ms) r

unfoldable pub post_task : ℕ → Runner → Runner
unfolding create_task_data
post_task task r = post_message (create_task_data 0 task 0) r

unfoldable pub process_message : (ℕ → Runner → Runner) → ℕ → ℕ → TaskData → Runner → Runner
unfolding start_timer
process_message effect id now td r =
    if td.delay_in_ms == 0
    then run effect td.task r
    else start_timer id td.task (minus td.delay_in_ms (minus now td.start_tick)) r

-- `ProcessTimer`: the entry stays.
unfoldable pub process_timer : (ℕ → Runner → Runner) → ℕ → Runner → Runner
process_timer effect id r = elim (find_key id r.tasks) [
  | none ↦ r
  | some task ↦ run effect task (kill_timer id r)
]
