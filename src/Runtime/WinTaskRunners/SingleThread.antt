-- ===== src/Runtime/WinTaskRunners/SingleThread.antt =====
-- blinkit/blink_impl/win_single_thread_task_runner.cpp: `WinSingleThreadTaskRunner`.
use blinkit.Prelude.{
  find_key, erase_key, ℕ, ◌%◌, Bool, true, false, none, some, ◌==◌, if◌then◌else◌,
}
use blinkit.Runtime.WinTaskRunners.{
  TaskData, Runner, dword, minus, kill_timer, start_timer, post_message, run,
}

unfoldable pub set_timer : ℕ → ℕ → ℕ → Runner → Bool × Runner
unfolding start_timer
set_timer id task delay_in_ms r =
    if id == 0 then (false, r) else (true, start_timer id task delay_in_ms r)

-- `on_thread` is whether the caller is on the thread of the runner, `posted` whether
-- `PostThreadMessage` succeeds, and `milliseconds` the delay before its cast to `DWORD`.
unfoldable pub post_delayed_task : Bool → Bool → ℕ → ℕ → ℕ → ℕ → Runner → Bool × Runner
unfolding set_timer
post_delayed_task on_thread posted id now task milliseconds r =
    let delay_in_ms = milliseconds % dword in
    let td : TaskData = record { start_tick = now; task = task; delay_in_ms = delay_in_ms } in
    let by_message = if posted then (true, post_message td r) else (false, r) in
    if on_thread
    then (if delay_in_ms == 0 then by_message else set_timer id task delay_in_ms r)
    else by_message

-- `ProcessMessage`, for a message of the runner.
unfoldable pub process_message : (ℕ → Runner → Runner) → ℕ → ℕ → TaskData → Runner → Runner
unfolding set_timer
process_message effect id now td r =
    if td.delay_in_ms == 0
    then run effect td.task r
    else (set_timer id td.task (minus now td.start_tick) r).1

-- `ProcessTimer`: the entry is erased behind the task.
unfoldable pub process_timer : (ℕ → Runner → Runner) → ℕ → Runner → Runner
unfolding erase_key
process_timer effect id r = elim (find_key id r.tasks) [
  | none ↦ r
  | some task ↦
      let after = run effect task (kill_timer id r) in
      record after { tasks = erase_key id after.tasks }
]
