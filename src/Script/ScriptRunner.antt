-- ===== src/Script/ScriptRunner.antt =====
-- chromium/third_party/blink/renderer/core/script/script_runner.h and script_runner.cpp, and the count
-- that document.cpp keeps for it. The runner is never suspended, since nothing sets `m_isSuspended`.
-- A script is known by a number; `executed` keeps those whose block was executed, `tasks` how many
-- calls of `ExecuteTask` are posted.
pub mod Tasks
pub mod Reach
use blinkit.Prelude.{
  ◌||◌, ℕ, ◌+◌, ◌-◌, ltb, Bool, true, false, not, ◌&&◌, List, [], ◌∷◌, ◌++◌, Option, none, some,
  if◌then◌else◌, ◌==◌, get_elem?, erase_idx, find_index,
}

-- A `PendingScript`, with `IsCurrentlyStreaming`.
pub record PendingScript : Type 0 where
  pub script : ℕ
  pub is_currently_streaming : Bool

pub record ScriptRunner : Type 0 where
  pub pending_async_scripts : List PendingScript
  pub async_scripts_to_execute_soon : List PendingScript
  pub in_order_scripts_to_execute_soon : List PendingScript
  pub number_of_extra_tasks : ℕ
  pub tasks : ℕ
  pub load_event_delay_count : ℕ
  pub executed : List ℕ
  pub asserted : Bool

abbrev pub new_script_runner : ScriptRunner
new_script_runner = record {
  pending_async_scripts = [];
  async_scripts_to_execute_soon = [];
  in_order_scripts_to_execute_soon = [];
  number_of_extra_tasks = 0;
  tasks = 0;
  load_event_delay_count = 0;
  executed = [];
  asserted = false;
}

-- `DoTryStream`: whether `StartStreamingIfPossible` succeeds, where `startable` says which scripts
-- have something to stream now; a script that streams already does not start again.
abbrev pub starts : (ℕ → Bool) → PendingScript → Bool
starts startable s = startable s.script && not s.is_currently_streaming

abbrev pub streaming : PendingScript → PendingScript
streaming s = record s { is_currently_streaming = true }

-- The loop of `TryStreamAny`: how many scripts have started, and the scripts.
unfoldable pub try_stream_first : (ℕ → Bool) → List PendingScript → ℕ × List PendingScript
try_stream_first startable [] = (0, [])
try_stream_first startable (s ∷ ss) =
    let (n, rest) = try_stream_first startable ss in
    if starts startable s then (1, streaming s ∷ ss) else (n, s ∷ rest)

abbrev pub is_nil : List PendingScript → Bool
is_nil [] = true
is_nil (s ∷ ss) = false

-- `DoTryStream` asserts that the script is pending, which a ready one is no longer: `asserted` notes
-- that, and the code goes on as without assertions. `TryStreamAny`; `work_stealing` is `RuntimeEnabledFeatures::WorkStealingInScriptRunnerEnabled()`.
unfoldable pub try_stream_any : Bool → (ℕ → Bool) → ScriptRunner → ScriptRunner
try_stream_any work_stealing startable r =
    let (n, soon) = try_stream_first startable r.async_scripts_to_execute_soon in
    if work_stealing
    then record r {
      async_scripts_to_execute_soon = soon;
      number_of_extra_tasks = r.number_of_extra_tasks + n;
      asserted = r.asserted || not (is_nil r.async_scripts_to_execute_soon);
    }
    else r

-- `QueueScriptForExecution` of an asynchronous script that is not queued yet, with `TryStream`.
unfoldable pub queue_script_for_execution : (ℕ → Bool) → PendingScript → ScriptRunner → ScriptRunner
queue_script_for_execution startable s r =
    let started = starts startable s in
    record r {
      load_event_delay_count = r.load_event_delay_count + 1;
      pending_async_scripts =
          r.pending_async_scripts ++ ((if started then streaming s else s) ∷ []);
      number_of_extra_tasks = r.number_of_extra_tasks + (if started then 1 else 0);
    }

-- The part of `NotifyScriptReady` before `TryStreamAny`; the script is found by its index.
abbrev pub take_pending : Option PendingScript → ℕ → ScriptRunner → ScriptRunner
take_pending none i r = r
take_pending (some s) i r = record r {
  async_scripts_to_execute_soon = r.async_scripts_to_execute_soon ++ (s ∷ []);
  pending_async_scripts = erase_idx r.pending_async_scripts i;
  tasks = r.tasks + 1;
}

unfoldable pub notify_script_ready : Bool → (ℕ → Bool) → ℕ → ScriptRunner → ScriptRunner
notify_script_ready work_stealing startable i r =
    try_stream_any work_stealing startable (take_pending (get_elem? r.pending_async_scripts i) i r)

-- A streamer is done, and calls `NotifyScriptStreamerFinished`; the script is in one of the lists.
unfoldable pub notify_script_streamer_finished : Bool → (ℕ → Bool) → ScriptRunner → ScriptRunner
notify_script_streamer_finished work_stealing startable r =
    try_stream_any work_stealing startable (record r { tasks = r.tasks + 1 })

-- `ExecuteScriptBlock` and `DecrementLoadEventDelayCount`.
abbrev pub execute_script : PendingScript → ScriptRunner → ScriptRunner
execute_script s r = record r {
  executed = r.executed ++ (s.script ∷ []);
  load_event_delay_count = r.load_event_delay_count - 1;
}

abbrev pub idle : PendingScript → Bool
idle s = not s.is_currently_streaming

-- `ExecuteAsyncTask`: `none` is `false`.
unfoldable pub execute_async_at : List PendingScript → ScriptRunner → Option ScriptRunner
execute_async_at [] r = none
execute_async_at (s ∷ ss) r =
    let rest = execute_async_at ss r in
    if idle s
    then some (execute_script s (record r { async_scripts_to_execute_soon = ss }))
    else elim rest [
      | none ↦ none
      | some q ↦
          some (record q { async_scripts_to_execute_soon = s ∷ q.async_scripts_to_execute_soon })
    ]

-- `ExecuteInOrderTask`: `none` is `false`.
unfoldable pub execute_in_order_at : List PendingScript → ScriptRunner → Option ScriptRunner
execute_in_order_at [] r = none
execute_in_order_at (s ∷ ss) r =
    some (execute_script s (record r { in_order_scripts_to_execute_soon = ss }))

-- The assertion at the end of `ExecuteTask`; `none` is a failed one.
unfoldable pub take_extra_task : ScriptRunner → Option ScriptRunner
take_extra_task r =
    if ltb 0 r.number_of_extra_tasks
    then some (record r { number_of_extra_tasks = r.number_of_extra_tasks - 1 })
    else none

abbrev pub or_else : Option ScriptRunner → Option ScriptRunner → Option ScriptRunner
or_else (some q) other = some q
or_else none other = other

-- `ExecuteTask`, which the task runner calls for a posted task.
unfoldable pub execute_task : ScriptRunner → Option ScriptRunner
execute_task r =
    let q = record r { tasks = r.tasks - 1 } in
    or_else (execute_async_at q.async_scripts_to_execute_soon q)
      (or_else (execute_in_order_at q.in_order_scripts_to_execute_soon q) (take_extra_task q))
