-- ===== src/Script/ScriptRunner/Reach.antt =====
-- The runner over its life: scripts are queued, become ready and are streamed, and tasks are run.
use blinkit.Prelude.{
  ◌∙◌, ap, subst, ℕ, zero, suc, ◌+◌, ◌<◌, Bool, true, false, List, [], ◌∷◌, ◌++◌, Option, none,
  some, ◌≡◌, refl, if◌then◌else◌, length, length-append, count_if, get_elem?, erase_idx, arith,
  Bool-cases, inl, inr,
}
use blinkit.Script.ScriptRunner.{
  PendingScript, ScriptRunner, new_script_runner, starts, streaming, try_stream_any,
  queue_script_for_execution, take_pending, notify_script_ready, notify_script_streamer_finished,
  execute_task,
}
use blinkit.Script.ScriptRunner.Tasks.{
  execute_task-asserted, is_streaming, stop_first, streamers, IsBalanced, try_stream_first-count,
  execute_task-IsBalanced,
}

-- `work_stealing` is the feature flag.
pub data RunnerStep (work_stealing : Bool) (r : ScriptRunner) : ScriptRunner → Type 0 where
  queues :
      (can : ℕ → Bool) (s : PendingScript)
      → s.is_currently_streaming ≡ false
      → RunnerStep work_stealing r (queue_script_for_execution can s r)
  readies :
      (can : ℕ → Bool) (i : ℕ) (s : PendingScript)
      → get_elem? r.pending_async_scripts i ≡ some s
      → RunnerStep work_stealing r (notify_script_ready work_stealing can i r)
  -- The streamer of a script that waits, or that is ready, is done.
  streams_pending :
      (can : ℕ → Bool)
      → 0 < count_if is_streaming r.pending_async_scripts
      → RunnerStep work_stealing r (
          notify_script_streamer_finished work_stealing can
            (record r { pending_async_scripts = stop_first r.pending_async_scripts }))
  streams_soon :
      (can : ℕ → Bool)
      → 0 < count_if is_streaming r.async_scripts_to_execute_soon
      → RunnerStep work_stealing r (
          notify_script_streamer_finished work_stealing can (record r {
            async_scripts_to_execute_soon = stop_first r.async_scripts_to_execute_soon;
          }))
  runs_task :
      {q : ScriptRunner} → 0 < r.tasks → execute_task r ≡ some q → RunnerStep work_stealing r q

pub data RunnerReach (work_stealing : Bool) (r : ScriptRunner) : ScriptRunner → Type 0 where
  here : RunnerReach work_stealing r r
  next :
      {p q : ScriptRunner}
      → RunnerReach work_stealing r p
      → RunnerStep work_stealing p q
      → RunnerReach work_stealing r q

count_if-append :
    (xs ys : List PendingScript)
    → count_if is_streaming (xs ++ ys) ≡ count_if is_streaming xs + count_if is_streaming ys
count_if-append [] ys = omega arith
count_if-append (x ∷ xs) ys = omega (arith, count_if-append xs ys)

stop_first-count :
    (ss : List PendingScript)
    → 0 < count_if is_streaming ss
    → (count_if is_streaming (stop_first ss) + 1 ≡ count_if is_streaming ss)
      × (length (stop_first ss) ≡ length ss)
stop_first-count [] h = absurd (omega arith)
stop_first-count (s ∷ ss) h = elim (Bool-cases s.is_currently_streaming) [
  | inl x ↦ (ground (arith, x), ground (arith, x))
  | inr x ↦ ground (arith, stop_first-count ss, x)
]

erase_idx-count :
    (ss : List PendingScript) (i : ℕ) (s : PendingScript)
    → get_elem? ss i ≡ some s
    → (count_if is_streaming (erase_idx ss i) + count_if is_streaming (s ∷ [])
        ≡ count_if is_streaming ss)
      × (length (erase_idx ss i) + 1 ≡ length ss)
erase_idx-count [] i s e = ground arith
erase_idx-count (x ∷ ss) zero s e = let f : x ≡ s = cc in (rw f (omega arith), omega arith)
erase_idx-count (x ∷ ss) (suc i) s e =
    let (c, l) = erase_idx-count ss i s e in (omega (arith, c), omega (arith, l))

try_stream_any-IsBalanced :
    (w : Bool) (can : ℕ → Bool) (r : ScriptRunner)
    → IsBalanced r
    → IsBalanced (try_stream_any w can r)
unfolding try_stream_any
try_stream_any-IsBalanced false can r b = b
try_stream_any-IsBalanced true can r b =
    let (l, c) = try_stream_first-count can r.async_scripts_to_execute_soon in
    record {
      tasks_are = omega (arith, b.tasks_are, l, c);
      delay_is = omega (arith, b.delay_is, l);
      none_in_order = b.none_in_order;
    }

queued-count :
    (b : Bool) (s : PendingScript)
    → s.is_currently_streaming ≡ false
    → count_if is_streaming ((if b then streaming s else s) ∷ []) ≡ (if b then 1 else 0)
queued-count true s n = omega arith
queued-count false s n = ground (arith, n)

queue-IsBalanced :
    (can : ℕ → Bool) (s : PendingScript) (r : ScriptRunner)
    → s.is_currently_streaming ≡ false
    → IsBalanced r
    → IsBalanced (queue_script_for_execution can s r)
unfolding queue_script_for_execution
queue-IsBalanced can s r n b =
    let queued : List PendingScript = (if starts can s then streaming s else s) ∷ [] in
    record {
      tasks_are = omega (
        arith,
        b.tasks_are,
        count_if-append r.pending_async_scripts queued,
        queued-count (starts can s) s n,
      );
      delay_is = omega (arith, b.delay_is, length-append r.pending_async_scripts queued);
      none_in_order = b.none_in_order;
    }

take_pending-IsBalanced :
    (o : Option PendingScript) (i : ℕ) (r : ScriptRunner)
    → get_elem? r.pending_async_scripts i ≡ o
    → IsBalanced r
    → IsBalanced (take_pending o i r)
take_pending-IsBalanced none i r e b = b
take_pending-IsBalanced (some s) i r e b =
    let (c, l) = erase_idx-count r.pending_async_scripts i s e in
    record {
      tasks_are = omega (
        arith,
        b.tasks_are,
        c,
        l,
        count_if-append r.async_scripts_to_execute_soon (s ∷ []),
        length-append r.async_scripts_to_execute_soon (s ∷ []),
      );
      delay_is =
          omega (arith, b.delay_is, l, length-append r.async_scripts_to_execute_soon (s ∷ []));
      none_in_order = b.none_in_order;
    }

RunnerStep-IsBalanced :
    {w : Bool} {r q : ScriptRunner} → RunnerStep w r q → IsBalanced r → IsBalanced q
unfolding notify_script_ready notify_script_streamer_finished
RunnerStep-IsBalanced {w} {r} (queues can s n) b = queue-IsBalanced can s r n b
RunnerStep-IsBalanced {w} {r} (readies can i s e) b =
    try_stream_any-IsBalanced w can _ (take_pending-IsBalanced _ i r refl b)
RunnerStep-IsBalanced {w} {r} (streams_pending can h) b =
    let (c, l) = stop_first-count r.pending_async_scripts h in
    try_stream_any-IsBalanced w can _ (record {
      tasks_are = omega (arith, b.tasks_are, c);
      delay_is = omega (arith, b.delay_is, l);
      none_in_order = b.none_in_order;
    })
RunnerStep-IsBalanced {w} {r} (streams_soon can h) b =
    let (c, l) = stop_first-count r.async_scripts_to_execute_soon h in
    try_stream_any-IsBalanced w can _ (record {
      tasks_are = omega (arith, b.tasks_are, c, l);
      delay_is = omega (arith, b.delay_is, l);
      none_in_order = b.none_in_order;
    })
RunnerStep-IsBalanced {w} {r} {q} (runs_task h e) b =
    let (p, f, c) = execute_task-IsBalanced r b h in
    let same : p ≡ q = cc in subst IsBalanced same c

RunnerReach-IsBalanced :
    {w : Bool} {r q : ScriptRunner} → RunnerReach w r q → IsBalanced r → IsBalanced q
RunnerReach-IsBalanced here b = b
RunnerReach-IsBalanced (next r s) b = RunnerStep-IsBalanced s (RunnerReach-IsBalanced r b)

-- Without work stealing no assertion of `DoTryStream` fails.
RunnerStep-asserted :
    {r q : ScriptRunner} → RunnerStep false r q → r.asserted ≡ false → q.asserted ≡ false
unfolding queue_script_for_execution notify_script_ready notify_script_streamer_finished
    try_stream_any
RunnerStep-asserted (queues can s n) a = a
RunnerStep-asserted {r} (readies can i s e) a = ap (λ o. (take_pending o i r).asserted) e ∙ a
RunnerStep-asserted (streams_pending can h) a = a
RunnerStep-asserted (streams_soon can h) a = a
RunnerStep-asserted {r} {q} (runs_task h e) a = execute_task-asserted r q e ∙ a

RunnerReach-asserted :
    {r q : ScriptRunner} → RunnerReach false r q → r.asserted ≡ false → q.asserted ≡ false
RunnerReach-asserted here a = a
RunnerReach-asserted (next r s) a = RunnerStep-asserted s (RunnerReach-asserted r a)

-- Whatever is queued, gets ready, is streamed and is run, in any order, from a new runner on: the
-- count that delays the load event is the number of pending and ready scripts; a posted
-- `ExecuteTask` finds a script or an extra task, as it asserts at its end; when no task is posted and no
-- script streams, no ready script is left over; and without work stealing the scripts that are tried
-- are pending, as `DoTryStream` asserts.
pub RunnerReach-tasks :
    (work_stealing : Bool) (r : ScriptRunner)
    → RunnerReach work_stealing new_script_runner r
    → (r.load_event_delay_count
        ≡ length r.pending_async_scripts + length r.async_scripts_to_execute_soon)
      × (0 < r.tasks → (q : ScriptRunner) × (execute_task r ≡ some q))
      × (r.tasks + streamers r ≡ 0 → length r.async_scripts_to_execute_soon ≡ 0)
      × (work_stealing ≡ false → r.asserted ≡ false)
RunnerReach-tasks work_stealing r h =
    let b =
      RunnerReach-IsBalanced h
        (record { tasks_are = refl; delay_is = refl; none_in_order = refl }) in
    (
      b.delay_is,
      λ t. (let (q, e, c) = execute_task-IsBalanced r b t in (q, e)),
      λ z. omega (arith, b.tasks_are, z),
      λ n. RunnerReach-asserted (subst (λ w. RunnerReach w new_script_runner r) n h) refl,
    )
