-- ===== src/Script/ScriptRunner/Tasks.antt =====
-- The count of tasks that script_runner.h describes at `m_numberOfExtraTasks`.
use blinkit.Prelude.{
  Option-cases, ◌⊎◌, ℕ, ◌+◌, ◌-◌, ◌<◌, ltb, Bool, true, false, List, [], ◌∷◌, none, some, ◌≡◌, refl,
  ap, ◌∙◌, if◌then◌else◌, length, count_if, arith, Bool-cases, inl, inr,
}
use blinkit.Script.ScriptRunner.{
  idle, PendingScript, ScriptRunner, try_stream_first, execute_script, execute_async_at,
  execute_in_order_at, take_extra_task, execute_task,
}

abbrev pub is_streaming : PendingScript → Bool
is_streaming s = s.is_currently_streaming

abbrev pub stop_first : List PendingScript → List PendingScript
stop_first [] = []
stop_first (s ∷ ss) =
    if s.is_currently_streaming
    then record s { is_currently_streaming = false } ∷ ss
    else s ∷ stop_first ss

-- How many scripts stream.
abbrev pub streamers : ScriptRunner → ℕ
streamers r =
    count_if is_streaming r.pending_async_scripts
    + count_if is_streaming r.async_scripts_to_execute_soon

-- What holds between two calls.
pub record IsBalanced (r : ScriptRunner) : Type 0 where
  pub tasks_are :
      r.tasks + streamers r ≡ length r.async_scripts_to_execute_soon + r.number_of_extra_tasks
  pub delay_is :
      r.load_event_delay_count
      ≡ length r.pending_async_scripts + length r.async_scripts_to_execute_soon
  pub none_in_order : r.in_order_scripts_to_execute_soon ≡ []

pub try_stream_first-count :
    (can : ℕ → Bool) (ss : List PendingScript)
    → (length (try_stream_first can ss).1 ≡ length ss)
      × (count_if is_streaming (try_stream_first can ss).1
          ≡ count_if is_streaming ss + (try_stream_first can ss).0)
unfolding try_stream_first
try_stream_first-count can [] = (refl, refl)
try_stream_first-count can (s ∷ ss) =
    let (l, c) = try_stream_first-count can ss in (ground (arith, l), ground (arith, c))

-- A task finds no script only when all of them stream.
execute_async_none :
    (ss : List PendingScript) (r : ScriptRunner)
    → execute_async_at ss r ≡ none
    → count_if is_streaming ss ≡ length ss
unfolding execute_async_at
execute_async_none [] r e = refl
execute_async_none (s ∷ ss) r e = elim (Bool-cases s.is_currently_streaming) [
  | inl x ↦ ground (arith, execute_async_none ss r, x)
  | inr x ↦ ground (arith, x)
]

-- What a task that finds a script does.
record Executed (ss : List PendingScript) (r q : ScriptRunner) : Type 0 where
  soon_length : length q.async_scripts_to_execute_soon + 1 ≡ length ss
  soon_streaming : count_if is_streaming q.async_scripts_to_execute_soon ≡ count_if is_streaming ss
  same_pending : q.pending_async_scripts ≡ r.pending_async_scripts
  same_in_order : q.in_order_scripts_to_execute_soon ≡ r.in_order_scripts_to_execute_soon
  same_extra : q.number_of_extra_tasks ≡ r.number_of_extra_tasks
  same_tasks : q.tasks ≡ r.tasks
  one_delay : q.load_event_delay_count ≡ r.load_event_delay_count - 1

execute_async_some :
    (ss : List PendingScript) (r : ScriptRunner)
    → (execute_async_at ss r ≡ none)
      ⊎ ((q : ScriptRunner) × (execute_async_at ss r ≡ some q) × Executed ss r q)
unfolding execute_async_at
execute_async_some [] r = inl refl
execute_async_some (s ∷ ss) r = elim (Bool-cases s.is_currently_streaming) [
  | inr x ↦ inr (
    execute_script s (record r { async_scripts_to_execute_soon = ss }),
    rw x refl,
    record {
      soon_length = omega arith;
      soon_streaming = rw x (omega arith);
      same_pending = refl;
      same_in_order = refl;
      same_extra = refl;
      same_tasks = refl;
      one_delay = refl;
    },
  )
  | inl x ↦ elim (execute_async_some ss r) [
    | inl n ↦ inl (rw (x, n) refl)
    | inr (q, e, d) ↦ inr (
      record q { async_scripts_to_execute_soon = s ∷ q.async_scripts_to_execute_soon },
      rw (x, e)
          (ap
            (λ b. some (record q {
              async_scripts_to_execute_soon =
                  record s { is_currently_streaming = b } ∷ q.async_scripts_to_execute_soon;
            }))
            x),
      record {
        soon_length = omega (arith, d.soon_length);
        soon_streaming = omega (arith, d.soon_streaming);
        same_pending = d.same_pending;
        same_in_order = d.same_in_order;
        same_extra = d.same_extra;
        same_tasks = d.same_tasks;
        one_delay = d.one_delay;
      },
    )
  ]
]

take_extra_some :
    (r : ScriptRunner)
    → 0 < r.number_of_extra_tasks
    → take_extra_task r ≡ some (record r { number_of_extra_tasks = r.number_of_extra_tasks - 1 })
unfolding take_extra_task
take_extra_some r h = let t : ltb 0 r.number_of_extra_tasks ≡ true = ground arith in rw t refl

in_order_none :
    (ss : List PendingScript) (r : ScriptRunner) → ss ≡ [] → execute_in_order_at ss r ≡ none
unfolding execute_in_order_at
in_order_none [] r e = refl
in_order_none (s ∷ ss) r e = absurd (omega (arith, ap length e))

Executed-IsBalanced :
    (r q : ScriptRunner)
    → IsBalanced r
    → 0 < r.tasks
    → Executed r.async_scripts_to_execute_soon (record r { tasks = r.tasks - 1 }) q
    → IsBalanced q
Executed-IsBalanced r q b h d = record {
  tasks_are = omega (
    arith,
    b.tasks_are,
    d.soon_length,
    d.soon_streaming,
    d.same_tasks,
    d.same_extra,
    ap (count_if is_streaming) d.same_pending,
  );
  delay_is = omega (arith, b.delay_is, d.soon_length, d.one_delay, ap length d.same_pending);
  none_in_order = d.same_in_order ∙ b.none_in_order;
}

-- Whenever a task is posted, the assertion at the end of `ExecuteTask` holds, and the counts are
-- balanced after it as before.
pub execute_task-IsBalanced :
    (r : ScriptRunner)
    → IsBalanced r
    → 0 < r.tasks
    → (q : ScriptRunner) × (execute_task r ≡ some q) × IsBalanced q
unfolding execute_task
execute_task-IsBalanced r b h =
    let p : ScriptRunner = record r { tasks = r.tasks - 1 } in
    elim (execute_async_some r.async_scripts_to_execute_soon p) [
      | inr (q, e, d) ↦ (q, rw e refl, Executed-IsBalanced r q b h d)
      | inl n ↦
          let c = execute_async_none r.async_scripts_to_execute_soon p n in
          let x = take_extra_some p (omega (arith, b.tasks_are, c)) in
          (
            record p { number_of_extra_tasks = r.number_of_extra_tasks - 1 },
            rw (n, in_order_none r.in_order_scripts_to_execute_soon p b.none_in_order, x) refl,
            record {
              tasks_are = omega (arith, b.tasks_are, c);
              delay_is = b.delay_is;
              none_in_order = b.none_in_order;
            },
          )
    ]

execute_async_at-asserted :
    (ss : List PendingScript) (r q : ScriptRunner)
    → execute_async_at ss r ≡ some q
    → q.asserted ≡ r.asserted
unfolding execute_async_at
execute_async_at-asserted [] r q e = absurd (ground arith)
execute_async_at-asserted (s ∷ ss) r q e = elim (Bool-cases (idle s)) [
  | inl i ↦ ground arith
  | inr n ↦ elim (Option-cases (execute_async_at ss r)) [
    | inl f ↦ absurd (ground arith)
    | inr (p, f) ↦ let g = execute_async_at-asserted ss r p f in ground arith
  ]
]

pub execute_task-asserted : (r q : ScriptRunner) → execute_task r ≡ some q → q.asserted ≡ r.asserted
unfolding execute_task execute_in_order_at take_extra_task
execute_task-asserted r q e =
    let p = record r { tasks = r.tasks - 1 } in
    elim (Option-cases (execute_async_at p.async_scripts_to_execute_soon p)) [
      | inl f ↦ ground arith
      | inr (o, f) ↦
          let g = execute_async_at-asserted p.async_scripts_to_execute_soon p o f in ground arith
    ]
