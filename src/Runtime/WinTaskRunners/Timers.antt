-- ===== src/Runtime/WinTaskRunners/Timers.antt =====
-- The map from timers to tasks, when the task of a timer sets a timer itself, and when a timer is
-- heard of twice.
use blinkit.Prelude.{
  find_key-erase_key, find_key, erase_key, ap, ℕ, ◌∷◌, ◌≡◌, ◌≢◌, refl, ◌∙◌, none, some, arith, ◌==◌,
  if◌then◌else◌,
}
use blinkit.Runtime.WinTaskRunners.{Runner, start_timer, run, kill_timer}
use blinkit.Runtime.WinTaskRunners.SingleThread
use blinkit.Runtime.WinTaskRunners.Cloned

find_key-start_timer :
    (j id task e : ℕ) (r : Runner)
    → find_key j (start_timer id task e r).tasks
      ≡ (if id == j then some task else find_key j r.tasks)
unfolding find_key start_timer
find_key-start_timer j id task e r = ground (arith, find_key-erase_key j id r.tasks)

single_known :
    (effect : ℕ → Runner → Runner) (id task : ℕ) (r : Runner)
    → find_key id r.tasks ≡ some task
    → SingleThread.process_timer effect id r ≡ (
        let after = run effect task (kill_timer id r) in
        record after { tasks = erase_key id after.tasks })
unfolding SingleThread.process_timer
single_known effect id task r f = rw (f, SingleThread.process_timer) refl

single_unknown :
    (effect : ℕ → Runner → Runner) (id : ℕ) (r : Runner)
    → find_key id r.tasks ≡ none
    → SingleThread.process_timer effect id r ≡ r
unfolding SingleThread.process_timer
single_unknown effect id r f = rw (f, SingleThread.process_timer) refl

cloned_known :
    (effect : ℕ → Runner → Runner) (id task : ℕ) (r : Runner)
    → find_key id r.tasks ≡ some task
    → Cloned.process_timer effect id r ≡ run effect task (kill_timer id r)
unfolding Cloned.process_timer
cloned_known effect id task r f = rw (f, Cloned.process_timer) refl

set_timer-start :
    (id task delay : ℕ) (r : Runner)
    → id ≢ 0
    → (SingleThread.set_timer id task delay r).1 ≡ start_timer id task delay r
unfolding SingleThread.set_timer
set_timer-start id task delay r n = ground arith

-- What is left when the task of the timer `id` has set the timer `new`.
abbrev left : ℕ → ℕ → ℕ → ℕ → ℕ → Runner → Runner
left id new task later delay r =
    let after = start_timer new later delay (record (kill_timer id r) { ran = task ∷ r.ran }) in
    record after { tasks = erase_key id after.tasks }

process_timer-left :
    (id new task later delay : ℕ) (r : Runner)
    → find_key id r.tasks ≡ some task
    → new ≢ 0
    → SingleThread.process_timer
        (λ (t : ℕ) (q : Runner). (SingleThread.set_timer new later delay q).1)
        id
        r
      ≡ left id new task later delay r
process_timer-left id new task later delay r f n =
    single_known _ id task r f
    ∙ ap (λ (after : Runner). record after { tasks = erase_key id after.tasks })
        (set_timer-start new later delay (record (kill_timer id r) { ran = task ∷ r.ran }) n)

timers-left :
    (id new task later delay : ℕ) (r : Runner)
    → (left id new task later delay r).timers ≡ (new, delay) ∷ erase_key id r.timers
unfolding start_timer
timers-left id new task later delay r = refl

find_key-left :
    (j id new task later delay : ℕ) (r : Runner)
    → find_key j (left id new task later delay r).tasks
      ≡ (if id == j then none else if new == j then some later else find_key j r.tasks)
find_key-left j id new task later delay r =
    let q : Runner = record (kill_timer id r) { ran = task ∷ r.ran } in
    ground (
      arith,
      find_key-erase_key j id (start_timer new later delay q).tasks,
      find_key-start_timer j new later delay q,
    )

-- On `WinSingleThreadTaskRunner`, when the task of a timer posts a delayed task, and Windows gives
-- it the timer `new`: after `ProcessTimer` the new timer runs, the old one has no task, and the
-- new one has its task exactly when it is not the old number again. With that number, which
-- `KillTimer` has set free, the new task is lost, and its timer is ignored: that is a bug.
single_process_timer_reuse :
    (id new task later delay : ℕ) (r : Runner)
    → find_key id r.tasks ≡ some task
    → new ≢ 0
    → let sets = λ (t : ℕ) (q : Runner). (SingleThread.set_timer new later delay q).1 in
      let q = SingleThread.process_timer sets id r in
      (q.timers ≡ (new, delay) ∷ erase_key id r.timers)
      × (find_key id q.tasks ≡ none)
      × (find_key new q.tasks ≡ (if id == new then none else some later))
      × (SingleThread.process_timer sets id q ≡ q)
single_process_timer_reuse id new task later delay r f n =
    let e = process_timer-left id new task later delay r f n in
    let gone : find_key id (left id new task later delay r).tasks ≡ none =
      ground (arith, find_key-left id id new task later delay r) in
    let sets = λ (t : ℕ) (q : Runner). (SingleThread.set_timer new later delay q).1 in
    (
      ap (λ (q : Runner). q.timers) e ∙ timers-left id new task later delay r,
      ap (λ (q : Runner). find_key id q.tasks) e ∙ gone,
      ap (λ (q : Runner). find_key new q.tasks) e
          ∙ ground (arith, find_key-left new id new task later delay r),
      single_unknown sets id _ (ap (λ (q : Runner). find_key id q.tasks) e ∙ gone),
    )

-- On `WinTaskRunner` the entry of a timer outlives its task; so a timer that is heard of a second
-- time runs its task a second time, although `Run` has deleted it, which is a bug.
process_timer_again :
    (effect : ℕ → Runner → Runner) (id task : ℕ) (r : Runner)
    → find_key id r.tasks ≡ some task
    → ((t : ℕ) (q : Runner) → ((effect t q).tasks ≡ q.tasks) × ((effect t q).ran ≡ q.ran))
    → let q = Cloned.process_timer effect id (Cloned.process_timer effect id r) in
      (q.ran ≡ task ∷ task ∷ r.ran) × (q.tasks ≡ r.tasks)
process_timer_again effect id task r f keeps =
    let once = cloned_known effect id task r f in
    let q = run effect task (kill_timer id r) in
    let (same, more) = keeps task (record (kill_timer id r) { ran = task ∷ r.ran }) in
    let twice = cloned_known effect id task q (ap (find_key id) same ∙ f) in
    let (same', more') = keeps task (record (kill_timer id q) { ran = task ∷ q.ran }) in
    let e = ap (Cloned.process_timer effect id) once ∙ twice in
    (
      ap (λ (x : Runner). x.ran) e ∙ (more' ∙ ap (◌∷◌ task) more),
      ap (λ (x : Runner). x.tasks) e ∙ (same' ∙ same),
    )
