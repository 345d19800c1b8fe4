-- ===== src/Runtime/TaskLoop.antt =====
-- blinkit/posix/task_loop.h and task_loop.cpp: the queue of the main thread. A task is known by a
-- number; each transition of `LoopStep` and `EnvironmentStep` is one critical section, or one access
-- outside of the mutex.
pub mod Order
use blinkit.Prelude.{ℕ, List, [], ◌∷◌, ◌++◌, Option, none, some}
use blinkit.Prelude.{ℤ}

-- Where the thread in `Run` stands: before the lock, between the unlock and the look at
-- `m_exitCode`, in the destructor of a task, or behind the `return`.
pub data Place : Type 0 where
  locks : Place
  looks : Option ℕ → Place
  deletes : ℕ → Place
  returned : ℤ → Place

-- `posted`, `ran` and `leaked` keep the tasks that were pushed, that were run, and that `Run` has
-- popped and neither run nor deleted.
pub record TaskLoop : Type 0 where
  pub task_queue : List ℕ
  pub exit_code : Option ℤ
  pub place : Place
  pub posted : List ℕ
  pub ran : List ℕ
  pub leaked : List ℕ

abbrev pub new_task_loop : TaskLoop
new_task_loop = record {
  task_queue = [];
  exit_code = none;
  place = locks;
  posted = [];
  ran = [];
  leaked = [];
}

-- `Exit`
abbrev pub exit : ℤ → TaskLoop → TaskLoop
exit code l = record l { exit_code = some code }

-- `taskPoster` of `GetTaskRunner`
abbrev pub post_task : ℕ → TaskLoop → TaskLoop
post_task task l = record l {
  task_queue = l.task_queue ++ (task ∷ []);
  posted = l.posted ++ (task ∷ []);
}

-- The first critical section of `Run`: `none` while the thread waits on `m_cond`.
unfoldable pub take_task : List ℕ → Option ℤ → TaskLoop → Option TaskLoop
take_task [] none l = none
take_task [] (some code) l = some (record l { place = looks none })
take_task (task ∷ tasks) code l = some (record l { task_queue = tasks; place = looks (some task) })

-- The look at `m_exitCode`: the loop is left, or the task is deleted, which runs it.
abbrev pub leak : Option ℕ → List ℕ
leak none = []
leak (some task) = task ∷ []

unfoldable pub look : Option ℕ → Option ℤ → TaskLoop → Option TaskLoop
look held (some code) l = some (record l { place = returned code; leaked = l.leaked ++ leak held })
look (some task) none l = some (record l { place = deletes task; ran = l.ran ++ (task ∷ []) })
look none none l = none

-- One transition of the thread in `Run`; `none` when it waits, has returned, or has failed the
-- assertion on `taskData`.
unfoldable pub run_step : Place → TaskLoop → Option TaskLoop
run_step locks l = take_task l.task_queue l.exit_code l
run_step (looks held) l = look held l.exit_code l
run_step (deletes task) l = some (record l { place = locks })
run_step (returned code) l = none

-- `~TaskLoop`: the tasks that it discards; they do not run.
abbrev pub destroy : TaskLoop → List ℕ
destroy l = l.task_queue
