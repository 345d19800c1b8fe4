-- ===== src/Runtime/RuntimeTests.antt =====
-- Tests and concrete instances of the theorems on the task loop.
use blinkit.Prelude.{◌≡◌, [], ◌∷◌, ◌++◌, some, pos}
use blinkit.Runtime.TaskLoop.{TaskLoop, new_task_loop, exit, post_task, looks}
use blinkit.Runtime.TaskLoop.Order.{posts, exits, here, next, LoopReach-order}

abbrev posted_two : TaskLoop
posted_two = post_task 8 (post_task 7 new_task_loop)

abbrev left : TaskLoop
left = exit (pos 3) posted_two

LoopReach-order_example : left.posted ≡ [] ++ ([] ++ ([] ++ (7 ∷ 8 ∷ [])))
LoopReach-order_example =
    (LoopReach-order left (next (next (next here (posts 7)) (posts 8)) (exits (pos 3)))).0

abbrev taken : TaskLoop
taken = record left { task_queue = 8 ∷ []; place = looks (some 7) }
