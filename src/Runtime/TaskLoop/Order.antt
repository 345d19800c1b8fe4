-- ===== src/Runtime/TaskLoop/Order.antt =====
-- The order in which the loop runs its tasks, with other threads at work between any two steps.
use blinkit.Prelude.{
  zero, suc, Bool, true, false, subst, ℕ, ◌≤◌, List, [], ◌∷◌, ◌++◌, Option, none, some, ◌≡◌, ◌≢◌,
  refl, ap, sym, ◌∙◌, ℤ, length, arith,
}
use blinkit.Runtime.TaskLoop.{
  Place, locks, looks, deletes, returned, TaskLoop, new_task_loop, exit, post_task, take_task, leak,
  look, run_step,
}

-- A step of the thread in `Run`, or of any thread that posts a task or calls `Exit`.
pub data LoopStep (l : TaskLoop) : TaskLoop → Type 0 where
  runs : {q : TaskLoop} → run_step l.place l ≡ some q → LoopStep l q
  posts : (task : ℕ) → LoopStep l (post_task task l)
  exits : (code : ℤ) → LoopStep l (exit code l)

pub data LoopReach (l : TaskLoop) : TaskLoop → Type 0 where
  here : LoopReach l l
  next : {p q : TaskLoop} → LoopReach l p → LoopStep p q → LoopReach l q

abbrev pub held : Place → List ℕ
held (looks o) = leak o
held _ = []

-- A task is leaked at the return only.
abbrev pub LeakedAt : Place → List ℕ → Type 0
LeakedAt (returned code) ts = length ts ≤ 1
LeakedAt _ ts = ts ≡ []

-- The tasks in the order they were posted: those that ran, the one that is leaked or at hand, those
-- that wait.
pub record InOrder (posted ran leaked queue : List ℕ) (p : Place) : Type 0 where
  pub order : posted ≡ ran ++ (leaked ++ (held p ++ queue))
  pub at_most_one : LeakedAt p leaked

abbrev pub IsOrdered : TaskLoop → Type 0
IsOrdered l = InOrder l.posted l.ran l.leaked l.task_queue l.place

append_assoc : (xs ys zs : List ℕ) → xs ++ ys ++ zs ≡ xs ++ (ys ++ zs)
append_assoc [] ys zs = refl
append_assoc (x ∷ xs) ys zs = ap (◌∷◌ x) (append_assoc xs ys zs)

stepped : (x q : TaskLoop) → some x ≡ some q → IsOrdered x → IsOrdered q
stepped x q e v = let f : x ≡ q = cc in subst IsOrdered f v

take_task-IsOrdered :
    (ts : List ℕ) (c : Option ℤ) (l q : TaskLoop)
    → take_task ts c l ≡ some q
    → InOrder l.posted l.ran l.leaked ts locks
    → l.task_queue ≡ ts
    → IsOrdered q
unfolding take_task
take_task-IsOrdered [] none l q e v h = ground arith
take_task-IsOrdered [] (some code) l q e v h =
    stepped _ q e (record { order = rw h v.order; at_most_one = v.at_most_one })
take_task-IsOrdered (t ∷ ts) c l q e v h =
    stepped _ q e (record { order = v.order; at_most_one = v.at_most_one })

length-leak : (o : Option ℕ) → length (leak o) ≤ 1
length-leak none = omega arith
length-leak (some t) = omega arith

look-IsOrdered :
    (o : Option ℕ) (c : Option ℤ) (l q : TaskLoop)
    → look o c l ≡ some q
    → InOrder l.posted l.ran l.leaked l.task_queue (looks o)
    → IsOrdered q
unfolding look
look-IsOrdered o (some code) l q e v = stepped _ q e (record {
  order = v.order ∙ rw (v.at_most_one) refl;
  at_most_one = rw (v.at_most_one) (length-leak o);
})
look-IsOrdered (some t) none l q e v = stepped _ q e (record {
  order = v.order ∙ rw (v.at_most_one) (sym (append_assoc l.ran (t ∷ []) l.task_queue));
  at_most_one = v.at_most_one;
})
look-IsOrdered none none l q e v = ground arith

run_step-IsOrdered :
    (p : Place) (l q : TaskLoop)
    → run_step p l ≡ some q
    → InOrder l.posted l.ran l.leaked l.task_queue p
    → IsOrdered q
unfolding run_step
run_step-IsOrdered locks l q e v = take_task-IsOrdered l.task_queue l.exit_code l q e v refl
run_step-IsOrdered (looks o) l q e v = look-IsOrdered o l.exit_code l q e v
run_step-IsOrdered (deletes t) l q e v =
    stepped _ q e (record { order = v.order; at_most_one = v.at_most_one })
run_step-IsOrdered (returned c) l q e v = ground arith

post_task-IsOrdered : (t : ℕ) (l : TaskLoop) → IsOrdered l → IsOrdered (post_task t l)
post_task-IsOrdered t l v = record {
  order =
      ap (λ xs. xs ++ (t ∷ [])) v.order
      ∙ append_assoc l.ran (l.leaked ++ (held l.place ++ l.task_queue)) (t ∷ [])
      ∙ ap (◌++◌ l.ran) (
          append_assoc l.leaked (held l.place ++ l.task_queue) (t ∷ [])
          ∙ ap (◌++◌ l.leaked) (append_assoc (held l.place) l.task_queue (t ∷ [])));
  at_most_one = v.at_most_one;
}

LoopStep-IsOrdered : {l q : TaskLoop} → LoopStep l q → IsOrdered l → IsOrdered q
LoopStep-IsOrdered {l} {q} (runs e) v = run_step-IsOrdered l.place l q e v
LoopStep-IsOrdered {l} (posts t) v = post_task-IsOrdered t l v
LoopStep-IsOrdered (exits c) v = record { order = v.order; at_most_one = v.at_most_one }

LoopReach-IsOrdered : {l q : TaskLoop} → LoopReach l q → IsOrdered l → IsOrdered q
LoopReach-IsOrdered here v = v
LoopReach-IsOrdered (next r s) v = LoopStep-IsOrdered s (LoopReach-IsOrdered r v)

-- From a new loop, with any other threads at work: the tasks are taken in the order they were
-- posted, each once, and none is lost before `Run` returns; at the return one task at most has been
-- popped without being run or deleted.
pub LoopReach-order :
    (l : TaskLoop)
    → LoopReach new_task_loop l
    → (l.posted ≡ l.ran ++ (l.leaked ++ (held l.place ++ l.task_queue))) × LeakedAt l.place l.leaked
LoopReach-order l r =
    let v = LoopReach-IsOrdered r (record { order = refl; at_most_one = refl }) in
    (v.order, v.at_most_one)

looked : (x q : TaskLoop) → some x ≡ some q → x ≡ q
looked x q e = cc

take_task_exit :
    (ts : List ℕ) (c : Option ℤ) (l q : TaskLoop)
    → take_task ts c l ≡ some q
    → (q.ran ≡ l.ran) × (q.exit_code ≡ l.exit_code)
unfolding take_task
take_task_exit [] none l q e = ground arith
take_task_exit [] (some code) l q e = let f = looked _ q e in (rw⁻¹ f refl, rw⁻¹ f refl)
take_task_exit (t ∷ ts) c l q e = let f = looked _ q e in (rw⁻¹ f refl, rw⁻¹ f refl)

run_step_exit :
    (p : Place) (code : ℤ) (l q : TaskLoop)
    → l.exit_code ≡ some code
    → run_step p l ≡ some q
    → (q.ran ≡ l.ran) × (q.exit_code ≡ l.exit_code)
unfolding run_step look
run_step_exit locks code l q h e = take_task_exit l.task_queue l.exit_code l q e
run_step_exit (looks o) code l q h e =
    let f = looked _ q ((rw (h, look) at e)) in (rw⁻¹ f refl, rw⁻¹ f (sym h))
run_step_exit (deletes t) code l q h e = let f = looked _ q e in (rw⁻¹ f refl, rw⁻¹ f refl)
run_step_exit (returned c) code l q h e = ground arith

code_of : (o : Option ℤ) → o ≢ none → (code : ℤ) × (o ≡ some code)
code_of none n = absurd (n refl)
code_of (some code) n = (code, refl)

LoopStep-exited :
    {l q : TaskLoop} → LoopStep l q → l.exit_code ≢ none → (q.ran ≡ l.ran) × (q.exit_code ≢ none)
LoopStep-exited {l} {q} (runs e) n =
    let (code, h) = code_of l.exit_code n in
    let (r, c) = run_step_exit l.place code l q h e in (r, λ x. n (sym c ∙ x))
LoopStep-exited (posts t) n = (refl, n)
LoopStep-exited (exits code) n = (refl, λ x. ground arith)

exit_kept :
    {l q : TaskLoop} → LoopReach l q → l.exit_code ≢ none → (q.ran ≡ l.ran) × (q.exit_code ≢ none)
exit_kept here n = (refl, n)
exit_kept (next r s) n =
    let (h, k) = exit_kept r n in let (i, j) = LoopStep-exited s k in (i ∙ h, j)

-- Once `Exit` has been called no other task starts, whatever is in the queue, whatever is posted and
-- whoever calls `Exit` again.
LoopReach-exited : (l q : TaskLoop) → l.exit_code ≢ none → LoopReach l q → q.ran ≡ l.ran
LoopReach-exited l q n r = (exit_kept r n).0

-- The thread in `Run`, left alone for some steps; it stays where it has no step.
abbrev pub stay : TaskLoop → Option TaskLoop → TaskLoop
stay l none = l
stay l (some q) = q

unfoldable pub run_steps : ℕ → TaskLoop → TaskLoop
unfolding run_step
run_steps zero l = l
run_steps (suc n) l = run_steps n (stay l (run_step l.place l))

abbrev pub is_returned : Place → Bool
is_returned (returned code) = true
is_returned _ = false

returns_from :
    (code : ℤ) (p : Place) (ts posted ran leaked : List ℕ)
    → is_returned p ≡ false
    → (run_steps 3 (record {
      task_queue = ts;
      exit_code = some code;
      place = p;
      posted = posted;
      ran = ran;
      leaked = leaked;
    })).place
      ≡ returned code
unfolding run_steps run_step look take_task
returns_from code locks [] posted ran leaked n = refl
returns_from code locks (t ∷ ts) posted ran leaked n = refl
returns_from code (looks o) ts posted ran leaked n = refl
returns_from code (deletes t) [] posted ran leaked n = refl
returns_from code (deletes t) (s ∷ ts) posted ran leaked n = refl
returns_from code (returned c) ts posted ran leaked n = ground arith

-- Once `Exit` has been called, a thread in `Run` that has not returned yet returns that code within
-- three steps of its own, when no other thread calls `Exit` between them.
pub run_steps-returned :
    (l : TaskLoop) (code : ℤ)
    → l.exit_code ≡ some code
    → is_returned l.place ≡ false
    → (run_steps 3 l).place ≡ returned code
run_steps-returned l code e n =
    ap (λ o. (run_steps 3 (record l { exit_code = o })).place) e
    ∙ returns_from code l.place l.task_queue l.posted l.ran l.leaked n
