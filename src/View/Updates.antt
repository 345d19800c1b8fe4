-- ===== src/View/Updates.antt =====
-- blinkit/view/view_impl.cpp: `scheduleAnimation`, the task that it posts, and the destructor. The
-- task holds a flag that it shares with the view.
use blinkit.Prelude.{
  ℕ, zero, suc, ◌+◌, ◌-◌, ◌≤◌, ◌<◌, Bool, true, false, ◌≡◌, refl, sym, subst, ◌∙◌, ap,
  if◌then◌else◌, arith,
}

-- The view while it is `alive`, the flag, the tasks that are posted, and the runs of `DoUpdate`.
pub record Updates : Type 0 where
  pub alive : Bool
  pub update_required : Bool
  pub posted : ℕ
  pub updates : ℕ

abbrev pub new_updates : Updates
new_updates = record { alive = true; update_required = false; posted = 0; updates = 0 }

unfoldable pub schedule_animation : Updates → Updates
schedule_animation u =
    if u.update_required then u else record u { posted = u.posted + 1; update_required = true }

-- The calls of `scheduleAnimation` that a `DoUpdate` makes, as many as given.
unfoldable pub schedules : ℕ → Updates → Updates
unfolding schedule_animation
schedules zero u = u
schedules (suc n) u = schedules n (schedule_animation u)

unfoldable pub do_update : ℕ → Updates → Updates
unfolding schedules
do_update n u = schedules n (record u { updates = u.updates + 1 })

-- The task.
unfoldable pub run_task : ℕ → Updates → Updates
unfolding do_update
run_task n u =
    let q : Updates = record u { posted = u.posted - 1 } in
    if u.update_required then record (do_update n q) { update_required = false } else q

-- `~ViewImpl`
unfoldable pub destroy_view : Updates → Updates
destroy_view u = record u { alive = false; update_required = false }

pub data UpdateStep (u : Updates) : Updates → Type 0 where
  requests : u.alive ≡ true → UpdateStep u (schedule_animation u)
  runs : (n : ℕ) → 0 < u.posted → UpdateStep u (run_task n u)
  destroys : u.alive ≡ true → UpdateStep u (destroy_view u)

pub data UpdateReach (u : Updates) : Updates → Type 0 where
  here : UpdateReach u u
  next : {v w : Updates} → UpdateReach u v → UpdateStep v w → UpdateReach u w

abbrev pub to_ℕ : Bool → ℕ
to_ℕ true = 1
to_ℕ false = 0

schedules-required : (n : ℕ) (u : Updates) → u.update_required ≡ true → schedules n u ≡ u
unfolding schedules schedule_animation
schedules-required zero u h = refl
schedules-required (suc n) u h =
    let e : schedule_animation u ≡ u = ground arith in ap (schedules n) e ∙ schedules-required n u h

-- What the task comes to, whatever is requested meanwhile.
settled : Updates → Updates
settled u = record u {
  posted = u.posted - 1;
  update_required = false;
  updates = u.updates + to_ℕ u.update_required;
}

run_task-settled : (n : ℕ) (u : Updates) → run_task n u ≡ settled u
unfolding run_task do_update settled
run_task-settled n u =
    let q : Updates = record u { posted = u.posted - 1; updates = u.updates + 1 } in
    ground (arith, schedules-required n q)

-- The requests for another update that an update itself makes are lost: with any number of them the
-- task leaves what it leaves without any, and then nothing is required, which is a bug.
pub run_task-requests :
    (n : ℕ) (u : Updates) → (run_task n u ≡ run_task 0 u) × ((run_task n u).update_required ≡ false)
unfolding settled
run_task-requests n u = (
  run_task-settled n u ∙ sym (run_task-settled 0 u),
  ap (λ (v : Updates). v.update_required) (run_task-settled n u),
)

-- A task is posted while an update is required, and none else; a view that is gone requires none.
record IsCoalesced (u : Updates) : Type 0 where
  while_alive : u.alive ≡ true → u.posted ≡ to_ℕ u.update_required
  when_gone : u.alive ≡ false → u.update_required ≡ false
  few : u.posted ≤ 1

settled-IsCoalesced : (u : Updates) → 0 < u.posted → IsCoalesced u → IsCoalesced (settled u)
unfolding settled
settled-IsCoalesced u p h = ground (arith, h.while_alive, h.when_gone)

UpdateStep-IsCoalesced : {u v : Updates} → UpdateStep u v → IsCoalesced u → IsCoalesced v
unfolding schedule_animation destroy_view
UpdateStep-IsCoalesced {u} (requests e) h = ground (arith, h.while_alive, h.when_gone)
UpdateStep-IsCoalesced {u} (runs n p) h =
    subst IsCoalesced (sym (run_task-settled n u)) (settled-IsCoalesced u p h)
UpdateStep-IsCoalesced {u} (destroys e) h = ground (arith, h.while_alive, h.when_gone)

UpdateReach-IsCoalesced : {u v : Updates} → UpdateReach u v → IsCoalesced u → IsCoalesced v
UpdateReach-IsCoalesced here h = h
UpdateReach-IsCoalesced (next r s) h = UpdateStep-IsCoalesced s (UpdateReach-IsCoalesced r h)

-- In any order of requests, runs of the task and the end of the view: there is one posted task at
-- most; while the view lives there is one exactly when an update is required; and once it is gone
-- no run of the task updates it.
UpdateReach-posted :
    {u : Updates} (n : ℕ)
    → UpdateReach new_updates u
    → (u.posted ≤ 1)
      × (u.alive ≡ true → u.posted ≡ to_ℕ u.update_required)
      × (u.alive ≡ false → (run_task n u).updates ≡ u.updates)
unfolding settled
UpdateReach-posted {u} n r =
    let h =
      UpdateReach-IsCoalesced r
        (record { while_alive = λ e. refl; when_gone = λ e. refl; few = omega arith }) in
    (
      h.few,
      h.while_alive,
      λ e. ap (λ (v : Updates). v.updates) (run_task-settled n u) ∙ ground (arith, h.when_gone e),
    )
