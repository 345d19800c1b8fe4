-- ===== src/Runtime/WinTaskRunners/Timing.antt =====
-- When a task that another thread posts with a delay is run.
use blinkit.Prelude.{
  ap, ◌∙◌, sym, leb, ℕ, ◌+◌, ◌-◌, ◌%◌, ◌*◌, ◌≤◌, ◌<◌, ◌≡◌, ◌↔◌, ◌≢◌, arith, if◌then◌else◌,
}
use blinkit.Runtime.WinTaskRunners.{TaskData, Runner, dword, minus, start_timer}
use blinkit.Runtime.WinTaskRunners.SingleThread
use blinkit.Runtime.WinTaskRunners.Cloned

-- The difference of two ticks is the time that has passed, also when the counter has wrapped.
minus-later :
    (start waited : ℕ)
    → start < dword
    → waited < dword
    → minus ((start + waited) % dword) start ≡ waited
minus-later start waited s w = omega arith

timer-elapse :
    (id task e f : ℕ) (r : Runner) → start_timer id task e r ≡ start_timer id task f r → e ≡ f
unfolding start_timer
timer-elapse id task e f r h = ground arith

single_timer :
    (effect : ℕ → Runner → Runner) (id now : ℕ) (td : TaskData) (r : Runner)
    → id ≢ 0
    → td.delay_in_ms ≢ 0
    → SingleThread.process_message effect id now td r
      ≡ start_timer id td.task (minus now td.start_tick) r
unfolding SingleThread.process_message SingleThread.set_timer
single_timer effect id now td r i d = ground arith

cloned_timer :
    (effect : ℕ → Runner → Runner) (id now : ℕ) (td : TaskData) (r : Runner)
    → td.delay_in_ms ≢ 0
    → Cloned.process_message effect id now td r
      ≡ start_timer id td.task (minus td.delay_in_ms (minus now td.start_tick)) r
unfolding Cloned.process_message
cloned_timer effect id now td r d = ground arith

-- What the difference from a delay is, when it wraps around and when it does not.
minus_wraps :
    (delay waited : ℕ)
    → delay < dword
    → waited < dword
    → minus delay waited ≡ (if leb waited delay then delay - waited else dword - (waited - delay))
minus_wraps delay waited d w = ground arith

-- On `WinSingleThreadTaskRunner` a delayed message that is processed `waited` milliseconds after
-- it was posted sets a timer for `waited` more, whatever the delay was; that is what is left of
-- the delay exactly when half of it has passed, which is a bug.
single_process_message_due :
    (effect : ℕ → Runner → Runner) (id waited : ℕ) (td : TaskData) (r : Runner)
    → id ≢ 0
    → td.delay_in_ms ≢ 0
    → td.start_tick < dword
    → waited < dword
    → waited ≤ td.delay_in_ms
    → let q = SingleThread.process_message effect id ((td.start_tick + waited) % dword) td r in
      (q ≡ start_timer id td.task waited r)
      × ((q ≡ start_timer id td.task (td.delay_in_ms - waited) r) ↔ (2 * waited ≡ td.delay_in_ms))
single_process_message_due effect id waited td r i d s w le =
    let m = minus-later td.start_tick waited s w in
    let e : SingleThread.process_message effect id ((td.start_tick + waited) % dword) td r
        ≡ start_timer id td.task waited r =
      single_timer effect id _ td r i d ∙ ap (λ (t : ℕ). start_timer id td.task t r) m in
    (
      e,
      (
        λ h. omega (arith, timer-elapse id td.task waited (td.delay_in_ms - waited) r (sym e ∙ h)),
        λ h. e ∙ ap (λ (t : ℕ). start_timer id td.task t r) (omega arith),
      ),
    )

-- On `WinTaskRunner` it sets a timer for what is left of the delay, when no more than the delay
-- has passed; when more has passed, the difference wraps around, and the timer is set to
-- `2 ^ 32` milliseconds less the time that it is late, which is a bug.
pub process_message_due :
    (effect : ℕ → Runner → Runner) (id waited : ℕ) (td : TaskData) (r : Runner)
    → td.delay_in_ms ≢ 0
    → td.delay_in_ms < dword
    → td.start_tick < dword
    → waited < dword
    → Cloned.process_message effect id ((td.start_tick + waited) % dword) td r
      ≡ start_timer id td.task
          (if leb waited td.delay_in_ms
            then td.delay_in_ms - waited
            else dword - (waited - td.delay_in_ms))
          r
process_message_due effect id waited td r d l s w =
    cloned_timer effect id _ td r d
    ∙ ap (λ (t : ℕ). start_timer id td.task t r)
        (ap (minus td.delay_in_ms) (minus-later td.start_tick waited s w)
          ∙ minus_wraps td.delay_in_ms waited l w)
