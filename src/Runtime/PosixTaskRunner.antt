-- ===== src/Runtime/PosixTaskRunner.antt =====
-- blinkit/blink_impl/posix_task_runner.cpp, without its assertions. `base::TimeDelta` is not BlinKit's
-- own: a delay is whether it is zero and its whole milliseconds, and is not negative.
use blinkit.Prelude.{
  length, ◌↔◌, ℕ, ◌+◌, ◌*◌, ◌<◌, ◌%◌, Bool, true, false, List, [], ◌∷◌, ◌≡◌, if◌then◌else◌, arith,
}
use Prim.Native.Nat.{◌/◌}

pub record TimeDelta : Type 0 where
  pub is_zero : Bool
  pub in_milliseconds : ℕ

pub record Timespec : Type 0 where
  pub tv_sec : ℕ
  pub tv_nsec : ℕ

-- The argument of `nanosleep` in `~DelayData`.
unfoldable pub timespec : ℕ → Timespec
timespec ms = record { tv_sec = ms / 1000; tv_nsec = (ms % 1000) * 1000000 }

-- What is done with the task: it is posted at once, or by a thread of its own or by the caller, after
-- a sleep.
pub data Deed : Type 0 where
  posts_now : Deed
  posts_from_thread : Timespec → Deed
  posts_from_caller : Timespec → Deed

-- `PostDelayedTask`: `thread_created` is whether `pthread_create` comes back with 0. The destructor
-- of `DelayData` sleeps and posts, on whichever thread deletes it.
unfoldable pub post_delayed_task : Bool → TimeDelta → Bool × List Deed
post_delayed_task thread_created delay =
    if delay.is_zero
    then (true, posts_now ∷ [])
    else if thread_created
    then (true, posts_from_thread (timespec delay.in_milliseconds) ∷ [])
    else (false, posts_from_caller (timespec delay.in_milliseconds) ∷ [])

-- The sleep is as long as the delay, and its nanoseconds are less than a second, as `nanosleep` wants.
timespec_exact :
    (ms : ℕ)
    → ((timespec ms).tv_sec * 1000000000 + (timespec ms).tv_nsec ≡ ms * 1000000)
      × ((timespec ms).tv_nsec < 1000000000)
unfolding timespec
timespec_exact ms = (omega arith, omega arith)

-- `PostDelayedTask` posts the task once on every path; it says `false` exactly when there is a
-- delay and no thread can be had, although it has posted the task then too, which is a bug.
post_delayed_task_lem :
    (created : Bool) (delay : TimeDelta)
    → let done = post_delayed_task created delay in
      (length done.1 ≡ 1) × ((done.0 ≡ false) ↔ ((delay.is_zero ≡ false) × (created ≡ false)))
unfolding post_delayed_task
post_delayed_task_lem created delay = (ground arith, ground arith)
