-- ===== src/App/Lifetime.antt =====
-- The end of an application: its exit code, and what is left behind.
use blinkit.Prelude.{
  ℕ, zero, suc, ◌+◌, ◌≤◌, false, not, [], ◌∷◌, ◌≡◌, refl, ◌∙◌, ap, some, ◌==◌, if◌then◌else◌, Bytes,
  ℤ, any, drop, length, arith,
}
use blinkit.Runtime.TaskLoop.{TaskLoop, returned, exit}
use blinkit.Runtime.TaskLoop.Order.{run_steps, run_steps-returned, is_returned}
use blinkit.App.{
  App, AppMode, main_thread, Outcome, undefined, done, copy_client, has_exit, client_size,
  exit_offset, new_app, delete_app, bk_initialize, with_app, bk_exit_app, app_exit, bk_finalize,
  app_finalize, finish_run, run_and_finalize, bk_run_app, bk_app_execute, app_execute,
}

finish-returned :
    (a : App) (code : ℤ) (l : TaskLoop)
    → l.place ≡ returned code
    → finish_run (record a { task_loop = l }) l.place
      ≡ done code (some (delete_app (record a { task_loop = l })))
unfolding finish_run
finish-returned a code l e = ap (finish_run (record a { task_loop = l })) e

alive :
    {A : Type 0} (f : App → AppMode → Outcome A) (a : App) {mode : AppMode}
    → a.deletes ≡ 0
    → a.mode ≡ mode
    → with_app f (some a) ≡ f a mode
unfolding with_app
alive f a d m = let e : with_app f (some a) ≡ f a a.mode = ground arith in e ∙ ap (f a) m

dead :
    {A : Type 0} (f : App → AppMode → Outcome A) (a : App)
    → with_app f (some (delete_app a)) ≡ undefined
unfolding with_app delete_app
dead f a = ground arith

abbrev pub exiting : ℤ → App → App
exiting code a = record a { task_loop = exit code a.task_loop }

-- On an application of the main thread that has not been deleted, whatever its loop is at: when
-- `BkExitApp` has given it a code, `BkRunApp` returns that code within three steps, and has deleted
-- it, with one call of `Exit` exactly when the client has one.
pub bk_run_app-exit :
    (a : App) (code : ℤ)
    → a.mode ≡ main_thread
    → a.deletes ≡ 0
    → is_returned a.task_loop.place ≡ false
    → let b = exiting code a in
      (bk_exit_app code (some a) ≡ done tt (some b))
      × (bk_run_app 3 (some b)
          ≡ done code (
              some (record b {
                task_loop = run_steps 3 b.task_loop;
                deletes = a.deletes + 1;
                exit_calls = a.exit_calls + (if has_exit a.client then 1 else 0);
              })))
unfolding bk_exit_app app_exit bk_run_app run_and_finalize delete_app
bk_run_app-exit a code m d p =
    let b = exiting code a in
    (
      alive (app_exit code) a d m,
      alive (run_and_finalize 3) b d m
          ∙ finish-returned b code (run_steps 3 b.task_loop)
              (run_steps-returned b.task_loop code refl p),
    )

-- `Platform::Current()` outlives the application: after it has been finalized, no mode can be
-- initialized again, and a second `BkFinalize`, as after `BkRunApp`, and each other call uses the
-- deleted object, which is a bug.
bk_finalize-finalize :
    (a : App) (mode : AppMode) (size task steps : ℕ) (bytes : Bytes) (code : ℤ)
    → a.mode ≡ main_thread
    → a.deletes ≡ 0
    → let w = some (delete_app a) in
      (bk_finalize (some a) ≡ done tt w)
      × (bk_initialize mode size bytes w ≡ (false, w))
      × (bk_finalize w ≡ undefined)
      × (bk_run_app steps w ≡ undefined)
      × (bk_exit_app code w ≡ undefined)
      × (bk_app_execute task w ≡ undefined)
unfolding bk_finalize app_finalize bk_initialize bk_run_app bk_exit_app bk_app_execute
bk_finalize-finalize a mode size task steps bytes code m d = (
  alive app_finalize a d m,
  refl,
  dead app_finalize a,
  dead (run_and_finalize steps) a,
  dead (app_exit code) a,
  dead (app_execute task) a,
)

-- The bytes behind the size that the client gives are zero, and those before it are the client's.
copy_client-zero :
    (k total size : ℕ) (bytes : Bytes)
    → size ≤ k
    → any (λ (b : ℕ). not (b == 0)) (drop k (copy_client total size bytes)) ≡ false
unfolding copy_client
copy_client-zero zero zero zero bytes h = refl
copy_client-zero zero (suc t) zero bytes h = ground (arith, copy_client-zero zero t zero bytes h)
copy_client-zero zero total (suc s) bytes h = absurd (omega arith)
copy_client-zero (suc k) zero size bytes h = refl
copy_client-zero (suc k) (suc t) zero bytes h = copy_client-zero k t zero bytes (omega arith)
copy_client-zero (suc k) (suc t) (suc s) [] h = copy_client-zero k t s [] (omega arith)
copy_client-zero (suc k) (suc t) (suc s) (b ∷ bytes) h = copy_client-zero k t s bytes (omega arith)

copy_client-whole :
    (total size : ℕ) (bytes : Bytes)
    → total ≤ size
    → length bytes ≡ total
    → copy_client total size bytes ≡ bytes
unfolding copy_client
copy_client-whole zero size [] h e = refl
copy_client-whole zero size (b ∷ bytes) h e = absurd (omega arith)
copy_client-whole (suc t) zero bytes h e = absurd (omega arith)
copy_client-whole (suc t) (suc s) [] h e = absurd (omega arith)
copy_client-whole (suc t) (suc s) (b ∷ bytes) h e =
    ap (◌∷◌ b) (copy_client-whole t s bytes (omega arith) (omega arith))

-- A client that was built without the field `Exit`, so that its size ends before the field, is taken
-- to have none, whatever stands behind it in memory.
has_exit-new_app :
    (mode : AppMode) (size : ℕ) (bytes : Bytes)
    → size ≤ exit_offset
    → has_exit (new_app mode size bytes).client ≡ false
unfolding new_app has_exit
has_exit-new_app mode size bytes = copy_client-zero exit_offset client_size size bytes

-- A client that was built with all fields, or with more, is taken over whole.
client-new_app :
    (mode : AppMode) (size : ℕ) (bytes : Bytes)
    → client_size ≤ size
    → length bytes ≡ client_size
    → (new_app mode size bytes).client ≡ bytes
unfolding new_app
client-new_app mode size bytes = copy_client-whole client_size size bytes
