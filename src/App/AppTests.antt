-- ===== src/App/AppTests.antt =====
-- Tests and concrete instances of the theorems on the application.
use blinkit.Prelude.{
  List, true, ◌++◌, ℕ, ◌+◌, ◌≡◌, refl, false, [], ◌∷◌, some, Bytes, pos, if◌then◌else◌,
}
use blinkit.Runtime.TaskLoop.Order.{run_steps}
use blinkit.App.{App, main_thread, done, new_app, has_exit, bk_exit_app, bk_run_app}
use blinkit.App.WinBackground.{
  Turn, launcher_turn, background_turn, caller_turn, run, start, ended, is_launched,
}
use blinkit.App.WinBackground.Exit.{exit-run}
use blinkit.App.Lifetime.{exiting, bk_run_app-exit}

abbrev eight : Bytes
eight = 1 ∷ 1 ∷ 1 ∷ 1 ∷ 1 ∷ 1 ∷ 1 ∷ 1 ∷ []

-- A client of 24 bytes with a callback, and whether its size is given as 24 or as 16.
abbrev started : ℕ → App
started size = new_app main_thread size (eight ++ (eight ++ eight))

bk_run_app-exit_example :
    let b = exiting (pos 3) (started 24) in
    (bk_exit_app (pos 3) (some (started 24)) ≡ done tt (some b))
    × (bk_run_app 3 (some b)
        ≡ done (pos 3) (
            some (record b {
              task_loop = run_steps 3 b.task_loop;
              deletes = 1;
              exit_calls = 0 + (if has_exit (started 24).client then 1 else 0);
            })))
unfolding new_app
bk_run_app-exit_example = bk_run_app-exit (started 24) (pos 3) refl refl refl

-- The launcher comes back with an application that has its handle, and the code 3 is the exit code.
abbrev launched_turns : List Turn
launched_turns =
    launcher_turn true
    ∷ launcher_turn true
    ∷ background_turn true
    ∷ background_turn true
    ∷ background_turn true
    ∷ background_turn true
    ∷ launcher_turn true
    ∷ []

exit-run_example :
    let w =
      run
        (caller_turn (pos 3) ∷ background_turn true ∷ background_turn true ∷ [])
        (run launched_turns start) in
    (w.background ≡ ended) × (w.exit_code ≡ some (pos 3)) × (w.data_misuse ≡ false)
unfolding is_launched run
exit-run_example = exit-run launched_turns (pos 3) true true refl refl refl

-- The call waits for the thread, and the application closes the handle meanwhile.
abbrev joined_turns : List Turn
joined_turns =
    launched_turns
    ++ (caller_turn (pos 3)
        ∷ caller_turn (pos 3)
        ∷ background_turn true
        ∷ background_turn true
        ∷ caller_turn (pos 3)
        ∷ [])
