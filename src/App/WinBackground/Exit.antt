-- ===== src/App/WinBackground/Exit.antt =====
-- The end of the background application on Windows, in every order of the threads.
use blinkit.Prelude.{Bool, true, false, List, [], ◌∷◌, Option, none, some, ℤ, ◌≡◌, refl, ◌∙◌, arith}
use blinkit.App.WinBackground.{
  Launcher, creating, storing, awaiting, launched, Background, absent, constructing, initializing,
  entering, signalling, pumping, deleting, ended, failing, reporting, failed, Caller, idle, posted,
  joining, exited, World, start, is_launched, is_joining, launch, get_message, background_thread,
  exit, Turn, launcher_turn, background_turn, caller_turn, take_turn, run,
}
use blinkit.App.WinBackground.Safety.{
  Ordered, Joined, is_exited, run-Ordered, run-Joined, start-Ordered, start-Joined,
}

-- An application that waits for messages: the message of the call ends it.
exit-pumping :
    (code : ℤ) (x y : Bool) (w : World)
    → is_launched w.launcher ≡ true
    → w.initialized ≡ true
    → w.caller ≡ idle
    → w.queue ≡ true
    → w.background ≡ pumping
    → let v = run (caller_turn code ∷ background_turn x ∷ background_turn y ∷ []) w in
      (v.background ≡ ended) × (v.exit_code ≡ some code) × (v.data_misuse ≡ w.data_misuse)
unfolding run take_turn exit
exit-pumping code x y w l i c q b = ground arith

-- When the launcher has come back with an application.
launched-pumping :
    (w : World) (b : Background)
    → w.background ≡ b
    → Ordered w
    → Joined w
    → is_launched w.launcher ≡ true
    → w.initialized ≡ true
    → w.caller ≡ idle
    → (w.background ≡ pumping) × (w.queue ≡ true) × (w.data_misuse ≡ false)
unfolding Ordered Joined
launched-pumping w absent e o j l i c = ground arith
launched-pumping w constructing e o j l i c = ground arith
launched-pumping w initializing e o j l i c = ground arith
launched-pumping w entering e o j l i c = ground arith
launched-pumping w signalling e o j l i c = ground arith
launched-pumping w pumping e o j l i c = ground arith
launched-pumping w deleting e o j l i c = ground arith
launched-pumping w ended e o j l i c = ground arith
launched-pumping w failing e o j l i c = ground arith
launched-pumping w reporting e o j l i c = ground arith
launched-pumping w failed e o j l i c = ground arith

-- Whatever the order of the turns so far: when `BkInitialize` has come back with an application and
-- no call of `BkExitApp` has been made, the background thread has used nothing of the launcher after
-- its return, and a call posts a message that is not lost: two turns of the background thread later
-- the thread has ended, with the code of the call.
pub exit-run :
    (ts : List Turn) (code : ℤ) (x y : Bool)
    → is_launched (run ts start).launcher ≡ true
    → (run ts start).initialized ≡ true
    → (run ts start).caller ≡ idle
    → let w = run (caller_turn code ∷ background_turn x ∷ background_turn y ∷ []) (run ts start) in
      (w.background ≡ ended) × (w.exit_code ≡ some code) × (w.data_misuse ≡ false)
exit-run ts code x y l i c =
    let w = run ts start in
    let o = run-Ordered ts start start-Ordered in
    let (b, q, d) =
      launched-pumping w w.background refl o (run-Joined ts start start-Ordered start-Joined) l i
        c in
    let (e, r, m) = exit-pumping code x y w l i c q b in (e, r, m ∙ d)

-- Whatever the order of the turns: when the application holds the handle of its thread, a call of
-- `BkExitApp` that has come back has used the deleted application, or the application has closed the
-- handle that the call waited on, which is a bug.
exit-app_misuse :
    (ts : List Turn)
    → is_exited (run ts start).caller ≡ true
    → (run ts start).held ≡ true
    → (run ts start).app_misuse ≡ true
unfolding Joined
exit-app_misuse ts e h = let j = run-Joined ts start start-Ordered start-Joined in ground arith

-- The application is made, without the handle.
unfoldable is_made : Background → Bool
is_made absent = false
is_made constructing = false
is_made failing = false
is_made _ = true

unfoldable is_creating : Launcher → Bool
is_creating creating = true
is_creating _ = false

unfoldable Lost : World → Type 0
unfolding is_made is_creating is_joining
Lost w =
    (w.held ≡ false)
    × (w.closed ≡ false)
    × (is_joining w.caller ≡ false)
    × (is_made w.background ≡ true)
    × (is_creating w.launcher ≡ false)

launch-Lost :
    (creates : Bool) (w : World) (l : Launcher)
    → w.launcher ≡ l
    → Lost w
    → Lost (launch creates w l)
unfolding Lost launch
launch-Lost true w creating e o = ground arith
launch-Lost false w creating e o = ground arith
launch-Lost creates w storing e o = ground arith
launch-Lost creates w awaiting e o = ground arith
launch-Lost creates w launched e o = o

message-Lost : (w : World) (quit : Option ℤ) → Lost w → Lost (get_message w quit)
unfolding Lost get_message
message-Lost w none o = o
message-Lost w (some code) o = ground arith

background-Lost :
    (allocates : Bool) (w : World) (b : Background)
    → w.background ≡ b
    → Lost w
    → Lost (background_thread allocates w b)
unfolding Lost background_thread
background-Lost allocates w absent e o = o
background-Lost true w constructing e o = ground arith
background-Lost false w constructing e o = ground arith
background-Lost allocates w initializing e o = ground arith
background-Lost allocates w entering e o = ground arith
background-Lost allocates w signalling e o = ground arith
background-Lost allocates w pumping e o = message-Lost w w.quit o
background-Lost allocates w deleting e o = ground arith
background-Lost allocates w ended e o = o
background-Lost allocates w failing e o = ground arith
background-Lost allocates w reporting e o = ground arith
background-Lost allocates w failed e o = o

exit-Lost : (code : ℤ) (w : World) (c : Caller) → w.caller ≡ c → Lost w → Lost (exit code w c)
unfolding Lost exit
exit-Lost code w idle e o = ground arith
exit-Lost code w posted e o = ground arith
exit-Lost code w joining e o = ground arith
exit-Lost code w exited e o = o

run-Lost : (ts : List Turn) (w : World) → Lost w → Lost (run ts w)
unfolding run take_turn
run-Lost [] w o = o
run-Lost (launcher_turn creates ∷ ts) w o =
    run-Lost ts (launch creates w w.launcher) (launch-Lost creates w w.launcher refl o)
run-Lost (background_turn allocates ∷ ts) w o =
    run-Lost ts (background_thread allocates w w.background)
      (background-Lost allocates w w.background refl o)
run-Lost (caller_turn code ∷ ts) w o =
    run-Lost ts (exit code w w.caller) (exit-Lost code w w.caller refl o)

-- When the new thread runs before `CreateThread` has given its handle to the launcher, then whatever
-- the later order of the turns, the application never has the handle of its thread, nothing closes
-- it, and `BkExitApp` never waits for the thread, which is a bug.
run-held :
    (ts : List Turn)
    → let w = run (launcher_turn true ∷ background_turn true ∷ ts) start in
      (w.held ≡ false) × (w.closed ≡ false) × (is_joining w.caller ≡ false)
unfolding Lost run take_turn
run-held ts =
    let w = run (launcher_turn true ∷ background_turn true ∷ []) start in
    let (h, c, j, made, created) = run-Lost ts w (refl, refl, refl, refl, refl) in (h, c, j)
