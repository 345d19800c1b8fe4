-- ===== src/App/WinBackground/Safety.antt =====
-- Every interleaving of the threads around the background application on Windows.
use blinkit.Prelude.{Bool, true, false, List, [], ◌∷◌, Option, none, some, ℤ, ◌≡◌, refl, arith}
use blinkit.App.WinBackground.{
  Launcher, creating, storing, awaiting, launched, Background, absent, constructing, initializing,
  entering, signalling, pumping, deleting, ended, failing, reporting, failed, Caller, idle, posted,
  joining, exited, World, start, is_launched, is_absent, is_joining, is_ended, launch, get_message,
  background_thread, exit, Turn, launcher_turn, background_turn, caller_turn, take_turn, run,
}

unfoldable not_none : Option ℤ → Bool
not_none none = false
not_none (some code) = true

-- After the last use of `data`.
unfoldable is_signalled : Background → Bool
is_signalled pumping = true
is_signalled deleting = true
is_signalled ended = true
is_signalled failed = true
is_signalled _ = false

unfoldable is_initialized : Background → Bool
is_initialized entering = true
is_initialized signalling = true
is_initialized pumping = true
is_initialized deleting = true
is_initialized ended = true
is_initialized _ = false

unfoldable has_queue : Background → Bool
has_queue signalling = true
has_queue pumping = true
has_queue deleting = true
has_queue ended = true
has_queue _ = false

unfoldable is_creating : Launcher → Bool
is_creating creating = true
is_creating _ = false

unfoldable pub is_idle : Caller → Bool
is_idle idle = true
is_idle _ = false

unfoldable pub is_exited : Caller → Bool
is_exited exited = true
is_exited _ = false

unfoldable is_deleting : Background → Bool
is_deleting deleting = true
is_deleting _ = false

-- The launcher comes back after the last use of `data`; the application is there exactly at the
-- points of the background thread behind its making, and the caller of `Exit` after the launcher.
unfoldable pub Ordered : World → Type 0
unfolding is_signalled is_launched is_initialized has_queue is_creating is_idle is_absent
Ordered w =
    (w.event ≡ true → is_signalled w.background ≡ true)
    × (is_launched w.launcher ≡ true → is_signalled w.background ≡ true)
    × (w.data_misuse ≡ false)
    × (is_creating w.launcher ≡ true → is_absent w.background ≡ true)
    × (w.initialized ≡ is_initialized w.background)
    × (w.queue ≡ has_queue w.background)
    × (is_idle w.caller ≡ false → (is_launched w.launcher ≡ true) × (w.initialized ≡ true))

launch-Ordered :
    (creates : Bool) (w : World) (l : Launcher)
    → w.launcher ≡ l
    → Ordered w
    → Ordered (launch creates w l)
unfolding Ordered launch
launch-Ordered true w creating e o = ground arith
launch-Ordered false w creating e o = ground arith
launch-Ordered creates w storing e o = ground arith
launch-Ordered creates w awaiting e o = ground arith
launch-Ordered creates w launched e o = o

background-Ordered :
    (allocates : Bool) (w : World) (b : Background)
    → w.background ≡ b
    → Ordered w
    → Ordered (background_thread allocates w b)
unfolding Ordered background_thread
background-Ordered allocates w absent e o = o
background-Ordered true w constructing e o = ground arith
background-Ordered false w constructing e o = ground arith
background-Ordered allocates w initializing e o = ground arith
background-Ordered allocates w entering e o = ground arith
background-Ordered allocates w signalling e o = ground arith
background-Ordered allocates w pumping e o = ground arith
background-Ordered allocates w deleting e o = ground arith
background-Ordered allocates w ended e o = o
background-Ordered allocates w failing e o = ground arith
background-Ordered allocates w reporting e o = ground arith
background-Ordered allocates w failed e o = o

exit-Ordered :
    (code : ℤ) (w : World) (c : Caller) → w.caller ≡ c → Ordered w → Ordered (exit code w c)
unfolding Ordered exit
exit-Ordered code w idle e o = ground arith
exit-Ordered code w posted e o = ground arith
exit-Ordered code w joining e o = ground arith
exit-Ordered code w exited e o = o

-- Who closes what: a caller that waits has seen a handle, and the message of its call is in the
-- queue, from which the exit code comes.
unfoldable pub Joined : World → Type 0
unfolding is_idle is_joining is_ended not_none is_exited is_deleting
Joined w =
    (is_joining w.caller ≡ true → w.held ≡ true)
    × (is_joining w.caller ≡ true → is_ended w.background ≡ true → w.app_misuse ≡ true)
    × (is_exited w.caller ≡ true → w.held ≡ true → w.app_misuse ≡ true)
    × (is_idle w.caller ≡ true → w.quit ≡ none)
    × (is_deleting w.background ≡ true → is_idle w.caller ≡ false)
    × (is_ended w.background ≡ true → (is_idle w.caller ≡ false) × (w.exit_code ≡ w.quit))
    × (is_idle w.caller ≡ false → not_none w.quit ≡ true)

exit-Joined :
    (code : ℤ) (w : World) (c : Caller)
    → w.caller ≡ c
    → Ordered w
    → Joined w
    → Joined (exit code w c)
unfolding Ordered Joined exit
exit-Joined code w idle e o j = ground arith
exit-Joined code w posted e o j = ground arith
exit-Joined code w joining e o j = ground arith
exit-Joined code w exited e o j = j

message-Joined :
    (w : World) (quit : Option ℤ)
    → w.background ≡ pumping
    → w.quit ≡ quit
    → Joined w
    → Joined (get_message w quit)
unfolding Joined get_message
message-Joined w none e q j = j
message-Joined w (some code) e q j = ground arith

background-Joined :
    (allocates : Bool) (w : World) (b : Background)
    → w.background ≡ b
    → Ordered w
    → Joined w
    → Joined (background_thread allocates w b)
unfolding Ordered Joined background_thread
background-Joined allocates w absent e o j = j
background-Joined true w constructing e o j = ground arith
background-Joined false w constructing e o j = ground arith
background-Joined allocates w initializing e o j = ground arith
background-Joined allocates w entering e o j = ground arith
background-Joined allocates w signalling e o j = ground arith
background-Joined allocates w pumping e o j = message-Joined w w.quit e refl j
background-Joined allocates w deleting e o j = ground arith
background-Joined allocates w ended e o j = j
background-Joined allocates w failing e o j = ground arith
background-Joined allocates w reporting e o j = ground arith
background-Joined allocates w failed e o j = j

launch-Joined :
    (creates : Bool) (w : World) (l : Launcher)
    → w.launcher ≡ l
    → Ordered w
    → Joined w
    → Joined (launch creates w l)
unfolding Ordered Joined launch
launch-Joined true w creating e o j = ground arith
launch-Joined false w creating e o j = j
launch-Joined creates w storing e o j = j
launch-Joined creates w awaiting e o j = ground arith
launch-Joined creates w launched e o j = j

take_turn-Ordered : (t : Turn) (w : World) → Ordered w → Ordered (take_turn t w)
unfolding take_turn
take_turn-Ordered (launcher_turn creates) w o = launch-Ordered creates w w.launcher refl o
take_turn-Ordered (background_turn allocates) w o =
    background-Ordered allocates w w.background refl o
take_turn-Ordered (caller_turn code) w o = exit-Ordered code w w.caller refl o

take_turn-Joined : (t : Turn) (w : World) → Ordered w → Joined w → Joined (take_turn t w)
unfolding take_turn
take_turn-Joined (launcher_turn creates) w o j = launch-Joined creates w w.launcher refl o j
take_turn-Joined (background_turn allocates) w o j =
    background-Joined allocates w w.background refl o j
take_turn-Joined (caller_turn code) w o j = exit-Joined code w w.caller refl o j

pub run-Ordered : (ts : List Turn) (w : World) → Ordered w → Ordered (run ts w)
unfolding run
run-Ordered [] w o = o
run-Ordered (t ∷ ts) w o = run-Ordered ts (take_turn t w) (take_turn-Ordered t w o)

pub run-Joined : (ts : List Turn) (w : World) → Ordered w → Joined w → Joined (run ts w)
unfolding run
run-Joined [] w o j = j
run-Joined (t ∷ ts) w o j =
    run-Joined ts (take_turn t w) (take_turn-Ordered t w o) (take_turn-Joined t w o j)

pub start-Ordered : Ordered start
unfolding Ordered
start-Ordered = ground arith

pub start-Joined : Joined start
unfolding Joined
start-Joined = ground arith
