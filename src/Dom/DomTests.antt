-- ===== src/Dom/DomTests.antt =====
-- Tests and concrete instances of the theorems on life cycles and events.
use blinkit.Prelude.{
  ◌+◌, ℕ, ◌≡◌, ◌≢◌, refl, not, [], ◌∷◌, none, some, Bytes, codes, arith, true, false, bytes_eq,
  length, filter, List,
}
use blinkit.Dom.Lifecycle.{
  LifecycleState, stopping, inactive, DocumentLifecycle, new_lifecycle, can_advance_to, advance_to,
  follows,
}
use blinkit.Dom.Lifecycle.States.{starts, advances, Lives-reachable, is_reachable}
use blinkit.Dom.Events.Dispatcher.{Context, Dispatch, Handlers, dispatch_phases}
use blinkit.Dom.Events.Dispatcher.Phases.{LetsPass, dispatch_phases-visits}
use blinkit.Dom.Events.Event.{
  capturing_phase, at_target, bubbling_phase, Event, DispatchEventResult, new_event,
}
use blinkit.Dom.Events.Listener.{Options, registered_event_listener, matches}
use blinkit.Dom.Events.ListenerMap.Refinement.{
  MapOperation, operate_all, promised_all, operate_all-refines,
}
use blinkit.Dom.Events.ListenerMap.{find, remove, remove_listener_from_vector, listeners_of}
use blinkit.Dom.Events.Target.{
  FiringEventIterator, EventTargetData, notify, Act, adds, removes, fire_event_listeners,
}
use blinkit.Dom.Events.Target.Windows.{pending, IsInside, notify-pending}
use blinkit.Dom.Events.Target.Firing.{IsSound}
use blinkit.Dom.Events.Target.Loop.{fire_event_listeners_total}

abbrev closing : DocumentLifecycle
closing = record new_lifecycle { state = stopping }

Lives-reachable_example :
    (is_reachable true inactive ≡ true)
    × ((n : LifecycleState)
        → can_advance_to true (record new_lifecycle { state = inactive }) n ≢ none)
unfolding advance_to can_advance_to follows
Lives-reachable_example =
    Lives-reachable true (record new_lifecycle { state = inactive }) (advances inactive starts refl)

abbrev options : Options
options = record {
  capture = false;
  is_passive = false;
  once = false;
  passive_forced_for_document_target = false;
  passive_specified = false;
}

abbrev click : Bytes
click = codes "click"

abbrev listening : EventTargetData
listening = record {
  listeners =
      (click, registered_event_listener 1 options ∷ registered_event_listener 2 options ∷ []) ∷ [];
  firing = [];
}

abbrev after_first : FiringEventIterator
after_first = record { event_type = click; iterator = 1; end = 2 }

after_first-IsInside : IsInside listening.listeners after_first
unfolding find bytes_eq
after_first-IsInside = record { ordered = omega arith; bounded = omega arith }

notify-pending_example :
    pending (remove click 2 false listening.listeners).1 (notify click 1 after_first)
    ≡ filter (λ r. not (matches 2 false r)) (pending listening.listeners after_first)
unfolding find remove remove_listener_from_vector bytes_eq
notify-pending_example =
    notify-pending after_first 2 false listening.listeners 1 (refl, tt) refl (omega arith)
      after_first-IsInside

-- The first callback removes both listeners and adds a third.
abbrev callbacks : ℕ → List Act
callbacks n = removes click 1 false ∷ removes click 2 false ∷ adds click 3 options ∷ []

fire_event_listeners_total_example :
    let e = new_event false click true true in
    (r : DispatchEventResult × (Event × EventTargetData)) × (fire_event_listeners false callbacks
        true e listening
      ≡ some r)
    × IsSound ((r.1).1)
    × (length ((r.1).1.firing) ≡ 0)
unfolding find
fire_event_listeners_total_example =
    fire_event_listeners_total false callbacks true (new_event false click true true) listening
      (record { unique = (refl, tt); inside = tt })

abbrev adding : Handlers ℕ
adding = record { fire = λ n e s. (e, s + n); handle_by_default = λ n e s. (e, s) }

adding-LetsPass : LetsPass adding
adding-LetsPass = record { keeps_running = λ n e s r. r; keeps_bubbles = λ n e s. refl }

abbrev starting : Dispatch ℕ
starting = record { event = new_event false click true true; store = 0; visited = [] }

abbrev window_context : Context
window_context = record { target = 1; current_target = 9 }

abbrev target_context : Context
target_context = record { target = 1; current_target = 1 }

abbrev parent_context : Context
parent_context = record { target = 1; current_target = 2 }

dispatch_phases-visits_example :
    (dispatch_phases adding
      (some window_context)
      target_context
      (parent_context ∷ [])
      starting).visited
    ≡ (9, capturing_phase)
      ∷ (2, capturing_phase)
      ∷ (1, at_target)
      ∷ (2, bubbling_phase)
      ∷ (9, bubbling_phase)
      ∷ []
dispatch_phases-visits_example =
    dispatch_phases-visits adding adding-LetsPass (some window_context) target_context
      (parent_context ∷ []) starting refl refl (refl, tt)

-- A listener is added twice and removed.
abbrev three : List MapOperation
three =
    MapOperation.adds click 2 options
    ∷ MapOperation.adds click 2 options
    ∷ MapOperation.removes click 2 false
    ∷ []

operate_all-refines_example :
    ((operate_all three []).0 ≡ (promised_all three (λ u. [])).0)
    × ((u : Bytes) → listeners_of u (operate_all three []).1 ≡ (promised_all three (λ v. [])).1 u)
operate_all-refines_example = operate_all-refines three
