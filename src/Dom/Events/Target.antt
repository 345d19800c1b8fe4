-- ===== src/Dom/Events/Target.antt =====
-- event_target.h and event_target.cpp, in the crawler's build, on a target that has its data.
-- `firing` holds the iterators of the calls of `FireEventListeners` that are on the stack, the
-- innermost one first; a callback is the list of what it does.
pub mod Windows
pub mod Firing
pub mod Loop
use mathlib.Core.Option
use blinkit.Prelude.{
  ℕ, zero, suc, ◌+◌, ◌-◌, ltb, leb, Bool, true, false, not, List, [], ◌∷◌, map, Option, none, some,
  if◌then◌else◌, Bytes, bytes_eq, length, get_elem?,
}
use blinkit.Dom.Events.Event.{
  Event, DispatchEventResult, prevent_default, set_handling_passive, set_executed,
  get_dispatch_event_result, not_passive,
}
use blinkit.Dom.Events.Listener.{Options, RegisteredEventListener, should_fire, event_passive_mode}
use blinkit.Dom.Events.ListenerMap.{
  listeners_of, EventListenerMap, EventListenerVector, add, find, remove, contains_capturing,
}

pub record FiringEventIterator : Type 0 where
  pub event_type : Bytes
  pub iterator : ℕ
  pub end : ℕ

pub record EventTargetData : Type 0 where
  pub listeners : EventListenerMap
  pub firing : List FiringEventIterator

-- `AddEventListenerInternal`, with a listener that is not null.
unfoldable pub add_event_listener : Bytes → ℕ → Options → EventTargetData → Bool × EventTargetData
add_event_listener event_type listener options d =
    let (added, m) = add event_type listener options d.listeners in
    (added, record d { listeners = m })

-- The body of the loop of `RemoveEventListenerInternal`.
unfoldable pub notify : Bytes → ℕ → FiringEventIterator → FiringEventIterator
notify event_type index f =
    if not (bytes_eq event_type f.event_type)
    then f
    else if leb f.end index
    then f
    else if ltb index f.iterator
    then record f { iterator = f.iterator - 1; end = f.end - 1 }
    else record f { end = f.end - 1 }

abbrev pub notify_all :
    Bytes → Option ℕ → EventListenerMap → EventTargetData → Bool × EventTargetData
notify_all event_type none m d = (false, record d { listeners = m })
notify_all event_type (some index) m d =
    (true, record { listeners = m; firing = map (notify event_type index) d.firing })

-- `RemoveEventListenerInternal` and `removeEventListener`
unfoldable pub remove_event_listener : Bytes → ℕ → Bool → EventTargetData → Bool × EventTargetData
remove_event_listener event_type listener capture d =
    let (index, m) = remove event_type listener capture d.listeners in
    notify_all event_type index m d

-- `RemoveAllEventListeners`
abbrev pub reset : FiringEventIterator → FiringEventIterator
reset f = record f { iterator = 0; end = 0 }

unfoldable pub remove_all_event_listeners : EventTargetData → EventTargetData
remove_all_event_listeners d = record { listeners = []; firing = map reset d.firing }

-- `HasCapturingEventListeners`
abbrev pub has_capturing_event_listeners : Bytes → EventTargetData → Bool
has_capturing_event_listeners event_type d = contains_capturing event_type d.listeners

-- What a callback does to the target and to the event.
pub data Act : Type 0 where
  adds : Bytes → ℕ → Options → Act
  removes : Bytes → ℕ → Bool → Act
  removes_all : Act
  prevents_default : Act
  stops_propagation : Act
  stops_immediate_propagation : Act

unfoldable pub act : Act → Event × EventTargetData → Event × EventTargetData
act (adds t l o) (e, d) = (e, (add_event_listener t l o d).1)
act (removes t l c) (e, d) = (e, (remove_event_listener t l c d).1)
act removes_all (e, d) = (e, remove_all_event_listeners d)
act prevents_default (e, d) = (prevent_default e, d)
act stops_propagation (e, d) = (record e { propagation_stopped = true }, d)
act stops_immediate_propagation (e, d) = (record e { immediate_propagation_stopped = true }, d)

abbrev pub acts : List Act → Event × EventTargetData → Event × EventTargetData
acts [] s = s
acts (x ∷ xs) s = acts xs (act x s)

-- One turn of the loop of `FireEventListeners`, whose `entry` is the vector of the type: it is over, it breaks off, it passes a listener by,
-- it has called one, or it reads past the end of the vector.
pub data Turn : Type 0 where
  over : Turn
  breaks : Event × EventTargetData → Turn
  passes : Event × EventTargetData → Turn
  calls : Event × EventTargetData → Turn
  reads_past_the_end : Turn

-- A listener that is to be called once is removed first.
abbrev pub remove_once : RegisteredEventListener → Bytes → EventTargetData → EventTargetData
remove_once r t d = if r.once then (remove_event_listener t r.callback r.use_capture d).1 else d

-- The pop of the iterator after the loop.
abbrev pub pop_back : List FiringEventIterator → List FiringEventIterator
pop_back [] = []
pop_back (f ∷ fs) = fs

abbrev pub popped : Bool × (Event × EventTargetData) → Bool × (Event × EventTargetData)
popped (fired, (e, d)) = (fired, (e, record d { firing = pop_back d.firing }))

-- What `FireEventListeners(event)` does after it.
abbrev pub finish :
    Bool × (Event × EventTargetData) → DispatchEventResult × (Event × EventTargetData)
finish (fired, (e, d)) =
    let e' = if fired then set_executed e else e in (get_dispatch_event_result e', (e', d))

-- What comes after a turn.
abbrev pub follow :
    (Bool → Event × EventTargetData → Option (Bool × (Event × EventTargetData)))
    → Bool
    → Event × EventTargetData
    → Turn
    → Option (Bool × (Event × EventTargetData))
follow again fired s over = some (fired, s)
follow again fired s (breaks q) = some (fired, q)
follow again fired s (passes q) = again fired q
follow again fired s (calls q) = again true q
follow again fired s reads_past_the_end = none

module _ (at_shadow_hosts : Bool) (callbacks : ℕ → List Act) where
  -- The call of a listener, after `++i`.
  abbrev pub call : RegisteredEventListener → Event → EventTargetData → Event × EventTargetData
  call r e d =
      let (e', d') =
        acts (callbacks r.callback) (set_handling_passive (event_passive_mode r) e, d) in
      (set_handling_passive not_passive e', d')

  unfoldable pub handle : RegisteredEventListener → Event → EventTargetData → Turn
  handle r e d =
      if not (should_fire at_shadow_hosts e r)
      then passes (e, d)
      else if e.immediate_propagation_stopped
      then breaks (e, remove_once r e.event_type d)
      else calls (call r e (remove_once r e.event_type d))

  abbrev pub read : Option RegisteredEventListener → Event → EventTargetData → Turn
  read none e d = reads_past_the_end
  read (some r) e d = handle r e d

  unfoldable pub turn : Event → EventListenerMap → List FiringEventIterator → Turn
  turn e m [] = over
  turn e m (f ∷ fs) =
      if ltb f.iterator f.end
      then read (get_elem? (listeners_of f.event_type m) f.iterator) e
          (record { listeners = m; firing = record f { iterator = f.iterator + 1 } ∷ fs })
      else over

  -- The loop, on fuel: whether a listener was called, and the state; `none` when the fuel is out
  -- or the vector is read past its end.
  unfoldable pub fire_loop :
      ℕ → Bool → Event × EventTargetData → Option (Bool × (Event × EventTargetData))
  fire_loop zero fired s = none
  fire_loop (suc n) fired s =
      follow (λ b q. fire_loop n b q) fired s (turn s.0 s.1.listeners s.1.firing)

  -- `FireEventListeners(event, d, entry)`: the iterator is pushed, and popped after the loop.
  unfoldable pub fire_listeners :
      Bool
      → Event
      → EventTargetData
      → EventListenerVector
      → Option (Bool × (Event × EventTargetData))
  fire_listeners has_context e d entry =
      let f : FiringEventIterator = record {
        event_type = e.event_type;
        iterator = 0;
        end = length entry;
      } in
      if has_context
      then Option.map popped
          (fire_loop (length entry + 1) false (e, record d { firing = f ∷ d.firing }))
      else some (false, (e, d))

  -- `FireEventListeners(event)`
  unfoldable pub fire_event_listeners :
      Bool → Event → EventTargetData → Option (DispatchEventResult × (Event × EventTargetData))
  fire_event_listeners has_context e d = elim (find e.event_type d.listeners) [
    | none ↦ some (finish (false, (e, d)))
    | some v ↦ Option.map finish (fire_listeners has_context e d v)
  ]
