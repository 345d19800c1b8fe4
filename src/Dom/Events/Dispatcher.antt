-- ===== src/Dom/Events/Dispatcher.antt =====
-- event_dispatcher.cpp, with the two HandleLocalEvents of node_event_context.cc and
-- window_event_context.cc, in the build for crawlers and without its assertions. A path is its
-- contexts from the target up; `visited` keeps the targets that were given the event and the phase.
pub mod Phases
use blinkit.Prelude.{
  ℕ, Bool, true, false, not, ◌&&◌, ◌||◌, List, [], ◌∷◌, ◌++◌, reverse, Option, none, some, map,
  if◌then◌else◌, ◌==◌,
}
use blinkit.Dom.Events.Event.{
  Event, PhaseType, none_phase, capturing_phase, at_target, bubbling_phase, DispatchEventResult,
  not_canceled, is_propagation_stopped, get_dispatch_event_result,
}

-- `NodeEventContext`, and `WindowEventContext` where there is a window.
pub record Context : Type 0 where
  pub target : ℕ
  pub current_target : ℕ

pub record Dispatch (S : Type 0) : Type 0 where
  pub event : Event
  pub store : S
  pub visited : List (ℕ × PhaseType)

-- `CurrentTargetSameAsTarget`
abbrev pub same_as_target : Context → Bool
same_as_target c = c.current_target == c.target

-- What the nodes do with an event: fire it at their listeners, and handle it by default.
pub record Handlers (S : Type 0) : Type 0 where
  pub fire : ℕ → Event → S → Event × S
  pub handle_by_default : ℕ → Event → S → Event × S

module _ {S : Type 0} (h : Handlers S) where
  abbrev pub set_phase : PhaseType → Dispatch S → Dispatch S
  set_phase p d = record d { event = record d.event { event_phase = p } }

  abbrev pub aimed : Context → Event → Event
  aimed c e = record e { target = some c.target; current_target = some c.current_target }

  -- `NodeEventContext::HandleLocalEvents`
  unfoldable pub handle_local_events : Context → Dispatch S → Dispatch S
  handle_local_events c d =
      let (e, s) = h.fire c.current_target (aimed c d.event) d.store in
      record {
        event = e;
        store = s;
        visited = d.visited ++ ((c.current_target, d.event.event_phase) ∷ []);
      }

  -- `WindowEventContext::HandleLocalEvents`
  abbrev pub handle_in_window : Option Context → Dispatch S → Bool × Dispatch S
  handle_in_window none d = (false, d)
  handle_in_window (some c) d = (true, handle_local_events c d)

  -- The loop of `DispatchEventAtCapturing`, on the contexts from the top down to the one above the
  -- target; `true` is `kContinueDispatching`.
  abbrev pub capture_at : Context → Dispatch S → Dispatch S
  capture_at c d =
      if same_as_target c then d else handle_local_events c (set_phase capturing_phase d)

  unfoldable pub capture_loop : List Context → Dispatch S → Bool × Dispatch S
  capture_loop [] d = (true, d)
  capture_loop (c ∷ cs) d =
      let q = capture_at c d in
      let rest = capture_loop cs q in if is_propagation_stopped q.event then (false, q) else rest

  unfoldable pub dispatch_event_at_capturing :
      Option Context → List Context → Dispatch S → Bool × Dispatch S
  dispatch_event_at_capturing window above d =
      let (handled, q) = handle_in_window window (set_phase capturing_phase d) in
      if handled && is_propagation_stopped q.event
      then (false, q)
      else capture_loop (reverse above) q

  unfoldable pub dispatch_event_at_target : Context → Dispatch S → Bool × Dispatch S
  dispatch_event_at_target c d =
      let q = handle_local_events c (set_phase at_target d) in
      (not (is_propagation_stopped q.event), q)

  -- The loop of `DispatchEventAtBubbling`: whether it came to its end.
  unfoldable pub bubble_loop : List Context → Dispatch S → Bool × Dispatch S
  bubble_loop [] d = (true, d)
  bubble_loop (c ∷ cs) d =
      let aside = set_phase at_target d in
      let q = handle_local_events c (set_phase bubbling_phase d) in
      let after_aside = bubble_loop cs aside in
      let after_q = bubble_loop cs q in
      let after_d = bubble_loop cs d in
      if same_as_target c
      then (if is_propagation_stopped aside.event then (false, aside) else after_aside)
      else if d.event.bubbles && not (is_propagation_stopped d.event)
      then (if is_propagation_stopped q.event then (false, q) else after_q)
      else after_d

  unfoldable pub dispatch_event_at_bubbling :
      Option Context → List Context → Dispatch S → Dispatch S
  dispatch_event_at_bubbling window above d =
      let (ended, q) = bubble_loop above d in
      if ended && q.event.bubbles && not (is_propagation_stopped q.event)
      then (handle_in_window window (set_phase bubbling_phase q)).1
      else q

  -- The phases of `Dispatch`, in their order.
  unfoldable pub dispatch_phases : Option Context → Context → List Context → Dispatch S → Dispatch S
  dispatch_phases window c above d =
      let captured = dispatch_event_at_capturing window above d in
      let targeted = dispatch_event_at_target c captured.1 in
      if is_propagation_stopped d.event
      then d
      else if not captured.0
      then captured.1
      else if not targeted.0
      then targeted.1
      else dispatch_event_at_bubbling window above targeted.1

  -- The default handlers of `DispatchEventPostProcess`.
  abbrev pub by_default : ℕ → Dispatch S → Dispatch S
  by_default n d =
      let (e, s) = h.handle_by_default n d.event d.store in record d { event = e; store = s }

  unfoldable pub default_loop : List Context → Dispatch S → Dispatch S
  default_loop [] d = d
  default_loop (c ∷ cs) d =
      let q = by_default c.current_target d in
      let rest = default_loop cs q in if q.event.default_handled then q else rest

  unfoldable pub call_default_handlers : Bool → Context → List Context → Dispatch S → Dispatch S
  call_default_handlers trusted_only c above d =
      let q = by_default c.current_target d in
      if not d.event.default_prevented
        && not d.event.default_handled
        && (not trusted_only || d.event.is_trusted)
      then (if not q.event.default_handled && q.event.bubbles then default_loop above q else q)
      else d

  -- `DispatchEventPostProcess`
  abbrev pub target_of : Option Context → Option ℕ
  target_of none = none
  target_of (some c) = some c.target

  abbrev pub cleared : Context → Event → Event
  cleared c e = record e {
    target = some c.current_target;
    propagation_stopped = false;
    immediate_propagation_stopped = false;
    event_phase = none_phase;
    current_target = none;
  }

  unfoldable pub dispatch_event_post_process :
      Bool → Option Context → Context → List Context → Dispatch S → Dispatch S
  dispatch_event_post_process trusted_only window c above d =
      let q = call_default_handlers trusted_only c above (record d { event = cleared c d.event }) in
      record q { event = record q.event { target = target_of window } }

  -- `Dispatch`; `trusted_only` is `RuntimeEnabledFeatures::TrustedEventsDefaultActionEnabled()`.
  unfoldable pub dispatch :
      Bool → Option Context → List Context → Dispatch S → DispatchEventResult × Dispatch S
  dispatch trusted_only window [] d = (not_canceled, d)
  dispatch trusted_only window (c ∷ above) d =
      let aimed_at = record d { event = record d.event { target = some c.current_target } } in
      let q =
        dispatch_event_post_process trusted_only window c above
          (dispatch_phases window c above aimed_at) in
      (get_dispatch_event_result q.event, q)
