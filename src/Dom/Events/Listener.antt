-- ===== src/Dom/Events/Listener.antt =====
-- registered_event_listener.h and registered_event_listener.cc. The callback is known by a number;
-- two callbacks are equal where the numbers are.
use blinkit.Prelude.{ℕ, Bool, true, false, not, ◌&&◌, ◌==◌, bool_eq, if◌then◌else◌}
use blinkit.Dom.Events.Event.{
  Event, PhaseType, capturing_phase, bubbling_phase, PassiveMode, not_passive_default, not_passive,
  passive, passive_forced_document_level, passive_default,
}

-- `AddEventListenerOptionsResolved`
pub record Options : Type 0 where
  pub capture : Bool
  pub is_passive : Bool
  pub once : Bool
  pub passive_forced_for_document_target : Bool
  pub passive_specified : Bool

pub record RegisteredEventListener : Type 0 where
  pub callback : ℕ
  pub use_capture : Bool
  pub is_passive : Bool
  pub once : Bool
  pub blocked_event_warning_emitted : Bool
  pub passive_forced_for_document_target : Bool
  pub passive_specified : Bool

-- `RegisteredEventListener(listener, options)`
abbrev pub registered_event_listener : ℕ → Options → RegisteredEventListener
registered_event_listener listener options = record {
  callback = listener;
  use_capture = options.capture;
  is_passive = options.is_passive;
  once = options.once;
  blocked_event_warning_emitted = false;
  passive_forced_for_document_target = options.passive_forced_for_document_target;
  passive_specified = options.passive_specified;
}

-- `Matches`, and `operator==`, which compares the same two fields.
abbrev pub matches : ℕ → Bool → RegisteredEventListener → Bool
matches listener capture r = r.callback == listener && bool_eq r.use_capture capture

-- `ShouldFire`; `at_shadow_hosts` is
-- `RuntimeEnabledFeatures::CallCaptureListenersAtCapturePhaseAtShadowHostsEnabled()`.
abbrev pub fires_in : PhaseType → RegisteredEventListener → Bool
fires_in capturing_phase r = r.use_capture
fires_in bubbling_phase r = not r.use_capture
fires_in _ r = true

unfoldable pub should_fire : Bool → Event → RegisteredEventListener → Bool
should_fire at_shadow_hosts e r =
    if at_shadow_hosts && e.fire_only_capture_listeners_at_target
    then r.use_capture
    else if at_shadow_hosts && e.fire_only_non_capture_listeners_at_target
    then not r.use_capture
    else fires_in e.event_phase r

-- `EventPassiveMode` of event_target.cpp
unfoldable pub event_passive_mode : RegisteredEventListener → PassiveMode
event_passive_mode r =
    if not r.is_passive
    then (if r.passive_specified then not_passive else not_passive_default)
    else if r.passive_forced_for_document_target
    then passive_forced_document_level
    else if r.passive_specified
    then passive
    else passive_default
