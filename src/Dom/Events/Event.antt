-- ===== src/Dom/Events/Event.antt =====
-- event.h and event.cpp. A target is known by a number; a time stamp is not kept.
use blinkit.Prelude.{ℕ, Bool, true, false, ◌||◌, Option, none, Bytes, if◌then◌else◌}

pub data PhaseType : Type 0 where
  none_phase : PhaseType
  capturing_phase : PhaseType
  at_target : PhaseType
  bubbling_phase : PhaseType

pub data PassiveMode : Type 0 where
  not_passive_default : PassiveMode
  not_passive : PassiveMode
  passive : PassiveMode
  passive_forced_document_level : PassiveMode
  passive_default : PassiveMode

pub data DispatchEventResult : Type 0 where
  not_canceled : DispatchEventResult
  canceled_by_event_handler : DispatchEventResult
  canceled_by_default_event_handler : DispatchEventResult
  canceled_before_dispatch : DispatchEventResult

pub record Event : Type 0 where
  pub event_type : Bytes
  pub bubbles : Bool
  pub cancelable : Bool
  pub propagation_stopped : Bool
  pub immediate_propagation_stopped : Bool
  pub default_prevented : Bool
  pub default_handled : Bool
  pub is_trusted : Bool
  pub executed_listener_or_default_action : Bool
  pub prevent_default_called_during_passive : Bool
  pub prevent_default_called_on_uncancelable_event : Bool
  pub fire_only_capture_listeners_at_target : Bool
  pub fire_only_non_capture_listeners_at_target : Bool
  pub handling_passive : PassiveMode
  pub event_phase : PhaseType
  pub target : Option ℕ
  pub current_target : Option ℕ

-- The constructor; it leaves `m_preventDefaultCalledDuringPassive` unset, which is `unset` here.
abbrev pub new_event : Bool → Bytes → Bool → Bool → Event
new_event unset event_type bubbles cancelable = record {
  event_type = event_type;
  bubbles = bubbles;
  cancelable = cancelable;
  propagation_stopped = false;
  immediate_propagation_stopped = false;
  default_prevented = false;
  default_handled = false;
  is_trusted = false;
  executed_listener_or_default_action = false;
  prevent_default_called_during_passive = unset;
  prevent_default_called_on_uncancelable_event = false;
  fire_only_capture_listeners_at_target = false;
  fire_only_non_capture_listeners_at_target = false;
  handling_passive = not_passive_default;
  event_phase = none_phase;
  target = none;
  current_target = none;
}

-- `PropagationStopped`
abbrev pub is_propagation_stopped : Event → Bool
is_propagation_stopped e = e.propagation_stopped || e.immediate_propagation_stopped

-- `preventDefault`; the message on the console is not written in this build.
unfoldable pub prevent_default_in : PassiveMode → Event → Event
prevent_default_in not_passive e =
    if e.cancelable
    then record e { default_prevented = true }
    else record e { prevent_default_called_on_uncancelable_event = true }
prevent_default_in not_passive_default e =
    if e.cancelable
    then record e { default_prevented = true }
    else record e { prevent_default_called_on_uncancelable_event = true }
prevent_default_in _ e = record e { prevent_default_called_during_passive = true }

abbrev pub prevent_default : Event → Event
prevent_default e = prevent_default_in e.handling_passive e

-- `SetHandlingPassive`
abbrev pub set_handling_passive : PassiveMode → Event → Event
set_handling_passive mode e = record e {
  handling_passive = mode;
  prevent_default_called_during_passive = false;
}

-- `DoneDispatchingEventAtCurrentTarget` and `SetExecutedListenerOrDefaultAction`
abbrev pub set_executed : Event → Event
set_executed e = record e { executed_listener_or_default_action = true }

-- `EventTarget::GetDispatchEventResult`
unfoldable pub get_dispatch_event_result : Event → DispatchEventResult
get_dispatch_event_result e =
    if e.default_prevented
    then canceled_by_event_handler
    else if e.default_handled
    then canceled_by_default_event_handler
    else not_canceled
