-- ===== src/Script/ClassicPendingScript.antt =====
-- chromium/third_party/blink/renderer/core/script/classic_pending_script.h and .cpp with the base
-- class in pending_script.h and .cpp: a script between its preparation and its execution. A failed
-- assertion sets `asserted` and is passed, as in a build without assertions. `released` says that
-- the owner has let go of the object, `guards` that a pointer on the stack keeps it; `misuse` is a
-- use of the object without either.
pub mod Loading
pub mod Streaming
pub mod Finish
pub mod Sources
pub mod Execution
use blinkit.Prelude.{
  ℕ, ◌+◌, Bool, true, false, not, ◌&&◌, ◌||◌, List, [], ◌∷◌, ◌++◌, Option, none, some,
  if◌then◌else◌, is_some, bool_eq,
}
use blinkit.Script.ScriptStreamer.{
  Streamer, new_streamer, is_finished, is_streaming_finished, notify_append_data, end_loading,
  NotStreamingReason, invalid, not_http, no_resource_buffer, inline_script,
  didnt_try_to_start_streaming,
}

-- `ReadyState`
pub data ReadyState : Type 0 where
  waiting_for_resource waiting_for_streaming ready ready_streaming error_occurred : ReadyState

-- The classes that implement `PendingScriptClient`; an orphaned loader is one whose element is in a
-- document without a context document.
pub data Client : Type 0 where
  parser script_loader orphaned_loader : Client

-- What a script asks of its `Resource`; the buffer is its size.
pub record Resource : Type 0 where
  pub is_loaded : Bool
  pub error : Bool
  pub was_canceled : Bool
  pub buffer : Option ℕ
  pub is_http : Bool

pub record PendingScript : Type 0 where
  pub element : Bool
  pub client : Option Client
  pub is_external : Bool
  pub resource : Option Resource
  pub ready_state : ReadyState
  pub streamer : Option Streamer
  pub streamer_done : Bool
  pub is_currently_streaming : Bool
  pub not_streamed_reason : NotStreamingReason
  pub notified : List Client
  pub done_calls : ℕ
  pub released : Bool
  pub guards : Bool
  pub asserted : Bool
  pub misuse : Bool

-- The constructor; `Fetch` gives the resource, and `CreateInline` has none.
abbrev pub new_pending_script : Option Resource → PendingScript
new_pending_script resource = record {
  element = true;
  client = none;
  is_external = is_some resource;
  resource = resource;
  ready_state = if is_some resource then waiting_for_resource else ready;
  streamer = none;
  streamer_done = false;
  is_currently_streaming = false;
  not_streamed_reason = if is_some resource then didnt_try_to_start_streaming else inline_script;
  notified = [];
  done_calls = 0;
  released = false;
  guards = false;
  asserted = false;
  misuse = false;
}

unfoldable pub check : Bool → PendingScript → PendingScript
check b p = record p { asserted = p.asserted || not b }

-- `CheckState`
unfoldable pub check_state : PendingScript → PendingScript
unfolding check
check_state p = check p.element (
    check (bool_eq p.is_external (is_some p.resource))
      (check (is_some p.resource || not (is_some p.streamer)) p))

unfoldable pub is_ready_state : ReadyState → Bool
is_ready_state waiting_for_resource = false
is_ready_state waiting_for_streaming = false
is_ready_state _ = true

-- The transitions that `AdvanceReadyState` allows.
unfoldable pub follows : ReadyState → ReadyState → Bool
follows waiting_for_resource waiting_for_streaming = true
follows waiting_for_streaming ready = true
follows waiting_for_streaming error_occurred = true
follows ready ready_streaming = true
follows ready_streaming ready = true
follows _ _ = false

unfoldable pub streamer_runs : Option Streamer → Bool
unfolding is_finished
streamer_runs none = false
streamer_runs (some s) = not (is_finished s)

-- The assertion that the flag and the states fit together.
unfoldable pub state_streams : ReadyState → Bool → Bool
state_streams ready_streaming streams = true
state_streams waiting_for_resource streams = streams
state_streams waiting_for_streaming streams = streams
state_streams _ streams = false

-- `CancelStreaming`
unfoldable pub cancel_streaming : Option Streamer → PendingScript → PendingScript
cancel_streaming none p = p
cancel_streaming (some s) p = record p {
  streamer = none;
  streamer_done = false;
  is_currently_streaming = false;
}

-- `StopWatchingForLoad`
unfoldable pub stop_watching_for_load : PendingScript → PendingScript
unfolding check_state
stop_watching_for_load p =
    let q = check p.is_external (check_state p) in
    if is_some p.client then record q { client = none } else p

-- `Dispose`, with `DisposeInternal`.
unfoldable pub dispose : PendingScript → PendingScript
unfolding stop_watching_for_load cancel_streaming
dispose p =
    let q = stop_watching_for_load p in
    let r = cancel_streaming q.streamer (record q { resource = none }) in
    record r { element = false }

-- `PendingScriptFinished` of a client. The loader hands the script to the script runner and stops
-- watching; without a context document `DetachPendingScript` only asserts, and it goes on watching. What
-- it asserts of itself before is not followed here. The parser executes it or drops it, and with it the last pointer to it, when `executes`,
-- and otherwise leaves it for later.
unfoldable pub finished_at : Bool → Client → PendingScript → PendingScript
unfolding check stop_watching_for_load dispose
finished_at executes script_loader p =
    stop_watching_for_load (record p { notified = p.notified ++ (script_loader ∷ []) })
finished_at executes orphaned_loader p =
    check false (record p { notified = p.notified ++ (orphaned_loader ∷ []) })
finished_at true parser p = record (dispose (record p { notified = p.notified ++ (parser ∷ []) })) {
  released = true;
}
finished_at false parser p = record p { notified = p.notified ++ (parser ∷ []) }

-- `PendingScriptFinished`
unfoldable pub pending_script_finished : Bool → Option Client → PendingScript → PendingScript
unfolding finished_at
pending_script_finished executes none p = p
pending_script_finished executes (some c) p = finished_at executes c p

-- A use of a member of the object.
unfoldable pub touch : PendingScript → PendingScript
touch p = record p { misuse = p.misuse || (p.released && not p.guards) }

unfoldable pub is_ready_or_failed : ReadyState → Bool
is_ready_or_failed ready = true
is_ready_or_failed error_occurred = true
is_ready_or_failed _ = false

-- The call of `m_streamerDone`.
unfoldable pub call_streamer_done : PendingScript → PendingScript
call_streamer_done p = record p {
  done_calls = p.done_calls + (if p.streamer_done then 1 else 0);
  streamer_done = false;
  is_currently_streaming = false;
}

-- The assertions at the end of `AdvanceReadyState`.
unfoldable pub check_streaming : PendingScript → PendingScript
unfolding check streamer_runs state_streams
check_streaming p = check (p.is_currently_streaming || not p.streamer_done) (
    check (bool_eq p.is_currently_streaming (state_streams p.ready_state (is_some p.streamer)))
      (check (bool_eq p.is_currently_streaming (streamer_runs p.streamer)) p))

-- `AdvanceReadyState`
unfoldable pub advance_ready_state : Bool → ReadyState → PendingScript → PendingScript
unfolding check check_state follows is_ready_state pending_script_finished touch is_ready_or_failed
    call_streamer_done check_streaming
advance_ready_state executes new p =
    let q = check_state (check (follows p.ready_state new) p) in
    let r = record q { ready_state = new } in
    let n =
      if is_ready_state new && not (is_ready_state p.ready_state)
      then pending_script_finished executes r.client r
      else r in
    let t = touch n in
    let d =
      if t.is_currently_streaming && is_ready_or_failed new then call_streamer_done t else t in
    check_streaming d
