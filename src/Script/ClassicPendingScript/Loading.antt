-- ===== src/Script/ClassicPendingScript/Loading.antt =====
-- classic_pending_script.cpp and pending_script.cpp: what the client, the resource and the streamer
-- call. `executes` says what the parser does when it is told that the script is ready.
use blinkit.Prelude.{
  ℕ, Bool, true, false, not, ◌&&◌, ◌||◌, Option, none, some, if◌then◌else◌, is_some,
}
use blinkit.Script.ScriptStreamer.{
  Streamer, new_streamer, is_finished, is_streaming_finished, notify_append_data, end_loading,
  NotStreamingReason, invalid, not_http, no_resource_buffer, script_too_small,
  streamer_not_ready_on_get_source,
}
use blinkit.Script.ClassicPendingScript.{
  ReadyState, waiting_for_resource, waiting_for_streaming, ready, ready_streaming, error_occurred,
  Client, Resource, PendingScript, check, check_state, is_ready_state, advance_ready_state,
  pending_script_finished,
}

abbrev pub has_error : Option Resource → Bool
has_error none = false
has_error (some r) = r.error

abbrev pub same_state : ReadyState → ReadyState → Bool
same_state waiting_for_resource waiting_for_resource = true
same_state waiting_for_streaming waiting_for_streaming = true
same_state ready ready = true
same_state ready_streaming ready_streaming = true
same_state error_occurred error_occurred = true
same_state _ _ = false

-- `FinishWaitingForStreaming`
unfoldable pub finish_waiting_for_streaming : Bool → PendingScript → PendingScript
unfolding check check_state advance_ready_state
finish_waiting_for_streaming executes p =
    let q =
      check (same_state p.ready_state waiting_for_streaming)
        (check (is_some p.resource) (check_state p)) in
    advance_ready_state executes (if has_error p.resource then error_occurred else ready) q

-- `FinishReadyStreaming`
unfoldable pub finish_ready_streaming : Bool → PendingScript → PendingScript
unfolding check check_state advance_ready_state
finish_ready_streaming executes p =
    let q =
      check (same_state p.ready_state ready_streaming)
        (check (is_some p.resource) (check_state p)) in
    advance_ready_state executes ready q

unfoldable pub finish_streaming_at : Bool → ReadyState → PendingScript → PendingScript
unfolding finish_waiting_for_streaming finish_ready_streaming check
finish_streaming_at executes waiting_for_streaming p = finish_waiting_for_streaming executes p
finish_streaming_at executes ready_streaming p = finish_ready_streaming executes p
finish_streaming_at executes _ p = check false p

-- `StreamingFinished`, which keeps the object by a pointer of its own until it returns.
unfoldable pub streaming_finished : Bool → PendingScript → PendingScript
unfolding check check_state finish_streaming_at
streaming_finished executes p =
    let q = check p.is_currently_streaming (check_state (record p { guards = true })) in
    let r = finish_streaming_at executes p.ready_state q in
    record (check (not r.is_currently_streaming) r) { guards = false }

-- `ScriptStreamer::NotifyFinished`, at the streamer of the script.
unfoldable pub streamer_notify_finished : Bool → Streamer → PendingScript → PendingScript
unfolding end_loading is_finished check streaming_finished
streamer_notify_finished executes s p =
    let e = end_loading s in
    let q =
      check (s.have_enough_data_for_streaming || not s.loading_finished)
        (record p { streamer = some e }) in
    if is_finished e then streaming_finished executes q else q

unfoldable pub end_streaming : Bool → Option Streamer → PendingScript → PendingScript
unfolding streamer_notify_finished finish_waiting_for_streaming
end_streaming executes none p = finish_waiting_for_streaming executes p
end_streaming executes (some s) p = streamer_notify_finished executes s p

-- `NotifyFinished`, when the resource is done.
unfoldable pub notify_finished : Bool → PendingScript → PendingScript
unfolding check_state advance_ready_state end_streaming
notify_finished executes p =
    let q = advance_ready_state executes waiting_for_streaming (check_state p) in
    end_streaming executes q.streamer q

abbrev pub append_to_streamer : ℕ → Option Streamer → Option Streamer
append_to_streamer size none = none
append_to_streamer size (some s) = some (notify_append_data size s)

abbrev pub with_buffer : ℕ → Option Resource → Option Resource
with_buffer size none = none
with_buffer size (some r) = some (record r { buffer = some size })

-- `DataReceived`, when the buffer of the resource has grown to `size`.
unfoldable pub data_received : ℕ → PendingScript → PendingScript
unfolding notify_append_data
data_received size p = record p {
  resource = with_buffer size p.resource;
  streamer = append_to_streamer size p.streamer;
}

abbrev pub end_resource : Bool → Bool → Option Resource → Option Resource
end_resource error canceled none = none
end_resource error canceled (some r) = some (record r {
  is_loaded = true;
  error = error;
  was_canceled = canceled;
  buffer = if error then none else r.buffer;
})

-- `Resource::Finish` and `Resource::FinishAsError`, for this client; an error drops the
-- buffer. The resource has been started, as is asserted.
unfoldable pub finish_resource : Bool → Bool → Bool → PendingScript → PendingScript
unfolding notify_finished
finish_resource executes error canceled p =
    notify_finished executes (record p { resource = end_resource error canceled p.resource })

-- `SetStreamer`: the pointer has been moved out of the argument when the argument is tested, so
-- that the state is not advanced.
unfoldable pub set_streamer : Streamer → PendingScript → PendingScript
unfolding check check_state is_finished
set_streamer s p =
    let q =
      check (same_state p.ready_state waiting_for_resource || same_state p.ready_state ready) (
        check (not (is_finished s)) (
          check (not (is_some p.client) || not (same_state p.ready_state waiting_for_resource))
            (check (not (is_some p.streamer)) p))) in
    check_state (record q { streamer = some s; is_currently_streaming = true })

-- `ScriptStreamer::StartStreaming`
unfoldable pub start_streaming : Bool → Option Resource → PendingScript → PendingScript
unfolding check is_ready_state set_streamer streamer_notify_finished
start_streaming executes none p = record p { misuse = true }
start_streaming executes (some r) p =
    if not r.is_http
    then record p { not_streamed_reason = not_http }
    else if r.is_loaded && not (is_some r.buffer)
    then record p { not_streamed_reason = no_resource_buffer }
    else let q =
        set_streamer new_streamer (
          check (not (is_ready_state p.ready_state))
            (record p { not_streamed_reason = invalid })) in
      if is_ready_state p.ready_state then streamer_notify_finished executes new_streamer q else q

abbrev pub ended_suppressed : Option Streamer → Bool
ended_suppressed none = false
ended_suppressed (some s) = s.streaming_suppressed && is_finished s

-- The streamer that an earlier try has left.
abbrev pub keep_streamer : PendingScript → Option Streamer
keep_streamer p = if ended_suppressed p.streamer then none else p.streamer

abbrev pub streams_on : Option Streamer → Bool
streams_on none = false
streams_on (some s) = not (is_streaming_finished s)

-- `StartStreamingIfPossible`; `active` says that the document has a frame, `done` that there is a
-- callback.
unfoldable pub start_streaming_if_possible :
    Bool → Bool → Bool → PendingScript → Bool × PendingScript
unfolding check is_finished is_streaming_finished start_streaming
start_streaming_if_possible executes active done p =
    let q = check (not (ended_suppressed p.streamer) || not p.streamer_done) (
      check (not (ended_suppressed p.streamer) || same_state p.ready_state ready)
        (record p { streamer = keep_streamer p })) in
    let r = start_streaming executes q.resource q in
    let success = streams_on r.streamer in
    let t =
      check (not (not success) || not r.is_currently_streaming)
        (check (not success || r.is_currently_streaming) r) in
    if p.is_currently_streaming
      || not (same_state p.ready_state waiting_for_resource || same_state p.ready_state ready)
      || not active
    then (false, p)
    else if is_some q.streamer
    then (false, q)
    else (success, if success then record t { streamer_done = done } else t)

-- `WatchForLoad`
unfoldable pub watch_for_load : Bool → Client → PendingScript → PendingScript
unfolding check check_state is_ready_state pending_script_finished
watch_for_load executes client p =
    let q = check (not (is_some p.client)) (check_state p) in
    let r = record q { client = some client } in
    if is_ready_state p.ready_state then pending_script_finished executes r.client r else r

-- How the `ScriptSourceCode` is made: of the text of the element, or of that of the resource, together
-- with the streamer, or with the reason why there is none. It looks at these in an assertion alone.
pub data Source : Type 0 where
  inline_text with_streamer : Source
  without_streamer : NotStreamingReason → Source

unfoldable pub streamer_source : ReadyState → Streamer → Source
streamer_source state s =
    if s.streaming_suppressed
    then without_streamer script_too_small
    else if same_state state ready_streaming
    then without_streamer streamer_not_ready_on_get_source
    else with_streamer

unfoldable pub external_source : PendingScript → Option Streamer → Source
unfolding streamer_source
external_source p none = without_streamer p.not_streamed_reason
external_source p (some s) = streamer_source p.ready_state s

-- `GetSource`
unfoldable pub get_source : PendingScript → Option Source
unfolding external_source
get_source p =
    if same_state p.ready_state error_occurred
    then none
    else some (if p.is_external then external_source p p.streamer else inline_text)
