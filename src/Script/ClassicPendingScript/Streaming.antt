-- ===== src/Script/ClassicPendingScript/Streaming.antt =====
-- A script from the start of its fetch to the end of its resource.
use blinkit.Prelude.{
  ℕ, Bool, true, false, not, ◌&&◌, [], ◌≡◌, refl, Option, none, some, is_some, bool_eq, arith,
}
use blinkit.Script.ScriptStreamer.{Streamer, notify_append_data}
use blinkit.Script.ClassicPendingScript.{
  waiting_for_resource, Client, Resource, PendingScript, new_pending_script, stop_watching_for_load,
}
use blinkit.Script.ClassicPendingScript.Loading.{
  data_received, start_streaming_if_possible, start_streaming, watch_for_load, with_buffer,
  append_to_streamer,
}

-- The streamer of a script that still loads.
abbrev pub is_loading_streamer : Option Streamer → Bool
is_loading_streamer none = true
is_loading_streamer (some s) =
    not s.loading_finished
    && not s.streaming_suppressed
    && bool_eq s.have_enough_data_for_streaming s.parsing_finished

pub record IsLoading (p : PendingScript) : Type 0 where
  pub element : p.element ≡ true
  pub external : p.is_external ≡ true
  pub has_resource : is_some p.resource ≡ true
  pub waiting : p.ready_state ≡ waiting_for_resource
  pub streams : p.is_currently_streaming ≡ is_some p.streamer
  pub done : p.streamer_done ≡ true → is_some p.streamer ≡ true
  pub streamer : is_loading_streamer p.streamer ≡ true
  pub asserted : p.asserted ≡ false
  pub misuse : p.misuse ≡ false
  pub released : p.released ≡ false
  pub guards : p.guards ≡ false
  pub notified : p.notified ≡ []
  pub done_calls : p.done_calls ≡ 0

pub new_pending_script-IsLoading : (r : Resource) → IsLoading (new_pending_script (some r))
new_pending_script-IsLoading r = ground arith

append-is_loading_streamer :
    (size : ℕ) (o : Option Streamer)
    → is_loading_streamer o ≡ true
    → (is_loading_streamer (append_to_streamer size o) ≡ true)
      × (is_some (append_to_streamer size o) ≡ is_some o)
unfolding notify_append_data
append-is_loading_streamer size none h = (refl, refl)
append-is_loading_streamer size (some s) h = ground arith

is_some-with_buffer : (size : ℕ) (o : Option Resource) → is_some (with_buffer size o) ≡ is_some o
is_some-with_buffer size none = refl
is_some-with_buffer size (some r) = refl

pub data_received-IsLoading :
    (size : ℕ) (p : PendingScript) → IsLoading p → IsLoading (data_received size p)
unfolding data_received
data_received-IsLoading size p l =
    ground (arith, append-is_loading_streamer size p.streamer, is_some-with_buffer size p.resource)

pub watch_for_load-IsLoading :
    (executes : Bool) (c : Client) (p : PendingScript)
    → p.client ≡ none
    → IsLoading p
    → IsLoading (watch_for_load executes c p)
unfolding watch_for_load
watch_for_load-IsLoading executes c p n l = ground arith

pub stop_watching_for_load-IsLoading :
    (p : PendingScript) → IsLoading p → IsLoading (stop_watching_for_load p)
unfolding stop_watching_for_load
stop_watching_for_load-IsLoading p l = ground arith

start_streaming-IsLoading :
    (executes done : Bool) (o : Option Resource) (p : PendingScript)
    → p.resource ≡ o
    → p.client ≡ none
    → p.streamer ≡ none
    → IsLoading p
    → IsLoading (start_streaming executes o p)
unfolding start_streaming
start_streaming-IsLoading executes done none p e n s l = ground arith
start_streaming-IsLoading executes done (some r) p e n s l = ground arith

start_streaming_if_possible-IsLoading_at :
    (executes active done : Bool) (o : Option Resource) (t : Option Streamer) (p : PendingScript)
    → p.resource ≡ o
    → p.streamer ≡ t
    → p.client ≡ none
    → IsLoading p
    → IsLoading (start_streaming_if_possible executes active done p).1
unfolding start_streaming_if_possible start_streaming
start_streaming_if_possible-IsLoading_at executes active done none t p e s n l =
    absurd (ground arith)
start_streaming_if_possible-IsLoading_at executes active done (some r) none p e s n l = ground arith
start_streaming_if_possible-IsLoading_at executes active done (some r) (some t) p e s n l =
    ground arith

pub start_streaming_if_possible-IsLoading :
    (executes active done : Bool) (p : PendingScript)
    → p.client ≡ none
    → IsLoading p
    → IsLoading (start_streaming_if_possible executes active done p).1
start_streaming_if_possible-IsLoading executes active done p n l =
    start_streaming_if_possible-IsLoading_at executes active done p.resource p.streamer p refl refl
      n l
