-- ===== src/Script/ClassicPendingScript/Sources.antt =====
-- What a script is compiled from when it has been loaded.
use blinkit.Prelude.{
  ℕ, leb, Bool, true, false, not, ◌||◌, List, [], ◌∷◌, ◌≡◌, refl, ap, ◌∙◌, Option, none, some,
  if◌then◌else◌, is_some, arith, any,
}
use blinkit.Script.ScriptStreamer.{
  Streamer, new_streamer, end_loading, small_script_threshold, script_too_small,
}
use blinkit.Script.ClassicPendingScript.{
  ReadyState, waiting_for_resource, waiting_for_streaming, ready, Client, parser, script_loader,
  orphaned_loader, Resource, PendingScript, new_pending_script, check, check_state,
  advance_ready_state,
}
use blinkit.Script.ClassicPendingScript.Loading.{
  finish_resource, notify_finished, end_streaming, streamer_notify_finished, streaming_finished,
  finish_streaming_at, finish_waiting_for_streaming, data_received, start_streaming_if_possible,
  watch_for_load, end_resource, get_source, with_streamer, without_streamer,
}
use blinkit.Script.ClassicPendingScript.Streaming.{IsLoading, data_received-IsLoading}
use blinkit.Script.ClassicPendingScript.Finish.{
  Loads, fetched, starts, receives, watches, Loads-IsLoading, Loads-finish_resource,
  advance-waiting, advance-end_loading, has_error-end_resource,
}
use blinkit.Script.ScriptRunner.{ScriptRunner, execute_async_at}

-- The data as it comes in: the sizes to which the buffer grows.
unfoldable pub receive_all : List ℕ → PendingScript → PendingScript
receive_all [] p = p
receive_all (size ∷ sizes) p = receive_all sizes (data_received size p)

has_enough : Option Streamer → Bool
has_enough none = false
has_enough (some s) = s.have_enough_data_for_streaming

data_received-has_enough :
    (size : ℕ) (t : Option Streamer) (p : PendingScript)
    → p.streamer ≡ t
    → is_some t ≡ true
    → IsLoading p
    → (has_enough (data_received size p).streamer
        ≡ (has_enough t || leb small_script_threshold size))
      × (is_some (data_received size p).streamer ≡ true)
      × ((data_received size p).client ≡ p.client)
unfolding has_enough data_received
data_received-has_enough size none p e h l = absurd (ground arith)
data_received-has_enough size (some s) p e h l = ground arith

receive_all-has_enough :
    (sizes : List ℕ) (p : PendingScript)
    → is_some p.streamer ≡ true
    → IsLoading p
    → let q = receive_all sizes p in
      (has_enough q.streamer
        ≡ (has_enough p.streamer || any (λ (n : ℕ). leb small_script_threshold n) sizes))
      × (is_some q.streamer ≡ true)
      × (q.client ≡ p.client)
      × IsLoading q
unfolding receive_all
receive_all-has_enough [] p h l = ground arith
receive_all-has_enough (size ∷ sizes) p h l =
    let d = data_received-has_enough size p.streamer p refl h l in
    let r =
      receive_all-has_enough sizes (data_received size p) d.1 (data_received-IsLoading size p l) in
    ground arith

finish_waiting_for_streaming-streamer :
    (o : Option Client) (p : PendingScript)
    → p.client ≡ o
    → p.ready_state ≡ waiting_for_streaming
    → let q = finish_waiting_for_streaming false p in
      (q.streamer ≡ p.streamer) × (q.is_external ≡ p.is_external)
unfolding finish_waiting_for_streaming
finish_waiting_for_streaming-streamer none p e w = ground arith
finish_waiting_for_streaming-streamer (some parser) p e w = ground arith
finish_waiting_for_streaming-streamer (some script_loader) p e w = ground arith
finish_waiting_for_streaming-streamer (some orphaned_loader) p e w = ground arith

streaming_finished-streamer :
    (p : PendingScript)
    → p.ready_state ≡ waiting_for_streaming
    → let q = streaming_finished false p in
      (q.streamer ≡ p.streamer) × (q.is_external ≡ p.is_external)
unfolding streaming_finished finish_streaming_at check check_state
streaming_finished-streamer p w =
    let q = check p.is_currently_streaming (check_state (record p { guards = true })) in
    let e = finish_waiting_for_streaming-streamer q.client q refl w in
    let f = ap (λ (r : ReadyState). finish_streaming_at false r q) w in ground arith

finish_resource-streamer :
    (canceled : Bool) (s : Streamer) (p : PendingScript)
    → p.streamer ≡ some s
    → IsLoading p
    → let q = finish_resource false false canceled p in
      (q.streamer ≡ some (end_loading s)) × (q.is_external ≡ true)
unfolding finish_resource notify_finished end_streaming streamer_notify_finished
finish_resource-streamer canceled s p t l =
    let r = record p { resource = end_resource false canceled p.resource } in
    let h = has_error-end_resource false canceled p.resource l.has_resource in
    let i : IsLoading r = ground arith in
    let q = advance_ready_state false waiting_for_streaming (check_state r) in
    let v =
      check (s.have_enough_data_for_streaming || not s.loading_finished)
        (record q { streamer = some (end_loading s) }) in
    let (f, m, c, w) = advance-end_loading false false s r t h.0 i in
    let k =
      ap (λ (o : Option Streamer). end_streaming false o q) ((advance-waiting false r i).1 ∙ t) in
    let g : streamer_notify_finished false s q ≡ streaming_finished false v =
      ap (λ (b : Bool). if b then streaming_finished false v else v) f in
    let e = streaming_finished-streamer v w.waiting in ground arith

-- What the streamer gives to a script that is ready.
get_source-end_loading :
    (s : Streamer) (p : PendingScript)
    → p.ready_state ≡ ready
    → p.is_external ≡ true
    → s.streaming_suppressed ≡ false
    → p.streamer ≡ some (end_loading s)
    → get_source p
      ≡ some (
          if s.have_enough_data_for_streaming
          then with_streamer
          else without_streamer script_too_small)
unfolding get_source end_loading
get_source-end_loading s p r e u t = ground arith

receive_all-Loads : (sizes : List ℕ) {p : PendingScript} → Loads p → Loads (receive_all sizes p)
unfolding receive_all
receive_all-Loads [] l = l
receive_all-Loads (size ∷ sizes) l = receive_all-Loads sizes (receives size l)

get_source-Loads :
    (canceled : Bool) (o : Option Streamer) {p : PendingScript}
    → Loads p
    → p.streamer ≡ o
    → is_some o ≡ true
    → get_source (finish_resource false false canceled p)
      ≡ some (if has_enough o then with_streamer else without_streamer script_too_small)
unfolding has_enough
get_source-Loads canceled none l e h = absurd (ground arith)
get_source-Loads canceled (some s) {p} l e h =
    let f = finish_resource-streamer canceled s p e (Loads-IsLoading l) in
    let i = Loads-IsLoading l in
    get_source-end_loading s (finish_resource false false canceled p)
      (Loads-finish_resource l false false canceled).0 f.1 (ground arith) f.0

start_streaming-http :
    (r : Resource) (done : Bool)
    → r.is_http ≡ true
    → r.is_loaded ≡ false
    → let p = (start_streaming_if_possible false true done (new_pending_script (some r))).1 in
      (p.streamer ≡ some new_streamer) × (p.client ≡ none)
unfolding start_streaming_if_possible
start_streaming-http r done h u = ground arith

watch_for_load-streamer :
    (c : Client) (p : PendingScript)
    → p.ready_state ≡ waiting_for_resource
    → (watch_for_load false c p).streamer ≡ p.streamer
unfolding watch_for_load
watch_for_load-streamer c p w = ground arith

-- A script that is fetched over HTTP, streamed from the start and then watched: when its resource ends
-- well, its source is made with the streamer if that had enough data, and with the reason otherwise.
get_source-finish_resource :
    (r : Resource) (sizes : List ℕ) (c : Client) (done canceled : Bool)
    → r.is_http ≡ true
    → r.is_loaded ≡ false
    → let p =
        watch_for_load false c
          (start_streaming_if_possible false true done (new_pending_script (some r))).1 in
      get_source (finish_resource false false canceled (receive_all sizes p))
      ≡ some (
          if any (λ (n : ℕ). leb small_script_threshold n) sizes
          then with_streamer
          else without_streamer script_too_small)
unfolding has_enough
get_source-finish_resource r sizes c done canceled h u =
    let b = start_streaming-http r done h u in
    let l = starts false true done refl (fetched r) in
    let p = (start_streaming_if_possible false true done (new_pending_script (some r))).1 in
    let w = watches false c b.1 l in
    let i = Loads-IsLoading w in
    let t = watch_for_load-streamer c p (Loads-IsLoading l).waiting ∙ b.0 in
    let n = receive_all-has_enough sizes (watch_for_load false c p) (ap is_some t) i in
    let g =
      get_source-Loads canceled (receive_all sizes (watch_for_load false c p)).streamer
        (receive_all-Loads sizes w) refl n.1 in
    let e : has_enough (watch_for_load false c p).streamer ≡ false = ap has_enough t in ground arith

-- A resource over HTTP that has a buffer, and a script of it that is ready and was never streamed.
abbrev pub buffered : (is_loaded error was_canceled : Bool) → ℕ → Resource
buffered is_loaded error was_canceled size = record {
  is_loaded = is_loaded;
  error = error;
  was_canceled = was_canceled;
  buffer = some size;
  is_http = true;
}

abbrev pub ready_script : Resource → Option Client → List Client → PendingScript
ready_script r c notified = record (new_pending_script (some r)) {
  ready_state = ready;
  client = c;
  notified = notified;
}

-- Streaming of a script over HTTP that is ready already: the call says that it does not stream, the
-- script counts as streaming for ever after, so that the script runner, which looks for a script that
-- does not, never executes it. It is a bug, which an assertion guards.
start_streaming_if_possible-ready :
    (executes done is_loaded error was_canceled : Bool) (size n : ℕ) (c : Option Client)
    (notified : List Client) (q : ScriptRunner)
    → let p = ready_script (buffered is_loaded error was_canceled size) c notified in
      let (streams, s) = start_streaming_if_possible executes true done p in
      (streams ≡ false)
      × (s.is_currently_streaming ≡ true)
      × (s.ready_state ≡ ready)
      × (s.done_calls ≡ 0)
      × (s.asserted ≡ true)
      × (start_streaming_if_possible executes true done s ≡ (false, s))
      × (execute_async_at
            (record { script = n; is_currently_streaming = s.is_currently_streaming } ∷ [])
            q
          ≡ none)
unfolding start_streaming_if_possible execute_async_at
start_streaming_if_possible-ready executes done true error was_canceled size n c notified q =
    (refl, refl, refl, refl, refl, refl, refl)
start_streaming_if_possible-ready executes done false error was_canceled size n c notified q =
    (refl, refl, refl, refl, refl, refl, refl)
