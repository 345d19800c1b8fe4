-- ===== src/Script/ClassicPendingScript/Finish.antt =====
-- A script whose resource has been fetched, whatever has come in between: no assertion fails, and its
-- client is told once.
use blinkit.Prelude.{
  ℕ, Bool, true, false, not, ◌&&◌, ◌||◌, List, [], ◌∷◌, ◌≡◌, refl, ap, Option, none, some,
  if◌then◌else◌, is_some, arith,
}
use blinkit.Script.ScriptStreamer.{Streamer, is_finished, end_loading}
use blinkit.Script.ClassicPendingScript.{
  ReadyState, waiting_for_streaming, ready, error_occurred, Client, parser, script_loader,
  orphaned_loader, Resource, PendingScript, new_pending_script, check, check_state,
  advance_ready_state, stop_watching_for_load, streamer_runs,
}
use blinkit.Script.ClassicPendingScript.Loading.{
  finish_resource, notify_finished, end_streaming, streamer_notify_finished, streaming_finished,
  finish_streaming_at, finish_waiting_for_streaming, data_received, start_streaming_if_possible,
  watch_for_load, end_resource, has_error,
}
use blinkit.Script.ClassicPendingScript.Streaming.{
  IsLoading, new_pending_script-IsLoading, data_received-IsLoading, watch_for_load-IsLoading,
  stop_watching_for_load-IsLoading, start_streaming_if_possible-IsLoading,
}

-- The calls before the end of the resource, from the fetch on.
pub data Loads : PendingScript → Type 0 where
  fetched : (r : Resource) → Loads (new_pending_script (some r))
  starts :
      {p : PendingScript} (executes active done : Bool)
      → p.client ≡ none
      → Loads p
      → Loads (start_streaming_if_possible executes active done p).1
  receives : {p : PendingScript} (size : ℕ) → Loads p → Loads (data_received size p)
  watches :
      {p : PendingScript} (executes : Bool) (c : Client)
      → p.client ≡ none
      → Loads p
      → Loads (watch_for_load executes c p)
  stops : {p : PendingScript} → Loads p → Loads (stop_watching_for_load p)

pub Loads-IsLoading : {p : PendingScript} → Loads p → IsLoading p
Loads-IsLoading (fetched r) = new_pending_script-IsLoading r
Loads-IsLoading (starts {p} executes active done n l) =
    start_streaming_if_possible-IsLoading executes active done p n (Loads-IsLoading l)
Loads-IsLoading (receives {p} size l) = data_received-IsLoading size p (Loads-IsLoading l)
Loads-IsLoading (watches {p} executes c n l) =
    watch_for_load-IsLoading executes c p n (Loads-IsLoading l)
Loads-IsLoading (stops {p} l) = stop_watching_for_load-IsLoading p (Loads-IsLoading l)

-- How the resource has ended.
abbrev pub end_state : Bool → ReadyState
end_state true = error_occurred
end_state false = ready

abbrev pub told : Option Client → List Client
told none = []
told (some c) = c ∷ []

pub has_error-end_resource :
    (error canceled : Bool) (o : Option Resource)
    → is_some o ≡ true
    → (has_error (end_resource error canceled o) ≡ error)
      × (is_some (end_resource error canceled o) ≡ true)
has_error-end_resource error canceled none h = absurd (ground arith)
has_error-end_resource error canceled (some r) h = (refl, refl)

-- The script at the end of its streaming.
pub record IsWaiting (error : Bool) (p : PendingScript) : Type 0 where
  pub element : p.element ≡ true
  pub external : p.is_external ≡ true
  pub has_resource : is_some p.resource ≡ true
  pub error_flag : has_error p.resource ≡ error
  pub waiting : p.ready_state ≡ waiting_for_streaming
  pub streams : p.is_currently_streaming ≡ is_some p.streamer
  pub finished : streamer_runs p.streamer ≡ false
  pub done : p.streamer_done ≡ true → is_some p.streamer ≡ true
  pub asserted : p.asserted ≡ false
  pub misuse : p.misuse ≡ false
  pub released : p.released ≡ false
  pub notified : p.notified ≡ []
  pub done_calls : p.done_calls ≡ 0

-- Whether the client lets go of the script when it is told.
abbrev pub drops : Bool → Option Client → Bool
drops true (some parser) = true
drops _ _ = false

abbrev pub is_orphaned : Option Client → Bool
is_orphaned (some orphaned_loader) = true
is_orphaned _ = false

-- What the last step gives; `kept` says whether a pointer on the stack keeps the script.
record IsEnded (error executes kept : Bool) (c : Option Client) (p : PendingScript) : Type 0 where
  pub state : p.ready_state ≡ end_state error
  pub told_once : p.notified ≡ told c
  pub streams : p.is_currently_streaming ≡ false
  pub asserted : p.asserted ≡ is_orphaned c
  pub misuse : p.misuse ≡ (drops executes c && not kept)

finish_waiting_for_streaming-IsEnded :
    (executes error : Bool) (c : Option Client) (p : PendingScript)
    → p.client ≡ c
    → IsWaiting error p
    → IsEnded error executes p.guards c (finish_waiting_for_streaming executes p)
unfolding finish_waiting_for_streaming
finish_waiting_for_streaming-IsEnded executes true none p e w = ground arith
finish_waiting_for_streaming-IsEnded executes false none p e w = ground arith
finish_waiting_for_streaming-IsEnded executes true (some script_loader) p e w = ground arith
finish_waiting_for_streaming-IsEnded executes false (some script_loader) p e w = ground arith
finish_waiting_for_streaming-IsEnded executes true (some orphaned_loader) p e w = ground arith
finish_waiting_for_streaming-IsEnded executes false (some orphaned_loader) p e w = ground arith
finish_waiting_for_streaming-IsEnded true true (some parser) p e w = ground arith
finish_waiting_for_streaming-IsEnded true false (some parser) p e w = ground arith
finish_waiting_for_streaming-IsEnded false true (some parser) p e w = ground arith
finish_waiting_for_streaming-IsEnded false false (some parser) p e w = ground arith

streaming_finished-IsEnded :
    (executes error : Bool) (p : PendingScript)
    → p.is_currently_streaming ≡ true
    → IsWaiting error p
    → IsEnded error executes true p.client (streaming_finished executes p)
unfolding streaming_finished finish_streaming_at check check_state
streaming_finished-IsEnded executes error p s w =
    let q = check p.is_currently_streaming (check_state (record p { guards = true })) in
    let e = finish_waiting_for_streaming-IsEnded executes error p.client q refl (ground arith) in
    let f = ap (λ (r : ReadyState). finish_streaming_at executes r q) w.waiting in ground arith

-- The first step: the client is not told yet, and nothing else changes.
pub advance-waiting :
    (executes : Bool) (p : PendingScript)
    → IsLoading p
    → let q = advance_ready_state executes waiting_for_streaming (check_state p) in
      (q.client ≡ p.client) × (q.streamer ≡ p.streamer) × (q.guards ≡ false)
unfolding advance_ready_state
advance-waiting executes p l = ground arith

advance-IsWaiting :
    (executes error : Bool) (p : PendingScript)
    → p.streamer ≡ none
    → has_error p.resource ≡ error
    → IsLoading p
    → IsWaiting error (advance_ready_state executes waiting_for_streaming (check_state p))
unfolding advance_ready_state streamer_runs
advance-IsWaiting executes error p s e l = ground arith

-- A streamer that is told of the end is done, since there was enough or it gives up.
pub advance-end_loading :
    (executes error : Bool) (s : Streamer) (p : PendingScript)
    → p.streamer ≡ some s
    → has_error p.resource ≡ error
    → IsLoading p
    → let q = advance_ready_state executes waiting_for_streaming (check_state p) in
      let r =
        check
          (s.have_enough_data_for_streaming || not s.loading_finished)
          (record q { streamer = some (end_loading s) }) in
      (is_finished (end_loading s) ≡ true)
      × (r.is_currently_streaming ≡ true)
      × (r.client ≡ p.client)
      × IsWaiting error r
unfolding check advance_ready_state streamer_runs end_loading is_finished
advance-end_loading executes error s p t e l = ground arith

end_streaming-IsEnded :
    (executes error : Bool) (t : Option Streamer) (p : PendingScript)
    → p.streamer ≡ t
    → has_error p.resource ≡ error
    → IsLoading p
    → let q = advance_ready_state executes waiting_for_streaming (check_state p) in
      IsEnded error executes (is_some t) p.client (end_streaming executes t q)
unfolding end_streaming streamer_notify_finished
end_streaming-IsEnded executes error none p t e l =
    let q = advance_ready_state executes waiting_for_streaming (check_state p) in
    let a = advance-waiting executes p l in
    let w =
      finish_waiting_for_streaming-IsEnded executes error q.client q refl
        (advance-IsWaiting executes error p t e l) in
    ground arith
end_streaming-IsEnded executes error (some s) p t e l =
    let q = advance_ready_state executes waiting_for_streaming (check_state p) in
    let r =
      check (s.have_enough_data_for_streaming || not s.loading_finished)
        (record q { streamer = some (end_loading s) }) in
    let (f, m, c, w) = advance-end_loading executes error s p t e l in
    let i = streaming_finished-IsEnded executes error r m w in
    let k : streamer_notify_finished executes s q ≡ streaming_finished executes r =
      ap (λ (b : Bool). if b then streaming_finished executes r else r) f in
    ground arith

-- A script from its fetch on, whatever data has come, whether or not it was streamed, and whoever
-- watches: when its resource ends, well or with an error, it is ready or has failed, its client, if it
-- has one then, has been told once, and no streaming goes on; an assertion has failed exactly when the
-- client is a loader without a context document. The object is used behind its end exactly when the parser drops it in the call and there was no streamer,
-- which is a bug.
pub Loads-finish_resource :
    {p : PendingScript}
    → Loads p
    → (executes error canceled : Bool)
    → let q = finish_resource executes error canceled p in
      (q.ready_state ≡ end_state error)
      × (q.notified ≡ told p.client)
      × (q.is_currently_streaming ≡ false)
      × (q.asserted ≡ is_orphaned p.client)
      × (q.misuse ≡ (drops executes p.client && not (is_some p.streamer)))
unfolding finish_resource notify_finished
Loads-finish_resource {p} loads executes error canceled =
    let l = Loads-IsLoading loads in
    let r = record p { resource = end_resource error canceled p.resource } in
    let h = has_error-end_resource error canceled p.resource l.has_resource in
    let q = advance_ready_state executes waiting_for_streaming (check_state r) in
    let i : IsLoading r = ground arith in
    let k =
      ap (λ (t : Option Streamer). end_streaming executes t q) (advance-waiting executes r i).1 in
    let e = end_streaming-IsEnded executes error p.streamer r refl h.0 i in ground arith
