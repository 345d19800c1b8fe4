-- ===== src/Http/WinRequest/Endings.antt =====
-- What the client hears of a request, and that the worker thread never waits for nothing.
use blinkit.Prelude.{
  ◌∙◌, ◌≢◌, ◌⊎◌, ℕ, ◌+◌, true, false, List, [], ◌∷◌, ◌++◌, ◌≡◌, refl, Option, none, some, Bytes,
  arith, inl,
}
use blinkit.Http.Ascii.{Ascii}
use blinkit.Http.Code.{Code, success, cancelled}
use blinkit.Http.Response.{Response, resolve_redirection, gzip_inflate, HeaderText, Zlib}
use blinkit.Http.Url.{UrlParser}
use blinkit.Http.WinRequest.{
  to_receive_data, to_query_request, to_end_request, to_send_body, to_send_request, read, ask,
  to_request_complete, to_request_redirect, WinRequest, Point, waiting, sending, reading,
  read_pending, leaving, ended, thrown, Answers, ClientCall, request_complete, request_failed,
  request_redirect, ThreadWorker, wait_for_io_pending, continue_with, after_worker, leave,
}
use blinkit.Http.WinRequest.Perform.{after_open, redirected, follow_redirect, open_request}
use blinkit.Http.WinRequest.Thread.{
  dispatch, after_decoding, complete, decoded, run_worker, next_round, thread_step,
}
use blinkit.Http.WinRequest.Transfer.{
  resume, after_wait, send_body, end_request, after_send, send_request, receive_chunk, receive_data,
  query_request,
}

-- The calls that end a request: completion, failure, and a redirection that the client refuses.
abbrev pub verdict : ClientCall → ℕ
verdict (request_complete r) = 1
verdict (request_failed code) = 1
verdict (request_redirect true) = 0
verdict (request_redirect false) = 1

unfoldable pub verdicts : List ClientCall → ℕ
verdicts [] = 0
verdicts (c ∷ cs) = verdict c + verdicts cs

pub verdicts-append :
    (cs : List ClientCall) (c : ClientCall) → verdicts (cs ++ (c ∷ [])) ≡ verdicts cs + verdict c
unfolding verdicts
verdicts-append [] c = omega arith
verdicts-append (x ∷ xs) c = omega (arith, verdicts-append xs c)

-- Between two steps: no wait is in vain, WinINet has nothing to complete while the thread runs,
-- and the client has heard no verdict yet, or just one when all is done.
pub record Waits (w : WinRequest) : Type 0 where
  pub woken : (w.event ≡ true) ⊎ (w.io_pending ≡ true)
  pub quiet : w.event ≡ true → w.io_pending ≡ false

abbrev pub Heard : Option ThreadWorker → WinRequest → Type 0
Heard none w = (verdicts w.client_calls ≡ 1) × (w.event ≡ true) × (w.response.error_code ≡ success)
Heard (some worker) w = verdicts w.client_calls ≡ 0

abbrev pub Left : WinRequest → Type 0
Left w =
    ((w.response.error_code ≡ success) × (w.io_pending ≡ false) × (verdicts w.client_calls ≡ 1))
    ⊎ ((w.response.error_code ≢ success) × (verdicts w.client_calls ≡ 0))

abbrev pub Running : WinRequest → Type 0
Running w = (verdicts w.client_calls ≡ 0) × (w.event ≡ false) × (w.io_pending ≡ false)

abbrev pub Sound : Point × WinRequest → Type 0
Sound (waiting, w) = Waits w × Heard w.next_worker w
Sound (sending, w) = Waits w × (verdicts w.client_calls ≡ 0)
Sound (read_pending, w) = Waits w × (verdicts w.client_calls ≡ 0)
Sound (reading n, w) = Running w
Sound (leaving, w) = Left w
Sound (ended, w) = verdicts w.client_calls ≡ 1
Sound (thrown, w) = verdicts w.client_calls ≡ 0

-- Where a step may lead, when it does.
abbrev pub SoundAfter : Option (Point × WinRequest) → Type 0
SoundAfter none = Unit {0}
SoundAfter (some q) = Sound q

-- A wait in a worker ends in its rest, or behind the loop.
after_wait-Sound :
    (rest : WinRequest → Point × WinRequest)
    → ((v : WinRequest) → Running v → Sound (rest v))
    → (code : Code) (v : WinRequest) → (code ≡ success → Running v)
    → verdicts v.client_calls ≡ 0
    → Sound (after_wait rest (code, v))
unfolding after_wait after_worker
after_wait-Sound rest k success v h e = ground (arith, k v (h refl))
after_wait-Sound rest k _ v h e = ground arith

resume-Sound :
    (rest : WinRequest → Point × WinRequest)
    → ((v : WinRequest) → Running v → Sound (rest v))
    → (w : WinRequest) → Waits w
    → verdicts w.client_calls ≡ 0
    → SoundAfter (resume rest (wait_for_io_pending w))
unfolding wait_for_io_pending resume
resume-Sound rest k w h e = ground (
  arith,
  after_wait-Sound rest k success (record w { event = false }),
  after_wait-Sound rest k cancelled w (λ c. cc) e,
)

after_send-Sound : (w : WinRequest) → Running w → Sound (after_send w)
unfolding after_send after_worker continue_with
after_send-Sound w h = ground arith

leave-Sound : (w : WinRequest) → Left w → Sound (leave w)
unfolding leave
leave-Sound w h =
    ground (arith, verdicts-append w.client_calls (request_failed w.response.error_code))

send_request-Sound : (a : Answers) (w : WinRequest) → Running w → Sound (send_request a w)
unfolding send_request after_send after_worker continue_with
send_request-Sound a w h = ground arith

receive_chunk-Sound : (chunk : Bytes) (w : WinRequest) → Running w → Sound (receive_chunk chunk w)
unfolding receive_chunk after_worker continue_with
receive_chunk-Sound [] w h = ground arith
receive_chunk-Sound (c ∷ cs) w h = ground arith

receive_data-Sound : (a : Answers) (n : ℕ) (w : WinRequest) → Running w → Sound (receive_data a n w)
unfolding receive_data after_worker
receive_data-Sound a n w h = ground (arith, receive_chunk-Sound a.chunk (ask (read n) w) h)

body-Sound : (a : Answers) (w : WinRequest) → Running w → Sound (after_worker (send_body a w))
unfolding send_body after_worker continue_with
body-Sound a w h = ground arith

end-Sound : (a : Answers) (w : WinRequest) → Running w → Sound (after_worker (end_request a w))
unfolding end_request after_worker continue_with
end-Sound a w h = ground arith

-- Opening a request leaves alone what this is about.
abbrev Kept : WinRequest → Option (Code × WinRequest) → Type 0
Kept w none = Unit {0}
Kept w (some (code, v)) =
    (v.client_calls ≡ w.client_calls) × (v.event ≡ w.event) × (v.io_pending ≡ w.io_pending)

module _ (parser : UrlParser) where
  open_request-Kept :
      (a : Answers) (text : Bytes) (w : WinRequest) → Kept w (open_request parser a text w)
  unfolding open_request
  open_request-Kept a text w = ground arith

  opened-Sound :
      (w : WinRequest) (opened : Option (Code × WinRequest))
      → Running w
      → Kept w opened
      → Sound (after_open w opened)
  unfolding after_open after_worker continue_with
  opened-Sound w none h k = h.0
  opened-Sound w (some (code, v)) h k = ground arith

  follow_redirect-Sound :
      (a : Answers) (w : WinRequest) → Running w → Sound (follow_redirect parser a w)
  unfolding follow_redirect redirected
  follow_redirect-Sound a w h =
      opened-Sound (redirected w) _ h
        (open_request-Kept a (redirected w).response.url (redirected w))

  module _ (s : Ascii) where
    complete-Sound :
        (a : Answers) (w : WinRequest)
        → Running w
        → w.response.error_code ≡ success
        → Sound (after_worker (complete s parser a w))
    unfolding complete after_worker continue_with resolve_redirection
    complete-Sound a w h e = ground (
      arith,
      verdicts-append w.client_calls (request_redirect a.follows),
      verdicts-append w.client_calls (request_complete w.response),
    )

    module _ (z : Zlib) where
      decoded-error_code :
          (fuel : ℕ) (r q : Response) → decoded s z fuel r ≡ some q → q.error_code ≡ r.error_code
      unfolding decoded gzip_inflate
      decoded-error_code fuel r q h = ground arith

      module _ (t : HeaderText) where
        query-Sound :
            (a : Answers) (w : WinRequest)
            → Running w
            → Sound (after_worker (query_request s t a w))
        unfolding query_request after_worker continue_with
        query-Sound a w h = ground arith

        completed-Sound :
            (a : Answers) (w : WinRequest) (r : Option Response)
            → Running w
            → ((q : Response) → r ≡ some q → q.error_code ≡ success)
            → SoundAfter (after_decoding s parser a w r)
        unfolding after_decoding
        completed-Sound a w none h k = tt
        completed-Sound a w (some r) h k = complete-Sound a (record w { response = r }) h (k r refl)

        run_worker-Sound :
            (fuel : ℕ) (a : Answers) (worker : ThreadWorker) (w : WinRequest)
            → Running w
            → w.response.error_code ≡ success
            → SoundAfter (run_worker parser s z t fuel a worker w)
        unfolding run_worker
        run_worker-Sound fuel a to_send_request w h e = send_request-Sound a w h
        run_worker-Sound fuel a to_send_body w h e = body-Sound a w h
        run_worker-Sound fuel a to_end_request w h e = end-Sound a w h
        run_worker-Sound fuel a to_query_request w h e = query-Sound a w h
        run_worker-Sound fuel a to_receive_data w h e = h
        run_worker-Sound fuel a to_request_redirect w h e = follow_redirect-Sound a w h
        run_worker-Sound fuel a to_request_complete w h e =
            completed-Sound a w _ h (λ q k. decoded-error_code fuel w.response q k ∙ e)

        dispatch-Sound :
            (fuel : ℕ) (a : Answers) (next : Option ThreadWorker) (w : WinRequest)
            → w.event ≡ false
            → w.io_pending ≡ false
            → w.response.error_code ≡ success
            → Heard next (record w { event = true })
            → SoundAfter (dispatch parser s z t fuel a w next)
        unfolding dispatch
        dispatch-Sound fuel a none w v i e h = inl (e, i, h.0)
        dispatch-Sound fuel a (some worker) w v i e h =
            run_worker-Sound fuel a worker (record w { next_worker = none }) (h, v, i) e

        round-Sound :
            (fuel : ℕ) (a : Answers) (w : WinRequest)
            → Waits w
            → Heard w.next_worker w
            → SoundAfter (thread_step parser s z t fuel a (waiting, w))
        unfolding thread_step wait_for_io_pending next_round
        round-Sound fuel a w k h =
            ground (arith, dispatch-Sound fuel a w.next_worker (record w { event = false }))

        pub thread_step-Sound :
            (fuel : ℕ) (a : Answers) (p : Point) (w : WinRequest)
            → Sound (p, w)
            → SoundAfter (thread_step parser s z t fuel a (p, w))
        unfolding thread_step
        thread_step-Sound fuel a waiting w h = round-Sound fuel a w h.0 h.1
        thread_step-Sound fuel a sending w h =
            resume-Sound after_send (λ v r. after_send-Sound v r) w h.0 h.1
        thread_step-Sound fuel a (reading n) w h = receive_data-Sound a n w h
        thread_step-Sound fuel a read_pending w h =
            resume-Sound (receive_chunk a.chunk) (receive_chunk-Sound a.chunk) w h.0 h.1
        thread_step-Sound fuel a leaving w h = leave-Sound w h
        thread_step-Sound fuel a ended w h = tt
        thread_step-Sound fuel a thrown w h = tt
