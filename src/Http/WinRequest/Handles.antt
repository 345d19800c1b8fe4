-- ===== src/Http/WinRequest/Handles.antt =====
-- No handle of WinINet is lost: what is open is what the three members hold, and the destructor
-- closes it.
use blinkit.Prelude.{ℕ, ◌+◌, Bool, false, ◌≡◌, subst, Option, none, some, Bytes, arith}
use blinkit.Http.Ascii.{Ascii}
use blinkit.Http.Code.{Code}
use blinkit.Http.Response.{Response, HeaderText, Zlib}
use blinkit.Http.Url.{UrlParser}
use blinkit.Http.WinInet.{
  to_ℕ, no_handles, session_open, session_connect, connection_open_request, close_request,
  close_connection, close_session,
}
use blinkit.Http.WinRequest.{
  WinRequest, Point, waiting, sending, reading, read_pending, leaving, ended, thrown, Answers,
  ThreadWorker, to_send_request, to_send_body, to_end_request, to_query_request, to_receive_data,
  to_request_complete, to_request_redirect, wait_for_io_pending, continue_with, after_worker, leave,
  cancel, win_get_controller, status_request_complete, status_redirect, destroy,
}
use blinkit.Http.WinRequest.Perform.{
  follow_redirect, open_request, redirected, after_open, win_perform, open_session,
  start_work_thread,
}
use blinkit.Http.WinRequest.Thread.{
  complete, decoded, run_worker, next_round, thread_step, after_decoding, dispatch,
}
use blinkit.Http.WinRequest.Transfer.{
  after_wait, send_body, end_request, after_send, send_request, receive_chunk, receive_data,
  query_request, resume,
}
use blinkit.Http.WinRequest.Steps.{
  Step, by_thread, by_completion, by_redirection, by_cancel, by_get_controller, Reach, here, next,
}

abbrev pub Tight : WinRequest → Type 0
Tight w = w.inet.open_handles ≡ to_ℕ w.inet.session + (to_ℕ w.inet.connection + to_ℕ w.inet.request)

abbrev TightAfter : Option (Point × WinRequest) → Type 0
TightAfter none = Unit {0}
TightAfter (some q) = Tight q.1

abbrev TightOpened : Option (Code × WinRequest) → Type 0
TightOpened none = Unit {0}
TightOpened (some q) = Tight q.1

redirected-Tight :
    (w : WinRequest)
    → Tight w
    → Tight (redirected w)
      × ((redirected w).inet.connection ≡ false)
      × ((redirected w).inet.request ≡ false)
unfolding redirected close_request close_connection
redirected-Tight w h = ground arith

after_open-Tight :
    (w : WinRequest) (opened : Option (Code × WinRequest))
    → Tight w
    → TightOpened opened
    → Tight (after_open w opened).1
unfolding after_open after_worker continue_with
after_open-Tight w none h k = h
after_open-Tight w (some q) h k = ground arith

send_request-Tight : (a : Answers) (w : WinRequest) → Tight w → Tight (send_request a w).1
unfolding send_request after_send after_worker continue_with
send_request-Tight a w h = ground arith

body-Tight : (a : Answers) (w : WinRequest) → Tight w → Tight (after_worker (send_body a w)).1
unfolding send_body after_worker continue_with
body-Tight a w h = ground arith

end-Tight : (a : Answers) (w : WinRequest) → Tight w → Tight (after_worker (end_request a w)).1
unfolding end_request after_worker continue_with
end-Tight a w h = ground arith

receive_chunk-Tight : (chunk : Bytes) (w : WinRequest) → Tight w → Tight (receive_chunk chunk w).1
unfolding receive_chunk after_worker continue_with
receive_chunk-Tight chunk w h = ground arith

receive_data-Tight : (a : Answers) (n : ℕ) (w : WinRequest) → Tight w → Tight (receive_data a n w).1
unfolding receive_data receive_chunk after_worker continue_with
receive_data-Tight a n w h = ground arith

resume_send-Tight :
    (w : WinRequest) → Tight w → TightAfter (resume after_send (wait_for_io_pending w))
unfolding resume after_wait after_send after_worker continue_with wait_for_io_pending
resume_send-Tight w h = ground arith

resume_read-Tight :
    (chunk : Bytes) (w : WinRequest)
    → Tight w
    → TightAfter (resume (receive_chunk chunk) (wait_for_io_pending w))
unfolding resume after_wait receive_chunk after_worker continue_with wait_for_io_pending
resume_read-Tight chunk w h = ground arith

leave-Tight : (w : WinRequest) → Tight w → Tight (leave w).1
unfolding leave
leave-Tight w h = ground arith

module _ (parser : UrlParser) where
  open_request-Tight :
      (a : Answers) (text : Bytes) (w : WinRequest)
      → Tight w
      → w.inet.connection ≡ false
      → w.inet.request ≡ false
      → TightOpened (open_request parser a text w)
  unfolding open_request session_connect connection_open_request
  open_request-Tight a text w h c r = ground arith

  follow_redirect-Tight :
      (a : Answers) (w : WinRequest) → Tight w → Tight (follow_redirect parser a w).1
  unfolding follow_redirect
  follow_redirect-Tight a w h =
      let (k, c, r) = redirected-Tight w h in
      after_open-Tight (redirected w) _ k
        (open_request-Tight a (redirected w).response.url (redirected w) k c r)

  module _ (s : Ascii) where
    complete-Tight :
        (a : Answers) (w : WinRequest) → Tight w → Tight (after_worker (complete s parser a w)).1
    unfolding complete after_worker continue_with
    complete-Tight a w h = ground arith

    decoding-Tight :
        (a : Answers) (w : WinRequest) (r : Option Response)
        → Tight w
        → TightAfter (after_decoding s parser a w r)
    unfolding after_decoding
    decoding-Tight a w none h = tt
    decoding-Tight a w (some r) h = complete-Tight a (record w { response = r }) h

    module _ (z : Zlib) (t : HeaderText) where
      query-Tight :
          (a : Answers) (w : WinRequest) → Tight w → Tight (after_worker (query_request s t a w)).1
      unfolding query_request after_worker continue_with
      query-Tight a w h = ground arith

      run_worker-Tight :
          (fuel : ℕ) (a : Answers) (worker : ThreadWorker) (w : WinRequest)
          → Tight w
          → TightAfter (run_worker parser s z t fuel a worker w)
      unfolding run_worker
      run_worker-Tight fuel a to_send_request w h = send_request-Tight a w h
      run_worker-Tight fuel a to_send_body w h = body-Tight a w h
      run_worker-Tight fuel a to_end_request w h = end-Tight a w h
      run_worker-Tight fuel a to_query_request w h = query-Tight a w h
      run_worker-Tight fuel a to_receive_data w h = h
      run_worker-Tight fuel a to_request_redirect w h = follow_redirect-Tight a w h
      run_worker-Tight fuel a to_request_complete w h =
          decoding-Tight a w (decoded s z fuel w.response) h

      dispatch-Tight :
          (fuel : ℕ) (a : Answers) (worker : Option ThreadWorker) (w : WinRequest)
          → Tight w
          → TightAfter (dispatch parser s z t fuel a w worker)
      unfolding dispatch
      dispatch-Tight fuel a none w h = h
      dispatch-Tight fuel a (some worker) w h =
          run_worker-Tight fuel a worker (record w { next_worker = none }) h

      round-Tight :
          (fuel : ℕ) (a : Answers) (w : WinRequest)
          → Tight w
          → TightAfter (thread_step parser s z t fuel a (waiting, w))
      unfolding thread_step wait_for_io_pending next_round
      round-Tight fuel a w h =
          ground (arith, dispatch-Tight fuel a w.next_worker (record w { event = false }) h)

      thread_step-Tight :
          (fuel : ℕ) (a : Answers) (p : Point) (w : WinRequest)
          → Tight w
          → TightAfter (thread_step parser s z t fuel a (p, w))
      unfolding thread_step
      thread_step-Tight fuel a waiting w h = round-Tight fuel a w h
      thread_step-Tight fuel a sending w h = resume_send-Tight w h
      thread_step-Tight fuel a (reading n) w h = receive_data-Tight a n w h
      thread_step-Tight fuel a read_pending w h = resume_read-Tight a.chunk w h
      thread_step-Tight fuel a leaving w h = leave-Tight w h
      thread_step-Tight fuel a ended w h = tt
      thread_step-Tight fuel a thrown w h = tt

      Step-Tight : {c d : Point × WinRequest} → Step parser s z t c d → Tight c.1 → Tight d.1
      unfolding status_request_complete status_redirect cancel win_get_controller
      Step-Tight {c} {d} (by_thread fuel a e) h =
          subst TightAfter e (thread_step-Tight fuel a c.0 c.1 h)
      Step-Tight {c} (by_completion ok i) h = ground arith
      Step-Tight {c} (by_redirection url) h = h
      Step-Tight {c} by_cancel h = h
      Step-Tight {c} by_get_controller h = h

      Reach-Tight : {c d : Point × WinRequest} → Reach parser s z t c d → Tight c.1 → Tight d.1
      Reach-Tight here h = h
      Reach-Tight (next r e) h = Step-Tight e (Reach-Tight r h)

  destroy-Tight : (w : WinRequest) → Tight w → (destroy w).inet.open_handles ≡ 0
  unfolding destroy close_request close_connection close_session
  destroy-Tight w h = ground arith

  performed-Tight :
      (got : Bool) (a : Answers) (w : WinRequest) {code : Code} {v : WinRequest}
      → w.inet ≡ no_handles
      → win_perform parser got a w ≡ some (code, v)
      → Tight v
  unfolding win_perform open_session session_open start_work_thread continue_with open_request
      session_connect connection_open_request
  performed-Tight got a w i e = ground arith

  -- After a `Perform` of an object without handles, however it ends, and any steps of the thread,
  -- of WinINet and of the main thread, redirections included, the destructor leaves no handle of
  -- WinINet open.
  pub destroy-open_handles :
      (s : Ascii) (z : Zlib) (t : HeaderText) (got : Bool) (a : Answers) (w : WinRequest)
      {code : Code} {v : WinRequest} {c : Point × WinRequest}
      → w.inet ≡ no_handles
      → win_perform parser got a w ≡ some (code, v)
      → Reach parser s z t (waiting, v) c
      → (destroy c.1).inet.open_handles ≡ 0
  destroy-open_handles s z t got a w {code} {v} {c} i e r =
      destroy-Tight c.1 (Reach-Tight s z t r (performed-Tight got a w i e))
