-- ===== src/Http/WinTests.antt =====
-- Tests and concrete instances of the theorems on WinINet requests.
use blinkit.Prelude.{
  ◌++◌, ◌≡◌, ◌≤◌, refl, [], ◌∷◌, none, some, codes, arith, true, bytes_eq, inl, inr,
}
use blinkit.Http.Ascii.Table.{ascii}
use blinkit.Http.Code.{success}
use blinkit.Http.Fixtures.{http_parser, one_header, copying}
use blinkit.Http.Url.{bk_url, scheme_is_http_or_https, path_for_request, substr}
use blinkit.Http.Request.{curl_request}
use blinkit.Http.WinInet.{queried}
use blinkit.Http.WinRequest.{
  WinRequest, Answers, Point, waiting, reading, ended, done, pending, refused, win_request,
  wait_for_io_pending, after_worker, leave, destroy, to_request_complete,
}
use blinkit.Http.WinRequest.Perform.{win_perform, start_work_thread}
use blinkit.Http.WinRequest.Thread.{thread_step, next_round, run_worker, dispatch}
use blinkit.Http.WinRequest.Transfer.{send_request}
use blinkit.Http.WinRequest.Endings.{verdicts}
use blinkit.Http.WinRequest.Steps.{here, next, by_thread}
use blinkit.Http.WinRequest.Verdicts.{Reach-verdicts, Reach-awake}
use blinkit.Http.WinRequest.Handles.{destroy-open_handles}
use blinkit.Http.WinRequest.Opening.{opened, win_perform_success}
use blinkit.Http.WinRequest.Receive.{receive_all, receive_all_lem}

abbrev plain : WinRequest
plain = win_request ascii (codes "http://a") true (codes "agent")

abbrev granted : Answers
granted = record {
  io = done;
  chunk = [];
  raw_headers = queried (codes "x");
  connects = true;
  opens = true;
  follows = true;
}

abbrev slow : Answers
slow = record granted { io = pending }

abbrev broken : Answers
broken = record granted { io = refused }

abbrev started : WinRequest
started = opened http_parser plain (codes "/")

started-is : win_perform http_parser true granted plain ≡ some (success, started)
unfolding win_request bk_url scheme_is_http_or_https bytes_eq path_for_request substr curl_request
started-is = win_perform_success http_parser granted plain (codes "/") refl refl refl refl refl

abbrev after : Answers → Point × WinRequest → Point × WinRequest
after a c = elim (thread_step http_parser ascii copying one_header 0 a c) [ none ↦ c | some d ↦ d ]

abbrev sent : Point × WinRequest
sent = after broken (waiting, started)

abbrev over : Point × WinRequest
over = after granted sent

Reach-verdicts_example :
    (verdicts over.1.client_calls ≤ 1) × (over.0 ≡ ended → verdicts over.1.client_calls ≡ 1)
unfolding start_work_thread thread_step wait_for_io_pending next_round dispatch run_worker
    send_request after_worker win_request leave
Reach-verdicts_example =
    Reach-verdicts http_parser ascii copying one_header true granted plain refl refl started-is
      (next (next here (by_thread 0 broken refl)) (by_thread 0 granted refl))

abbrev stalled : Point × WinRequest
stalled = after slow (waiting, started)

Reach-awake_example : stalled.1.io_pending ≡ true
unfolding start_work_thread thread_step wait_for_io_pending next_round dispatch run_worker
    send_request after_worker win_request
Reach-awake_example =
    Reach-awake http_parser ascii copying one_header true granted plain refl refl started-is
      (next here (by_thread 0 slow refl)) (inr (inl refl)) refl

destroy-open_handles_example : (destroy over.1).inet.open_handles ≡ 0
unfolding start_work_thread thread_step wait_for_io_pending next_round dispatch run_worker
    send_request after_worker win_request leave
destroy-open_handles_example =
    destroy-open_handles http_parser ascii copying one_header true granted plain refl started-is
      (next (next here (by_thread 0 broken refl)) (by_thread 0 granted refl))

receive_all_lem_example :
    let q =
      receive_all granted ((codes "ab" ∷ codes "c" ∷ []) ++ ([] ∷ [])) (reading 1024, started) in
    (q.0 ≡ waiting)
    × (q.1.next_worker ≡ some to_request_complete)
    × (q.1.event ≡ true)
    × (q.1.response ≡ record started.response { body = codes "abc" })
    × ((receive_all granted (codes "ab" ∷ codes "c" ∷ []) (reading 1024, started)).0 ≡ reading 1)
    × (1 ≤ 1024)
unfolding win_request receive_all start_work_thread
receive_all_lem_example =
    receive_all_lem granted (codes "ab" ∷ codes "c" ∷ []) 1024 started
      (refl, omega arith, (refl, omega arith, tt))
