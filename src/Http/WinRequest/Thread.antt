-- ===== src/Http/WinRequest/Thread.antt =====
-- blinkit/http/win_request.cpp: the worker `RequestComplete`, and `DoThreadWork`.
use blinkit.Prelude.{ℕ, Bool, true, not, ◌||◌, Option, none, some, ◌==◌, if◌then◌else◌, codes}
use blinkit.Http.Ascii.{Ascii}
use blinkit.Http.Code.{Code, is_success}
use blinkit.Http.Response.{
  Response, HeaderText, Zlib, get_header, gzip_inflate, resolve_redirection,
}
use blinkit.Http.Url.{UrlParser}
use blinkit.Http.WinRequest.{
  ThreadWorker, WinRequest, Point, Answers, tell, set_error_code, wait_for_io_pending,
  continue_with, after_worker, leave, to_send_request, to_send_body, to_end_request,
  to_query_request, to_receive_data, to_request_complete, to_request_redirect, request_complete,
  request_redirect, waiting, sending, reading, read_pending, leaving, ended, thrown,
}
use blinkit.Http.WinRequest.Transfer.{
  resume, send_body, end_request, after_send, send_request, receive_chunk, receive_data,
  buffer_size, query_request,
}
use blinkit.Http.WinRequest.Perform.{follow_redirect}

abbrev pub is_redirection : ℕ → Bool
is_redirection status = status == 301 || status == 302

module _ (s : Ascii) where
  module _ (z : Zlib) where
    -- The body is inflated where the header asks for it; `none` means that the fuel ran out.
    unfoldable pub decoded : ℕ → Response → Option Response
    decoded fuel r = elim (get_header s r (codes "Content-Encoding")).1 [
      | none ↦ some r
      | some e ↦
          if s.equals_case_insensitive e (codes "gzip") then gzip_inflate z fuel r else some r
    ]

  module _ (parser : UrlParser) where
    -- The `switch` of the worker `RequestComplete`.
    unfoldable pub complete : Answers → WinRequest → Code × WinRequest
    unfolding continue_with
    complete a w =
        if is_redirection w.response.status_code
        then (let (previous, r) = resolve_redirection s parser w.response in
            let q : WinRequest = record w { response = r } in
            let asked = if w.redirect_handler then tell (request_redirect a.follows) q else q in
            if not w.redirect_handler || a.follows
            then continue_with (some to_request_redirect) true (record asked { referer = previous })
            else continue_with none true asked)
        else continue_with none true (tell (request_complete w.response) w)

    unfoldable pub after_decoding :
        Answers → WinRequest → Option Response → Option (Point × WinRequest)
    unfolding complete after_worker
    after_decoding a w none = none
    after_decoding a w (some r) = some (after_worker (complete a (record w { response = r })))

module _ (parser : UrlParser) (s : Ascii) (z : Zlib) (t : HeaderText) where
  -- The call of a worker; `none` means that `inflate` is called for ever.
  unfoldable pub run_worker : ℕ → Answers → ThreadWorker → WinRequest → Option (Point × WinRequest)
  run_worker fuel a to_send_request w = some (send_request a w)
  run_worker fuel a to_send_body w = some (after_worker (send_body a w))
  run_worker fuel a to_end_request w = some (after_worker (end_request a w))
  run_worker fuel a to_query_request w = some (after_worker (query_request s t a w))
  run_worker fuel a to_receive_data w = some (reading buffer_size, w)
  run_worker fuel a to_request_complete w =
      after_decoding s parser a w (decoded s z fuel w.response)
  run_worker fuel a to_request_redirect w = some (follow_redirect parser a w)

  -- `DetachThreadWorker`, and the call of what it yields.
  unfoldable pub dispatch :
      ℕ → Answers → WinRequest → Option ThreadWorker → Option (Point × WinRequest)
  dispatch fuel a w none = some (leaving, record w { next_worker = none })
  dispatch fuel a w (some worker) = run_worker fuel a worker (record w { next_worker = none })

  -- A round of the loop of `DoThreadWork`, behind its wait.
  unfoldable pub next_round : ℕ → Answers → Code × WinRequest → Option (Point × WinRequest)
  next_round fuel a (code, w) =
      if not (is_success code)
      then some (leaving, set_error_code code w)
      else if not (is_success w.response.error_code)
      then some (leaving, w)
      else dispatch fuel a w w.next_worker

  -- One step of the thread; `none` means that it does not come further.
  unfoldable pub thread_step : ℕ → Answers → Point × WinRequest → Option (Point × WinRequest)
  thread_step fuel a (waiting, w) = elim (wait_for_io_pending w) [
    | none ↦ none
    | some waited ↦ next_round fuel a waited
  ]
  thread_step fuel a (sending, w) = resume after_send (wait_for_io_pending w)
  thread_step fuel a (reading n, w) = some (receive_data a n w)
  thread_step fuel a (read_pending, w) = resume (receive_chunk a.chunk) (wait_for_io_pending w)
  thread_step fuel a (leaving, w) = some (leave w)
  thread_step fuel a (ended, w) = none
  thread_step fuel a (thrown, w) = none
