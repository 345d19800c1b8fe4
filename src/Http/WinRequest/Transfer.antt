-- ===== src/Http/WinRequest/Transfer.antt =====
-- blinkit/http/win_request.cpp: the workers that send the request and receive the response.
use blinkit.Prelude.{ℕ, true, false, not, Option, none, some, if◌then◌else◌, length, Bytes}
use blinkit.Http.Ascii.{Ascii}
use blinkit.Http.Code.{Code, unknown, network, is_success}
use blinkit.Http.HeaderMap.{get_all_for_request}
use blinkit.Http.Response.{HeaderText, append_data, parse_headers}
use blinkit.Http.WinInet.{
  set_option, send_timeout, receive_timeout, query_info, ignore_revocation, send, write,
  end_http_request, read,
}
use blinkit.Http.WinRequest.{
  WinRequest, Point, Answers, ask, is_empty, continue_with, after_worker, to_send_body,
  to_end_request, to_query_request, to_receive_data, to_request_complete, sending, reading,
  read_pending, done, pending, refused,
}

-- The checks behind a wait inside of a worker, and the rest of the worker.
unfoldable pub after_wait :
    (WinRequest → Point × WinRequest) → Code × WinRequest → Point × WinRequest
after_wait rest (code, w) =
    if not (is_success code)
    then after_worker (code, w)
    else if not (is_success w.response.error_code)
    then after_worker (w.response.error_code, w)
    else rest w

-- A wait inside of a worker.
unfoldable pub resume :
    (WinRequest → Point × WinRequest) → Option (Code × WinRequest) → Option (Point × WinRequest)
unfolding after_wait
resume rest none = none
resume rest (some waited) = some (after_wait rest waited)

unfoldable pub send_body : Answers → WinRequest → Code × WinRequest
unfolding continue_with
send_body a w =
    let q = ask (write w.impl.body) w in
    elim a.io [
      | done ↦ continue_with (some to_end_request) true q
      | pending ↦ continue_with (some to_end_request) false (record q { io_pending = true })
      | refused ↦ (network, q)
    ]

unfoldable pub end_request : Answers → WinRequest → Code × WinRequest
unfolding continue_with
end_request a w =
    let q = ask end_http_request w in
    elim a.io [
      | done ↦ continue_with (some to_query_request) true q
      | pending ↦ continue_with (some to_query_request) false (record q { io_pending = true })
      | refused ↦ (unknown, q)
    ]

-- The end of `SendRequest`.
unfoldable pub after_send : WinRequest → Point × WinRequest
unfolding continue_with after_worker
after_send w =
    after_worker
      (continue_with (some (if is_empty w.impl.body then to_end_request else to_send_body)) true w)

unfoldable pub send_request : Answers → WinRequest → Point × WinRequest
unfolding after_worker
send_request a w =
    let q = ask (send (get_all_for_request w.impl.headers.headers) (length w.impl.body)) (
      ask (set_option ignore_revocation)
        (ask (set_option (send_timeout w.impl.timeout_in_ms)) w)) in
    elim a.io [
      | done ↦ after_send q
      | pending ↦ (sending, record q { io_pending = true })
      | refused ↦ after_worker (network, q)
    ]

-- The second half of a round of the loop in `ReceiveData`.
unfoldable pub receive_chunk : Bytes → WinRequest → Point × WinRequest
unfolding continue_with after_worker append_data
receive_chunk chunk w =
    if is_empty chunk
    then after_worker (continue_with (some to_request_complete) true w)
    else (reading (length chunk), record w { response = append_data w.response chunk })

-- The first half: a read into as many bytes as the last one has filled.
unfoldable pub receive_data : Answers → ℕ → WinRequest → Point × WinRequest
unfolding after_worker
receive_data a n w =
    let q = ask (read n) w in
    elim a.io [
      | done ↦ receive_chunk a.chunk q
      | pending ↦ (read_pending, record q { io_pending = true })
      | refused ↦ after_worker (network, q)
    ]

abbrev pub buffer_size : ℕ
buffer_size = 1024

module _ (s : Ascii) (t : HeaderText) where
  -- The worker `QueryRequest`.
  unfoldable pub query_request : Answers → WinRequest → Code × WinRequest
  unfolding continue_with
  query_request a w = elim (query_info a.raw_headers) [
    | none ↦ (unknown, w)
    | some raw ↦ continue_with (some to_receive_data) true (
        ask (set_option (receive_timeout w.impl.timeout_in_ms))
          (record w { response = parse_headers s t w.response raw }))
  ]
