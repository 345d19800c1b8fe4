-- ===== src/Http/WinRequest/Verdicts.antt =====
-- What a request started by `Perform` brings its client, over all orders of steps.
use blinkit.Prelude.{◌≤◌, Bool, true, false, [], ◌≡◌, ◌⊎◌, none, some, arith}
use blinkit.Http.Ascii.{Ascii}
use blinkit.Http.Code.{success}
use blinkit.Http.Response.{HeaderText, Zlib}
use blinkit.Http.Url.{UrlParser}
use blinkit.Http.WinRequest.{
  WinRequest, Point, waiting, sending, read_pending, ended, Answers, wait_for_io_pending,
  continue_with,
}
use blinkit.Http.WinRequest.Perform.{win_perform, open_session, start_work_thread, open_request}
use blinkit.Http.WinRequest.Endings.{verdicts, Sound}
use blinkit.Http.WinRequest.Steps.{Reach, Reach-Sound}

Sound-verdicts :
    (c : Point × WinRequest)
    → Sound c
    → (verdicts c.1.client_calls ≤ 1) × (c.0 ≡ ended → verdicts c.1.client_calls ≡ 1)
Sound-verdicts (waiting, w) h = ground arith
Sound-verdicts (p, w) h = ground arith

Sound-awake :
    (c : Point × WinRequest)
    → Sound c
    → (c.0 ≡ waiting) ⊎ ((c.0 ≡ sending) ⊎ (c.0 ≡ read_pending))
    → wait_for_io_pending c.1 ≡ none
    → c.1.io_pending ≡ true
unfolding wait_for_io_pending
Sound-awake (p, w) h at e = ground arith

module _ (parser : UrlParser) where
  performed-Sound :
      (got : Bool) (a : Answers) (w : WinRequest) {v : WinRequest}
      → w.client_calls ≡ []
      → w.io_pending ≡ false
      → win_perform parser got a w ≡ some (success, v)
      → Sound (waiting, v)
  unfolding win_perform open_session open_request start_work_thread continue_with verdicts
  performed-Sound got a w c i e = ground arith

  module _ (s : Ascii) (z : Zlib) (t : HeaderText) where
    -- From a `Perform` that succeeds, in any order of steps of the thread, of WinINet and of the
    -- main thread, the references to the request left aside, so that `Cancel` sets the event and the
    -- object lives: the client hears of one completion, failure or redirection that it refuses at
    -- most, and of exactly one when the thread has ended.
    pub Reach-verdicts :
        (got : Bool) (a : Answers) (w : WinRequest) {v : WinRequest} {c : Point × WinRequest}
        → w.client_calls ≡ []
        → w.io_pending ≡ false
        → win_perform parser got a w ≡ some (success, v)
        → Reach parser s z t (waiting, v) c
        → (verdicts c.1.client_calls ≤ 1) × (c.0 ≡ ended → verdicts c.1.client_calls ≡ 1)
    Reach-verdicts got a w {v} {c} calls idle e r =
        Sound-verdicts c (Reach-Sound parser s z t r (performed-Sound got a w calls idle e))

    -- From a `Perform` that succeeds, in any order of steps: a wait of the thread goes on only
    -- while WinINet has an operation to complete.
    pub Reach-awake :
        (got : Bool) (a : Answers) (w : WinRequest) {v : WinRequest} {c : Point × WinRequest}
        → w.client_calls ≡ []
        → w.io_pending ≡ false
        → win_perform parser got a w ≡ some (success, v)
        → Reach parser s z t (waiting, v) c
        → (c.0 ≡ waiting) ⊎ ((c.0 ≡ sending) ⊎ (c.0 ≡ read_pending))
        → wait_for_io_pending c.1 ≡ none
        → c.1.io_pending ≡ true
    Reach-awake got a w {v} {c} calls idle e r =
        Sound-awake c (Reach-Sound parser s z t r (performed-Sound got a w calls idle e))
