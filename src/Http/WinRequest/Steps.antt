-- ===== src/Http/WinRequest/Steps.antt =====
-- The steps of the thread, of WinINet and of the main thread, in any order.
use blinkit.Prelude.{subst, ℕ, Bool, true, ◌≡◌, some, Bytes, arith}
use blinkit.Http.Ascii.{Ascii}
use blinkit.Http.Response.{HeaderText, Zlib}
use blinkit.Http.Url.{UrlParser}
use blinkit.Http.WinRequest.{
  status_redirect, WinRequest, Point, Answers, cancel, win_get_controller, status_request_complete,
}
use blinkit.Http.WinRequest.Thread.{thread_step}
use blinkit.Http.WinRequest.Endings.{Sound, SoundAfter, thread_step-Sound}

module _ (parser : UrlParser) (s : Ascii) (z : Zlib) (t : HeaderText) where
  -- A step of the thread, of WinINet or of the main thread.
  pub data Step (c : Point × WinRequest) : Point × WinRequest → Type 0 where
    by_thread :
        (fuel : ℕ) (a : Answers) {d : Point × WinRequest}
        → thread_step parser s z t fuel a c ≡ some d
        → Step c d
    by_completion :
        (ok : Bool) → c.1.io_pending ≡ true → Step c (c.0, status_request_complete ok c.1)
    by_redirection : (url : Bytes) → Step c (c.0, status_redirect url c.1)
    -- `Cancel`, without its `Release`, and without the second one by which `CancelWork` of the controller
    -- can free the request.
    by_cancel : Step c (c.0, cancel c.1)
    by_get_controller : Step c (c.0, win_get_controller c.1)

  pub data Reach (c : Point × WinRequest) : Point × WinRequest → Type 0 where
    here : Reach c c
    next : {d e : Point × WinRequest} → Reach c d → Step d e → Reach c e

  completion-Sound :
      (p : Point) (w : WinRequest) (ok : Bool)
      → w.io_pending ≡ true
      → Sound (p, w)
      → Sound (p, status_request_complete ok w)
  unfolding status_request_complete
  completion-Sound p w ok i h = ground arith

  redirection-Sound :
      (p : Point) (w : WinRequest) (url : Bytes) → Sound (p, w) → Sound (p, status_redirect url w)
  unfolding status_redirect
  redirection-Sound p w url h = ground arith

  cancel-Sound : (p : Point) (w : WinRequest) → Sound (p, w) → Sound (p, cancel w)
  unfolding cancel
  cancel-Sound p w h = ground arith

  controller-Sound : (p : Point) (w : WinRequest) → Sound (p, w) → Sound (p, win_get_controller w)
  unfolding win_get_controller
  controller-Sound p w h = ground arith

  Step-Sound : {c d : Point × WinRequest} → Step c d → Sound c → Sound d
  Step-Sound {c} {d} (by_thread fuel a e) h =
      subst SoundAfter e (thread_step-Sound parser s z t fuel a c.0 c.1 h)
  Step-Sound {c} (by_completion ok i) h = completion-Sound c.0 c.1 ok i h
  Step-Sound {c} (by_redirection url) h = redirection-Sound c.0 c.1 url h
  Step-Sound {c} by_cancel h = cancel-Sound c.0 c.1 h
  Step-Sound {c} by_get_controller h = controller-Sound c.0 c.1 h

  pub Reach-Sound : {c d : Point × WinRequest} → Reach c d → Sound c → Sound d
  Reach-Sound here h = h
  Reach-Sound (next r e) h = Step-Sound e (Reach-Sound r h)
