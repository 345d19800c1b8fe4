-- ===== src/Loader/HttpLoaderTask/Complete.antt =====
-- `ProcessRequestComplete`: who decides what the client of the loader hears.
use blinkit.Prelude.{
  Bool, true, false, List, [], ◌∷◌, ◌++◌, ◌≡◌, ◌≢◌, refl, ap, ◌∙◌, none, some, if◌then◌else◌, arith,
}
use blinkit.Http.Ascii.{Ascii}
use blinkit.Http.Response.{Response}
use blinkit.Http.Url.{UrlParser}
use blinkit.Loader.Crawler.{
  main_html, Control, cancel_work, continue_working, release, CrawlerClient,
  crawler_request_complete, crawler_hijack_response,
}
use blinkit.Loader.HttpLoaderTask.{
  Task, ContentType, task_cancel_work, task_continue_working, do_continue, control, controls,
  leave_scope, follow_cancel, settle, ask_crawler, process_hijack_response,
  process_request_complete,
}

-- The value that a call gives to `m_cancel` during the callback.
abbrev pub cancels : Control → Bool
cancels cancel_work = true
cancels continue_working = false
cancels release = true

module _ (a : Ascii) (parser : UrlParser) (types : ContentType) (client : CrawlerClient) where
  control_calling :
      (t : Task) (c : Control)
      → t.calling_crawler ≡ true
      → control a parser types client t c ≡ record t { cancel = some (cancels c) }
  unfolding task_cancel_work task_continue_working
  control_calling t cancel_work e = rw e refl
  control_calling t continue_working e = rw e refl
  control_calling t release e = rw e refl

  controls_last :
      (t : Task) (cs : List Control) (c : Control)
      → t.calling_crawler ≡ true
      → controls a parser types client t (cs ++ (c ∷ [])) ≡ record t { cancel = some (cancels c) }
  unfolding controls
  controls_last t [] c e = control_calling t c e
  controls_last t (d ∷ cs) c e =
      ap (λ (x : Task). controls a parser types client x (cs ++ (c ∷ []))) (control_calling t d e)
      ∙ controls_last (record t { cancel = some (cancels d) }) cs c e

  settle_lem :
      (t : Task) (r : Response) (b : Bool)
      → settle a parser types client r (record t { cancel = some b }) ≡ (
          if b
          then record t { cancel = some true }
          else do_continue a parser types client (record t { cancel = some false }) r)
  unfolding follow_cancel
  settle_lem t r true = refl
  settle_lem t r false = refl

  ask_crawler_last :
      (t : Task) (r : Response) (cs : List Control) (c : Control)
      → crawler_request_complete client r ≡ cs ++ (c ∷ [])
      → ask_crawler a parser types client t r ≡ (
          if cancels c
          then record t { cancel = some true }
          else do_continue a parser types client (record t { cancel = some false }) r)
  unfolding ask_crawler
  ask_crawler_last t r cs c f =
      let entered : Task = record t { calling_crawler = true } in
      let left : Task → Task = λ called.
        settle a parser types client r
          (leave_scope a parser types client t.calling_crawler called) in
      ap (λ (calls : List Control). left (controls a parser types client entered calls)) f
      ∙ ap left (controls_last entered cs c refl)
      ∙ settle_lem t r (cancels c)

  process_request_complete_main :
      (t : Task) (r : Response)
      → t.hijack_type ≡ main_html
      → process_request_complete a parser types client t r ≡ ask_crawler a parser types client t r
  unfolding process_request_complete process_hijack_response
  process_request_complete_main t r h = ground arith

  -- For the page itself the last call that the crawler makes during the callback decides whether
  -- the response is delivered or dropped.
  process_request_complete_last :
      (t : Task) (r : Response) (cs : List Control) (c : Control)
      → t.hijack_type ≡ main_html
      → crawler_request_complete client r ≡ cs ++ (c ∷ [])
      → process_request_complete a parser types client t r ≡ (
          if cancels c
          then record t { cancel = some true }
          else do_continue a parser types client (record t { cancel = some false }) r)
  process_request_complete_last t r cs c h f =
      process_request_complete_main t r h ∙ ask_crawler_last t r cs c f

  -- For the page itself, when `m_cancel` is not set and the crawler makes no call during the
  -- callback, nothing happens to the task.
  process_request_complete_waits :
      (t : Task) (r : Response)
      → t.hijack_type ≡ main_html
      → t.cancel ≡ none
      → crawler_request_complete client r ≡ []
      → process_request_complete a parser types client t r ≡ t
  unfolding ask_crawler controls
  process_request_complete_waits t r h g f = process_request_complete_main t r h ∙ ground arith

  -- For everything but the page the crawler may change the response, which is delivered without
  -- asking.
  process_request_complete_hijacked :
      (t : Task) (r : Response)
      → t.hijack_type ≢ main_html
      → let q = crawler_hijack_response client r in
        process_request_complete a parser types client t r
        ≡ do_continue a parser types client (record t { response = some q }) q
  unfolding process_request_complete process_hijack_response
  process_request_complete_hijacked t r ne = ground arith
