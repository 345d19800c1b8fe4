-- ===== src/Loader/HttpLoaderTask.antt =====
-- blinkit/loader_tasks/http_loader_task.h, http_loader_task.cpp and loader_task.cpp, and
-- blinkit/blink_impl/url_loader_impl.cpp. `posted` is what the task has put on the task runner,
-- `events` what the client of the loader has heard, `deleted` whether the task is gone.
pub mod Complete
pub mod Run
pub mod Settled
pub mod Once
use blinkit.Prelude.{
  ℕ, ◌+◌, Bool, true, false, List, [], ◌∷◌, ◌++◌, Option, none, some, if◌then◌else◌, Bytes, codes,
}
use blinkit.Http.Ascii.{Ascii}
use blinkit.Http.Code.{Code, success, uri, is_success}
use blinkit.Http.HeaderMap.{HeaderMap, get, set}
use blinkit.Http.Request.{Request, curl_request, set_method, set_headers, perform}
use blinkit.Http.Response.{Response, response_impl, hijack}
use blinkit.Http.Url.{Url, UrlParser, bk_url, scheme_is_http_or_https}
use blinkit.Loader.Crawler.{
  HijackType, not_for_crawler, main_html, script, other, Control, cancel_work, continue_working,
  release, CrawlerClient, crawler_hijack_request, crawler_hijack_response, crawler_request_complete,
}

pub record ResourceRequest : Type 0 where
  pub url : Url
  pub http_method : Bytes
  pub all_headers : HeaderMap
  pub hijack_type : HijackType

pub record ResourceResponse : Type 0 where
  pub url : Url
  pub status_code : ℕ
  pub mime_type : Bytes
  pub text_encoding_name : Option Bytes

pub data ClientEvent : Type 0 where
  did_receive_response : ResourceResponse → ClientEvent
  did_receive_data : Bytes → ClientEvent
  did_finish_loading : ClientEvent
  did_fail : Code → Url → ClientEvent

pub data Work : Type 0 where
  continues : Work
  processes_request_complete : Work
  reports_error : Code → Url → Work

pub record Task : Type 0 where
  pub url : Url
  pub hijack_type : HijackType
  pub response : Option Response
  pub calling_crawler : Bool
  pub cancel : Option Bool
  pub request : Option Request
  pub posted : List Work
  pub events : List ClientEvent
  pub deleted : Bool

-- `HTTPLoaderTask(crawler, taskRunner, client)`
abbrev pub new_task : Url → Task
new_task u = record {
  url = u;
  hijack_type = other;
  response = none;
  calling_crawler = false;
  cancel = none;
  request = none;
  posted = [];
  events = [];
  deleted = false;
}

-- `net::HttpUtil::ParseContentType`: the MIME type, and the charset if there is one.
pub record ContentType : Type 0 where
  pub parse_content_type : Bytes → Bytes × Option Bytes

abbrev pub post : Work → Task → Task
post w t = record t { posted = t.posted ++ (w ∷ []) }

-- `CancelWork`; outside of the callback it is `DoCancel`, which does nothing.
unfoldable pub task_cancel_work : Task → Task
task_cancel_work t = if t.calling_crawler then record t { cancel = some true } else t

-- `RequestComplete` and `RequestFailed`, on the worker's thread.
unfoldable pub task_request_complete : Response → Task → Task
task_request_complete r t = post processes_request_complete (record t { response = some r })

unfoldable pub task_request_failed : Code → Task → Task
task_request_failed code t = record (post (reports_error code t.url) t) { deleted = true }

abbrev pub javascript : Bytes
javascript = codes "application/javascript; charset=utf-8"

abbrev pub content_type : Bytes
content_type = codes "Content-Type"

module _ (a : Ascii) (parser : UrlParser) (types : ContentType) (client : CrawlerClient) where
  unfoldable pub populate_resource_response : Response → ResourceResponse
  populate_resource_response r =
      let parsed = types.parse_content_type (get a r.headers content_type) in
      record {
        url = bk_url parser r.url;
        status_code = r.status_code;
        mime_type = parsed.0;
        text_encoding_name = parsed.1;
      }

  -- `DoContinue`, with the response that the task holds.
  unfoldable pub do_continue : Task → Response → Task
  do_continue t r = record t {
    events =
        t.events
        ++ (did_receive_response (populate_resource_response r)
            ∷ did_receive_data r.body
            ∷ did_finish_loading
            ∷ []);
    deleted = true;
  }

  -- `DoContinue` reads `m_response`, which is set wherever it is called.
  abbrev pub continue_with : Task → Option Response → Task
  continue_with t none = t
  continue_with t (some r) = do_continue t r

  -- `ContinueWorking`
  unfoldable pub task_continue_working : Task → Task
  task_continue_working t =
      if t.calling_crawler then record t { cancel = some false } else continue_with t t.response

  -- One call of the controller; `Release` is `CancelWork`.
  abbrev pub control : Task → Control → Task
  control t cancel_work = task_cancel_work t
  control t continue_working = task_continue_working t
  control t release = task_cancel_work t

  unfoldable pub controls : Task → List Control → Task
  controls t [] = t
  controls t (c ∷ cs) = controls (control t c) cs

  -- `PopulateHijackedResponse`, for a script.
  unfoldable pub populate_hijacked_response : Bytes → Bytes → Response
  populate_hijacked_response url text =
      let r : Response = record (response_impl url) { status_code = 200 } in
      hijack (record r { headers = set a r.headers content_type javascript }) (some text)

  -- `ProcessHijackRequest`: `none` is `false`.
  unfoldable pub process_hijack_request : HijackType → Bytes → Option Response
  process_hijack_request script url = elim (crawler_hijack_request client url) [
    | none ↦ none
    | some text ↦ some (populate_hijacked_response url text)
  ]
  process_hijack_request _ url = none

  -- `ProcessHijackResponse`: `none` is `false`.
  unfoldable pub process_hijack_response : HijackType → Response → Option Response
  process_hijack_response main_html r = none
  process_hijack_response _ r = some (crawler_hijack_response client r)

  -- The part of `ProcessRequestComplete` behind the hijack: the callback, in a scope that sets
  -- `m_callingCrawler` and puts it back, and the look at `m_cancel`.
  abbrev pub leave_scope : Bool → Task → Task
  leave_scope old called = record called { calling_crawler = old }

  unfoldable pub follow_cancel : Option Bool → Task → Response → Task
  follow_cancel none t r = t
  follow_cancel (some false) t r = do_continue t r
  follow_cancel (some true) t r = t

  abbrev pub settle : Response → Task → Task
  settle r t = follow_cancel t.cancel t r

  unfoldable pub ask_crawler : Task → Response → Task
  unfolding follow_cancel
  ask_crawler t r = settle r (
      leave_scope t.calling_crawler
        (controls (record t { calling_crawler = true }) (crawler_request_complete client r)))

  unfoldable pub process_request_complete : Task → Response → Task
  process_request_complete t r = elim (process_hijack_response t.hijack_type r) [
    | some q ↦ do_continue (record t { response = some q }) q
    | none ↦ ask_crawler t r
  ]

  abbrev pub process_with : Task → Option Response → Task
  process_with t none = t
  process_with t (some r) = process_request_complete t r

  -- What the main thread does with a posted piece of work.
  unfoldable pub work : Work → Task → Task
  work continues t = continue_with t t.response
  work processes_request_complete t = process_with t t.response
  work (reports_error code u) t = record t { events = t.events ++ (did_fail code u ∷ []) }

  -- `Run`; a request that does not start is deleted here too.
  unfoldable pub run : Bool → ResourceRequest → Task → Code × Task
  run created request t =
      let t : Task = record t { url = request.url; hijack_type = request.hijack_type } in
      elim (process_hijack_request request.hijack_type request.url.text) [
        | some r ↦ (success, post continues (record t { response = some r }))
        | none ↦
            let req = set_method (curl_request a request.url.text) request.http_method in
            let (code, req') = perform a parser created (set_headers req request.all_headers) in
            if is_success code
            then (code, record t { request = some req' })
            else (code, record t { request = some (record req' { deletes = req'.deletes + 1 }) })
      ]

  -- `URLLoaderImpl::LoadAsynchronously`: the task, if there is one, and what the loader itself
  -- posts.
  unfoldable pub load_asynchronously : Bool → ResourceRequest → Option Task × List Work
  load_asynchronously created request =
      if scheme_is_http_or_https request.url
      then (let (code, t) = run created request (new_task request.url) in
          if is_success code then (some t, []) else (some t, reports_error code request.url ∷ []))
      else (none, reports_error uri request.url ∷ [])
