-- ===== src/Loader/Crawler.antt =====
-- blinkit/crawler/crawler_impl.cpp. The client's callbacks are functions, and `none` is a null
-- pointer; a callback that gets a controller returns the calls that it makes of it.
use blinkit.Prelude.{not, List, [], ◌∷◌, Option, none, some, if◌then◌else◌, Bytes}
use blinkit.Http.Code.{Code, success, uri}
use blinkit.Http.Response.{Response}
use blinkit.Http.Url.{Url, UrlParser, bk_url, scheme_is_http_or_https}

pub data HijackType : Type 0 where
  not_for_crawler main_html script other : HijackType

-- The calls of a `BkWorkController`.
pub data Control : Type 0 where
  cancel_work continue_working release : Control

pub record CrawlerClient : Type 0 where
  pub get_config : Option Bytes
  pub hijack_request : Option (Bytes → Option Bytes)
  pub hijack_response : Option (Response → Response)
  pub request_complete : Option (Response → List Control)

-- `HijackRequest`: `none` is `false`.
unfoldable pub crawler_hijack_request : CrawlerClient → Bytes → Option Bytes
crawler_hijack_request c url = elim c.hijack_request [ none ↦ none | some f ↦ f url ]

unfoldable pub crawler_hijack_response : CrawlerClient → Response → Response
crawler_hijack_response c r = elim c.hijack_response [ none ↦ r | some f ↦ f r ]

-- `ProcessRequestComplete`: the calls that the controller gets.
unfoldable pub crawler_request_complete : CrawlerClient → Response → List Control
crawler_request_complete c r = elim c.request_complete [
  | none ↦ continue_working ∷ []
  | some f ↦ f r
]

-- `UserAgent`: the configured one, unless there is none or it is empty.
unfoldable pub user_agent : Bytes → CrawlerClient → Bytes
user_agent standard c = elim c.get_config [
  | none ↦ standard
  | some configured ↦ (elim configured [ [] ↦ standard | b ∷ bs ↦ b ∷ bs ])
]

-- The request that `Run` hands to the frame's loader.
pub record Navigation : Type 0 where
  pub url : Url
  pub hijack_type : HijackType

module _ (parser : UrlParser) where
  unfoldable pub run : Bytes → Code × Option Navigation
  run url =
      let u = bk_url parser url in
      if not (scheme_is_http_or_https u)
      then (uri, none)
      else (success, some (record { url = u; hijack_type = main_html }))
