-- ===== src/Loader/HttpLoaderTask/Run.antt =====
-- `Run` and `LoadAsynchronously`: how a load starts, and what becomes of one that does not.
use blinkit.Prelude.{
  ◌+◌, Bool, true, [], ◌∷◌, ◌++◌, ◌≡◌, ◌≢◌, ◌∙◌, Option, none, some, map, Bytes, bytes_eq_refl,
  arith,
}
use blinkit.Http.Ascii.{Ascii}
use blinkit.Http.Code.{success}
use blinkit.Http.HeaderMap.{empty}
use blinkit.Http.HeaderMap.Lookup.{get-set}
use blinkit.Http.Request.{Request, curl_request, set_method, set_headers, perform}
use blinkit.Http.Request.Options.{perform_failure}
use blinkit.Http.Response.{Response, hijack}
use blinkit.Http.Url.{UrlParser, bk_url}
use blinkit.Loader.Crawler.{script, CrawlerClient, crawler_hijack_request}
use blinkit.Loader.HttpLoaderTask.{
  Task, ResourceRequest, ContentType, did_receive_response, did_receive_data, did_finish_loading,
  continues, javascript, content_type, populate_resource_response, do_continue,
  populate_hijacked_response, process_hijack_request, work, run,
}

equals_refl : (a : Ascii) (k : Bytes) → a.equals_case_insensitive k k ≡ true
equals_refl a k = a.equals_lem k k ∙ bytes_eq_refl (map a.to_lower k)

module _ (a : Ascii) (parser : UrlParser) (types : ContentType) (client : CrawlerClient) where
  abbrev pub hijacked : ResourceRequest → Option Response
  hijacked q = process_hijack_request a parser types client q.hijack_type q.url.text

  -- A script that the crawler answers itself never reaches the network: after the posted work the
  -- client has heard status 200, the MIME type of JavaScript, the text of the crawler and the end,
  -- and the task is gone.
  pub run_hijacked_script :
      (created : Bool) (q : ResourceRequest) (t : Task) (text : Bytes)
      → q.hijack_type ≡ script
      → crawler_hijack_request client q.url.text ≡ some text
      → let ran = run a parser types client created q t in
        let heard = work a parser types client continues ran.1 in
        (ran.0 ≡ success)
        × (ran.1.request ≡ t.request)
        × (ran.1.posted ≡ t.posted ++ (continues ∷ []))
        × (heard.events
            ≡ t.events
              ++ (did_receive_response (record {
                url = bk_url parser q.url.text;
                status_code = 200;
                mime_type = (types.parse_content_type javascript).0;
                text_encoding_name = (types.parse_content_type javascript).1;
              })
                  ∷ did_receive_data text
                  ∷ did_finish_loading
                  ∷ []))
        × (heard.deleted ≡ true)
  unfolding run work hijack do_continue populate_resource_response process_hijack_request
      populate_hijacked_response
  run_hijacked_script created q t text h e =
      ground
        (arith, get-set a empty content_type content_type javascript, equals_refl a content_type)

  -- A request that the crawler does not answer, and that does not start, is deleted twice, by
  -- `Perform` and by `Run`, which is a bug.
  run_deletes_twice :
      (created : Bool) (q : ResourceRequest) (t : Task)
      → hijacked q ≡ none
      → (run a parser types client created q t).0 ≢ success
      → (req : Request) × ((run a parser types client created q t).1.request ≡ some req)
        × (req.deletes ≡ 2)
  unfolding run set_method set_headers curl_request
  run_deletes_twice created q t e ne =
      let request =
        set_headers (set_method (curl_request a q.url.text) q.http_method) q.all_headers in
      let performed = perform a parser created request in
      (
        record performed.1 { deletes = performed.1.deletes + 1 },
        ground (arith, perform_failure a parser request created),
        ground (arith, perform_failure a parser request created),
      )
