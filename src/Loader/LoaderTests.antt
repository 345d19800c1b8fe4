-- ===== src/Loader/LoaderTests.antt =====
-- Tests and concrete instances of the theorems on loads.
use blinkit.Prelude.{◌≤◌, ◌≡◌, refl, [], ◌∷◌, none, some, codes, true, false}
use blinkit.Http.Ascii.Table.{ascii}
use blinkit.Http.Code.{success, network}
use blinkit.Http.HeaderMap.{empty}
use blinkit.Http.Url.{Url, bk_url}
use blinkit.Http.Fixtures.{http_parser}
use blinkit.Loader.Crawler.{
  crawler_hijack_request, CrawlerClient, main_html, script, cancel_work, continue_working,
}
use blinkit.Loader.HttpLoaderTask.{
  task_request_failed, reports_error, Task, ResourceRequest, ContentType, new_task, run, work,
}
use blinkit.Loader.HttpLoaderTask.Run.{run_hijacked_script}
use blinkit.Loader.HttpLoaderTask.Settled.{endings}
use blinkit.Loader.HttpLoaderTask.Once.{World, take_off, here, next, fails, works, Reach-endings}

abbrev types : ContentType
types = record { parse_content_type = λ text. (text, none) }

-- A crawler that first goes on and then cancels, and answers every script.
abbrev client : CrawlerClient
client = record {
  get_config = none;
  hijack_request = some (λ url. some (codes "1"));
  hijack_response = none;
  request_complete = some (λ r. continue_working ∷ cancel_work ∷ []);
}

abbrev silent : CrawlerClient
silent = record client { hijack_request = none; request_complete = some (λ r. []) }

abbrev page : Url
page = bk_url http_parser (codes "http://a")

abbrev html_task : Task
html_task = record (new_task page) { hijack_type = main_html }

abbrev script_request : ResourceRequest
script_request = record {
  url = page;
  http_method = codes "GET";
  all_headers = empty;
  hijack_type = script;
}

run_hijacked_script_example :
    (run ascii http_parser types client true script_request (new_task page)).0 ≡ success
unfolding crawler_hijack_request
run_hijacked_script_example =
    (run_hijacked_script ascii http_parser types client true script_request (new_task page)
      (codes "1") refl refl).0

abbrev failed : World
failed = record { task = task_request_failed network (new_task page); in_flight = false }

abbrev reported : World
reported = record failed {
  task = work ascii http_parser types client (reports_error network page) (take_off failed.task []);
}

Reach-endings_example :
    (endings reported.task.events ≤ 1)
    × (reported.task.deleted ≡ false → endings reported.task.events ≡ 0)
unfolding task_request_failed
Reach-endings_example =
    Reach-endings ascii http_parser types client (new_task page) reported refl refl refl refl
      (next (next here (fails network refl)) (works (reports_error network page) [] refl))
