-- ===== src/Http/RequestTests.antt =====
-- Tests and concrete instances of the theorems on requests.
use blinkit.Prelude.{codes}
use blinkit.Http.Ascii.Table.{ascii}
use blinkit.Http.Code.{Code}
use blinkit.Http.Request.{Request, curl_request}

abbrev plain : Request
plain = curl_request ascii (codes "http://a")
