-- ===== src/Http/Fixtures.antt =====
-- Concrete instances of the interfaces, for the tests.
use blinkit.Prelude.{ℕ, true, false, List, [], ◌∷◌, Option, some, Bytes, codes, pos, length}
use blinkit.Http.Response.{Response, HeaderText, Zlib, response_impl}
use blinkit.Http.Url.{Parsed, UrlParser, no_components}

-- A parser to which every text is an HTTP URL, and every relative one absolute.
abbrev pub http_parsed : Parsed
http_parsed = record no_components { scheme = record { begin = 0; len = pos 4 } }

abbrev pub http_parser : UrlParser
http_parser = record {
  parse_standard_url = λ text. http_parsed;
  parse_port = λ text port. pos 80;
  resolve_relative = λ base parsed text. some (text, http_parsed);
}

-- A status line of twelve bytes, and one header behind it.
abbrev pub one_header : HeaderText
one_header = record {
  status_line = λ raw. some (200, 1);
  split_pairs = λ input. (true, (codes "Set-Cookie", codes "a=1") ∷ (codes "Age", input) ∷ []);
  trim = λ text. text;
}

abbrev pub malformed : HeaderText
malformed = record one_header { split_pairs = λ input. (false, []) }

-- A decoder that copies one byte in a call.
abbrev pub copy_byte : List ℕ → Option (List ℕ × Bytes)
copy_byte [] = some ([], [])
copy_byte (x ∷ xs) = some (xs, x ∷ [])

abbrev pub copying : Zlib
copying = record {
  Stream = List ℕ;
  inflate_init = λ body. some body;
  inflate = copy_byte;
  avail_in = length;
}

-- A decoder that has come to the end of its stream, and leaves the input alone.
abbrev pub ended : Zlib
ended = record {
  Stream = List ℕ;
  inflate_init = λ body. some body;
  inflate = λ s. some (s, []);
  avail_in = length;
}

abbrev pub received : Response
received = record (response_impl (codes "http://a")) { body = codes "ab" }

abbrev pub redirecting : Response
redirecting = record received {
  status_code = 302;
  headers = record { headers = (codes "Location", codes "http://b") ∷ [] };
}
