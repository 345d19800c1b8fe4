-- ===== src/Http/UrlTests.antt =====
-- Tests and concrete instances of the theorems on URLs.
use blinkit.Prelude.{◌+◌, true, ◌≡◌, refl, none, some, length, codes}
use blinkit.Http.Url.{Url, no_components, substr, path_for_request}
use blinkit.Http.Url.Layout.{Layout, Describes, base, url_text, component_at, text_of}

abbrev page : Layout
page = record {
  front = codes "http://h";
  path = some (codes "/a");
  query = some (codes "q=1");
  ref = some (codes "top");
}

abbrev bare : Layout
bare = record { front = codes "http://h"; path = none; query = some (codes "q=1"); ref = none }

abbrev laid_out : Layout → Url
laid_out l = record {
  valid = true;
  text = url_text l;
  parsed = record no_components {
    path = component_at (length l.front) l.path;
    query = component_at (length l.front + length (text_of l.path) + 1) l.query;
    ref = component_at (length (base l) + 1) l.ref;
  };
}

laid_out-Describes : (l : Layout) → Describes (laid_out l) l
laid_out-Describes l = record { text_is = refl; path_is = refl; query_is = refl; ref_is = refl }

path_test : path_for_request (laid_out page) ≡ some (codes "/a?q=1")
unfolding path_for_request substr
path_test = refl
