-- ===== src/Loader/CookieJar.antt =====
-- blinkit/blink_impl/cookie_jar_impl.cpp: `CookieJarImpl`. A cookie of net is the parameter `Cookies`.
use blinkit.Prelude.{
  Bool, true, false, List, [], ◌∷◌, ◌++◌, ◌≡◌, refl, sym, ◌∙◌, ap, Option, none, some,
  if◌then◌else◌, filter, Bytes, codes, arith, Bool-cases, inl, inr,
}
use mathlib.Core.List.{append_assoc, append-nil}

-- `CanonicalCookie`
pub record Cookies : Type 1 where
  pub Cookie : Type 0
  pub create : Bytes → Bytes → Option Cookie
  pub include_for_request_url : Cookie → Bytes → Bool
  pub name : Cookie → Bytes
  pub cookie_value : Cookie → Bytes

abbrev pub is_nothing : Bytes → Bool
is_nothing [] = true
is_nothing (b ∷ bs) = false

module _ (n : Cookies) where
  open n use {Cookie, create, include_for_request_url, name, cookie_value}

  -- `AddCookieEntry`: what cannot be parsed is logged and left out.
  unfoldable pub add_cookie_entry : Bytes → Bytes → List Cookie → List Cookie
  add_cookie_entry url cookie jar = elim (create url cookie) [
    | none ↦ jar
    | some c ↦ jar ++ (c ∷ [])
  ]

  abbrev pub cookie_pair : Cookie → Bytes
  cookie_pair c = name c ++ (codes "=" ++ cookie_value c)

  -- A round of the loop in `GetCookies`.
  unfoldable pub append_cookie : Bytes → Cookie → Bytes → Bytes
  append_cookie url c ret =
      if include_for_request_url c url
      then (if is_nothing ret then [] else ret ++ codes "; ") ++ cookie_pair c
      else ret

  unfoldable pub get_cookies_loop : Bytes → List Cookie → Bytes → Bytes
  get_cookies_loop url [] ret = ret
  get_cookies_loop url (c ∷ cs) ret = get_cookies_loop url cs (append_cookie url c ret)

  -- `GetCookies`
  unfoldable pub get_cookies : Bytes → List Cookie → Bytes
  unfolding get_cookies_loop
  get_cookies url jar = get_cookies_loop url jar []

  -- The pairs of a list of cookies, with a separator between each two.
  abbrev pub separated : List Cookie → Bytes
  separated [] = []
  separated (c ∷ cs) = codes "; " ++ (cookie_pair c ++ separated cs)

  abbrev pub joined_pairs : List Cookie → Bytes
  joined_pairs [] = []
  joined_pairs (c ∷ cs) = cookie_pair c ++ separated cs

  is_nothing-append : (xs ys : Bytes) → is_nothing ys ≡ false → is_nothing (xs ++ ys) ≡ false
  is_nothing-append [] ys h = h
  is_nothing-append (x ∷ xs) ys h = refl

  is_nothing-pair : (c : Cookie) → is_nothing (cookie_pair c) ≡ false
  is_nothing-pair c = is_nothing-append (name c) (codes "=" ++ cookie_value c) refl

  append_cookie-more :
      (url ret : Bytes) (c : Cookie)
      → is_nothing ret ≡ false
      → append_cookie url c ret
        ≡ (if include_for_request_url c url then ret ++ (codes "; " ++ cookie_pair c) else ret)
  unfolding append_cookie
  append_cookie-more url ret c h = ground (arith, append_assoc ret (codes "; ") (cookie_pair c))

  loop-more :
      (url : Bytes) (jar : List Cookie) (ret : Bytes)
      → is_nothing ret ≡ false
      → get_cookies_loop url jar ret
        ≡ ret ++ separated (filter (λ (c : Cookie). include_for_request_url c url) jar)
  unfolding get_cookies_loop
  loop-more url [] ret h = sym (append-nil ret)
  loop-more url (c ∷ cs) ret h = elim (Bool-cases (include_for_request_url c url)) [
    | inl e ↦
        let next = ret ++ (codes "; " ++ cookie_pair c) in
        let step : append_cookie url c ret ≡ next = append_cookie-more url ret c h ∙ rw e refl in
        ap (get_cookies_loop url cs) step
        ∙ (loop-more url cs next (
              is_nothing-append ret (codes "; " ++ cookie_pair c)
                (is_nothing-append (codes "; ") (cookie_pair c) (is_nothing-pair c)))
            ∙ rw e (
                append_assoc ret (codes "; " ++ cookie_pair c)
                  (separated (filter (λ (d : Cookie). include_for_request_url d url) cs))))
    | inr e ↦
        let step : append_cookie url c ret ≡ ret = append_cookie-more url ret c h ∙ rw e refl in
        ap (get_cookies_loop url cs) step ∙ (loop-more url cs ret h ∙ rw e refl)
  ]

  -- `GetCookies` is the pairs of the cookies that are meant for the URL, in the order in which they
  -- were added, with a separator between each two and none elsewhere.
  pub get_cookies_lem :
      (url : Bytes) (jar : List Cookie)
      → get_cookies url jar
        ≡ joined_pairs (filter (λ (c : Cookie). include_for_request_url c url) jar)
  unfolding get_cookies get_cookies_loop append_cookie
  get_cookies_lem url [] = refl
  get_cookies_lem url (c ∷ cs) = elim (Bool-cases (include_for_request_url c url)) [
    | inl e ↦ rw e (loop-more url cs (cookie_pair c) (is_nothing-pair c))
    | inr e ↦ rw e (get_cookies_lem url cs)
  ]
