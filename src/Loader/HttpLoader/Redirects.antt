-- ===== src/Loader/HttpLoader/Redirects.antt =====
-- A chain of redirections: the cookies that are kept, and the requests that are made.
use blinkit.Prelude.{
  ◌+◌, Bool, true, false, List, [], ◌∷◌, ◌++◌, ◌≡◌, refl, sym, ◌∙◌, ap, Option, none, some,
  if◌then◌else◌, Bool-cases, inl, inr, Bytes, codes, arith, bytes_eq, bytes_eq_refl, map,
}
use mathlib.Core.List.{append_assoc, append-nil, map-append}
use blinkit.Http.Code.{Code, success, unknown, is_success}
use blinkit.Http.Response.{Response}
use blinkit.Loader.CookieJar.{Cookies, add_cookie_entry}
use blinkit.Loader.HttpLoader.{
  Sent, LoaderPost, posts_complete, posts_error, Performed, no_request, performed, assign_header,
  HttpLoader, add_header, apply_cookies, request_failed, request_complete, request_of, load,
  request_redirect,
}

-- The value of the first header of a name.
unfoldable pub header_value : Bytes → List (Bytes × Bytes) → Option Bytes
header_value name [] = none
header_value name ((k, v) ∷ hs) =
    let rest = header_value name hs in if bytes_eq k name then some v else rest

header_value-assign_header :
    (name value : Bytes) (hs more : List (Bytes × Bytes))
    → header_value name (assign_header name value hs ++ more) ≡ some value
unfolding header_value
header_value-assign_header name value [] more = ground (arith, bytes_eq_refl name)
header_value-assign_header name value ((k, v) ∷ hs) more =
    ground (arith, header_value-assign_header name value hs more)

abbrev pub urls : List Sent → List Bytes
urls sent = map (λ (x : Sent). x.url) sent

abbrev pub is_made : Performed → Bool
is_made no_request = false
is_made (performed code) = true

abbrev pub code_of : Performed → Code
code_of no_request = unknown
code_of (performed code) = code

module _ (n : Cookies) where
  apply_cookies_lem :
      (cs : List Bytes) (l : HttpLoader n)
      → ((apply_cookies n cs l).cookies ≡ l.cookies ++ cs)
        × ((apply_cookies n cs l).client_cookies ≡ l.client_cookies ++ cs)
        × ((apply_cookies n cs l).current_url ≡ l.current_url)
        × ((apply_cookies n cs l).sent ≡ l.sent)
        × ((apply_cookies n cs l).posts ≡ l.posts)
        × ((apply_cookies n cs l).deletes ≡ l.deletes)
        × ((apply_cookies n cs l).method ≡ l.method)
  unfolding apply_cookies
  apply_cookies_lem [] l =
      (sym (append-nil l.cookies), sym (append-nil l.client_cookies), refl, refl, refl, refl, refl)
  apply_cookies_lem (c ∷ cs) l =
      let q : HttpLoader n = record l {
        cookies = l.cookies ++ (c ∷ []);
        cookie_jar = add_cookie_entry n l.current_url c l.cookie_jar;
        client_cookies = l.client_cookies ++ (c ∷ []);
      } in
      let (a, b, u, s, p, d, m) = apply_cookies_lem cs q in
      (
        a ∙ append_assoc l.cookies (c ∷ []) cs,
        b ∙ append_assoc l.client_cookies (c ∷ []) cs,
        u,
        s,
        p,
        d,
        m,
      )

  module _ (client : Bytes → Bytes) where
    -- The loader when it makes the request for a redirection.
    abbrev pub next_hop : Response → HttpLoader n → HttpLoader n
    next_hop r l =
        let q = apply_cookies n r.cookies l in
        record (add_header n (codes "Referer") q.current_url q) { current_url = r.url }

    -- What one redirection whose request starts leaves.
    redirected_lem :
        (r : Response) (l : HttpLoader n)
        → let q = (request_redirect n client (performed success) r l).1 in
          (q.cookies ≡ l.cookies ++ r.cookies)
          × (q.client_cookies ≡ l.client_cookies ++ r.cookies)
          × (urls q.sent ≡ urls l.sent ++ (r.url ∷ []))
          × (q.posts ≡ l.posts)
          × (q.deletes ≡ l.deletes)
    unfolding request_redirect load
    redirected_lem r l =
        let (a, b, u, s, p, d, m) = apply_cookies_lem r.cookies l in
        (
          a,
          b,
          ap (λ (xs : List Sent). urls (xs ++ (request_of n client (next_hop r l) ∷ []))) s
              ∙ map-append (λ (x : Sent). x.url) l.sent (request_of n client (next_hop r l) ∷ []),
          p,
          d,
        )

    -- Redirections, each of which makes a request that starts.
    unfoldable pub follow_all : List Response → HttpLoader n → HttpLoader n
    follow_all [] l = l
    follow_all (r ∷ rs) l = follow_all rs (request_redirect n client (performed success) r l).1

    abbrev pub all_cookies : List Response → List Bytes
    all_cookies [] = []
    all_cookies (r ∷ rs) = r.cookies ++ all_cookies rs

    followed_lem :
        (rs : List Response) (l : HttpLoader n)
        → let q = follow_all rs l in
          (q.cookies ≡ l.cookies ++ all_cookies rs)
          × (q.client_cookies ≡ l.client_cookies ++ all_cookies rs)
          × (urls q.sent ≡ urls l.sent ++ map (λ (r : Response). r.url) rs)
          × (q.posts ≡ l.posts)
          × (q.deletes ≡ l.deletes)
    unfolding follow_all
    followed_lem [] l = (
      sym (append-nil l.cookies),
      sym (append-nil l.client_cookies),
      sym (append-nil (urls l.sent)),
      refl,
      refl,
    )
    followed_lem (r ∷ rs) l =
        let (a, b, u, p, d) = redirected_lem r l in
        let (a', b', u', p', d') =
          followed_lem rs (request_redirect n client (performed success) r l).1 in
        let rest = all_cookies rs in
        let next = map (λ (x : Response). x.url) rs in
        (
          a' ∙ (ap (λ (x : List Bytes). x ++ rest) a ∙ append_assoc l.cookies r.cookies rest),
          b'
              ∙ (ap (λ (x : List Bytes). x ++ rest) b
                  ∙ append_assoc l.client_cookies r.cookies rest),
          u'
              ∙ (ap (λ (x : List Bytes). x ++ next) u
                  ∙ append_assoc (urls l.sent) (r.url ∷ []) next),
          p' ∙ p,
          d' ∙ d,
        )

    -- For a chain of redirections, each of which makes a request that starts, and a response that is
    -- complete: the cookies of all the responses are kept and given to the client, in their order;
    -- the requests go to the URLs of the redirections, in their order; the client is called once,
    -- and the loader is not deleted.
    request_complete-follow_all :
        (rs : List Response) (r : Response) (l : HttpLoader n)
        → let q = request_complete n r (follow_all rs l) in
          (q.cookies ≡ l.cookies ++ (all_cookies rs ++ r.cookies))
          × (q.client_cookies ≡ l.client_cookies ++ (all_cookies rs ++ r.cookies))
          × (urls q.sent ≡ urls l.sent ++ map (λ (x : Response). x.url) rs)
          × (q.posts ≡ l.posts ++ (posts_complete ∷ []))
          × (q.deletes ≡ l.deletes)
    unfolding request_complete
    request_complete-follow_all rs r l =
        let (a, b, u, p, d) = followed_lem rs l in
        let (a', b', u', s', p', d', m') = apply_cookies_lem r.cookies (follow_all rs l) in
        (
          a'
              ∙ (ap (λ (x : List Bytes). x ++ r.cookies) a
                  ∙ append_assoc l.cookies (all_cookies rs) r.cookies),
          b'
              ∙ (ap (λ (x : List Bytes). x ++ r.cookies) b
                  ∙ append_assoc l.client_cookies (all_cookies rs) r.cookies),
          ap urls s' ∙ u,
          ap (λ (x : List LoaderPost). x ++ (posts_complete ∷ [])) (p' ∙ p),
          d' ∙ d,
        )

    referer_lem :
        (r : Response) (l : HttpLoader n)
        → header_value (codes "Referer") (request_of n client (next_hop r l)).headers
          ≡ some l.current_url
    referer_lem r l =
        let q = apply_cookies n r.cookies l in
        let (a, b, u, s, p, d, m) = apply_cookies_lem r.cookies l in
        header_value-assign_header (codes "Referer") q.current_url q.headers _
        ∙ ap (λ (x : Bytes). some x) u

    -- The request for a redirection has the method of the loader, and the URL that answered with the
    -- redirection as its referrer; the old request is refused in any case. When the new one cannot
    -- be made or does not start, an error is posted and the loader is deleted once.
    request_redirect_lem :
        (p : Performed) (r : Response) (l : HttpLoader n)
        → let hop = request_of n client (next_hop r l) in
          let q = request_redirect n client p r l in
          (q.0 ≡ false)
          × (hop.url ≡ r.url)
          × (hop.method ≡ l.method)
          × (header_value (codes "Referer") hop.headers ≡ some l.current_url)
          × (q.1.sent ≡ l.sent ++ (if is_made p then hop ∷ [] else []))
          × (q.1.posts
              ≡ l.posts ++ (if is_success (code_of p) then [] else posts_error (code_of p) ∷ []))
          × (q.1.deletes ≡ l.deletes + (if is_success (code_of p) then 0 else 1))
    unfolding request_redirect load request_failed
    request_redirect_lem no_request r l =
        let (a, b, u, s, p, d, m) = apply_cookies_lem r.cookies l in
        (
          refl,
          refl,
          m,
          referer_lem r l,
          s ∙ sym (append-nil l.sent),
          ap (λ (x : List LoaderPost). x ++ (posts_error unknown ∷ [])) p,
          omega (arith, d),
        )
    request_redirect_lem (performed code) r l =
        let (a, b, u, s, p, d, m) = apply_cookies_lem r.cookies l in
        let made = ap (λ (x : List Sent). x ++ (request_of n client (next_hop r l) ∷ [])) s in
        elim (Bool-cases (is_success code)) [
          | inl e ↦
              rw e (
                refl,
                refl,
                m,
                referer_lem r l,
                made,
                p ∙ sym (append-nil l.posts),
                omega (arith, d),
              )
          | inr e ↦ rw e (
            refl,
            refl,
            m,
            referer_lem r l,
            made,
            ap (λ (x : List LoaderPost). x ++ (posts_error code ∷ [])) p,
            omega (arith, d),
          )
        ]
