-- ===== src/Http/Request/Lifetime.antt =====
-- The references to a request, its timeout, and its proxy.
use blinkit.Prelude.{
  ℕ, ◌+◌, ◌-◌, ◌*◌, ◌<◌, Bool, true, false, List, [], ◌∷◌, ◌≡◌, ◌↔◌, refl, ◌∙◌, Option, none, ◌==◌,
  if◌then◌else◌, Bytes, arith,
}
use blinkit.Http.Ascii.{Ascii}
use blinkit.Http.HeaderMap.{HeaderMap}
use blinkit.Http.Request.{
  Request, curl_request, set_method, set_headers, set_header, set_body, set_timeout, set_proxy,
  release, get_controller,
}

-- The timeout is the given number of seconds exactly below 4294968 seconds; from there on it has
-- wrapped around.
set_timeout_exact :
    (r : Request) (timeout : ℕ)
    → ((set_timeout r timeout).timeout_in_ms ≡ timeout * 1000) ↔ (timeout < 4294968)
unfolding set_timeout
set_timeout_exact r timeout = (λ e. omega arith, λ h. omega arith)

-- A request with the references to it: the worker's, and the controllers'.
pub record Life : Type 0 where
  pub request : Request
  pub held : ℕ
  pub working : Bool

abbrev pub to_ℕ : Bool → ℕ
to_ℕ true = 1
to_ℕ false = 0

pub data Step (l : Life) : Life → Type 0 where
  -- `GetController` is called on a live object.
  take :
      0 < l.held + to_ℕ l.working
      → Step l (record l { request = get_controller l.request; held = l.held + 1 })
  -- A controller is released.
  drop : 0 < l.held → Step l (record l { request = release l.request; held = l.held - 1 })
  -- The worker is done.
  finish : l.working ≡ true → Step l (record l { request = release l.request; working = false })

pub data Reach (l : Life) : Life → Type 0 where
  here : Reach l l
  next : {m n : Life} → Reach l m → Step m n → Reach l n

pub record IsCounted (l : Life) : Type 0 where
  pub count_is : l.request.ref_count ≡ l.held + to_ℕ l.working
  pub deletes_is : l.request.deletes ≡ (if l.request.ref_count == 0 then 1 else 0)

Step-IsCounted : {l m : Life} → Step l m → IsCounted l → IsCounted m
unfolding release get_controller
Step-IsCounted (take h) c = ground arith
Step-IsCounted (drop h) c = ground arith
Step-IsCounted (finish h) c = ground arith

Reach-IsCounted : {l m : Life} → IsCounted l → Reach l m → IsCounted m
Reach-IsCounted c here = c
Reach-IsCounted c (next r s) = Step-IsCounted s (Reach-IsCounted c r)

abbrev pub started : Ascii → Bytes → Life
started a u = record { request = curl_request a u; held = 0; working = true }

-- With controllers as `RequestImpl` gives them, and none cancelled: whatever the order in which the worker
-- ends and controllers are taken and released, the request
-- is deleted once when nothing refers to it any more, and not before.
Reach-deletes :
    (a : Ascii) (u : Bytes) {l : Life}
    → Reach (started a u) l
    → l.request.deletes ≡ (if l.held + to_ℕ l.working == 0 then 1 else 0)
unfolding curl_request
Reach-deletes a u r =
    let c = Reach-IsCounted (record { count_is = refl; deletes_is = refl }) r in
    ground (arith, c.count_is, c.deletes_is)

-- The calls of the interface that set up a request.
pub data Setter : Type 0 where
  to_method to_body : Bytes → Setter
  to_headers : HeaderMap → Setter
  to_header : Bytes → Bytes → Setter
  to_timeout : ℕ → Setter

module _ (a : Ascii) where
  unfoldable pub apply : Request → Setter → Request
  unfolding set_method set_headers set_header set_body set_timeout
  apply r (to_method m) = set_method r m
  apply r (to_headers h) = set_headers r h
  apply r (to_header n v) = set_header a r n v
  apply r (to_body b) = set_body r b
  apply r (to_timeout t) = set_timeout r t

  unfoldable pub apply_all : Request → List Setter → Request
  apply_all r [] = r
  apply_all r (s ∷ ss) = apply_all (apply r s) ss

  proxy-apply : (s : Setter) (r : Request) → (apply r s).proxy ≡ r.proxy
  unfolding apply
  proxy-apply (to_method m) r = refl
  proxy-apply _ r = refl

  proxy-apply_all : (ss : List Setter) (r : Request) → (apply_all r ss).proxy ≡ r.proxy
  unfolding apply_all
  proxy-apply_all [] r = refl
  proxy-apply_all (s ∷ ss) r = proxy-apply_all ss (apply r s) ∙ proxy-apply s r

  -- Whatever was set before, `SetProxy` writes through an optional without a value, which is a bug.
  set_proxy_undefined :
      (u : Bytes) (ss : List Setter) (p : Option Bytes)
      → set_proxy (apply_all (curl_request a u) ss) p ≡ none
  unfolding set_proxy curl_request
  set_proxy_undefined u ss p = rw (proxy-apply_all ss (curl_request a u), set_proxy) refl
