-- ===== src/Loader/HttpLoaderTask/Settled.antt =====
-- What one operation of the loader task does to what its client hears.
use blinkit.Prelude.{
  none, sym, subst, ℕ, ◌+◌, Bool, true, false, List, [], ◌∷◌, ◌++◌, ◌≡◌, refl, ap, ◌∙◌, Option,
  some, arith,
}
use blinkit.Http.Ascii.{Ascii}
use blinkit.Http.Response.{Response}
use blinkit.Http.Url.{UrlParser}
use blinkit.Loader.Crawler.{
  main_html, crawler_hijack_response, HijackType, crawler_request_complete, Control, cancel_work,
  continue_working, release, CrawlerClient,
}
use blinkit.Loader.HttpLoaderTask.{
  process_with, leave_scope, settle, process_hijack_response, process_request_complete,
  follow_cancel, continue_with, ask_crawler, Task, ContentType, ClientEvent, did_receive_response,
  did_receive_data, did_finish_loading, did_fail, task_cancel_work, task_continue_working,
  do_continue, control, controls,
}

-- The endings among what the client has heard.
abbrev pub endings : List ClientEvent → ℕ
endings [] = 0
endings (did_receive_response r ∷ es) = endings es
endings (did_receive_data d ∷ es) = endings es
endings (did_finish_loading ∷ es) = 1 + endings es
endings (did_fail c u ∷ es) = 1 + endings es

pub endings-append : (es fs : List ClientEvent) → endings (es ++ fs) ≡ endings es + endings fs
endings-append [] fs = omega arith
endings-append (did_receive_response r ∷ es) fs = endings-append es fs
endings-append (did_receive_data d ∷ es) fs = endings-append es fs
endings-append (did_finish_loading ∷ es) fs = omega (arith, endings-append es fs)
endings-append (did_fail c u ∷ es) fs = omega (arith, endings-append es fs)

module _ (a : Ascii) (parser : UrlParser) (types : ContentType) (client : CrawlerClient) where
  -- A task that an operation has either left as it was, but for `m_cancel` and `m_response`, or
  -- ended.
  pub data Settled (t q : Task) : Type 0 where
    kept :
        q.events ≡ t.events
        → q.posted ≡ t.posted
        → q.deleted ≡ t.deleted
        → q.calling_crawler ≡ t.calling_crawler
        → Settled t q
    ended :
        endings q.events ≡ endings t.events + 1
        → q.posted ≡ t.posted
        → q.deleted ≡ true
        → q.calling_crawler ≡ t.calling_crawler
        → Settled t q

  do_continue-Settled :
      (t : Task) (o : Option Response) (c : Option Bool) (r : Response)
      → Settled t (do_continue a parser types client (record t { response = o; cancel = c }) r)
  unfolding do_continue
  do_continue-Settled t o c r = ended (endings-append t.events _) refl refl refl

  control_calling-kept :
      (t : Task) (c : Control)
      → t.calling_crawler ≡ true
      → (o : Option Bool) × (control a parser types client t c ≡ record t { cancel = o })
  unfolding task_cancel_work task_continue_working
  control_calling-kept t cancel_work e = (some true, rw e refl)
  control_calling-kept t continue_working e = (some false, rw e refl)
  control_calling-kept t release e = (some true, rw e refl)

  controls_calling-kept :
      (cs : List Control) (t : Task)
      → t.calling_crawler ≡ true
      → (o : Option Bool) × (controls a parser types client t cs ≡ record t { cancel = o })
  unfolding controls
  controls_calling-kept [] t e = (t.cancel, refl)
  controls_calling-kept (c ∷ cs) t e =
      let (o, f) = control_calling-kept t c e in
      let (p, g) = controls_calling-kept cs (record t { cancel = o }) e in
      (p, ap (λ (x : Task). controls a parser types client x cs) f ∙ g)

  settle-Settled :
      (t : Task) (o : Option Bool) (r : Response)
      → Settled t (follow_cancel a parser types client o (record t { cancel = o }) r)
  unfolding follow_cancel
  settle-Settled t none r = kept refl refl refl refl
  settle-Settled t (some true) r = kept refl refl refl refl
  settle-Settled t (some false) r = do_continue-Settled t t.response (some false) r

  ask_crawler-Settled :
      (t : Task) (r : Response) → Settled t (ask_crawler a parser types client t r)
  unfolding ask_crawler
  ask_crawler-Settled t r =
      let calls = crawler_request_complete client r in
      let (o, f) = controls_calling-kept calls (record t { calling_crawler = true }) refl in
      subst
        (λ (x : Task).
          Settled t (
            settle a parser types client r (leave_scope a parser types client t.calling_crawler x)))
        (sym f) (settle-Settled t o r)

  process_request_complete-Settled :
      (h : HijackType) (t : Task) (r : Response)
      → t.hijack_type ≡ h
      → Settled t (process_request_complete a parser types client t r)
  unfolding process_request_complete process_hijack_response
  process_request_complete-Settled main_html t r e =
      subst (Settled t) (ground arith) (ask_crawler-Settled t r)
  process_request_complete-Settled _ t r e =
      let q = crawler_hijack_response client r in
      subst (Settled t) (ground arith) (do_continue-Settled t (some q) t.cancel q)

  pub continue_with-Settled :
      (t : Task) (o : Option Response) → Settled t (continue_with a parser types client t o)
  continue_with-Settled t none = kept refl refl refl refl
  continue_with-Settled t (some r) = do_continue-Settled t t.response t.cancel r

  pub control-Settled :
      (t : Task) (c : Control)
      → t.calling_crawler ≡ false
      → Settled t (control a parser types client t c)
  unfolding task_cancel_work task_continue_working
  control-Settled t cancel_work e =
      let same : Settled t t = kept refl refl refl refl in subst (Settled t) (ground arith) same
  control-Settled t continue_working e =
      subst (Settled t) (ground arith) (continue_with-Settled t t.response)
  control-Settled t release e =
      let same : Settled t t = kept refl refl refl refl in subst (Settled t) (ground arith) same

  pub process_with-Settled :
      (t : Task) (o : Option Response) → Settled t (process_with a parser types client t o)
  process_with-Settled t none = kept refl refl refl refl
  process_with-Settled t (some r) = process_request_complete-Settled t.hijack_type t r refl
