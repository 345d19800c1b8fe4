-- ===== src/Loader/HttpLoaderTask/Once.antt =====
-- One load, from the start to the end, with the network, the task runner and the holder of the
-- controller as the environment: the client hears one ending at most.
use mathlib.Core.Bool.{false≢true}
use blinkit.Prelude.{
  length-append, Bool-cases, inl, inr, sym, ℕ, ◌+◌, ◌≤◌, Bool, true, false, List, [], ◌∷◌, ◌≡◌,
  refl, ap, ◌∙◌, length, All, arith,
}
use blinkit.Http.Ascii.{Ascii}
use blinkit.Http.Code.{Code}
use blinkit.Http.Response.{Response}
use blinkit.Http.Url.{UrlParser}
use blinkit.Loader.Crawler.{Control, CrawlerClient}
use blinkit.Loader.HttpLoaderTask.Settled.{
  Settled, kept, ended, endings, endings-append, control-Settled, continue_with-Settled,
  process_with-Settled,
}
use blinkit.Loader.HttpLoaderTask.{
  processes_request_complete, continues, Task, ContentType, did_fail, Work, reports_error,
  task_request_complete, task_request_failed, control, work,
}

-- A task, and whether its request is on the network.
pub record World : Type 0 where
  pub task : Task
  pub in_flight : Bool

abbrev pub take_off : Task → List Work → Task
take_off t rest = record t { posted = rest }

abbrev pub is_report : Work → Bool
is_report (reports_error c u) = true
is_report _ = false

abbrev pub to_ℕ : Bool → ℕ
to_ℕ true = 1
to_ℕ false = 0

-- One thing at most is under way or over: the request, a posted piece of work, or the load.
record Inv (w : World) : Type 0 where
  budget : endings w.task.events + length w.task.posted + to_ℕ w.in_flight ≤ 1
  alive : w.task.deleted ≡ false → endings w.task.events ≡ 0
  gone : w.task.deleted ≡ true → (w.in_flight ≡ false) × All (λ x. is_report x ≡ true) w.task.posted
  live_work : w.task.deleted ≡ false → All (λ x. is_report x ≡ false) w.task.posted
  outside : w.task.calling_crawler ≡ false

nil_of_length {ℓ} : {A : Type ℓ} (xs : List A) → length xs ≡ 0 → xs ≡ []
nil_of_length [] h = refl
nil_of_length (x ∷ xs) h = absurd (omega arith)

-- The world right after `Run` has put the request on the network.
abbrev pub launched : Task → World
launched t = record { task = t; in_flight = true }

module _ (a : Ascii) (parser : UrlParser) (types : ContentType) (client : CrawlerClient) where
  pub data Step (w : World) : World → Type 0 where
    -- The network answers, or gives up.
    completes :
        (r : Response)
        → w.in_flight ≡ true
        → Step w (record { task = task_request_complete r w.task; in_flight = false })
    fails :
        (code : Code)
        → w.in_flight ≡ true
        → Step w (record { task = task_request_failed code w.task; in_flight = false })
    -- The main thread does the next piece of posted work.
    works :
        (x : Work) (rest : List Work)
        → w.task.posted ≡ x ∷ rest
        → Step w (record w { task = work a parser types client x (take_off w.task rest) })
    -- The controller is used after the callback, while the task waits. Nothing in the code keeps its holder
    -- from using it once more, when the task is gone.
    controlled :
        (c : Control)
        → w.task.deleted ≡ false
        → w.task.posted ≡ []
        → w.in_flight ≡ false
        → Step w (record w { task = control a parser types client w.task c })

  pub data Reach (w : World) : World → Type 0 where
    here : Reach w w
    next : {v u : World} → Reach w v → Step v u → Reach w u

  -- A live task with nothing else under way may be settled.
  Settled-Inv :
      (t q : Task)
      → endings t.events ≡ 0
      → t.posted ≡ []
      → t.deleted ≡ false
      → t.calling_crawler ≡ false
      → Settled a parser types client t q
      → Inv (record { task = q; in_flight = false })
  Settled-Inv t q n p d c (kept e f g h) = record {
    budget = rw (e, f, p, n) (omega arith);
    alive = λ x. rw e n;
    gone = λ x. (refl, rw (f, p) tt);
    live_work = λ x. rw (f, p) tt;
    outside = h ∙ c;
  }
  Settled-Inv t q n p d c (ended e f g h) = record {
    budget = rw (e, f, p, n) (omega arith);
    alive = λ x. cc;
    gone = λ x. (refl, rw (f, p) tt);
    live_work = λ x. rw (f, p) tt;
    outside = h ∙ c;
  }

  -- Work that reports no error is done on a live task with nothing else under way.
  settles-Inv :
      (x : Work) (t q : Task) (rest : List Work) (b : Bool)
      → is_report x ≡ false
      → t.posted ≡ x ∷ rest
      → Inv (record { task = t; in_flight = b })
      → Settled a parser types client (take_off t rest) q
      → Inv (record { task = q; in_flight = b })
  settles-Inv x t q rest true n e v s = absurd (omega (arith, v.budget, ap length e))
  settles-Inv x t q (y ∷ rest) false n e v s = absurd (omega (arith, v.budget, ap length e))
  settles-Inv x t q [] false n e v s = elim (Bool-cases t.deleted) [
    | inl d ↦ absurd (false≢true (sym n ∙ (rw e at ((v.gone d).1)).0))
    | inr d ↦ Settled-Inv (take_off t []) q (v.alive d) refl d v.outside s
  ]

  work-Inv :
      (x : Work) (t : Task) (rest : List Work) (b : Bool)
      → t.posted ≡ x ∷ rest
      → Inv (record { task = t; in_flight = b })
      → Inv (record { task = work a parser types client x (take_off t rest); in_flight = b })
  unfolding work
  work-Inv continues t rest b e v =
      settles-Inv continues t _ rest b refl e v
        (continue_with-Settled a parser types client (take_off t rest) t.response)
  work-Inv processes_request_complete t rest b e v =
      settles-Inv processes_request_complete t _ rest b refl e v
        (process_with-Settled a parser types client (take_off t rest) t.response)
  work-Inv (reports_error c u) t rest b e v = elim (Bool-cases t.deleted) [
    | inr d ↦ absurd (false≢true (sym ((rw e at (v.live_work d)).0)))
    | inl d ↦ record {
      budget = omega (arith, v.budget, ap length e, endings-append t.events (did_fail c u ∷ []));
      alive = λ x. absurd (false≢true (sym x ∙ d));
      gone = λ x. ((v.gone d).0, (rw e at ((v.gone d).1)).1);
      live_work = λ x. absurd (false≢true (sym x ∙ d));
      outside = v.outside;
    }
  ]

  -- While the request is on the network nothing is posted.
  landed : (w : World) → w.in_flight ≡ true → Inv w → w.task.posted ≡ []
  landed w e v = nil_of_length w.task.posted (omega (arith, v.budget, ap to_ℕ e))

  Step-Inv : {w u : World} → Step w u → Inv w → Inv u
  unfolding task_request_complete task_request_failed
  Step-Inv {w} (completes r e) v = record {
    budget =
        omega (
          arith,
          v.budget,
          ap to_ℕ e,
          length-append w.task.posted (processes_request_complete ∷ []),
        );
    alive = v.alive;
    gone = λ d. absurd (false≢true (sym (v.gone d).0 ∙ e));
    live_work = λ d. rw (landed w e v) (refl, tt);
    outside = v.outside;
  }
  Step-Inv {w} (fails code e) v = record {
    budget = omega (
      arith,
      v.budget,
      ap to_ℕ e,
      length-append w.task.posted (reports_error code w.task.url ∷ []),
    );
    alive = λ d. cc;
    gone = λ d. (refl, rw (landed w e v) (refl, tt));
    live_work = λ d. absurd (false≢true (sym d));
    outside = v.outside;
  }
  Step-Inv {w} (works x rest e) v = work-Inv x w.task rest w.in_flight e v
  Step-Inv {w} (controlled c d p e) v = rw e (
      Settled-Inv w.task _ (v.alive d) p d v.outside
        (control-Settled a parser types client w.task c v.outside))

  Reach-Inv : {w u : World} → Reach w u → Inv w → Inv u
  Reach-Inv here v = v
  Reach-Inv (next r s) v = Step-Inv s (Reach-Inv r v)

  -- From a task whose request is on the network, with nothing posted and nothing heard, whatever the
  -- network, the main thread and the crawler do, and the holder of the controller, provided that he uses
  -- it behind the callback only as long as the task lives and has nothing posted or on the network: the
  -- client hears one ending at most, and none while the task is alive.
  pub Reach-endings :
      (t : Task) (w : World)
      → t.events ≡ []
      → t.posted ≡ []
      → t.deleted ≡ false
      → t.calling_crawler ≡ false
      → Reach (launched t) w
      → (endings w.task.events ≤ 1) × (w.task.deleted ≡ false → endings w.task.events ≡ 0)
  Reach-endings t w n p d c r =
      let v : Inv (launched t) = record {
        budget = rw (n, p) (omega arith);
        alive = λ x. rw n refl;
        gone = λ x. absurd (false≢true (sym d ∙ x));
        live_work = λ x. rw p tt;
        outside = c;
      } in
      let u = Reach-Inv r v in (omega (arith, u.budget), u.alive)
