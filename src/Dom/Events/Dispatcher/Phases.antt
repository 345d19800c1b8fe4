-- ===== src/Dom/Events/Dispatcher/Phases.antt =====
-- The order in which the targets of a path get an event, and the state of the event afterwards.
use blinkit.Prelude.{
  subst, ℕ, Bool, true, false, not, ◌&&◌, List, [], ◌∷◌, ◌++◌, reverse, Option, none, some, map,
  if◌then◌else◌, ◌≡◌, refl, ap, sym, ◌∙◌, All, arith,
}
use mathlib.Core.List.{append_assoc, append-nil, reverse_aux}
use blinkit.Dom.Events.Event.{
  Event, PhaseType, capturing_phase, at_target, bubbling_phase, is_propagation_stopped,
}
use blinkit.Dom.Events.Dispatcher.{
  Context, Dispatch, Handlers, same_as_target, set_phase, handle_local_events, handle_in_window,
  capture_loop, dispatch_event_at_capturing, dispatch_event_at_target, bubble_loop,
  dispatch_event_at_bubbling, dispatch_phases,
}

-- No listener stops the event, or changes whether it bubbles.
pub record LetsPass {S : Type 0} (h : Handlers S) : Type 0 where
  pub keeps_running :
      (n : ℕ) (e : Event) (s : S)
      → is_propagation_stopped e ≡ false
      → is_propagation_stopped (h.fire n e s).0 ≡ false
  pub keeps_bubbles : (n : ℕ) (e : Event) (s : S) → (h.fire n e s).0.bubbles ≡ e.bubbles

-- The visits of a list of contexts in a phase.
abbrev pub visits : PhaseType → List Context → List (ℕ × PhaseType)
visits p cs = map (λ c. (c.current_target, p)) cs

abbrev pub in_window : Option Context → List Context
in_window none = []
in_window (some c) = c ∷ []

-- The event is still under way, and some targets more have got it.
pub record Went {S : Type 0} (d q : Dispatch S) (vs : List (ℕ × PhaseType)) : Type 0 where
  pub runs_on : is_propagation_stopped q.event ≡ false
  pub bubbles_on : q.event.bubbles ≡ d.event.bubbles
  pub visited_is : q.visited ≡ d.visited ++ vs

and_false : (a b : Bool) → b ≡ false → (a && b) ≡ false
and_false a b e = ground arith

not-false : (a : Bool) → a ≡ false → not a ≡ true
not-false a e = ground arith

taken :
    {A : Type 0} (a b n : Bool) (x y : A)
    → a ≡ true
    → b ≡ true
    → n ≡ false
    → (if a && b && not n then x else y) ≡ x
taken true true false x y e f g = refl
taken _ _ _ x y e f g = ground arith

all_three :
    {A : Type 0} (s e f : Bool) (x y z w : A)
    → s ≡ false
    → e ≡ true
    → f ≡ true
    → (if s then x else if not e then y else if not f then z else w) ≡ w
all_three false true true x y z w g h i = refl
all_three _ _ _ x y z w g h i = ground arith

All-reverse_aux :
    (P : Context → Type 0) (xs ys : List Context) → All P xs → All P ys → All P (reverse_aux xs ys)
All-reverse_aux P [] ys a b = b
All-reverse_aux P (x ∷ xs) ys a b = All-reverse_aux P xs (x ∷ ys) a.1 (a.0, b)

-- The branch of a bubbling event that is under way.
choose :
    {A : Type 0} (a b n r : Bool) (x y z w : A)
    → a ≡ false
    → b ≡ true
    → n ≡ false
    → r ≡ false
    → (if a then x else if b && not n then (if r then y else z) else w) ≡ z
choose false true false false x y z w e f g i = refl
choose _ _ _ _ x y z w e f g i = ground arith

module _ {S : Type 0} (h : Handlers S) (l : LetsPass h) where
  handle-Went :
      (p : PhaseType) (c : Context) (d : Dispatch S)
      → is_propagation_stopped d.event ≡ false
      → Went d (handle_local_events h c (set_phase h p d)) ((c.current_target, p) ∷ [])
  unfolding handle_local_events
  handle-Went p c d r = record {
    runs_on = l.keeps_running c.current_target _ d.store r;
    bubbles_on = l.keeps_bubbles c.current_target _ d.store;
    visited_is = refl;
  }

  Went-trans :
      (d q s : Dispatch S) (vs ws : List (ℕ × PhaseType))
      → Went d q vs
      → Went q s ws
      → Went d s (vs ++ ws)
  Went-trans d q s vs ws v w = record {
    runs_on = w.runs_on;
    bubbles_on = w.bubbles_on ∙ v.bubbles_on;
    visited_is = w.visited_is ∙ ap (λ xs. xs ++ ws) v.visited_is ∙ append_assoc d.visited vs ws;
  }

  stays : (d : Dispatch S) → is_propagation_stopped d.event ≡ false → Went d d []
  stays d r = record { runs_on = r; bubbles_on = refl; visited_is = sym (append-nil d.visited) }

  capture_nil : (d : Dispatch S) → capture_loop h [] d ≡ (true, d)
  unfolding capture_loop
  capture_nil d = refl

  bubble_nil : (d : Dispatch S) → bubble_loop h [] d ≡ (true, d)
  unfolding bubble_loop
  bubble_nil d = refl

  abbrev passed_on : PhaseType → Context → Dispatch S → Dispatch S
  passed_on p c d = handle_local_events h c (set_phase h p d)

  capture_step :
      (c : Context) (cs : List Context) (d : Dispatch S)
      → same_as_target c ≡ false
      → is_propagation_stopped (passed_on capturing_phase c d).event ≡ false
      → capture_loop h (c ∷ cs) d ≡ capture_loop h cs (passed_on capturing_phase c d)
  unfolding capture_loop
  capture_step c cs d a r = rw (a, r) refl

  capture_loop-Went :
      (cs : List Context) (d : Dispatch S)
      → is_propagation_stopped d.event ≡ false
      → All (λ c. same_as_target c ≡ false) cs
      → ((capture_loop h cs d).0 ≡ true)
        × Went d (capture_loop h cs d).1 (visits capturing_phase cs)
  capture_loop-Went [] d r a = rw (capture_nil d) (refl, stays d r)
  capture_loop-Went (c ∷ cs) d r a =
      let w = handle-Went capturing_phase c d r in
      let (e, v) = capture_loop-Went cs (passed_on capturing_phase c d) w.runs_on a.1 in
      let s = capture_step c cs d a.0 w.runs_on in rw s (e, Went-trans d _ _ _ _ w v)

  bubble_step :
      (c : Context) (cs : List Context) (d : Dispatch S)
      → same_as_target c ≡ false
      → d.event.bubbles ≡ true
      → is_propagation_stopped d.event ≡ false
      → is_propagation_stopped (passed_on bubbling_phase c d).event ≡ false
      → bubble_loop h (c ∷ cs) d ≡ bubble_loop h cs (passed_on bubbling_phase c d)
  unfolding bubble_loop
  bubble_step c cs d a b n r = choose (same_as_target c) d.event.bubbles _ _ _ _ _ _ a b n r

  bubble_loop-Went :
      (cs : List Context) (d : Dispatch S)
      → is_propagation_stopped d.event ≡ false
      → d.event.bubbles ≡ true
      → All (λ c. same_as_target c ≡ false) cs
      → ((bubble_loop h cs d).0 ≡ true) × Went d (bubble_loop h cs d).1 (visits bubbling_phase cs)
  bubble_loop-Went [] d r b a = rw (bubble_nil d) (refl, stays d r)
  bubble_loop-Went (c ∷ cs) d r b a =
      let w = handle-Went bubbling_phase c d r in
      let (e, v) =
        bubble_loop-Went cs (passed_on bubbling_phase c d) w.runs_on (w.bubbles_on ∙ b) a.1 in
      let s = bubble_step c cs d a.0 b r w.runs_on in rw s (e, Went-trans d _ _ _ _ w v)

  window-Went :
      (p : PhaseType) (w : Option Context) (d : Dispatch S)
      → is_propagation_stopped d.event ≡ false
      → Went d (handle_in_window h w (set_phase h p d)).1 (visits p (in_window w))
  window-Went p none d r = record {
    runs_on = r;
    bubbles_on = refl;
    visited_is = sym (append-nil d.visited);
  }
  window-Went p (some c) d r = handle-Went p c d r

  capturing-Went :
      (w : Option Context) (above : List Context) (d : Dispatch S)
      → is_propagation_stopped d.event ≡ false
      → All (λ c. same_as_target c ≡ false) (reverse above)
      → ((dispatch_event_at_capturing h w above d).0 ≡ true)
        × Went d
            (dispatch_event_at_capturing h w above d).1
            (visits capturing_phase (in_window w) ++ visits capturing_phase (reverse above))
  unfolding dispatch_event_at_capturing
  capturing-Went w above d r a =
      let v = window-Went capturing_phase w d r in
      let q = (handle_in_window h w (set_phase h capturing_phase d)).1 in
      let (e, u) = capture_loop-Went (reverse above) q v.runs_on a in
      rw (and_false (handle_in_window h w (set_phase h capturing_phase d)).0 _ v.runs_on)
        (e, Went-trans d q _ _ _ v u)

  target-Went :
      (c : Context) (d : Dispatch S)
      → is_propagation_stopped d.event ≡ false
      → ((dispatch_event_at_target h c d).0 ≡ true)
        × Went d (dispatch_event_at_target h c d).1 ((c.current_target, at_target) ∷ [])
  unfolding dispatch_event_at_target
  target-Went c d r = let w = handle-Went at_target c d r in (not-false _ w.runs_on, w)

  bubbling-Went :
      (w : Option Context) (above : List Context) (d : Dispatch S)
      → is_propagation_stopped d.event ≡ false
      → d.event.bubbles ≡ true
      → All (λ c. same_as_target c ≡ false) above
      → Went d
          (dispatch_event_at_bubbling h w above d)
          (visits bubbling_phase above ++ visits bubbling_phase (in_window w))
  unfolding dispatch_event_at_bubbling
  bubbling-Went w above d r b a =
      let (e, v) = bubble_loop-Went above d r b a in
      let u = window-Went bubbling_phase w (bubble_loop h above d).1 v.runs_on in
      subst
        (λ (q : Dispatch S).
          Went d q (visits bubbling_phase above ++ visits bubbling_phase (in_window w)))
        (sym (taken _ _ _ _ _ e (v.bubbles_on ∙ b) v.runs_on)) (Went-trans d _ _ _ _ v u)

  -- An event that bubbles and that nobody stops is given to the window and down to the parent of the
  -- target in the capturing phase, then to the target, then up from the parent to the window in the
  -- bubbling phase, to each once in a phase, when no context above shows its own target.
  pub dispatch_phases-visits :
      (w : Option Context) (c : Context) (above : List Context) (d : Dispatch S)
      → is_propagation_stopped d.event ≡ false
      → d.event.bubbles ≡ true
      → All (λ x. same_as_target x ≡ false) above
      → (dispatch_phases h w c above d).visited
        ≡ d.visited
          ++ (visits capturing_phase (in_window w)
              ++ visits capturing_phase (reverse above)
              ++ ((c.current_target, at_target) ∷ [])
              ++ (visits bubbling_phase above ++ visits bubbling_phase (in_window w)))
  unfolding dispatch_phases
  dispatch_phases-visits w c above d r b a =
      let (e, u) = capturing-Went w above d r (All-reverse_aux _ above [] a tt) in
      let (f, v) = target-Went c (dispatch_event_at_capturing h w above d).1 u.runs_on in
      let x =
        bubbling-Went w above
          (dispatch_event_at_target h c (dispatch_event_at_capturing h w above d).1).1 v.runs_on
          (v.bubbles_on ∙ u.bubbles_on ∙ b) a in
      let y = Went-trans d _ _ _ _ (Went-trans d _ _ _ _ u v) x in
      ap (λ (q : Dispatch S). q.visited) (all_three _ _ _ _ _ _ _ r e f) ∙ y.visited_is
