-- ===== src/Dom/Events/Target/Loop.antt =====
-- `FireEventListeners` returns, whatever the callbacks do to the target.
use blinkit.Prelude.{
  ℕ, zero, suc, ◌+◌, ◌≤◌, ◌<◌, Bool, true, false, List, [], ◌∷◌, Option, none, some, ◌≡◌, refl, ◌∙◌,
  if◌then◌else◌, Bytes, length, arith, ltb, Bool-cases, inl, inr, get_elem?,
}
use blinkit.Dom.Events.Event.{Event, DispatchEventResult}
use blinkit.Dom.Events.Listener.{RegisteredEventListener, should_fire}
use blinkit.Dom.Events.ListenerMap.{listeners_of, EventListenerMap, EventListenerVector, find}
use blinkit.Dom.Events.Target.{
  follow, FiringEventIterator, EventTargetData, Act, Turn, over, breaks, passes, calls,
  reads_past_the_end, remove_once, call, handle, read, turn, fire_loop, fire_listeners,
  fire_event_listeners, pop_back, popped, finish,
}
use blinkit.Dom.Events.Target.Firing.{IsSound, room, Keeps, acts-Keeps, remove-Keeps, same-Keeps}

-- A turn that keeps the target sound, and takes one off what is left when the loop goes on.
abbrev pub IsGood : EventTargetData → ℕ → Turn → Type 0
IsGood d n over = Unit
IsGood d n (breaks q) = Keeps d q.1
IsGood d n (passes q) = Keeps d q.1 × (room q.1.firing < n)
IsGood d n (calls q) = Keeps d q.1 × (room q.1.firing < n)
IsGood d n reads_past_the_end = ⊥

get_elem?-some :
    (v : EventListenerVector) (i : ℕ)
    → i < length v
    → (r : RegisteredEventListener) × (get_elem? v i ≡ some r)
get_elem?-some (x ∷ v) zero h = (x, refl)
get_elem?-some (x ∷ v) (suc i) h = get_elem?-some v i (omega arith)
get_elem?-some [] i h = absurd (omega arith)

Keeps-trans : (d q s : EventTargetData) → Keeps d q → Keeps q s → Keeps d s
Keeps-trans d q s k r = record {
  sound = r.sound;
  no_more = omega (arith, k.no_more, r.no_more);
  height = r.height ∙ k.height;
}

break-IsGood :
    (b : Bool) (d : EventTargetData) (n : ℕ) (x y : Event × EventTargetData)
    → Keeps d x.1
    → Keeps d y.1 × (room y.1.firing < n)
    → IsGood d n (if b then breaks x else calls y)
break-IsGood true d n x y k c = k
break-IsGood false d n x y k c = c

-- The pop after the loop.
popped-IsSound :
    (m : EventListenerMap) (fs : List FiringEventIterator)
    → IsSound (record { listeners = m; firing = fs })
    → IsSound (record { listeners = m; firing = pop_back fs })
popped-IsSound m [] s = s
popped-IsSound m (f ∷ fs) s = record { unique = s.unique; inside = (s.inside).1 }

length-pop_back :
    (fs : List FiringEventIterator) (n : ℕ) → length fs ≡ suc n → length (pop_back fs) ≡ n
length-pop_back [] n h = absurd (omega arith)
length-pop_back (f ∷ fs) n h = omega arith

-- The push before the loop.
pushed-IsSound :
    (t : Bytes) (d : EventTargetData) (v : EventListenerVector)
    → find t d.listeners ≡ some v
    → IsSound d
    → IsSound
        (record d { firing = record { event_type = t; iterator = 0; end = length v } ∷ d.firing })
pushed-IsSound t d v h s = record {
  unique = s.unique;
  inside = (record { ordered = omega arith; bounded = rw h (omega arith) }, s.inside);
}

module _ (at_shadow_hosts : Bool) (callbacks : ℕ → List Act) where
  remove_once-Keeps :
      (r : RegisteredEventListener) (t : Bytes) (d : EventTargetData)
      → IsSound d
      → Keeps d (remove_once r t d)
  remove_once-Keeps r t d s = elim (Bool-cases r.once) [
    | inl e ↦ rw e (remove-Keeps t r.callback r.use_capture d s)
    | inr e ↦ rw e (same-Keeps d s)
  ]

  call-Keeps :
      (r : RegisteredEventListener) (e : Event) (d : EventTargetData)
      → IsSound d
      → Keeps d (call at_shadow_hosts callbacks r e d).1
  call-Keeps r e d s = acts-Keeps (callbacks r.callback) (_, d) s

  handle-IsGood :
      (r : RegisteredEventListener) (e : Event) (d : EventTargetData)
      → IsSound d
      → IsGood d (room d.firing + 1) (handle at_shadow_hosts callbacks r e d)
  unfolding handle
  handle-IsGood r e d s = elim (Bool-cases (should_fire at_shadow_hosts e r)) [
    | inr n ↦ rw n (same-Keeps d s, omega arith)
    | inl y ↦
        let k = remove_once-Keeps r e.event_type d s in
        let c = call-Keeps r e _ k.sound in
        rw y (
          break-IsGood e.immediate_propagation_stopped d _ _ _ k
            (Keeps-trans d _ _ k c, omega (arith, k.no_more, c.no_more)))
  ]

  read-IsGood :
      (o : Option RegisteredEventListener) (r : RegisteredEventListener) (e : Event)
      (d : EventTargetData)
      → o ≡ some r
      → IsSound d
      → IsGood d (room d.firing + 1) (read at_shadow_hosts callbacks o e d)
  read-IsGood o r e d h s = rw h (handle-IsGood r e d s)

  advance-Keeps :
      (m : EventListenerMap) (f : FiringEventIterator) (fs : List FiringEventIterator)
      → f.iterator < f.end
      → IsSound (record { listeners = m; firing = f ∷ fs })
      → Keeps
          (record { listeners = m; firing = f ∷ fs })
          (record { listeners = m; firing = record f { iterator = f.iterator + 1 } ∷ fs })
  advance-Keeps m f fs h s = record {
    sound = record {
      unique = s.unique;
      inside = (record { ordered = omega arith; bounded = ((s.inside).0).bounded }, (s.inside).1);
    };
    no_more = omega arith;
    height = refl;
  }

  IsGood-trans :
      (d q : EventTargetData) (n k : ℕ) (t : Turn) → Keeps d q → k ≤ n → IsGood q k t → IsGood d n t
  IsGood-trans d q n k over h b g = tt
  IsGood-trans d q n k (breaks s) h b g = Keeps-trans d q _ h g
  IsGood-trans d q n k (passes s) h b g = (Keeps-trans d q _ h g.0, omega (arith, g.1))
  IsGood-trans d q n k (calls s) h b g = (Keeps-trans d q _ h g.0, omega (arith, g.1))
  IsGood-trans d q n k reads_past_the_end h b g = g

  turn-IsGood :
      (e : Event) (m : EventListenerMap) (fs : List FiringEventIterator)
      → IsSound (record { listeners = m; firing = fs })
      → IsGood
          (record { listeners = m; firing = fs })
          (room fs)
          (turn at_shadow_hosts callbacks e m fs)
  unfolding turn
  turn-IsGood e m [] s = tt
  turn-IsGood e m (f ∷ fs) s = elim (Bool-cases (ltb f.iterator f.end)) [
    | inr n ↦ rw n tt
    | inl y ↦
        let h : f.iterator < f.end = ground (arith, y) in
        let (r, g) =
          get_elem?-some (listeners_of f.event_type m) f.iterator
            (omega (arith, h, ((s.inside).0).bounded)) in
        let k = advance-Keeps m f fs h s in
        rw y (IsGood-trans _ _ _ _ _ k (omega (arith, h)) (read-IsGood _ r e _ g k.sound))
  ]

  -- What the loop comes back with.
  abbrev pub Returns : EventTargetData → Option (Bool × (Event × EventTargetData)) → Type 0
  Returns d o = (r : Bool × (Event × EventTargetData)) × (o ≡ some r) × Keeps d ((r.1).1)

  Returns-trans :
      (d q : EventTargetData) (o : Option (Bool × (Event × EventTargetData)))
      → Keeps d q
      → Returns q o
      → Returns d o
  Returns-trans d q o k (r, e, h) = (r, e, Keeps-trans d q _ k h)

  follow-Returns :
      (again : Bool → Event × EventTargetData → Option (Bool × (Event × EventTargetData)))
      (fired : Bool) (e : Event) (d : EventTargetData) (t : Turn)
      → IsSound d
      → ((b : Bool) (q : Event × EventTargetData)
          → IsSound q.1
          → room q.1.firing < room d.firing
          → Returns q.1 (again b q))
      → IsGood d (room d.firing) t
      → Returns d (follow again fired (e, d) t)
  follow-Returns again fired e d over s h g = ((fired, (e, d)), refl, same-Keeps d s)
  follow-Returns again fired e d (breaks q) s h g = ((fired, q), refl, g)
  follow-Returns again fired e d (passes q) s h g =
      Returns-trans d q.1 _ g.0 (h fired q (g.0).sound g.1)
  follow-Returns again fired e d (calls q) s h g =
      Returns-trans d q.1 _ g.0 (h true q (g.0).sound g.1)
  follow-Returns again fired e d reads_past_the_end s h g = absurd g

  -- The loop ends in as many turns as the innermost firing has left, and never reads past the end.
  fire_loop_total :
      (n : ℕ) (fired : Bool) (e : Event) (d : EventTargetData)
      → IsSound d
      → room d.firing < n
      → Returns d (fire_loop at_shadow_hosts callbacks n fired (e, d))
  unfolding fire_loop
  fire_loop_total zero fired e d s b = absurd (omega arith)
  fire_loop_total (suc n) fired e d s b =
      follow-Returns _ fired e d (turn at_shadow_hosts callbacks e d.listeners d.firing) s
        (λ f q r h. fire_loop_total n f q.0 q.1 r (omega arith))
        (turn-IsGood e d.listeners d.firing s)

  fire_listeners_total :
      (has_context : Bool) (e : Event) (d : EventTargetData) (v : EventListenerVector)
      → find e.event_type d.listeners ≡ some v
      → IsSound d
      → (r : Bool × (Event × EventTargetData)) × (fire_listeners at_shadow_hosts callbacks
            has_context e d v
          ≡ some r)
        × IsSound ((r.1).1)
        × (length ((r.1).1.firing) ≡ length d.firing)
  unfolding fire_listeners
  fire_listeners_total false e d v h s = ((false, (e, d)), refl, s, refl)
  fire_listeners_total true e d v h s =
      let (r, f, k) =
        fire_loop_total (length v + 1) false e _ (pushed-IsSound e.event_type d v h s)
          (omega arith) in
      (popped r, rw f refl, popped-IsSound _ _ k.sound, length-pop_back _ _ k.height)

  fire_found :
      (has_context : Bool) (e : Event) (d : EventTargetData) (o : Option EventListenerVector)
      → find e.event_type d.listeners ≡ o
      → IsSound d
      → (r : DispatchEventResult × (Event × EventTargetData)) × (fire_event_listeners
            at_shadow_hosts callbacks has_context e d
          ≡ some r)
        × IsSound ((r.1).1)
        × (length ((r.1).1.firing) ≡ length d.firing)
  unfolding fire_event_listeners
  fire_found has_context e d none h s =
      (finish (false, (e, d)), rw (h, fire_event_listeners) refl, s, refl)
  fire_found has_context e d (some v) h s =
      let (r, f, k, l) = fire_listeners_total has_context e d v h s in
      (finish r, rw (h, fire_event_listeners, f) refl, k, l)

  -- On a sound target `FireEventListeners` comes back whatever the callbacks do, among adding and
  -- removing listeners of any type, removing all of them, and stopping the event. It reads each
  -- listener inside of its vector, leaves the stack of firings as high as it was, and the target
  -- sound.
  pub fire_event_listeners_total :
      (has_context : Bool) (e : Event) (d : EventTargetData)
      → IsSound d
      → (r : DispatchEventResult × (Event × EventTargetData)) × (fire_event_listeners
            at_shadow_hosts callbacks has_context e d
          ≡ some r)
        × IsSound ((r.1).1)
        × (length ((r.1).1.firing) ≡ length d.firing)
  fire_event_listeners_total has_context e d s =
      fire_found has_context e d (find e.event_type d.listeners) refl s
