-- ===== src/Dom/Events/Target/Firing.antt =====
-- The loop of `FireEventListeners` while the callbacks change the target.
use blinkit.Prelude.{
  subst, ℕ, suc, ◌+◌, ◌-◌, ◌≤◌, ◌<◌, Bool, true, List, [], ◌∷◌, map, Option, none, some, ◌≡◌, refl,
  ap, sym, ◌∙◌, Bytes, bytes_eq, bytes_eq_iff, length, length-append, length-erase_idx,
  find_index_bound, arith, All, Bool-cases, inl, inr,
}
use blinkit.Dom.Events.Event.{Event}
use blinkit.Dom.Events.Listener.{Options, registered_event_listener, matches}
use blinkit.Dom.Events.ListenerMap.{
  listeners_of, EventListenerMap, EventListenerVector, remove_listener_from_vector,
  add_listener_to_vector, add, remove,
}
use blinkit.Dom.Events.ListenerMap.Vectors.{
  Unique, listeners_of-add, listeners_of-remove, remove_index, add-Unique, remove-Unique,
}
use blinkit.Dom.Events.Target.{
  FiringEventIterator, EventTargetData, notify, notify_all, add_event_listener,
  remove_event_listener, remove_all_event_listeners, reset, Act, adds, removes, removes_all,
  prevents_default, stops_propagation, stops_immediate_propagation, act, acts,
}
use blinkit.Dom.Events.Target.Windows.{IsInside, removed}

-- A target whose map has one vector for a type at most, and whose iterators stay inside of them.
pub record IsSound (d : EventTargetData) : Type 0 where
  pub unique : Unique d.listeners
  pub inside : All (IsInside d.listeners) d.firing

-- How many turns the innermost firing has left.
abbrev pub room : List FiringEventIterator → ℕ
room [] = 0
room (f ∷ fs) = f.end - f.iterator

-- A change that keeps the target sound, gives the innermost firing no new turn, and leaves the
-- stack of firings as high as it was.
pub record Keeps (d q : EventTargetData) : Type 0 where
  pub sound : IsSound q
  pub no_more : room q.firing ≤ room d.firing
  pub height : length q.firing ≡ length d.firing

vector-grows :
    (l : ℕ) (o : Options) (v : EventListenerVector)
    → length v ≤ length (add_listener_to_vector l o v).1
unfolding add_listener_to_vector
vector-grows l o v = ground (arith, length-append v (registered_event_listener l o ∷ []))

add-grows :
    (t u : Bytes) (l : ℕ) (o : Options) (m : EventListenerMap)
    → length (listeners_of u m) ≤ length (listeners_of u (add t l o m).1)
add-grows t u l o m =
    ground
      (arith, listeners_of-add t u l o m, bytes_eq_iff t u, vector-grows l o (listeners_of t m))

All-weaken :
    (m n : EventListenerMap) (fs : List FiringEventIterator)
    → ((u : Bytes) → length (listeners_of u m) ≤ length (listeners_of u n))
    → All (IsInside m) fs
    → All (IsInside n) fs
All-weaken m n [] h a = tt
All-weaken m n (f ∷ fs) h a = (
  record { ordered = (a.0).ordered; bounded = omega (arith, (a.0).bounded, h f.event_type) },
  All-weaken m n fs h a.1,
)

add-Keeps :
    (t : Bytes) (l : ℕ) (o : Options) (d : EventTargetData)
    → IsSound d
    → Keeps d (add_event_listener t l o d).1
unfolding add_event_listener
add-Keeps t l o d s = record {
  sound = record {
    unique = add-Unique t l o d.listeners s.unique;
    inside = All-weaken d.listeners _ d.firing (λ u. add-grows t u l o d.listeners) s.inside;
  };
  no_more = omega arith;
  height = refl;
}

-- The length of the vectors after a removal.
remove-shrinks :
    (t u : Bytes) (l : ℕ) (c : Bool) (m : EventListenerMap) (k : ℕ)
    → Unique m
    → (remove t l c m).0 ≡ some k
    → bytes_eq t u ≡ true
    → (k < length (listeners_of u m))
      × (length (listeners_of u (remove t l c m).1) + 1 ≡ length (listeners_of u m))
remove-shrinks t u l c m k v h e =
    let same = (bytes_eq_iff t u).0 e in
    let (g, f) = removed t l c m k v h in
    let b = find_index_bound (matches l c) (listeners_of t m) k g in
    subst
      (λ w.
        (k < length (listeners_of w m))
        × (length (listeners_of w (remove t l c m).1) + 1 ≡ length (listeners_of w m)))
      same (b, rw f (length-erase_idx (listeners_of t m) k b))

notify-IsInside :
    (t : Bytes) (l : ℕ) (c : Bool) (m : EventListenerMap) (k : ℕ) (f : FiringEventIterator)
    → Unique m
    → (remove t l c m).0 ≡ some k
    → IsInside m f
    → IsInside (remove t l c m).1 (notify t k f)
unfolding notify
notify-IsInside t l c m k f u h b = elim (Bool-cases (bytes_eq t f.event_type)) [
  | inl e ↦
      let (i, s) = remove-shrinks t f.event_type l c m k u h e in
      record {
        ordered = ground (arith, b.ordered, e);
        bounded = ground (arith, b.bounded, b.ordered, i, s, e);
      }
  | inr e ↦ record {
    ordered = ground (arith, b.ordered, e);
    bounded = ground (arith, b.bounded, listeners_of-remove t f.event_type l c m u, e);
  }
]

notify-All :
    (t : Bytes) (l : ℕ) (c : Bool) (m : EventListenerMap) (k : ℕ) (fs : List FiringEventIterator)
    → Unique m
    → (remove t l c m).0 ≡ some k
    → All (IsInside m) fs
    → All (IsInside (remove t l c m).1) (map (notify t k) fs)
notify-All t l c m k [] u h a = tt
notify-All t l c m k (f ∷ fs) u h a =
    (notify-IsInside t l c m k f u h a.0, notify-All t l c m k fs u h a.1)

notify-room :
    (t : Bytes) (k : ℕ) (fs : List FiringEventIterator) → room (map (notify t k) fs) ≤ room fs
unfolding notify
notify-room t k [] = omega arith
notify-room t k (f ∷ fs) = ground arith

length-map :
    (g : FiringEventIterator → FiringEventIterator) (fs : List FiringEventIterator)
    → length (map g fs) ≡ length fs
length-map g [] = refl
length-map g (f ∷ fs) = ap suc (length-map g fs)

kept :
    (l : ℕ) (c : Bool) (v : EventListenerVector)
    → (remove_listener_from_vector l c v).0 ≡ none
    → (remove_listener_from_vector l c v).1 ≡ v
unfolding remove_listener_from_vector
kept l c v h = ground arith

remove-none-listeners_of :
    (t u : Bytes) (l : ℕ) (c : Bool) (m : EventListenerMap)
    → Unique m
    → (remove t l c m).0 ≡ none
    → listeners_of u (remove t l c m).1 ≡ listeners_of u m
remove-none-listeners_of t u l c m v h = ground (
  arith,
  listeners_of-remove t u l c m v,
  bytes_eq_iff t u,
  kept l c (listeners_of t m) (sym (remove_index t l c m) ∙ h),
)

notify_all-Keeps :
    (t : Bytes) (l : ℕ) (c : Bool) (d : EventTargetData) (index : Option ℕ)
    → (remove t l c d.listeners).0 ≡ index
    → IsSound d
    → Keeps d (notify_all t index (remove t l c d.listeners).1 d).1
notify_all-Keeps t l c d none h s = record {
  sound = record {
    unique = remove-Unique t l c d.listeners s.unique;
    inside =
        All-weaken d.listeners _ d.firing
          (λ u. omega (arith, ap length (remove-none-listeners_of t u l c d.listeners s.unique h)))
          s.inside;
  };
  no_more = omega arith;
  height = refl;
}
notify_all-Keeps t l c d (some k) h s = record {
  sound = record {
    unique = remove-Unique t l c d.listeners s.unique;
    inside = notify-All t l c d.listeners k d.firing s.unique h s.inside;
  };
  no_more = notify-room t k d.firing;
  height = length-map (notify t k) d.firing;
}

pub remove-Keeps :
    (t : Bytes) (l : ℕ) (c : Bool) (d : EventTargetData)
    → IsSound d
    → Keeps d (remove_event_listener t l c d).1
unfolding remove_event_listener
remove-Keeps t l c d s = notify_all-Keeps t l c d (remove t l c d.listeners).0 refl s

reset-All : (fs : List FiringEventIterator) → All (IsInside []) (map reset fs)
reset-All [] = tt
reset-All (f ∷ fs) = (record { ordered = omega arith; bounded = omega arith }, reset-All fs)

reset-room : (fs : List FiringEventIterator) → room (map reset fs) ≤ room fs
reset-room [] = omega arith
reset-room (f ∷ fs) = omega arith

remove_all-Keeps : (d : EventTargetData) → Keeps d (remove_all_event_listeners d)
unfolding remove_all_event_listeners
remove_all-Keeps d = record {
  sound = record { unique = tt; inside = reset-All d.firing };
  no_more = reset-room d.firing;
  height = length-map reset d.firing;
}

pub same-Keeps : (d : EventTargetData) → IsSound d → Keeps d d
same-Keeps d s = record { sound = s; no_more = omega arith; height = refl }

act-Keeps : (x : Act) (e : Event) (d : EventTargetData) → IsSound d → Keeps d (act x (e, d)).1
unfolding act
act-Keeps (adds t l o) e d s = add-Keeps t l o d s
act-Keeps (removes t l c) e d s = remove-Keeps t l c d s
act-Keeps removes_all e d s = remove_all-Keeps d
act-Keeps prevents_default e d s = same-Keeps d s
act-Keeps stops_propagation e d s = same-Keeps d s
act-Keeps stops_immediate_propagation e d s = same-Keeps d s

pub acts-Keeps :
    (xs : List Act) (q : Event × EventTargetData) → IsSound q.1 → Keeps q.1 (acts xs q).1
acts-Keeps [] (e, d) s = same-Keeps d s
acts-Keeps (x ∷ xs) (e, d) s =
    let k = act-Keeps x e d s in
    let r = acts-Keeps xs (act x (e, d)) k.sound in
    record {
      sound = r.sound;
      no_more = omega (arith, k.no_more, r.no_more);
      height = r.height ∙ k.height;
    }
