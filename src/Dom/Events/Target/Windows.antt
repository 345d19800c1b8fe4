-- ===== src/Dom/Events/Target/Windows.antt =====
-- The listeners that a firing has still to call, when the target changes under it.
use blinkit.Prelude.{
  refl, bytes_eq_iff, suc, zero, inl, inr, Bool-cases, take, drop, any, ap, ◌++◌, ℕ, ◌≤◌, Bool,
  true, false, not, some, ◌≡◌, sym, ◌∙◌, Bytes, bytes_eq, bytes_eq_refl, length, filter, count_if,
  find_index, erase_idx, window, lower, shift, window-erase_idx, arith,
}
use blinkit.Dom.Events.Listener.{registered_event_listener, Options, matches}
use blinkit.Dom.Events.ListenerMap.{
  add, add_listener_to_vector, listeners_of, EventListenerMap, EventListenerVector,
  remove_listener_from_vector, remove,
}
use blinkit.Dom.Events.ListenerMap.Vectors.{
  listeners_of-add, Unique, listeners_of-remove, remove_index,
}
use blinkit.Dom.Events.Target.{[], ◌∷◌, FiringEventIterator, notify}

-- The listeners that an iterator has still to pass.
abbrev pub pending : EventListenerMap → FiringEventIterator → EventListenerVector
pending m f = window f.iterator f.end (listeners_of f.event_type m)

-- An iterator that stays inside of its vector.
pub record IsInside (m : EventListenerMap) (f : FiringEventIterator) : Type 0 where
  pub ordered : f.iterator ≤ f.end
  pub bounded : f.end ≤ length (listeners_of f.event_type m)

notify_index :
    (t : Bytes) (k : ℕ) (f : FiringEventIterator)
    → bytes_eq t f.event_type ≡ true
    → ((notify t k f).iterator ≡ shift k f.iterator f.end) × ((notify t k f).end ≡ lower k f.end)
unfolding notify
notify_index t k f e = (ground arith, ground arith)

notify_type :
    (t : Bytes) (k : ℕ) (f : FiringEventIterator) → (notify t k f).event_type ≡ f.event_type
unfolding notify
notify_type t k f = ground arith

found :
    (l : ℕ) (c : Bool) (v : EventListenerVector) (k : ℕ)
    → (remove_listener_from_vector l c v).0 ≡ some k
    → (find_index (matches l c) v ≡ some k)
      × ((remove_listener_from_vector l c v).1 ≡ erase_idx v k)
unfolding remove_listener_from_vector
found l c v k h = ground arith

pub removed :
    (t : Bytes) (l : ℕ) (c : Bool) (m : EventListenerMap) (k : ℕ)
    → Unique m
    → (remove t l c m).0 ≡ some k
    → (find_index (matches l c) (listeners_of t m) ≡ some k)
      × (listeners_of t (remove t l c m).1 ≡ erase_idx (listeners_of t m) k)
removed t l c m k u h =
    let (g, e) = found l c (listeners_of t m) k (sym (remove_index t l c m) ∙ h) in
    (g, ground (arith, listeners_of-remove t t l c m u, e, bytes_eq_refl t))

-- When a listener is removed, each firing of its type has still to call the listeners it had to
-- call, less that one, in the same order, if the iterator is inside of its vector and no two
-- listeners of the vector match.
pub notify-pending :
    (f : FiringEventIterator) (l : ℕ) (c : Bool) (m : EventListenerMap) (k : ℕ)
    → Unique m
    → (remove f.event_type l c m).0 ≡ some k
    → count_if (matches l c) (listeners_of f.event_type m) ≤ 1
    → IsInside m f
    → pending (remove f.event_type l c m).1 (notify f.event_type k f)
      ≡ filter (λ r. not (matches l c r)) (pending m f)
notify-pending f l c m k u h n b =
    let (g, e) = removed f.event_type l c m k u h in
    let (i, j) = notify_index f.event_type k f (bytes_eq_refl f.event_type) in
    rw (notify_type f.event_type k f, i, j, e)
      (window-erase_idx (matches l c) (listeners_of f.event_type m) k f.iterator f.end g n
        b.ordered)

-- A firing of another type has still to call what it had to call.
pub notify-pending_other :
    (t : Bytes) (l : ℕ) (c : Bool) (m : EventListenerMap) (k : ℕ) (f : FiringEventIterator)
    → Unique m
    → bytes_eq t f.event_type ≡ false
    → pending (remove t l c m).1 (notify t k f) ≡ pending m f
unfolding notify
notify-pending_other t l c m k f u e =
    rw e
      (ap (window f.iterator f.end) (ground (arith, listeners_of-remove t f.event_type l c m u, e)))

take_inside : (n : ℕ) (v w : EventListenerVector) → n ≤ length v → take n (v ++ w) ≡ take n v
take_inside zero v w h = refl
take_inside (suc n) [] w h = absurd (omega arith)
take_inside (suc n) (r ∷ v) w h = ap (◌∷◌ r) (take_inside n v w (omega arith))

vector-pending :
    (i e l : ℕ) (o : Options) (v : EventListenerVector)
    → e ≤ length v
    → window i e (add_listener_to_vector l o v).1 ≡ window i e v
unfolding add_listener_to_vector
vector-pending i e l o v h = elim (Bool-cases (any (matches l o.capture) v)) [
  | inl x ↦ rw x refl
  | inr x ↦ rw x (ap (drop i) (take_inside e v (registered_event_listener l o ∷ []) h))
]

-- When a listener is added, of whatever type, a firing whose iterator is inside of its vector has
-- still to call the listeners it had to call, and no other.
add-pending :
    (f : FiringEventIterator) (t : Bytes) (l : ℕ) (o : Options) (m : EventListenerMap)
    → IsInside m f
    → pending (add t l o m).1 f ≡ pending m f
add-pending f t l o m b = elim (Bool-cases (bytes_eq t f.event_type)) [
  | inr e ↦ ap (window f.iterator f.end) (listeners_of-add t f.event_type l o m ∙ rw e refl)
  | inl e ↦
      let same = (bytes_eq_iff t f.event_type).0 e in
      ap (window f.iterator f.end) (listeners_of-add t f.event_type l o m ∙ rw (e, same) refl)
      ∙ vector-pending f.iterator f.end l o (listeners_of f.event_type m) b.bounded
]
