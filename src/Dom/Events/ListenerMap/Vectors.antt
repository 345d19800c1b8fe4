-- ===== src/Dom/Events/ListenerMap/Vectors.antt =====
-- What `Add` and `Remove` do to the vector of each event type.
use blinkit.Prelude.{
  Bool-cases, inl, inr, if◌then◌else◌, ℕ, Bool, true, false, [], ◌∷◌, none, ◌≡◌, refl, Bytes,
  bytes_eq, bytes_eq_iff, arith,
}
use blinkit.Dom.Events.Listener.{Options}
use blinkit.Dom.Events.ListenerMap.{
  listeners_of, EventListenerMap, EventListenerVector, add_listener_to_vector, add, find, remove,
  remove_listener_from_vector, put_back,
}

-- No event type has two vectors.
abbrev pub Unique : EventListenerMap → Type 0
Unique [] = Unit
Unique (x ∷ m) = (find x.0 m ≡ none) × Unique m

-- `Add` changes the vector of its type, as `AddListenerToVector` does, and the vector of no other
-- type.
pub listeners_of-add :
    (t u : Bytes) (l : ℕ) (o : Options) (m : EventListenerMap)
    → listeners_of u (add t l o m).1 ≡ (
        if bytes_eq t u
        then (add_listener_to_vector l o (listeners_of t m)).1
        else listeners_of u m)
unfolding find add
listeners_of-add t u l o [] = ground (arith, bytes_eq_iff t u)
listeners_of-add t u l o (x ∷ m) =
    ground
      (arith, listeners_of-add t u l o m, bytes_eq_iff t u, bytes_eq_iff x.0 u, bytes_eq_iff x.0 t)

find-put_back_other :
    (t u : Bytes) (v : EventListenerVector) (m : EventListenerMap)
    → bytes_eq t u ≡ false
    → find u (put_back t v m) ≡ find u m
unfolding find
find-put_back_other t u [] m h = refl
find-put_back_other t u (r ∷ v) m h = rw h refl

listeners_of-put_back :
    (t u : Bytes) (v : EventListenerVector) (m : EventListenerMap)
    → find t m ≡ none
    → bytes_eq t u ≡ true
    → listeners_of u (put_back t v m) ≡ v
unfolding find
listeners_of-put_back t u [] m h e = ground (arith, bytes_eq_iff t u)
listeners_of-put_back t u (r ∷ v) m h e = rw e refl

find_tail :
    (u : Bytes) (x : Bytes × EventListenerVector) (m : EventListenerMap)
    → find u (x ∷ m) ≡ none
    → (bytes_eq x.0 u ≡ false) × (find u m ≡ none)
unfolding find
find_tail u x m h = ground arith

find-remove-none :
    (t u : Bytes) (l : ℕ) (c : Bool) (m : EventListenerMap)
    → find u m ≡ none
    → find u (remove t l c m).1 ≡ none
unfolding find remove
find-remove-none t u l c [] h = refl
find-remove-none t u l c (x ∷ m) h =
    let (e, f) = find_tail u x m h in
    ground (
      arith,
      find-remove-none t u l c m f,
      find-put_back_other x.0 u (remove_listener_from_vector l c x.1).1 m e,
    )

-- When no type has two vectors, `Remove` changes the vector of its type, as
-- `RemoveListenerFromVector` does, and the vector of no other type.
pub listeners_of-remove :
    (t u : Bytes) (l : ℕ) (c : Bool) (m : EventListenerMap)
    → Unique m
    → listeners_of u (remove t l c m).1 ≡ (
        if bytes_eq t u
        then (remove_listener_from_vector l c (listeners_of t m)).1
        else listeners_of u m)
unfolding find remove remove_listener_from_vector
listeners_of-remove t u l c [] h = ground arith
listeners_of-remove t u l c (x ∷ m) h =
    let v = (remove_listener_from_vector l c x.1).1 in
    ground (
      arith,
      listeners_of-remove t u l c m h.1,
      bytes_eq_iff t u,
      bytes_eq_iff x.0 u,
      bytes_eq_iff x.0 t,
      find-put_back_other x.0 u v m,
      listeners_of-put_back x.0 u v m h.0,
    )

-- The index that `Remove` finds is the one in the vector of the type.
pub remove_index :
    (t : Bytes) (l : ℕ) (c : Bool) (m : EventListenerMap)
    → (remove t l c m).0 ≡ (remove_listener_from_vector l c (listeners_of t m)).0
unfolding find remove remove_listener_from_vector
remove_index t l c [] = refl
remove_index t l c (x ∷ m) = ground (arith, remove_index t l c m)

find-add-none :
    (t u : Bytes) (l : ℕ) (o : Options) (m : EventListenerMap)
    → find u m ≡ none
    → bytes_eq t u ≡ false
    → find u (add t l o m).1 ≡ none
unfolding find add
find-add-none t u l o [] h e = rw e refl
find-add-none t u l o (x ∷ m) h e =
    let (n, f) = find_tail u x m h in ground (arith, find-add-none t u l o m f e)

pub add-Unique :
    (t : Bytes) (l : ℕ) (o : Options) (m : EventListenerMap) → Unique m → Unique (add t l o m).1
unfolding find add
add-Unique t l o [] h = (refl, tt)
add-Unique t l o (x ∷ m) h = elim (Bool-cases (bytes_eq x.0 t)) [
  | inl e ↦ rw e h
  | inr e ↦ rw e (
    find-add-none t x.0 l o m h.0 (ground (arith, bytes_eq_iff t x.0, bytes_eq_iff x.0 t)),
    add-Unique t l o m h.1,
  )
]

put_back-Unique :
    (t : Bytes) (v : EventListenerVector) (m : EventListenerMap)
    → find t m ≡ none
    → Unique m
    → Unique (put_back t v m)
put_back-Unique t [] m n h = h
put_back-Unique t (r ∷ v) m n h = (n, h)

pub remove-Unique :
    (t : Bytes) (l : ℕ) (c : Bool) (m : EventListenerMap) → Unique m → Unique (remove t l c m).1
unfolding find remove
remove-Unique t l c [] h = tt
remove-Unique t l c (x ∷ m) h = elim (Bool-cases (bytes_eq x.0 t)) [
  | inl e ↦ rw e (put_back-Unique x.0 (remove_listener_from_vector l c x.1).1 m h.0 h.1)
  | inr e ↦ rw e (find-remove-none t x.0 l c m h.0, remove-Unique t l c m h.1)
]
