-- ===== src/Dom/Events/ListenerMap/Refinement.antt =====
-- The map as what it promises: a vector of listeners for each event type.
use blinkit.Prelude.{
  if◌then◌else◌, ℕ, Bool, List, [], ◌∷◌, Option, ◌≡◌, refl, ap, ◌∙◌, Bytes, bytes_eq, arith,
}
use mathlib.Core.Path.{fun_ext}
use blinkit.Prelude.{suc, some, none, true, false}
use blinkit.Dom.Events.Listener.{Options, registered_event_listener, matches}
use blinkit.Dom.Events.ListenerMap.{
  listeners_of, EventListenerMap, EventListenerVector, add_listener_to_vector, add, find, remove,
  remove_listener_from_vector,
}
use blinkit.Dom.Events.ListenerMap.Vectors.{
  Unique, listeners_of-add, listeners_of-remove, remove_index, add-Unique, remove-Unique,
}

-- The operations that change the map, and what they return.
pub data MapOperation : Type 0 where
  adds : Bytes → ℕ → Options → MapOperation
  removes : Bytes → ℕ → Bool → MapOperation
  clears : MapOperation

pub data MapAnswer : Type 0 where
  added : Bool → MapAnswer
  removed : Option ℕ → MapAnswer
  cleared : MapAnswer

unfoldable pub operate : MapOperation → EventListenerMap → MapAnswer × EventListenerMap
operate (adds t l o) m = let (b, q) = add t l o m in (added b, q)
operate (removes t l c) m = let (k, q) = remove t l c m in (removed k, q)
operate clears m = (cleared, [])

-- The promise: a function from types to vectors, of which an operation changes one value.
abbrev pub Vectors : Type 0
Vectors = Bytes → EventListenerVector

abbrev pub at_type : Bytes → EventListenerVector → Vectors → Vectors
at_type t v s = λ (u : Bytes). if bytes_eq t u then v else s u

-- One pass over the listeners: a new one goes behind all others, unless it meets its like.
unfoldable pub put_in : ℕ → Options → EventListenerVector → Bool × EventListenerVector
put_in l o [] = (true, registered_event_listener l o ∷ [])
put_in l o (r ∷ v) =
    let (b, w) = put_in l o v in if matches l o.capture r then (false, r ∷ v) else (b, r ∷ w)

-- The first listener that is like it goes, and the others stay.
unfoldable pub take_out : ℕ → Bool → EventListenerVector → Option ℕ × EventListenerVector
take_out l c [] = (none, [])
take_out l c (r ∷ v) =
    let (k, w) = take_out l c v in
    if matches l c r then (some 0, v) else (elim k [ none ↦ none | some i ↦ some (suc i) ], r ∷ w)

put_in_lem :
    (l : ℕ) (o : Options) (v : EventListenerVector) → add_listener_to_vector l o v ≡ put_in l o v
unfolding add_listener_to_vector put_in
put_in_lem l o [] = refl
put_in_lem l o (r ∷ v) = ground (arith, put_in_lem l o v)

take_out_lem :
    (l : ℕ) (c : Bool) (v : EventListenerVector)
    → remove_listener_from_vector l c v ≡ take_out l c v
unfolding remove_listener_from_vector take_out
take_out_lem l c [] = refl
take_out_lem l c (r ∷ v) = ground (arith, take_out_lem l c v)

abbrev pub promised : MapOperation → Vectors → MapAnswer × Vectors
promised (adds t l o) s = let (b, v) = put_in l o (s t) in (added b, at_type t v s)
promised (removes t l c) s = let (k, v) = take_out l c (s t) in (removed k, at_type t v s)
promised clears s = (cleared, λ (u : Bytes). [])

abbrev pub view : EventListenerMap → Vectors
view m = λ (u : Bytes). listeners_of u m

-- All answers of a run of operations.
unfoldable pub operate_all :
    List MapOperation → EventListenerMap → List MapAnswer × EventListenerMap
operate_all [] m = ([], m)
operate_all (op ∷ ops) m =
    let (a, q) = operate op m in let (rest, r) = operate_all ops q in (a ∷ rest, r)

unfoldable pub promised_all : List MapOperation → Vectors → List MapAnswer × Vectors
promised_all [] s = ([], s)
promised_all (op ∷ ops) s =
    let (a, q) = promised op s in let (rest, r) = promised_all ops q in (a ∷ rest, r)

add_answer :
    (t : Bytes) (l : ℕ) (o : Options) (m : EventListenerMap)
    → (add t l o m).0 ≡ (add_listener_to_vector l o (listeners_of t m)).0
unfolding find add
add_answer t l o [] = refl
add_answer t l o (x ∷ m) = ground (arith, add_answer t l o m)

operate-Unique : (op : MapOperation) (m : EventListenerMap) → Unique m → Unique (operate op m).1
unfolding operate
operate-Unique (adds t l o) m h = add-Unique t l o m h
operate-Unique (removes t l c) m h = remove-Unique t l c m h
operate-Unique clears m h = tt

operate-answer :
    (op : MapOperation) (m : EventListenerMap) → (operate op m).0 ≡ (promised op (view m)).0
unfolding operate
operate-answer (adds t l o) m =
    ap added (add_answer t l o m ∙ ap (λ x. x.0) (put_in_lem l o (listeners_of t m)))
operate-answer (removes t l c) m =
    ap removed (remove_index t l c m ∙ ap (λ x. x.0) (take_out_lem l c (listeners_of t m)))
operate-answer clears m = refl

operate-view :
    (op : MapOperation) (m : EventListenerMap)
    → Unique m
    → view (operate op m).1 ≡ (promised op (view m)).1
unfolding operate find
operate-view (adds t l o) m h = fun_ext (λ u.
    listeners_of-add t u l o m
    ∙ ap (λ x. if bytes_eq t u then x.1 else listeners_of u m) (put_in_lem l o (listeners_of t m)))
operate-view (removes t l c) m h = fun_ext (λ u.
    listeners_of-remove t u l c m h
    ∙ ap (λ x. if bytes_eq t u then x.1 else listeners_of u m)
        (take_out_lem l c (listeners_of t m)))
operate-view clears m h = refl

refines :
    (ops : List MapOperation) (m : EventListenerMap) (s : Vectors)
    → Unique m
    → view m ≡ s
    → ((operate_all ops m).0 ≡ (promised_all ops s).0)
      × (view (operate_all ops m).1 ≡ (promised_all ops s).1)
unfolding operate_all promised_all
refines [] m s h e = (refl, e)
refines (op ∷ ops) m s h e =
    let answer = operate-answer op m ∙ ap (λ (v : Vectors). (promised op v).0) e in
    let after = operate-view op m h ∙ ap (λ (v : Vectors). (promised op v).1) e in
    let (a, v) = refines ops (operate op m).1 (promised op s).1 (operate-Unique op m h) after in
    (
      ap (λ (b : MapAnswer). b ∷ (operate_all ops (operate op m).1).0) answer
          ∙ ap (◌∷◌ (promised op s).0) a,
      v,
    )

-- From an empty map, whatever is added, removed and cleared in whatever order: an addition puts the
-- listener behind those of its type and answers true, unless one like it is there, when it changes
-- nothing and answers false; a removal takes the first one that is like it out of those of its type, and
-- answers where it was, or with nothing; no other type is changed.
pub operate_all-refines :
    (ops : List MapOperation)
    → ((operate_all ops []).0 ≡ (promised_all ops (λ u. [])).0)
      × ((u : Bytes) → listeners_of u (operate_all ops []).1 ≡ (promised_all ops (λ v. [])).1 u)
unfolding find
operate_all-refines ops =
    let (a, v) = refines ops [] (λ u. []) tt refl in (a, λ u. ap (λ (s : Vectors). s u) v)
