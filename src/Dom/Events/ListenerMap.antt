-- ===== src/Dom/Events/ListenerMap.antt =====
-- event_listener_map.h and event_listener_map.cpp. An event type has at most one vector.
pub mod Vectors
pub mod Refinement
use blinkit.Prelude.{
  ℕ, Bool, true, false, List, [], ◌∷◌, ◌++◌, Option, none, some, if◌then◌else◌, Bytes, bytes_eq,
  any, find_index, erase_idx,
}
use blinkit.Dom.Events.Listener.{
  Options, RegisteredEventListener, registered_event_listener, matches,
}

abbrev pub EventListenerVector : Type 0
EventListenerVector = List RegisteredEventListener

abbrev pub EventListenerMap : Type 0
EventListenerMap = List (Bytes × EventListenerVector)

-- `AddListenerToVector`
unfoldable pub add_listener_to_vector :
    ℕ → Options → EventListenerVector → Bool × EventListenerVector
add_listener_to_vector listener options v =
    if any (matches listener options.capture) v
    then (false, v)
    else (true, v ++ (registered_event_listener listener options ∷ []))

-- `Add`
unfoldable pub add : Bytes → ℕ → Options → EventListenerMap → Bool × EventListenerMap
add event_type listener options [] =
    let (added, v) = add_listener_to_vector listener options [] in (added, (event_type, v) ∷ [])
add event_type listener options (entry ∷ entries) =
    let rest = add event_type listener options entries in
    if bytes_eq entry.0 event_type
    then (let (added, v) = add_listener_to_vector listener options entry.1 in
        (added, (entry.0, v) ∷ entries))
    else (rest.0, entry ∷ rest.1)

-- `Find`
unfoldable pub find : Bytes → EventListenerMap → Option EventListenerVector
find event_type [] = none
find event_type (entry ∷ entries) =
    if bytes_eq entry.0 event_type then some entry.1 else find event_type entries

abbrev pub or_nil : Option EventListenerVector → EventListenerVector
or_nil none = []
or_nil (some v) = v

-- The vector of a type, empty when there is none.
abbrev pub listeners_of : Bytes → EventListenerMap → EventListenerVector
listeners_of t m = or_nil (find t m)

-- `ContainsCapturing`
unfoldable pub contains_capturing : Bytes → EventListenerMap → Bool
contains_capturing event_type [] = false
contains_capturing event_type (entry ∷ entries) =
    if bytes_eq entry.0 event_type
    then any (λ r. r.use_capture) entry.1
    else contains_capturing event_type entries

-- `RemoveListenerFromVector`: the index of the listener that is removed, and what is left.
unfoldable pub remove_listener_from_vector :
    ℕ → Bool → EventListenerVector → Option ℕ × EventListenerVector
remove_listener_from_vector listener capture v = elim (find_index (matches listener capture) v) [
  | none ↦ (none, v)
  | some k ↦ (some k, erase_idx v k)
]

-- A vector that has become empty leaves the map.
abbrev pub put_back : Bytes → EventListenerVector → EventListenerMap → EventListenerMap
put_back event_type [] entries = entries
put_back event_type (r ∷ v) entries = (event_type, r ∷ v) ∷ entries

-- `Remove`
unfoldable pub remove : Bytes → ℕ → Bool → EventListenerMap → Option ℕ × EventListenerMap
remove event_type listener capture [] = (none, [])
remove event_type listener capture (entry ∷ entries) =
    let rest = remove event_type listener capture entries in
    if bytes_eq entry.0 event_type
    then (let (index, v) = remove_listener_from_vector listener capture entry.1 in
        (index, put_back entry.0 v entries))
    else (rest.0, entry ∷ rest.1)
