-- ===== src/Http/WinRequest/Receive.antt =====
-- The loop of `ReceiveData`, when WinINet reads at once.
use blinkit.Prelude.{
  ℕ, ◌≤◌, true, false, List, [], ◌∷◌, ◌++◌, ◌≡◌, refl, sym, ◌∙◌, ap, some, Bytes, length, arith,
}
use blinkit.Http.Response.{append_data}
use blinkit.Http.WinInet.{read}
use blinkit.Http.WinRequest.{
  WinRequest, Point, waiting, reading, Answers, continue_with, after_worker, to_request_complete,
  is_empty, done, ask,
}
use blinkit.Http.WinRequest.Transfer.{receive_data, receive_chunk}
use mathlib.Core.List.{append_assoc, append-nil}

-- The text of several chunks.
abbrev pub joined : List Bytes → Bytes
joined [] = []
joined (c ∷ cs) = c ++ joined cs

abbrev pub answer : Answers → Bytes → Answers
answer a chunk = record a { io = done; chunk = chunk }

-- A run of the loop from the point at hand: each chunk in turn.
unfoldable pub receive_all : Answers → List Bytes → Point × WinRequest → Point × WinRequest
receive_all a [] q = q
receive_all a (c ∷ cs) (reading n, w) = receive_all a cs (receive_data (answer a c) n w)
receive_all a (c ∷ cs) q = q

-- The chunks that WinINet may yield: each has a byte, and fits into the buffer that it is read into.
abbrev pub Fits : ℕ → List Bytes → Type 0
Fits n [] = Unit {0}
Fits n (c ∷ cs) = (is_empty c ≡ false) × (length c ≤ n) × Fits (length c) cs

-- The number of bytes that the next read asks for.
abbrev pub capacity : ℕ → List Bytes → ℕ
capacity n [] = n
capacity n (c ∷ cs) = capacity (length c) cs

capacity-le : (n : ℕ) (cs : List Bytes) → Fits n cs → capacity n cs ≤ n
capacity-le n [] h = omega arith
capacity-le n (c ∷ cs) h = omega (arith, h.1, capacity-le (length c) cs h.2)

receive_all_appends :
    (a : Answers) (cs : List Bytes) (n : ℕ) (w : WinRequest)
    → Fits n cs
    → let q = receive_all a (cs ++ ([] ∷ [])) (reading n, w) in
      (q.0 ≡ waiting)
      × (q.1.next_worker ≡ some to_request_complete)
      × (q.1.event ≡ true)
      × (q.1.response ≡ record w.response { body = w.response.body ++ joined cs })
unfolding receive_all receive_data receive_chunk continue_with after_worker append_data
receive_all_appends a [] n w h =
    (refl, refl, refl, ap (λ (b : Bytes). record w.response { body = b }) (sym (append-nil _)))
receive_all_appends a ([] ∷ cs) n w h = cc
receive_all_appends a ((c ∷ more) ∷ cs) n w h =
    let v : WinRequest = record (ask (read n) w) { response = append_data w.response (c ∷ more) } in
    let (p, k, e, r) = receive_all_appends a cs (length (c ∷ more)) v h.2 in
    (
      p,
      k,
      e,
      r
          ∙ ap (λ (b : Bytes). record w.response { body = b })
              (append_assoc w.response.body (c ∷ more) (joined cs)),
    )

receive_all_asks :
    (a : Answers) (cs : List Bytes) (n : ℕ) (w : WinRequest)
    → Fits n cs
    → (receive_all a cs (reading n, w)).0 ≡ reading (capacity n cs)
unfolding receive_all receive_data receive_chunk
receive_all_asks a [] n w h = refl
receive_all_asks a ([] ∷ cs) n w h = cc
receive_all_asks a ((c ∷ more) ∷ cs) n w h =
    let v : WinRequest = record (ask (read n) w) { response = append_data w.response (c ∷ more) } in
    receive_all_asks a cs (length (c ∷ more)) v h.2

-- When WinINet reads at once: all chunks are appended to the body in order, and the empty one ends
-- the loop; the worker `RequestComplete` is next and is woken at once. The loop asks each time for
-- as many bytes as the last chunk had, and so never for more than any chunk so far, which is a
-- flaw.
pub receive_all_lem :
    (a : Answers) (cs : List Bytes) (n : ℕ) (w : WinRequest)
    → Fits n cs
    → let q = receive_all a (cs ++ ([] ∷ [])) (reading n, w) in
      (q.0 ≡ waiting)
      × (q.1.next_worker ≡ some to_request_complete)
      × (q.1.event ≡ true)
      × (q.1.response ≡ record w.response { body = w.response.body ++ joined cs })
      × ((receive_all a cs (reading n, w)).0 ≡ reading (capacity n cs))
      × (capacity n cs ≤ n)
receive_all_lem a cs n w h =
    let (p, k, e, r) = receive_all_appends a cs n w h in
    (p, k, e, r, receive_all_asks a cs n w h, capacity-le n cs h)
