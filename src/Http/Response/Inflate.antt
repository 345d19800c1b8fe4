-- ===== src/Http/Response/Inflate.antt =====
-- `GZipInflate`: what it yields, when its loop ends, and when it does not.
use mathlib.Core.List.{append_assoc}
use blinkit.Prelude.{
  ℕ, zero, suc, ◌<◌, true, false, [], ◌++◌, ◌≡◌, ◌≢◌, ◌⊎◌, refl, ap, ◌∙◌, inl, inr, none, some,
  Bool-cases, Option-cases, ltb, ltb→lt, Bytes, arith,
}
use blinkit.Http.Response.{
  Response, Zlib, Outcome, running, failed, done, inflate_loop, gzip_inflate,
}

module _ (z : Zlib) where
  open z use {Stream, inflate_init, inflate, avail_in}

  -- The stream inflates to the text, by calls that leave no input after the last one only.
  pub data Inflates : Stream → Bytes → Type 0 where
    last :
        {s s' : Stream} {w : Bytes}
        → inflate s ≡ some (s', w)
        → ltb 0 (avail_in s') ≡ false
        → Inflates s w
    more :
        {s s' : Stream} {w text : Bytes}
        → inflate s ≡ some (s', w)
        → ltb 0 (avail_in s') ≡ true
        → Inflates s' text
        → Inflates s (w ++ text)

  abbrev calls : {s : Stream} {text : Bytes} → Inflates s text → ℕ
  calls (last e f) = 1
  calls (more e f d) = suc (calls d)

  inflate_loop-Inflates :
      {s : Stream} {text : Bytes} (d : Inflates s text) (out : Bytes)
      → inflate_loop z (calls d) s out ≡ done (out ++ text)
  unfolding inflate_loop
  inflate_loop-Inflates (last e f) out = rw (e, f) refl
  inflate_loop-Inflates (more {w} {text} e f d) out =
      rw (e, f) (inflate_loop-Inflates d (out ++ w) ∙ ap done (append_assoc out w text))

  -- A body whose stream inflates to a text is replaced by that text, with enough fuel.
  gzip_inflate-Inflates :
      (r : Response) (s : Stream) (text : Bytes)
      → inflate_init r.body ≡ some s
      → Inflates s text
      → (fuel : ℕ) × (gzip_inflate z fuel r ≡ some (record r { body = text }))
  unfolding gzip_inflate
  gzip_inflate-Inflates r s text e d =
      (calls d, rw (e, gzip_inflate, inflate_loop-Inflates d []) refl)

  -- Each call that leaves input takes some.
  abbrev pub MakesProgress : Type 0
  MakesProgress =
      (s s' : Stream) (w : Bytes)
      → inflate s ≡ some (s', w)
      → 0 < avail_in s'
      → avail_in s' < avail_in s

  inflate_loop-ne-running :
      MakesProgress
      → (fuel : ℕ) (s : Stream) (out : Bytes) → avail_in s < fuel
      → inflate_loop z fuel s out ≢ running
  unfolding inflate_loop
  inflate_loop-ne-running p zero s out h = elim h [ ]
  inflate_loop-ne-running p (suc fuel) s out h = elim (Option-cases (inflate s)) [
    | inl e ↦ rw (e, inflate_loop) (λ x. cc)
    | inr ((s', w), e) ↦ elim (Bool-cases (ltb 0 (avail_in s'))) [
      | inr f ↦ rw (e, inflate_loop, f) (λ x. cc)
      | inl f ↦
          rw (e, inflate_loop, f)
            (inflate_loop-ne-running p fuel s' (out ++ w)
              (omega (arith, p s s' w e (ltb→lt 0 (avail_in s') f))))
    ]
  ]

  Outcome-cases :
      (o : Outcome z) → (o ≡ running) ⊎ ((o ≡ failed) ⊎ ((text : Bytes) × (o ≡ done text)))
  Outcome-cases running = inl refl
  Outcome-cases failed = inr (inl refl)
  Outcome-cases (done text) = inr (inr (text, refl))

  -- When each call of `inflate` that leaves input takes some, the loop ends, within as many rounds
  -- as the body has input and one more.
  gzip_inflate_total :
      MakesProgress
      → (r : Response) (fuel : ℕ)
      → ((s : Stream) → inflate_init r.body ≡ some s → avail_in s < fuel)
      → (q : Response) × (gzip_inflate z fuel r ≡ some q)
  unfolding gzip_inflate
  gzip_inflate_total p r fuel h = elim (Option-cases (inflate_init r.body)) [
    | inl e ↦ (r, rw (e, gzip_inflate) refl)
    | inr (s, e) ↦ elim (Outcome-cases (inflate_loop z fuel s [])) [
      | inl f ↦ absurd (inflate_loop-ne-running p fuel s [] (h s e) f)
      | inr (inl f) ↦ (r, rw (e, gzip_inflate, f) refl)
      | inr (inr (text, f)) ↦ (record r { body = text }, rw (e, gzip_inflate, f) refl)
    ]
  ]

  inflate_loop_stuck :
      (s : Stream)
      → inflate s ≡ some (s, [])
      → 0 < avail_in s
      → (fuel : ℕ) (out : Bytes) → inflate_loop z fuel s out ≡ running
  unfolding inflate_loop
  inflate_loop_stuck s e h zero out = refl
  inflate_loop_stuck s e h (suc fuel) out =
      let left : ltb 0 (avail_in s) ≡ true = ground arith in
      rw (e, inflate_loop, left) (inflate_loop_stuck s e h fuel (out ++ []))

  -- A stream on which `inflate` takes nothing and writes nothing while input is left is called for
  -- ever, which is a bug: no fuel is enough.
  gzip_inflate_stuck :
      (r : Response) (s : Stream)
      → inflate_init r.body ≡ some s
      → inflate s ≡ some (s, [])
      → 0 < avail_in s
      → (fuel : ℕ) → gzip_inflate z fuel r ≡ none
  unfolding gzip_inflate
  gzip_inflate_stuck r s e f h fuel = rw (e, gzip_inflate, inflate_loop_stuck s f h fuel []) refl
