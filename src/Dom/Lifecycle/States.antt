-- ===== src/Dom/Lifecycle/States.antt =====
-- The life cycles that `AdvanceTo` allows.
use blinkit.Prelude.{
  ap, sym, if◌then◌else◌, ◌||◌, Bool-cases, refl, not, ◌==◌, ◌&&◌, leb, inl, inr, ◌⊎◌, ◌≤◌, Bool,
  true, false, ◌≡◌, ◌≢◌, Option, some, none, arith,
}
use blinkit.Dom.Lifecycle.{
  is, holds, compositing_clean, in_compositing_update, visual_update_pending, LifecycleState,
  stopping, value, DocumentLifecycle, new_lifecycle, is_active, follows, can_advance_to, advance_to,
}

-- A life cycle: the advances that pass the assertions, one after another.
pub data Lives (slimming_paint : Bool) (d : DocumentLifecycle) : DocumentLifecycle → Type 0 where
  starts : Lives slimming_paint d d
  advances :
      {e f : DocumentLifecycle} (n : LifecycleState)
      → Lives slimming_paint d e
      → advance_to slimming_paint n e ≡ some f
      → Lives slimming_paint d f

is_stopping : (n : LifecycleState) → is stopping n ≡ true → n ≡ stopping
is_stopping stopping h = refl
is_stopping _ h = ground arith

holds-some : (o : Option Bool) → holds o ≡ true → o ≡ some true
holds-some (some true) h = refl
holds-some _ h = ground arith

passes :
    (b : Bool) (n : LifecycleState) (d : DocumentLifecycle)
    → holds (can_advance_to b d n) ≡ true
    → (n ≡ stopping) ⊎ (follows b d.state n ≡ some true)
unfolding can_advance_to
passes b n d h = elim (Bool-cases (is stopping n)) [
  | inl e ↦ inl (is_stopping n e)
  | inr e ↦ inr (holds-some (follows b d.state n) (ground arith))
]

guarded :
    (c k : Bool) (x e : DocumentLifecycle)
    → (if c && k then some x else none) ≡ some e
    → (c ≡ true) × (x ≡ e)
guarded true true x e h = (refl, cc)
guarded _ _ x e h = ground arith

-- The test that the `switch` passes.
follows_of :
    (b : Bool) (n : LifecycleState) (d e : DocumentLifecycle)
    → advance_to b n d ≡ some e
    → (e.state ≡ n) × ((n ≡ stopping) ⊎ (follows b d.state n ≡ some true))
unfolding advance_to
follows_of b n d e h =
    let c = can_advance_to b d n in
    let (p, q) = guarded (holds c) (is d.state n || not d.check_no_transition) _ e h in
    (ap (λ (x : DocumentLifecycle). x.state) (sym q), passes b n d p)

follows_stopping :
    (b : Bool) (s n : LifecycleState)
    → value stopping ≤ value s
    → follows b s n ≡ some true
    → value stopping ≤ value n
unfolding follows
follows_stopping b _ n h f = ground arith

advance_to_stopping :
    (b : Bool) (n : LifecycleState) (d e : DocumentLifecycle)
    → value stopping ≤ value d.state
    → advance_to b n d ≡ some e
    → value stopping ≤ value e.state
advance_to_stopping b n d e h f =
    let (s, c) = follows_of b n d e f in
    rw s (elim c [ inl p ↦ rw p (omega arith) | inr p ↦ follows_stopping b d.state n h p ])

-- From `kStopping` on there is no way back: a document that is shut down stays shut down, and is
-- not active.
Lives-stopping :
    (b : Bool) (d e : DocumentLifecycle)
    → value stopping ≤ value d.state
    → Lives b d e
    → (value stopping ≤ value e.state) × (is_active e ≡ false)
unfolding is_active
Lives-stopping b d e h starts = (h, ground arith)
Lives-stopping b d e h (advances {e = g} n r f) =
    let s = advance_to_stopping b n g e (Lives-stopping b d g h r).0 f in (s, ground (arith, s))

-- The states that a document can be in: `kVisualUpdatePending` never, the three states of
-- compositing only without slimming paint.
abbrev pub is_reachable : Bool → LifecycleState → Bool
is_reachable b s =
    not (value s == value visual_update_pending)
    && not (
        b && leb (value in_compositing_update) (value s) && leb (value s) (value compositing_clean))

follows_reachable :
    (b : Bool) (s n : LifecycleState)
    → is_reachable b s ≡ true
    → follows b s n ≡ some true
    → is_reachable b n ≡ true
unfolding follows
follows_reachable b _ n h f = ground arith

reachable_of :
    (b : Bool) (d : DocumentLifecycle) → Lives b new_lifecycle d → is_reachable b d.state ≡ true
reachable_of b d starts = ground arith
reachable_of b d (advances {e = g} n r f) =
    let (s, c) = follows_of b n g d f in
    rw s (elim c [
      | inl p ↦ rw p (ground arith)
      | inr p ↦ follows_reachable b g.state n (reachable_of b g r) p
    ])

follows_some : (b : Bool) (s n : LifecycleState) → is_reachable b s ≡ true → follows b s n ≢ none
unfolding follows
follows_some b _ n h e = ground arith

can_advance_to_some :
    (b : Bool) (d : DocumentLifecycle) (n : LifecycleState)
    → is_reachable b d.state ≡ true
    → can_advance_to b d n ≢ none
unfolding can_advance_to
can_advance_to_some b d n h e = ground (arith, follows_some b d.state n h)

-- A new document is never in `kVisualUpdatePending`, and with slimming paint never in a state of
-- compositing; in the states that it reaches `CanAdvanceTo` meets no failed assertion.
pub Lives-reachable :
    (b : Bool) (d : DocumentLifecycle)
    → Lives b new_lifecycle d
    → (is_reachable b d.state ≡ true) × ((n : LifecycleState) → can_advance_to b d n ≢ none)
Lives-reachable b d r = let s = reachable_of b d r in (s, λ n e. can_advance_to_some b d n s e)
