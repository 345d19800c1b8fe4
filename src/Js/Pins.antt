-- ===== src/Js/Pins.antt =====
-- blinkit/js/js_value_impl.cpp and context_impl.cpp: how a `JSHeapValue` keeps its object from being
-- collected. It puts the object under a hidden key, made of its own address, into the global object
-- of its time. The heap stash keeps the first global object; `Reset` makes another one, and copies
-- what is enumerable, which hidden keys are not.
use blinkit.Prelude.{
  ap, ◌∙◌, ℕ, suc, ◌≤◌, List, [], ◌≡◌, refl, ◌⊎◌, inl, inr, Option, none, some, arith, find_key,
  erase_key, put_key, find_key-erase_key, find_key-put_key,
}

-- The hidden keys of the first global object and of the window that has replaced it, if one has,
-- each with the object that it leads to.
pub record Pins : Type 0 where
  pub globals : List (ℕ × ℕ)
  pub window : Option (List (ℕ × ℕ))

-- `InitializeHeapStash`, as far as the global objects go.
abbrev pub new_pins : Pins
new_pins = record { globals = []; window = none }

unfoldable pub on_globals : (List (ℕ × ℕ) → List (ℕ × ℕ)) → Pins → Pins
on_globals f p = elim p.window [
  | none ↦ record p { globals = f p.globals }
  | some w ↦ record p { window = some (f w) }
]

-- What the hidden keys of the global object are.
abbrev pub current : Pins → List (ℕ × ℕ)
current p = elim p.window [ none ↦ p.globals | some w ↦ w ]

-- The constructor and the destructor of `JSHeapValue`.
unfoldable pub pin : ℕ → ℕ → Pins → Pins
unfolding on_globals
pin key ptr = on_globals (put_key key ptr)

unfoldable pub unpin : ℕ → Pins → Pins
unfolding on_globals
unpin key = on_globals (erase_key key)

-- `Reset`
unfoldable pub reset : Pins → Pins
reset p = record p { window = some [] }

-- The values that an application holds: each by its key, with its object and with the number of
-- resets before it.
pub record World : Type 0 where
  pub pins : Pins
  pub live : List (ℕ × (ℕ × ℕ))
  pub resets : ℕ

abbrev pub new_world : World
new_world = record { pins = new_pins; live = []; resets = 0 }

-- A value is made at an address that no other one has, or released, or the document is reset.
pub data PinStep (w : World) : World → Type 0 where
  makes :
      (key ptr : ℕ)
      → find_key key w.live ≡ none
      → PinStep w
          (record w { pins = pin key ptr w.pins; live = put_key key (ptr, w.resets) w.live })
  releases :
      (key : ℕ) → PinStep w (record w { pins = unpin key w.pins; live = erase_key key w.live })
  resets_document : PinStep w (record w { pins = reset w.pins; resets = suc w.resets })

pub data PinReach (w : World) : World → Type 0 where
  here : PinReach w w
  next : {u v : World} → PinReach w u → PinStep u v → PinReach w v

record IsPinned (w : World) : Type 0 where
  at_first : w.resets ≡ 0 → w.pins.window ≡ none
  born : (key ptr birth : ℕ) → find_key key w.live ≡ some (ptr, birth) → birth ≤ w.resets
  kept :
      (key ptr : ℕ) → find_key key w.live ≡ some (ptr, 0) → find_key key w.pins.globals ≡ some ptr
  held :
      (key ptr : ℕ)
      → find_key key w.live ≡ some (ptr, w.resets)
      → find_key key (current w.pins) ≡ some ptr

module _ (w : World) (key : ℕ) (h : IsPinned w) where
  makes-IsPinned :
      (ptr : ℕ)
      → IsPinned (record w { pins = pin key ptr w.pins; live = put_key key (ptr, w.resets) w.live })
  unfolding pin on_globals
  makes-IsPinned ptr = record {
    at_first = λ e. ground (arith, h.at_first e);
    born = λ j p b e. ground (arith, find_key-put_key j key (ptr, w.resets) w.live, h.born j p b);
    kept = λ j p e. ground (
      arith,
      find_key-put_key j key (ptr, w.resets) w.live,
      h.kept j p,
      h.at_first,
      find_key-put_key j key ptr w.pins.globals,
    );
    held = λ j p e. ground (
      arith,
      find_key-put_key j key (ptr, w.resets) w.live,
      h.held j p,
      find_key-put_key j key ptr w.pins.globals,
      find_key-put_key j key ptr (current w.pins),
    );
  }

  releases-IsPinned : IsPinned (record w { pins = unpin key w.pins; live = erase_key key w.live })
  unfolding unpin on_globals
  releases-IsPinned = record {
    at_first = λ e. ground (arith, h.at_first e);
    born = λ j p b e. ground (arith, find_key-erase_key j key w.live, h.born j p b);
    kept = λ j p e. ground (
      arith,
      find_key-erase_key j key w.live,
      h.kept j p,
      find_key-erase_key j key w.pins.globals,
    );
    held = λ j p e. ground (
      arith,
      find_key-erase_key j key w.live,
      h.held j p,
      find_key-erase_key j key w.pins.globals,
      find_key-erase_key j key (current w.pins),
    );
  }

reset-IsPinned :
    (w : World) → IsPinned w → IsPinned (record w { pins = reset w.pins; resets = suc w.resets })
unfolding reset
reset-IsPinned w h = record {
  at_first = λ e. absurd (omega arith);
  born = λ j p b e. omega (arith, h.born j p b e);
  kept = λ j p e. h.kept j p e;
  held = λ j p e. absurd (omega (arith, h.born j p (suc w.resets) e));
}

PinStep-IsPinned : {u v : World} → PinStep u v → IsPinned u → IsPinned v
PinStep-IsPinned {u} (makes key ptr n) h = makes-IsPinned u key h ptr
PinStep-IsPinned {u} (releases key) h = releases-IsPinned u key h
PinStep-IsPinned {u} resets_document h = reset-IsPinned u h

new-IsPinned : IsPinned new_world
unfolding find_key
new-IsPinned = record {
  at_first = λ e. refl;
  born = λ j p b e. cc;
  kept = λ j p e. cc;
  held = λ j p e. cc;
}

PinReach-IsPinned : {u v : World} → PinReach u v → IsPinned u → IsPinned v
PinReach-IsPinned here h = h
PinReach-IsPinned (next r s) h = PinStep-IsPinned s (PinReach-IsPinned r h)

-- In any order of making values, releasing them and resetting the document: the object of a value
-- that is held is under its key in a global object that the engine keeps, when the value was made
-- before the first reset or since the last one.
pub PinReach-pinned :
    {w : World} (key ptr birth : ℕ)
    → PinReach new_world w
    → find_key key w.live ≡ some (ptr, birth)
    → (birth ≡ 0) ⊎ (birth ≡ w.resets)
    → (find_key key w.pins.globals ≡ some ptr) ⊎ (find_key key (current w.pins) ≡ some ptr)
PinReach-pinned {w} key ptr birth r e (inl z) =
    inl ((PinReach-IsPinned r new-IsPinned).kept key ptr (e ∙ ap (λ (b : ℕ). some (ptr, b)) z))
PinReach-pinned {w} key ptr birth r e (inr z) =
    inr ((PinReach-IsPinned r new-IsPinned).held key ptr (e ∙ ap (λ (b : ℕ). some (ptr, b)) z))

-- A value that is made between two resets is lost with the second one: its key is in no global
-- object that the engine keeps, although the value is still held, which is a bug.
reset-pin :
    (p : Pins) (key ptr : ℕ)
    → find_key key p.globals ≡ none
    → let q = reset (pin key ptr (reset p)) in
      (find_key key q.globals ≡ none) × (find_key key (current q) ≡ none)
unfolding reset pin on_globals find_key
reset-pin p key ptr h = (h, refl)
