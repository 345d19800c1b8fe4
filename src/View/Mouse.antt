-- ===== src/View/Mouse.antt =====
-- blinkit/view/view_impl.h and view_impl.cpp: `ProcessInput` of a mouse event. Times are in one unit
-- of the clock, as is the interval of a double click, which is a parameter; the differences of two
-- coordinates fit into an `int`. What the web view does with the event is left out.
use blinkit.Prelude.{
  ℕ, suc, ◌+◌, ◌<◌, Bool, true, false, not, ◌&&◌, List, [], ◌∷◌, ◌≡◌, refl, subst, ltb,
  if◌then◌else◌, arith, ℤ, pos, negsuc, sub_ℕ, minus_ℕ,
}

pub data Button : Type 0 where
  left_button right_button middle_button no_button : Button

-- The types of the application's events, and of those for the web view.
pub data MouseType : Type 0 where
  mouse_move mouse_down mouse_up mouse_leave context_menu : MouseType

pub data WebType : Type 0 where
  web_move web_enter web_down web_up web_leave web_context_menu : WebType

pub record MouseEvent : Type 0 where
  pub type : MouseType
  pub button : Button
  pub x : ℤ
  pub y : ℤ

-- `WebMouseEvent`, with the button that counts as pressed.
pub record WebMouseEvent : Type 0 where
  pub type : WebType
  pub time : ℕ
  pub button : Button
  pub x : ℤ
  pub y : ℤ
  pub movement_x : ℤ
  pub movement_y : ℤ
  pub pressed : Button
  pub click_count : ℕ

-- The members of `ViewImpl` for the mouse.
pub record Mouse : Type 0 where
  pub has_double_click_event : Bool
  pub mouse_entered : Bool
  pub last_x : ℤ
  pub last_y : ℤ
  pub last_down_time : ℕ
  pub last_down_x : ℤ
  pub last_down_y : ℤ

abbrev pub minus_ℤ : ℤ → ℤ → ℤ
minus_ℤ a (pos n) = minus_ℕ a n
minus_ℤ (pos m) (negsuc n) = pos (m + suc n)
minus_ℤ (negsuc m) (negsuc n) = sub_ℕ (suc n) (suc m)

-- `std::abs(x) < delta`
abbrev pub within : ℕ → ℤ → Bool
within delta (pos n) = ltb n delta
within delta (negsuc n) = ltb (suc n) delta

-- `Translate` of a type.
unfoldable pub translate_type : Bool → MouseType → WebType
translate_type entered mouse_move = if entered then web_move else web_enter
translate_type entered mouse_down = web_down
translate_type entered mouse_up = web_up
translate_type entered mouse_leave = web_leave
translate_type entered context_menu = web_context_menu

unfoldable pub pressed_button : MouseType → Button → Button
pressed_button mouse_down b = b
pressed_button mouse_move b = b
pressed_button _ b = no_button

-- `PreHandleInput`
unfoldable pub pre_handle_input : WebMouseEvent → Mouse → Mouse
pre_handle_input e m = elim e.type [ web_enter ↦ record m { mouse_entered = true } | _ ↦ m ]

-- `PostHandleInput`
unfoldable pub post_handle_input : WebMouseEvent → Mouse → Mouse
post_handle_input e m =
    let q : Mouse = record m { last_x = e.x; last_y = e.y } in
    elim e.type [
      | web_down ↦ record q { last_down_time = e.time; last_down_x = e.x; last_down_y = e.y }
      | web_leave ↦ record q { mouse_entered = false }
      | _ ↦ q
    ]

module _ (double_click_interval : ℕ) where
  -- The click count of a press, 1 or 2.
  unfoldable pub click_count_of : ℕ → ℤ → ℤ → Mouse → ℕ
  click_count_of now movement_x movement_y m =
      if not m.has_double_click_event
        && (ltb now (m.last_down_time + double_click_interval)
            && (within 15 movement_x && within 15 movement_y))
      then 2
      else 1

  -- `Translate` of an event.
  unfoldable pub translate : ℕ → MouseEvent → Mouse → WebMouseEvent
  unfolding translate_type pressed_button click_count_of
  translate now e m =
      let dx = minus_ℤ e.x m.last_x in
      let dy = minus_ℤ e.y m.last_y in
      record {
        type = translate_type m.mouse_entered e.type;
        time = now;
        button = e.button;
        x = e.x;
        y = e.y;
        movement_x = dx;
        movement_y = dy;
        pressed = pressed_button e.type e.button;
        click_count = elim e.type [ mouse_down ↦ click_count_of now dx dy m | _ ↦ 0 ];
      }

  -- `ProcessInput`
  unfoldable pub process_input : ℕ → MouseEvent → Mouse → WebMouseEvent × Mouse
  unfolding translate pre_handle_input post_handle_input
  process_input now e m =
      let w = translate now e m in (w, post_handle_input w (pre_handle_input w m))

  -- The web events of a sequence of events, each with its time.
  unfoldable pub process_all : List (ℕ × MouseEvent) → Mouse → List WebMouseEvent
  process_all [] m = []
  process_all ((now, e) ∷ es) m =
      let (w, q) = process_input now e m in let rest = process_all es q in w ∷ rest

  -- Whether each move stands between an entry and the leave after it, and each entry behind a leave
  -- or at the start; the flag is whether the mouse is inside.
  unfoldable pub is_paired : Bool → List WebMouseEvent → Bool
  is_paired inside [] = true
  is_paired inside (w ∷ ws) =
      let after_enter = is_paired true ws in
      let after_leave = is_paired false ws in
      let after_other = is_paired inside ws in
      elim w.type [
        | web_enter ↦ not inside && after_enter
        | web_move ↦ inside && after_other
        | web_leave ↦ after_leave
        | _ ↦ after_other
      ]

  -- Whether the mouse is inside after an event.
  abbrev entered_after : MouseType → Bool → Bool
  entered_after mouse_move inside = true
  entered_after mouse_leave inside = false
  entered_after _ inside = inside

  mouse_entered-process_input :
      (now : ℕ) (e : MouseEvent) (m : Mouse)
      → (process_input now e m).1.mouse_entered ≡ entered_after e.type m.mouse_entered
  unfolding process_input
  mouse_entered-process_input now e m = ground arith

  paired_step :
      (t : MouseType) (inside : Bool) (w : WebMouseEvent) (ws : List WebMouseEvent)
      → w.type ≡ translate_type inside t
      → is_paired (entered_after t inside) ws ≡ true
      → is_paired inside (w ∷ ws) ≡ true
  unfolding is_paired translate_type
  paired_step t inside w ws e h = ground arith

  -- For any events of the mouse: the web view gets an entry before the first move and before the
  -- first one after each leave, and no other entry.
  process_all-is_paired :
      (es : List (ℕ × MouseEvent)) (m : Mouse) → is_paired m.mouse_entered (process_all es m) ≡ true
  unfolding is_paired process_all process_input
  process_all-is_paired [] m = refl
  process_all-is_paired ((now, e) ∷ es) m =
      let q = process_input now e m in
      let inside =
        subst (λ (b : Bool). is_paired b (process_all es q.1) ≡ true)
          (mouse_entered-process_input now e m) (process_all-is_paired es q.1) in
      paired_step e.type m.mouse_entered q.0 (process_all es q.1) refl inside

  minus_self : (a : ℤ) → minus_ℤ a a ≡ pos 0
  minus_self (pos n) = ground arith
  minus_self (negsuc n) = ground arith

  -- A press soon after another counts as the second of a double click wherever the first one was,
  -- when the mouse has moved to its place in between: the distance is taken from the last event, not
  -- from the last press, which is a bug.
  double_click_anywhere :
      (m : Mouse) (x y u v : ℤ) (b : Button) (t s now : ℕ)
      → m.has_double_click_event ≡ false
      → now < t + double_click_interval
      → let down : MouseEvent = record { type = mouse_down; button = b; x = x; y = y } in
        let move : MouseEvent = record { type = mouse_move; button = b; x = u; y = v } in
        let again : MouseEvent = record { type = mouse_down; button = b; x = u; y = v } in
        (process_input now again (process_input s move (process_input t down m).1).1).0.click_count
        ≡ 2
  unfolding process_input
  double_click_anywhere m x y u v b t s now d h = ground (arith, minus_self u, minus_self v)
