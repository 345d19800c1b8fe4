-- ===== src/Dom/Lifecycle.antt =====
-- chromium/third_party/blink/renderer/core/dom/document_lifecycle.h and document_lifecycle.cpp.
-- `slimming_paint` is `RuntimeEnabledFeatures::SlimmingPaintV2Enabled()`.
pub mod States
use blinkit.Prelude.{
  ℕ, ltb, leb, ◌==◌, Bool, true, false, ◌&&◌, ◌||◌, not, Option, none, some, if◌then◌else◌,
}

pub data LifecycleState : Type 0 where
  uninitialized : LifecycleState
  inactive : LifecycleState
  visual_update_pending : LifecycleState
  in_style_recalc : LifecycleState
  style_clean : LifecycleState
  in_layout_subtree_change : LifecycleState
  layout_subtree_change_clean : LifecycleState
  in_pre_layout : LifecycleState
  in_perform_layout : LifecycleState
  after_perform_layout : LifecycleState
  layout_clean : LifecycleState
  in_compositing_update : LifecycleState
  compositing_inputs_clean : LifecycleState
  compositing_clean : LifecycleState
  in_pre_paint : LifecycleState
  pre_paint_clean : LifecycleState
  in_paint : LifecycleState
  paint_clean : LifecycleState
  stopping : LifecycleState
  stopped : LifecycleState

-- The value of an enumerator.
abbrev pub value : LifecycleState → ℕ
value uninitialized = 0
value inactive = 1
value visual_update_pending = 2
value in_style_recalc = 3
value style_clean = 4
value in_layout_subtree_change = 5
value layout_subtree_change_clean = 6
value in_pre_layout = 7
value in_perform_layout = 8
value after_perform_layout = 9
value layout_clean = 10
value in_compositing_update = 11
value compositing_inputs_clean = 12
value compositing_clean = 13
value in_pre_paint = 14
value pre_paint_clean = 15
value in_paint = 16
value paint_clean = 17
value stopping = 18
value stopped = 19

pub record DocumentLifecycle : Type 0 where
  pub state : LifecycleState
  pub disallow_transition_count : ℕ
  pub check_no_transition : Bool

abbrev pub new_lifecycle : DocumentLifecycle
new_lifecycle = record {
  state = uninitialized;
  disallow_transition_count = 0;
  check_no_transition = false;
}

-- `IsActive`
unfoldable pub is_active : DocumentLifecycle → Bool
is_active d = ltb (value inactive) (value d.state) && ltb (value d.state) (value stopping)

-- `StateTransitionDisallowed`
abbrev pub state_transition_disallowed : DocumentLifecycle → Bool
state_transition_disallowed d = ltb 0 d.disallow_transition_count

abbrev pub is : LifecycleState → LifecycleState → Bool
is s t = value s == value t

-- The `switch` of `CanAdvanceTo`; where it asserts that slimming paint is off, `none`.
unfoldable pub follows : Bool → LifecycleState → LifecycleState → Option Bool
follows slimming_paint uninitialized n = some (is inactive n)
follows slimming_paint inactive n = some (is style_clean n)
follows slimming_paint visual_update_pending n =
    some (is in_pre_layout n || is in_style_recalc n || is in_perform_layout n)
follows slimming_paint in_style_recalc n = some (is style_clean n)
follows slimming_paint style_clean n = some (
    is in_style_recalc n
    || is in_layout_subtree_change n
    || is in_pre_layout n
    || is in_perform_layout n
    || is style_clean n
    || is layout_clean n
    || (if slimming_paint then is in_pre_paint n else is in_compositing_update n))
follows slimming_paint in_layout_subtree_change n = some (is layout_subtree_change_clean n)
follows slimming_paint layout_subtree_change_clean n = some (
    is in_style_recalc n
    || is in_pre_layout n
    || is in_perform_layout n
    || is style_clean n
    || is layout_clean n
    || (if slimming_paint then is in_pre_paint n else is in_compositing_update n))
follows slimming_paint in_pre_layout n =
    some (is in_style_recalc n || is style_clean n || is in_pre_layout n)
follows slimming_paint in_perform_layout n = some (is after_perform_layout n)
follows slimming_paint after_perform_layout n = some (is in_pre_layout n || is layout_clean n)
follows slimming_paint layout_clean n = some (
    is in_style_recalc n
    || is in_pre_layout n
    || is in_perform_layout n
    || is layout_clean n
    || is style_clean n
    || (if slimming_paint then is in_pre_paint n else is in_compositing_update n))
follows slimming_paint in_compositing_update n =
    if slimming_paint then none else some (is compositing_inputs_clean n || is compositing_clean n)
follows slimming_paint compositing_inputs_clean n =
    if slimming_paint
    then none
    else some (
        is in_style_recalc n
        || is in_pre_layout n
        || is in_compositing_update n
        || is compositing_clean n)
follows slimming_paint compositing_clean n =
    if slimming_paint
    then none
    else some (
        is in_style_recalc n
        || is in_pre_layout n
        || is in_compositing_update n
        || is in_pre_paint n)
follows slimming_paint in_pre_paint n = some (is pre_paint_clean n)
follows slimming_paint pre_paint_clean n = some (
    is in_paint n
    || is in_style_recalc n
    || is in_pre_layout n
    || (not slimming_paint && is in_compositing_update n)
    || is in_pre_paint n)
follows slimming_paint in_paint n = some (is paint_clean n)
follows slimming_paint paint_clean n = some (
    is in_style_recalc n
    || is in_pre_layout n
    || (not slimming_paint && is in_compositing_update n)
    || is in_pre_paint n
    || is in_paint n)
follows slimming_paint stopping n = some (is stopped n)
follows slimming_paint stopped n = some false

-- `CanAdvanceTo`; `none` is a failed assertion.
unfoldable pub can_advance_to : Bool → DocumentLifecycle → LifecycleState → Option Bool
can_advance_to slimming_paint d n =
    if state_transition_disallowed d
    then some false
    else if is stopping n
    then some true
    else follows slimming_paint d.state n

abbrev pub holds : Option Bool → Bool
holds none = false
holds (some b) = b

-- `AdvanceTo`, with its assertions on; `none` is a failed one.
unfoldable pub advance_to : Bool → LifecycleState → DocumentLifecycle → Option DocumentLifecycle
advance_to slimming_paint n d =
    if holds (can_advance_to slimming_paint d n) && (is d.state n || not d.check_no_transition)
    then some (record d { state = n })
    else none

-- `StateAllowsTreeMutations`
unfoldable pub state_allows_tree_mutations : DocumentLifecycle → Bool
state_allows_tree_mutations d = not (
    is in_style_recalc d.state
    || is in_perform_layout d.state
    || is in_compositing_update d.state
    || is in_pre_paint d.state
    || is in_paint d.state)
