-- ===== src/Script/ScriptLoader/Calls.antt =====
-- A script element over all calls to its loader.
use blinkit.Prelude.{
  ℕ, ◌+◌, count_if, ◌≤◌, Bool, true, false, List, [], ◌∷◌, ◌≡◌, if◌then◌else◌, Bytes, arith,
  Bool-cases, inl, inr, ◌⊎◌,
}
use blinkit.Script.ScriptLoader.{
  Element, ScriptLoader, new_script_loader, Texts, prepare_script, children_changed,
  did_notify_subtree_insertions_to_document, handle_source_attribute, parser_take,
}
use blinkit.Script.ScriptLoader.Once.{IsOnce, made, used, take-IsOnce, prepare-IsOnce}

-- The calls to a loader: from the tree, from the element, and by the parser at the end tag.
pub data Call : Type 0 where
  changes notifies parses : Element → Call
  sets_source : Bytes → Element → Call

abbrev pub is_parse : Call → Bool
is_parse (parses e) = true
is_parse _ = false

abbrev to_ℕ : Bool → ℕ
to_ℕ true = 1
to_ℕ false = 0

if-IsOnce :
    {b : Bool} (c : Bool) (x y : ScriptLoader)
    → IsOnce b x
    → IsOnce b y
    → IsOnce b (if c then x else y)
if-IsOnce true x y h k = h
if-IsOnce false x y h k = k

new-IsOnce :
    (parser_inserted already_started : Bool)
    → IsOnce false (new_script_loader parser_inserted already_started)
unfolding made used
new-IsOnce parser_inserted already_started = ground arith

module _ (texts : Texts) where
  unfoldable pub call : Call → ScriptLoader → ScriptLoader
  call (changes e) l = children_changed texts e l
  call (notifies e) l = did_notify_subtree_insertions_to_document texts e l
  call (parses e) l = parser_take (prepare_script texts e l).1
  call (sets_source url e) l = handle_source_attribute texts url e l

  unfoldable pub call_all : List Call → ScriptLoader → ScriptLoader
  unfolding call
  call_all [] l = l
  call_all (c ∷ cs) l = call_all cs (call c l)

  prepared-IsOnce :
      {b : Bool} (c : Bool) (e : Element) (l : ScriptLoader)
      → IsOnce b l
      → IsOnce b (if c then (prepare_script texts e l).1 else l)
  prepared-IsOnce c e l o =
      if-IsOnce c (prepare_script texts e l).1 l (prepare-IsOnce texts e l o) o

  -- The parser comes once, at the end tag.
  call_all-IsOnce :
      (cs : List Call) (b : Bool) (l : ScriptLoader)
      → IsOnce b l
      → count_if is_parse cs + to_ℕ b ≤ 1
      → (c : Bool) × IsOnce c (call_all cs l)
  unfolding call_all call children_changed did_notify_subtree_insertions_to_document
      handle_source_attribute
  call_all-IsOnce [] b l o n = (b, o)
  call_all-IsOnce (changes e ∷ cs) b l o n =
      call_all-IsOnce cs b _ (prepared-IsOnce _ e l o) (omega arith)
  call_all-IsOnce (notifies e ∷ cs) b l o n =
      call_all-IsOnce cs b _ (prepared-IsOnce _ e l o) (omega arith)
  call_all-IsOnce (parses e ∷ cs) false l o n =
      call_all-IsOnce cs true _
        (take-IsOnce (prepare_script texts e l).1 (prepare-IsOnce texts e l o)) (omega arith)
  call_all-IsOnce (parses e ∷ cs) true l o n = absurd (omega arith)
  call_all-IsOnce (sets_source url e ∷ cs) b l o n =
      call_all-IsOnce cs b _
        (if-IsOnce _ l (prepare_script texts e l).1 o (prepare-IsOnce texts e l o)) (omega arith)

  -- Whatever calls come, that of the parser at the end tag once at most, and whatever the element, its
  -- document and its frame are at each of them: from its creation on, a script element has one script
  -- made for it at most, and one script of its is executed, queued or taken by the parser at most, none
  -- of them before it has started.
  pub call_all-once :
      (cs : List Call) (parser_inserted already_started : Bool)
      → count_if is_parse cs ≤ 1
      → let l = call_all cs (new_script_loader parser_inserted already_started) in
        (made l.effects ≤ 1)
        × (used l.effects ≤ 1)
        × ((l.already_started ≡ true) ⊎ (l.effects ≡ []))
  call_all-once cs parser_inserted already_started n =
      let l = new_script_loader parser_inserted already_started in
      let (b, o) =
        call_all-IsOnce cs false l (new-IsOnce parser_inserted already_started) (omega arith) in
      let c = call_all cs l in
      elim (Bool-cases c.already_started) [
        | inl s ↦ (o.made_once, omega (arith, o.used_once), inl s)
        | inr z ↦ (o.made_once, omega (arith, o.used_once), inr (o.not_started z).0)
      ]
