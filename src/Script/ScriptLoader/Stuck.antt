-- ===== src/Script/ScriptLoader/Stuck.antt =====
-- A script element that the parser has prepared with `async` and nothing to run, and that is given a
-- source without `async` later.
use blinkit.Prelude.{
  ℕ, Bool, true, false, not, ◌||◌, List, [], ◌∷◌, ◌≡◌, refl, ◌∙◌, ap, none, some, if◌then◌else◌,
  Bytes, is_some, arith,
}
use blinkit.Script.ScriptLoader.{
  Element, ScriptLoader, new_script_loader, Texts, is_empty, unset_parser_inserted, start, schedule,
  fetch_script, prepare_script, children_changed, fetch, classic,
  did_notify_subtree_insertions_to_document, handle_source_attribute, parser_take, check,
}
use blinkit.Script.ScriptLoader.Calls.{Call, changes, notifies, parses, sets_source, call, call_all}
use blinkit.Script.ScriptLoader.Schedule.{IsEligible, fetched}

-- The loader after the parser has prepared the empty element.
abbrev prepared_empty : ScriptLoader
prepared_empty = record (new_script_loader true false) { parser_inserted = false }

if_same : (b : Bool) (x y : ScriptLoader) → x ≡ y → (if b then x else y) ≡ y
if_same true x y e = e
if_same false x y e = refl

if_same_else : (b : Bool) (x y : ScriptLoader) → x ≡ y → (if b then y else x) ≡ y
if_same_else true x y e = refl
if_same_else false x y e = e

parser_take-not_awaited : (l : ScriptLoader) → l.will_be_parser_executed ≡ false → parser_take l ≡ l
unfolding parser_take
parser_take-not_awaited l w = ground arith

-- What `schedule` leaves of it.
schedule-in_order :
    (f : Element) (l : ScriptLoader)
    → f.async_attribute ≡ false
    → is_some f.source ≡ true
    → l.script_type ≡ classic
    → l.parser_inserted ≡ false
    → l.non_blocking ≡ false
    → l.prepared_pending_script ≡ true
    → (schedule f l).1 ≡ record l { asserted = true }
unfolding schedule
schedule-in_order f l a s t p n r = ground arith

module _ (texts : Texts) where
  prepare_script-empty :
      (e : Element)
      → e.source ≡ none
      → e.text_is_empty ≡ true
      → e.async_attribute ≡ true
      → prepare_script texts e (new_script_loader true false) ≡ (false, prepared_empty)
  unfolding prepare_script
  prepare_script-empty e s t a = ground arith

  started_already :
      (e : Element) (l : ScriptLoader)
      → l.already_started ≡ true
      → prepare_script texts e l ≡ (false, l)
  unfolding prepare_script
  started_already e l s = ground arith

  -- A loader that has started, and that the parser does not wait for, does nothing more.
  call-started :
      (c : Call) (l : ScriptLoader)
      → l.already_started ≡ true
      → l.will_be_parser_executed ≡ false
      → call texts c l ≡ l
  unfolding call children_changed did_notify_subtree_insertions_to_document handle_source_attribute
  call-started (changes e) l s w =
      if_same _ (prepare_script texts e l).1 l
        (ap (λ (q : Bool × ScriptLoader). q.1) (started_already e l s))
  call-started (notifies e) l s w =
      if_same _ (prepare_script texts e l).1 l
        (ap (λ (q : Bool × ScriptLoader). q.1) (started_already e l s))
  call-started (parses e) l s w =
      ap (λ (q : Bool × ScriptLoader). parser_take q.1) (started_already e l s)
      ∙ parser_take-not_awaited l w
  call-started (sets_source url e) l s w =
      if_same_else _ (prepare_script texts e l).1 l
        (ap (λ (q : Bool × ScriptLoader). q.1) (started_already e l s))

  call_all-started :
      (cs : List Call) (l : ScriptLoader)
      → l.already_started ≡ true
      → l.will_be_parser_executed ≡ false
      → call_all texts cs l ≡ l
  unfolding call_all
  call_all-started [] l s w = refl
  call_all-started (c ∷ cs) l s w =
      ap (call_all texts cs) (call-started c l s w) ∙ call_all-started cs l s w

  source_set :
      (f : Element) (src : Bytes) (c : ℕ) (url : Bytes)
      → IsEligible texts f
      → f.source ≡ some src
      → f.url_is_valid ≡ true
      → is_empty (texts.strip_html_spaces src) ≡ false
      → f.async_attribute ≡ false
      → let q = handle_source_attribute texts (c ∷ url) f prepared_empty in
        (q.effects ≡ fetch ∷ [])
        × (q.prepared_pending_script ≡ true)
        × (q.asserted ≡ true)
        × (q.already_started ≡ true)
        × (q.will_be_parser_executed ≡ false)
  unfolding handle_source_attribute fetch_script start unset_parser_inserted
  source_set f src c url i o u h n =
      let q = start false classic (unset_parser_inserted f prepared_empty) in
      let l =
        fetch_script classic
          (record (check (not q.prepared_pending_script) q) { is_external_script = true }) in
      let k : handle_source_attribute texts (c ∷ url) f prepared_empty
          ≡ (prepare_script texts f prepared_empty).1 =
        ap
          (λ (b : Bool).
            if not b || false then prepared_empty else (prepare_script texts f prepared_empty).1)
          i.connected in
      let x =
        k
        ∙ ap (λ (r : Bool × ScriptLoader). r.1)
            (fetched texts f src prepared_empty i refl refl o u h)
        ∙ schedule-in_order f l n (ap is_some o) refl refl (ground arith) refl in
      (
        ap (λ (r : ScriptLoader). r.effects) x,
        ap (λ (r : ScriptLoader). r.prepared_pending_script) x,
        ap (λ (r : ScriptLoader). r.asserted) x,
        ap (λ (r : ScriptLoader). r.already_started) x,
        ap (λ (r : ScriptLoader). r.will_be_parser_executed) x,
      )

  -- The parser prepares an element that has `async` and neither source nor text. When the element later
  -- gets a source, and has no `async` then, the script is fetched and an assertion fails: it is left
  -- with the loader, and whatever calls come, it is never executed, queued or taken. It is a bug.
  pub handle_source_attribute-stuck :
      (e f : Element) (src : Bytes) (c : ℕ) (url : Bytes) (cs : List Call)
      → e.source ≡ none
      → e.text_is_empty ≡ true
      → e.async_attribute ≡ true
      → IsEligible texts f
      → f.source ≡ some src
      → f.url_is_valid ≡ true
      → is_empty (texts.strip_html_spaces src) ≡ false
      → f.async_attribute ≡ false
      → let l =
          call_all texts (parses e ∷ sets_source (c ∷ url) f ∷ cs) (new_script_loader true false) in
        (l.effects ≡ fetch ∷ []) × (l.prepared_pending_script ≡ true) × (l.asserted ≡ true)
  unfolding call_all call
  handle_source_attribute-stuck e f src c url cs s t a i o u h n =
      let p =
        ap (λ (q : Bool × ScriptLoader). parser_take q.1) (prepare_script-empty e s t a)
        ∙ parser_take-not_awaited prepared_empty refl in
      let q = handle_source_attribute texts (c ∷ url) f prepared_empty in
      let z = source_set f src c url i o u h n in
      let w = ap (handle_source_attribute texts (c ∷ url) f) p in
      let y = ap (call_all texts cs) w ∙ call_all-started cs q z.3 z.4 in
      (
        ap (λ (r : ScriptLoader). r.effects) y ∙ z.0,
        ap (λ (r : ScriptLoader). r.prepared_pending_script) y ∙ z.1,
        ap (λ (r : ScriptLoader). r.asserted) y ∙ z.2,
      )
