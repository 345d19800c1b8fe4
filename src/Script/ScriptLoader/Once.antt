-- ===== src/Script/ScriptLoader/Once.antt =====
-- A script element over all calls to its loader: one script at most.
use blinkit.Prelude.{
  ℕ, ◌+◌, ◌≤◌, Bool, true, false, not, ◌&&◌, ◌||◌, List, [], ◌∷◌, ◌++◌, ◌≡◌, refl, ap, Option, none,
  some, if◌then◌else◌, Bytes, is_some, arith,
}
use blinkit.Script.ScriptLoader.{
  location_type, ScriptType, classic, module_script, Effect, fetch, queue_async, parser_takes,
  create_inline, execute_immediate, Element, ScriptLoader, Texts, is_empty, check,
  unset_parser_inserted, start, create_inline_script, fetch_script, schedule,
  is_valid_script_type_and_language, prepare_external, prepare_pending_script, prepare_started,
  prepare_typed, prepare_script, parser_take,
}

makes_script : Effect → ℕ
makes_script fetch = 1
makes_script (create_inline t) = 1
makes_script _ = 0

uses_script : Effect → ℕ
uses_script queue_async = 1
uses_script parser_takes = 1
uses_script (execute_immediate url) = 1
uses_script _ = 0

-- How many scripts were made, and how many were executed, queued or taken.
unfoldable pub made : List Effect → ℕ
unfolding makes_script
made [] = 0
made (e ∷ es) = makes_script e + made es

unfoldable pub used : List Effect → ℕ
unfolding uses_script
used [] = 0
used (e ∷ es) = uses_script e + used es

made-append : (es : List Effect) (e : Effect) → made (es ++ e ∷ []) ≡ made es + makes_script e
unfolding made
made-append [] e = omega arith
made-append (x ∷ es) e = omega (arith, made-append es e)

used-append : (es : List Effect) (e : Effect) → used (es ++ e ∷ []) ≡ used es + uses_script e
unfolding used
used-append [] e = omega arith
used-append (x ∷ es) e = omega (arith, used-append es e)

abbrev pub held : Bool → ℕ
held true = 1
held false = 0

-- One script at most; and none before the element has started.
pub record IsOnce (parsed : Bool) (l : ScriptLoader) : Type 0 where
  pub made_once : made l.effects ≤ 1
  pub used_once : used l.effects + held l.prepared_pending_script ≤ 1
  pub not_started :
      l.already_started ≡ false
      → (l.effects ≡ []) × (l.prepared_pending_script ≡ false) × (l.will_be_parser_executed ≡ false)
  pub waits : parsed ≡ false → l.will_be_parser_executed ≡ true → used l.effects ≡ 0

pub take-IsOnce : (l : ScriptLoader) → IsOnce false l → IsOnce true (parser_take l)
unfolding parser_take made uses_script
take-IsOnce l o =
    ground (arith, made-append l.effects parser_takes, used-append l.effects parser_takes)

if-IsOnce :
    {b : Bool} (c : Bool) (x y : Bool × ScriptLoader)
    → IsOnce b x.1
    → (c ≡ false → IsOnce b y.1)
    → IsOnce b (if c then x else y).1
if-IsOnce true x y h k = h
if-IsOnce false x y h k = k refl

-- The last step: what is held is used, or held.
schedule-IsOnce :
    {b : Bool} (e : Element) (l : ScriptLoader)
    → made l.effects ≤ 1
    → used l.effects ≡ 0
    → l.already_started ≡ true
    → l.will_be_parser_executed ≡ false
    → IsOnce b (schedule e l).1
unfolding schedule made uses_script
schedule-IsOnce e l m u s w =
    let x = not e.is_in_document_write && l.parser_inserted in
    ground (
      arith,
      made-append l.effects queue_async,
      used-append l.effects queue_async,
      made-append l.effects (execute_immediate x),
      used-append l.effects (execute_immediate x),
    )

-- A loader that has started with nothing made yet.
record IsFresh (l : ScriptLoader) : Type 0 where
  pub effects : l.effects ≡ []
  pub prepared : l.prepared_pending_script ≡ false
  pub started : l.already_started ≡ true
  pub waiting : l.will_be_parser_executed ≡ false

made-nil : {l : ScriptLoader} → IsFresh l → (made l.effects ≡ 0) × (used l.effects ≡ 0)
unfolding made used
made-nil f = (ap made f.effects, ap used f.effects)

IsFresh-IsOnce : {b : Bool} {l : ScriptLoader} → IsFresh l → IsOnce b l
IsFresh-IsOnce f = let n = made-nil f in ground arith

-- A script is made, unless it is a module.
create-made :
    (e : Element) (t : ScriptType) (l : ScriptLoader)
    → IsFresh l
    → let q = create_inline_script e t l in
      (made q.effects ≤ 1)
      × (used q.effects ≡ 0)
      × (q.already_started ≡ true)
      × (q.will_be_parser_executed ≡ false)
unfolding create_inline_script makes_script uses_script
create-made e classic l f =
    let c = create_inline (location_type e l) in
    let n = made-nil f in ground (arith, made-append l.effects c, used-append l.effects c)
create-made e module_script l f = let n = made-nil f in ground arith

fetch-made :
    (t : ScriptType) (l : ScriptLoader)
    → IsFresh l
    → let q = fetch_script t l in
      (made q.effects ≤ 1)
      × (used q.effects ≡ 0)
      × (q.already_started ≡ true)
      × (q.will_be_parser_executed ≡ false)
unfolding fetch_script makes_script uses_script
fetch-made classic l f =
    let n = made-nil f in ground (arith, made-append l.effects fetch, used-append l.effects fetch)
fetch-made module_script l f = let n = made-nil f in ground arith

fresh :
    (was : Bool) (t : ScriptType) (l : ScriptLoader)
    → l.effects ≡ []
    → l.prepared_pending_script ≡ false
    → l.will_be_parser_executed ≡ false
    → IsFresh (start was t l)
unfolding start
fresh was t l n p w = ground arith

module _ (texts : Texts) where
  external-IsOnce :
      {b : Bool} (e : Element) (src : Bytes) (l : ScriptLoader)
      → IsFresh l
      → IsOnce b (prepare_external texts e src l).1
  unfolding prepare_external
  external-IsOnce e src l f =
      let q = record l { is_external_script = true } in
      let g : IsFresh q = ground arith in
      let (m, u, s, w) = fetch-made l.script_type q g in
      if-IsOnce (is_empty (texts.strip_html_spaces src)) (false, check false l) _
        (IsFresh-IsOnce (ground arith))
        (λ h.
          if-IsOnce (not e.url_is_valid) (false, check false q) _ (IsFresh-IsOnce (ground arith))
            (λ k. schedule-IsOnce e (fetch_script l.script_type q) m u s w))

  pending-IsOnce :
      {b : Bool} (e : Element) (o : Option Bytes) (l : ScriptLoader)
      → IsFresh l
      → IsOnce b (prepare_pending_script texts e o l).1
  unfolding prepare_pending_script
  pending-IsOnce e none l f =
      let q = create_inline_script e l.script_type l in
      let (m, u, s, w) = create-made e l.script_type l f in schedule-IsOnce e q m u s w
  pending-IsOnce e (some src) l f = external-IsOnce e src l f

  started-IsOnce :
      {b : Bool} (e : Element) (l : ScriptLoader)
      → IsFresh l
      → IsOnce b (prepare_started texts e l).1
  unfolding prepare_started
  started-IsOnce e l f =
      let q = check (not l.prepared_pending_script) l in
      let p = pending-IsOnce e e.source q (ground arith) in
      if-IsOnce _ (false, l) (prepare_pending_script texts e e.source q) (IsFresh-IsOnce f) (λ h. p)

  typed-IsOnce :
      {b : Bool} (e : Element) (was : Bool) (o : Option ScriptType) (l : ScriptLoader)
      → l.effects ≡ []
      → l.prepared_pending_script ≡ false
      → l.will_be_parser_executed ≡ false
      → IsOnce b l
      → IsOnce b (prepare_typed texts e was o l).1
  unfolding prepare_typed
  typed-IsOnce e was none l n p w o = o
  typed-IsOnce e was (some t) l n p w o = started-IsOnce e (start was t l) (fresh was t l n p w)

  unset-IsOnce :
      {b : Bool} (e : Element) (l : ScriptLoader)
      → IsOnce b l
      → IsOnce b (unset_parser_inserted e l)
  unfolding unset_parser_inserted
  unset-IsOnce e l o = ground arith

  pub prepare-IsOnce :
      {b : Bool} (e : Element) (l : ScriptLoader)
      → IsOnce b l
      → IsOnce b (prepare_script texts e l).1
  unfolding prepare_script
  prepare-IsOnce e l o =
      let q = unset_parser_inserted e l in
      let t = is_valid_script_type_and_language texts e.type_attribute e.language_attribute in
      if-IsOnce l.already_started (false, l) _ o
        (λ s.
          let n = o.not_started s in
          if-IsOnce ((not (is_some e.source) && e.text_is_empty) || not e.is_connected) (false, q)
            (prepare_typed texts e l.parser_inserted t q) (unset-IsOnce e l o)
            (λ h. typed-IsOnce e l.parser_inserted t q n.0 n.1 n.2 (unset-IsOnce e l o)))
