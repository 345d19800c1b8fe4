-- ===== src/Script/ScriptLoader/Schedule.antt =====
-- What becomes of a script: step 26 of the preparation, from a new loader, and after a change of the
-- element.
use blinkit.Prelude.{
  Bool, true, false, not, ◌&&◌, ◌||◌, [], ◌∷◌, ◌≡◌, refl, ◌∙◌, ap, Option, some, if◌then◌else◌,
  Bytes, is_some, arith,
}
use blinkit.Script.ScriptLoader.{
  ScriptType, check, Element, ScriptLoader, new_script_loader, Texts, is_empty,
  unset_parser_inserted, start, schedule, fetch_script, prepare_script, fetch, queue_async, classic,
  is_valid_script_type_and_language, event_and_for_supported, prepare_typed, prepare_started,
  prepare_pending_script, prepare_external,
}

module _ (texts : Texts) where
  -- A connected element with a classic script that nothing forbids.
  pub record IsEligible (e : Element) : Type 0 where
    pub connected : e.is_connected ≡ true
    pub type :
        is_valid_script_type_and_language texts e.type_attribute e.language_attribute ≡ some classic
    pub executing : e.has_executing_frame ≡ true
    pub context : e.has_context_frame ≡ true
    pub can_execute : e.can_execute_scripts ≡ true
    pub module_allowed : e.nomodule_attribute ≡ false
    pub event : event_and_for_supported texts e.event_attribute e.for_attribute ≡ true

  typed :
      (e : Element) (l : ScriptLoader)
      → IsEligible e
      → l.already_started ≡ false
      → (is_some e.source || not e.text_is_empty) ≡ true
      → prepare_script texts e l
        ≡ prepare_typed texts e l.parser_inserted (some classic) (unset_parser_inserted e l)
  unfolding prepare_script
  typed e l i s t =
      let q = unset_parser_inserted e l in
      let k = ap (λ (o : Option ScriptType). prepare_typed texts e l.parser_inserted o q) i.type in
      ground arith

  started :
      (e : Element) (o : Option Bytes) (l : ScriptLoader)
      → IsEligible e
      → e.source ≡ o
      → l.script_type ≡ classic
      → l.prepared_pending_script ≡ false
      → prepare_started texts e l
        ≡ prepare_pending_script texts e o (check (not l.prepared_pending_script) l)
  unfolding prepare_started
  started e o l i s t p =
      let q = check (not l.prepared_pending_script) l in
      let k = ap (λ (r : Option Bytes). prepare_pending_script texts e r q) s in ground arith

  prepare_external_lem :
      (e : Element) (src : Bytes) (l : ScriptLoader)
      → e.url_is_valid ≡ true
      → is_empty (texts.strip_html_spaces src) ≡ false
      → prepare_external texts e src l
        ≡ schedule e (fetch_script l.script_type (record l { is_external_script = true }))
  unfolding prepare_external
  prepare_external_lem e src l u h = ground arith

  pub fetched :
      (e : Element) (src : Bytes) (l : ScriptLoader)
      → IsEligible e
      → l.already_started ≡ false
      → l.prepared_pending_script ≡ false
      → e.source ≡ some src
      → e.url_is_valid ≡ true
      → is_empty (texts.strip_html_spaces src) ≡ false
      → let q = start l.parser_inserted classic (unset_parser_inserted e l) in
        prepare_script texts e l
        ≡ schedule e (
            fetch_script classic
              (record (check (not q.prepared_pending_script) q) { is_external_script = true }))
  unfolding start unset_parser_inserted prepare_pending_script prepare_typed prepare_started
  fetched e src l i s p o u h =
      let q = start l.parser_inserted classic (unset_parser_inserted e l) in
      typed e l i s (ground arith)
      ∙ started e (some src) q i o refl p
      ∙ prepare_external_lem e src (check (not q.prepared_pending_script) q) u h

  -- A new element with an external script that may run, with a source that is neither empty nor
  -- invalid: the script is fetched, and the parser takes it later if it has inserted the element and
  -- there is no `async`; otherwise it is queued. No assertion fails.
  pub prepare_script-external :
      (parser_inserted : Bool) (e : Element) (src : Bytes)
      → IsEligible e
      → e.source ≡ some src
      → e.url_is_valid ≡ true
      → is_empty (texts.strip_html_spaces src) ≡ false
      → let blocks = parser_inserted && not e.async_attribute in
        let (prepared, l) = prepare_script texts e (new_script_loader parser_inserted false) in
        (prepared ≡ true)
        × (l.effects ≡ fetch ∷ (if blocks then [] else queue_async ∷ []))
        × (l.will_be_parser_executed ≡ blocks)
        × (l.prepared_pending_script ≡ blocks)
        × (l.already_started ≡ true)
        × (l.asserted ≡ false)
  unfolding schedule start unset_parser_inserted fetch_script
  prepare_script-external parser_inserted e src i o u h =
      let f = fetched e src (new_script_loader parser_inserted false) i refl refl o u h in
      ground arith
