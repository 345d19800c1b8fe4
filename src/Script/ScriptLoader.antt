-- ===== src/Script/ScriptLoader.antt =====
-- chromium/third_party/blink/renderer/core/script/script_loader.h and .cpp: the preparation of a
-- script element. An element is what the loader reads of it, its document and its frame at a call.
-- The registry of MIME types and the operations on strings are an interface. A failed assertion sets
-- `asserted` and is passed. The branches for modules assert, and leave no script.
pub mod Once
pub mod Calls
pub mod Schedule
pub mod Stuck
use blinkit.Prelude.{
  ℕ, Bool, true, false, not, ◌&&◌, ◌||◌, List, [], ◌∷◌, ◌++◌, Option, none, some, if◌then◌else◌,
  Bytes, codes, is_some, bytes_eq,
}

pub data ScriptType : Type 0 where
  classic module_script : ScriptType

-- `ScriptSourceLocationType`, of inline scripts.
pub data LocationType : Type 0 where
  inline_script inline_inside_generated_element inline_inside_document_write : LocationType

-- What becomes of a script: it is fetched, or made from the text of the element; it is executed at
-- once, with the URL of the document or none; it is queued at the script runner; the parser takes it.
pub data Effect : Type 0 where
  fetch queue_async parser_takes : Effect
  create_inline : LocationType → Effect
  execute_immediate : Bool → Effect

pub record Element : Type 0 where
  pub is_connected : Bool
  pub text_is_empty : Bool
  pub source : Option Bytes
  pub url_is_valid : Bool
  pub async_attribute : Bool
  pub nomodule_attribute : Bool
  pub type_attribute : Bytes
  pub language_attribute : Bytes
  pub event_attribute : Option Bytes
  pub for_attribute : Option Bytes
  pub has_executing_frame : Bool
  pub has_context_frame : Bool
  pub can_execute_scripts : Bool
  pub is_in_document_write : Bool
  pub is_script_execution_ready : Bool

pub record ScriptLoader : Type 0 where
  pub already_started : Bool
  pub parser_inserted : Bool
  pub non_blocking : Bool
  pub ready_to_be_parser_executed : Bool
  pub script_type : ScriptType
  pub is_external_script : Bool
  pub will_be_parser_executed : Bool
  pub prepared_pending_script : Bool
  pub effects : List Effect
  pub asserted : Bool

-- The constructor.
abbrev pub new_script_loader : Bool → Bool → ScriptLoader
new_script_loader parser_inserted already_started = record {
  already_started = already_started;
  parser_inserted = parser_inserted;
  non_blocking = not parser_inserted;
  ready_to_be_parser_executed = false;
  script_type = classic;
  is_external_script = false;
  will_be_parser_executed = false;
  prepared_pending_script = false;
  effects = [];
  asserted = false;
}

-- `MIMETypeRegistry` and the strings of WTF.
pub record Texts : Type 0 where
  pub is_supported_javascript_mime_type : Bytes → Bool
  pub is_legacy_supported_javascript_language : Bytes → Bool
  pub strip_white_space : Bytes → Bytes
  pub strip_html_spaces : Bytes → Bytes
  pub equal_ignoring_case : Bytes → Bytes → Bool

abbrev pub check : Bool → ScriptLoader → ScriptLoader
check b l = record l { asserted = l.asserted || not b }

abbrev pub add_effect : Effect → ScriptLoader → ScriptLoader
add_effect e l = record l { effects = l.effects ++ (e ∷ []) }

abbrev pub is_empty : Bytes → Bool
is_empty [] = true
is_empty (c ∷ cs) = false

abbrev pub is_classic : ScriptType → Bool
is_classic classic = true
is_classic module_script = false

-- `BlockForNoModule`
abbrev pub block_for_no_module : ScriptType → Bool → Bool
block_for_no_module t nomodule = nomodule && is_classic t

-- Steps 2 and 3.
unfoldable pub unset_parser_inserted : Element → ScriptLoader → ScriptLoader
unset_parser_inserted e l = record l {
  parser_inserted = false;
  non_blocking = l.non_blocking || (l.parser_inserted && not e.async_attribute);
}

-- Steps 8 and 9, with whether the element was inserted by a parser.
unfoldable pub start : Bool → ScriptType → ScriptLoader → ScriptLoader
start was_parser_inserted t l = record l {
  script_type = t;
  parser_inserted = was_parser_inserted;
  non_blocking = l.non_blocking && not was_parser_inserted;
  already_started = true;
}

unfoldable pub location_type : Element → ScriptLoader → LocationType
location_type e l =
    if not l.parser_inserted
    then inline_inside_generated_element
    else if e.is_in_document_write
    then inline_inside_document_write
    else inline_script

-- Step 25: an inline script.
unfoldable pub create_inline_script : Element → ScriptType → ScriptLoader → ScriptLoader
unfolding location_type
create_inline_script e classic l = record (add_effect (create_inline (location_type e l)) l) {
  prepared_pending_script = true;
}
create_inline_script e module_script l = check false l

-- `FetchClassicScript`, and the branch for modules.
unfoldable pub fetch_script : ScriptType → ScriptLoader → ScriptLoader
fetch_script classic l = record (add_effect fetch l) { prepared_pending_script = true }
fetch_script module_script l = check false l

-- `TakePendingScript`
unfoldable pub take_pending_script : ScriptLoader → ScriptLoader
take_pending_script l = record (check l.prepared_pending_script l) {
  prepared_pending_script = false;
}

-- Step 26, in the build without deferred scripts.
unfoldable pub schedule : Element → ScriptLoader → Bool × ScriptLoader
unfolding take_pending_script
schedule e l =
    let external = is_some e.source in
    let q = check l.prepared_pending_script l in
    if is_classic l.script_type && external && l.parser_inserted && not e.async_attribute
    then (true, record q { will_be_parser_executed = true })
    else if (external || not (is_classic l.script_type))
        && not e.async_attribute
        && not l.non_blocking
    then (true, check false q)
    else if external || not (is_classic l.script_type)
    then (true, add_effect queue_async (take_pending_script q))
    else if l.parser_inserted && not e.is_script_execution_ready
    then (true, record q { will_be_parser_executed = true; ready_to_be_parser_executed = true })
    else (
      true,
      add_effect (execute_immediate (not e.is_in_document_write && l.parser_inserted))
          (take_pending_script (check (not l.is_external_script) q)),
    )

module _ (texts : Texts) where
  -- `IsValidClassicScriptTypeAndLanguage`, which is never called with legacy types in `type`.
  unfoldable pub is_valid_classic_script_type_and_language : Bytes → Bytes → Bool
  is_valid_classic_script_type_and_language [] language =
      is_empty language
      || texts.is_supported_javascript_mime_type (codes "text/" ++ language)
      || texts.is_legacy_supported_javascript_language language
  is_valid_classic_script_type_and_language (c ∷ cs) language =
      texts.is_supported_javascript_mime_type (texts.strip_white_space (c ∷ cs))

  -- `IsValidScriptTypeAndLanguage`; `none` is `false`.
  unfoldable pub is_valid_script_type_and_language : Bytes → Bytes → Option ScriptType
  unfolding is_valid_classic_script_type_and_language bytes_eq
  is_valid_script_type_and_language type language =
      if is_valid_classic_script_type_and_language type language
      then some classic
      else if bytes_eq type (codes "module")
      then some module_script
      else none

  unfoldable pub event_and_for_supported : Option Bytes → Option Bytes → Bool
  event_and_for_supported none for = true
  event_and_for_supported (some event) none = true
  event_and_for_supported (some event) (some for) =
      let e = texts.strip_white_space event in
      texts.equal_ignoring_case (texts.strip_white_space for) (codes "window")
      && (texts.equal_ignoring_case e (codes "onload")
          || texts.equal_ignoring_case e (codes "onload()"))

  -- `IsScriptForEventSupported`
  unfoldable pub is_script_for_event_supported : Element → ScriptLoader → Bool
  unfolding event_and_for_supported
  is_script_for_event_supported e l =
      not (is_classic l.script_type) || event_and_for_supported e.event_attribute e.for_attribute

  -- Step 24: an external script, with the value of its attribute.
  unfoldable pub prepare_external : Element → Bytes → ScriptLoader → Bool × ScriptLoader
  unfolding fetch_script schedule
  prepare_external e src l =
      let q = record l { is_external_script = true } in
      if is_empty (texts.strip_html_spaces src)
      then (false, check false l)
      else if not e.url_is_valid
      then (false, check false q)
      else schedule e (fetch_script l.script_type q)

  -- Steps 24 and 25.
  unfoldable pub prepare_pending_script :
      Element → Option Bytes → ScriptLoader → Bool × ScriptLoader
  unfolding prepare_external create_inline_script schedule
  prepare_pending_script e none l = schedule e (create_inline_script e l.script_type l)
  prepare_pending_script e (some src) l = prepare_external e src l

  -- From step 8 on.
  unfoldable pub prepare_started : Element → ScriptLoader → Bool × ScriptLoader
  unfolding is_script_for_event_supported prepare_pending_script
  prepare_started e l =
      let q = check (not l.prepared_pending_script) l in
      if not (e.has_executing_frame && e.has_context_frame && e.can_execute_scripts)
        || block_for_no_module l.script_type e.nomodule_attribute
        || not (is_script_for_event_supported e l)
      then (false, l)
      else prepare_pending_script e e.source q

  -- Step 7: with the type of the script.
  unfoldable pub prepare_typed :
      Element → Bool → Option ScriptType → ScriptLoader → Bool × ScriptLoader
  unfolding start prepare_started
  prepare_typed e was_parser_inserted none l = (false, l)
  prepare_typed e was_parser_inserted (some t) l = prepare_started e (start was_parser_inserted t l)

  -- `PrepareScript`
  unfoldable pub prepare_script : Element → ScriptLoader → Bool × ScriptLoader
  unfolding unset_parser_inserted is_valid_script_type_and_language prepare_typed
  prepare_script e l =
      let q = unset_parser_inserted e l in
      if l.already_started
      then (false, l)
      else if (not (is_some e.source) && e.text_is_empty) || not e.is_connected
      then (false, q)
      else prepare_typed e l.parser_inserted
          (is_valid_script_type_and_language e.type_attribute e.language_attribute) q

  -- `ChildrenChanged`
  unfoldable pub children_changed : Element → ScriptLoader → ScriptLoader
  unfolding prepare_script
  children_changed e l =
      if not l.parser_inserted && e.is_connected then (prepare_script e l).1 else l

  -- `DidNotifySubtreeInsertionsToDocument`
  unfoldable pub did_notify_subtree_insertions_to_document : Element → ScriptLoader → ScriptLoader
  unfolding prepare_script
  did_notify_subtree_insertions_to_document e l =
      if not l.parser_inserted then (prepare_script e l).1 else l

  -- `HandleSourceAttribute`, with `IgnoresLoadRequest`.
  unfoldable pub handle_source_attribute : Bytes → Element → ScriptLoader → ScriptLoader
  unfolding prepare_script
  handle_source_attribute url e l =
      if l.already_started
        || l.is_external_script
        || l.parser_inserted
        || not e.is_connected
        || is_empty url
      then l
      else (prepare_script e l).1

-- The parser prepares an element at its end tag, and takes the script if it is to execute it
-- (`RequestParsingBlockingScript`). A script that is not there is dereferenced, behind an assertion.
unfoldable pub parser_take : ScriptLoader → ScriptLoader
unfolding take_pending_script
parser_take l =
    if l.will_be_parser_executed then add_effect parser_takes (take_pending_script l) else l
