-- ===== src/Script/LoadingTests.antt =====
-- Tests and concrete instances of the theorems on the loading, preparation and execution of scripts.
use blinkit.Prelude.{
  arith, ◌≤◌, true, false, not, ◌&&◌, [], ◌∷◌, ◌≡◌, refl, none, some, codes, bytes_eq,
  if◌then◌else◌, ◌⊎◌, is_some,
}
use blinkit.Script.ClassicPendingScript.{Resource, PendingScript, new_pending_script, parser}
use blinkit.Script.ClassicPendingScript.Loading.{
  Source, finish_resource, start_streaming_if_possible, watch_for_load, data_received,
}
use blinkit.Script.ClassicPendingScript.Finish.{is_orphaned}
use blinkit.Script.ClassicPendingScript.Finish.{
  Loads, fetched, starts, receives, watches, end_state, told, drops, Loads-finish_resource,
}
use blinkit.Script.ClassicPendingScript.Execution.{
  Document, IsBalanced, execute_script_block, execute_script_block_balanced,
}
use blinkit.Script.ScriptLoader.{
  Element, Texts, new_script_loader, prepare_script, fetch, queue_async,
  is_valid_script_type_and_language, event_and_for_supported,
}
use blinkit.Script.ScriptLoader.Once.{made, used}
use blinkit.Script.ScriptLoader.Calls.{parses, sets_source, changes, call_all, call_all-once}
use blinkit.Script.ScriptLoader.Schedule.{IsEligible, prepare_script-external}
use blinkit.Script.ScriptLoader.Stuck.{handle_source_attribute-stuck}

abbrev on_http : Resource
on_http = record {
  is_loaded = false;
  error = false;
  was_canceled = false;
  buffer = none;
  is_http = true;
}

-- Streamed, watched by the parser, with two pieces of data.
abbrev loading : PendingScript
loading = data_received 40000 (
    data_received 20000 (
      watch_for_load false parser
        (start_streaming_if_possible false true false (new_pending_script (some on_http))).1))

loading-Loads : Loads loading
unfolding start_streaming_if_possible
loading-Loads =
    receives 40000
      (receives 20000 (watches false parser refl (starts false true false refl (fetched on_http))))

Loads-finish_resource_example :
    let q = finish_resource true false false loading in
    (q.ready_state ≡ end_state false)
    × (q.notified ≡ told loading.client)
    × (q.is_currently_streaming ≡ false)
    × (q.asserted ≡ is_orphaned loading.client)
    × (q.misuse ≡ (drops true loading.client && not (is_some loading.streamer)))
Loads-finish_resource_example = Loads-finish_resource loading-Loads true false false

abbrev empty_document : Document
empty_document = record { ignore_destructive_write_count = 0; current_scripts = []; events = [] }

abbrev does_nothing : Source → Document → Document
does_nothing s d = d

does_nothing-IsBalanced : IsBalanced does_nothing
does_nothing-IsBalanced = record { count = λ s d. refl; stack = λ s d. refl }

execute_script_block_balanced_example :
    let (q, r) =
      execute_script_block does_nothing true false 5 (new_pending_script none) empty_document in
    (r.ignore_destructive_write_count ≡ empty_document.ignore_destructive_write_count)
    × (r.current_scripts ≡ empty_document.current_scripts)
    × (q.element ≡ false)
    × (q.client ≡ none)
    × (is_some q.streamer ≡ false)
    × (is_some q.resource ≡ false)
execute_script_block_balanced_example =
    execute_script_block_balanced does_nothing does_nothing-IsBalanced true false 5
      (new_pending_script none) empty_document

abbrev plain_texts : Texts
plain_texts = record {
  is_supported_javascript_mime_type = λ t. bytes_eq t (codes "text/javascript");
  is_legacy_supported_javascript_language = λ t. false;
  strip_white_space = λ t. t;
  strip_html_spaces = λ t. t;
  equal_ignoring_case = bytes_eq;
}

abbrev inline_element : Element
inline_element = record {
  is_connected = true;
  text_is_empty = false;
  source = none;
  url_is_valid = true;
  async_attribute = false;
  nomodule_attribute = false;
  type_attribute = [];
  language_attribute = [];
  event_attribute = none;
  for_attribute = none;
  has_executing_frame = true;
  has_context_frame = true;
  can_execute_scripts = true;
  is_in_document_write = false;
  is_script_execution_ready = true;
}

abbrev external_element : Element
external_element = record inline_element { source = some (codes "a.js"); text_is_empty = true }

abbrev empty_async_element : Element
empty_async_element = record inline_element { text_is_empty = true; async_attribute = true }

external_element-IsEligible : IsEligible plain_texts external_element
unfolding is_valid_script_type_and_language event_and_for_supported
external_element-IsEligible = record {
  connected = refl;
  type = refl;
  executing = refl;
  context = refl;
  can_execute = refl;
  module_allowed = refl;
  event = refl;
}

call_all-once_example :
    let l =
      call_all plain_texts
        (parses external_element ∷ changes external_element ∷ [])
        (new_script_loader true false) in
    (made l.effects ≤ 1) × (used l.effects ≤ 1) × ((l.already_started ≡ true) ⊎ (l.effects ≡ []))
call_all-once_example =
    call_all-once plain_texts (parses external_element ∷ changes external_element ∷ []) true false
      (omega arith)

prepare_script-external_example :
    let blocks = true && not external_element.async_attribute in
    let (prepared, l) =
      prepare_script plain_texts external_element (new_script_loader true false) in
    (prepared ≡ true)
    × (l.effects ≡ fetch ∷ (if blocks then [] else queue_async ∷ []))
    × (l.will_be_parser_executed ≡ blocks)
    × (l.prepared_pending_script ≡ blocks)
    × (l.already_started ≡ true)
    × (l.asserted ≡ false)
prepare_script-external_example =
    prepare_script-external plain_texts true external_element (codes "a.js")
      external_element-IsEligible refl refl refl

handle_source_attribute-stuck_example :
    let l =
      call_all plain_texts
        (parses empty_async_element ∷ sets_source (codes "a.js") external_element ∷ [])
        (new_script_loader true false) in
    (l.effects ≡ fetch ∷ []) × (l.prepared_pending_script ≡ true) × (l.asserted ≡ true)
handle_source_attribute-stuck_example =
    handle_source_attribute-stuck plain_texts empty_async_element external_element (codes "a.js")
      b'a' (codes ".js") [] refl refl refl external_element-IsEligible refl refl refl refl
