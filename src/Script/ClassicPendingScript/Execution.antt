-- ===== src/Script/ClassicPendingScript/Execution.antt =====
-- pending_script.cpp, `ExecuteScriptBlock`: the execution of a script, with the counter and the stack
-- of its document. What the script does to the document while it runs is an argument.
use blinkit.Prelude.{
  ℕ, ◌+◌, ◌-◌, Bool, true, false, ◌&&◌, ◌||◌, List, [], ◌∷◌, ◌++◌, ◌≡◌, refl, ap, Option, none,
  some, if◌then◌else◌, is_some, arith,
}
use blinkit.Script.ClassicPendingScript.{PendingScript, Client, error_occurred, Resource, dispose}
use blinkit.Script.ScriptStreamer.{Streamer}
use blinkit.Script.ClassicPendingScript.Loading.{Source, get_source, finish_resource}
use blinkit.Script.ClassicPendingScript.Finish.{Loads, Loads-finish_resource}

pub data ElementEvent : Type 0 where
  error_event load_event : ℕ → ElementEvent

-- A document: `m_ignoreDestructiveWriteCount`, the stack of `currentScript`, and the events that its
-- script elements have had; an element is a number.
pub record Document : Type 0 where
  pub ignore_destructive_write_count : ℕ
  pub current_scripts : List ℕ
  pub events : List ElementEvent

abbrev pub dispatch : ElementEvent → Document → Document
dispatch e d = record d { events = d.events ++ (e ∷ []) }

-- `PopCurrentScript`
abbrev pub pop_current_script : List ℕ → List ℕ
pop_current_script [] = []
pop_current_script (s ∷ ss) = ss

-- The scope of the counter and of the current script around `RunScript`.
unfoldable pub run_script : (Source → Document → Document) → Bool → ℕ → Source → Document → Document
run_script run needs_increment element source d =
    let n : ℕ = if needs_increment then 1 else 0 in
    let r = run source (record d {
      ignore_destructive_write_count = d.ignore_destructive_write_count + n;
      current_scripts = element ∷ d.current_scripts;
    }) in
    record r {
      ignore_destructive_write_count = r.ignore_destructive_write_count - n;
      current_scripts = pop_current_script r.current_scripts;
    }

-- `ExecuteScriptBlockInternal`; `imported` says that the document of the element is not the context
-- document.
unfoldable pub execute_script_block_internal :
    (Source → Document → Document) → Option Source → Bool → Bool → Bool → ℕ → Document → Document
unfolding run_script
execute_script_block_internal run none canceled external imported element d =
    dispatch (error_event element) d
execute_script_block_internal run (some source) canceled external imported element d =
    let r = run_script run (external || imported) element source d in
    if canceled then d else if external then dispatch (load_event element) r else r

abbrev pub resource_canceled : Option Resource → Bool
resource_canceled none = false
resource_canceled (some r) = r.was_canceled

-- `WasCanceled`
unfoldable pub was_canceled : PendingScript → Bool
was_canceled p = p.is_external && resource_canceled p.resource

-- `ExecuteScriptBlock`; `active` says that the context document and its frame are there.
unfoldable pub execute_script_block :
    (Source → Document → Document)
    → Bool
    → Bool
    → ℕ
    → PendingScript
    → Document
    → PendingScript × Document
unfolding dispose execute_script_block_internal was_canceled
execute_script_block run active imported element p d = (
  dispose p,
  if active
      then execute_script_block_internal run (get_source p) (was_canceled p) p.is_external imported
          element d
      else d,
)

dispose_lem :
    (c : Option Client) (t : Option Streamer) (p : PendingScript)
    → p.client ≡ c
    → p.streamer ≡ t
    → let q = dispose p in
      (q.client ≡ none) × (is_some q.streamer ≡ false) × (is_some q.resource ≡ false)
unfolding dispose
dispose_lem none none p c t = ground arith
dispose_lem none (some s) p c t = ground arith
dispose_lem (some d) none p c t = ground arith
dispose_lem (some d) (some s) p c t = ground arith

-- Scripts that a script runs while it runs, and itself, put the counter and the stack back.
pub record IsBalanced (run : Source → Document → Document) : Type 0 where
  pub count :
      (s : Source) (d : Document)
      → (run s d).ignore_destructive_write_count ≡ d.ignore_destructive_write_count
  pub stack : (s : Source) (d : Document) → (run s d).current_scripts ≡ d.current_scripts

module _ (run : Source → Document → Document) (balanced : IsBalanced run) where
  run_script_balanced :
      (needs_increment : Bool) (element : ℕ) (source : Source) (d : Document)
      → let r = run_script run needs_increment element source d in
        (r.ignore_destructive_write_count ≡ d.ignore_destructive_write_count)
        × (r.current_scripts ≡ d.current_scripts)
  unfolding run_script
  run_script_balanced needs_increment element source d =
      let n : ℕ = if needs_increment then 1 else 0 in
      let q = record d {
        ignore_destructive_write_count = d.ignore_destructive_write_count + n;
        current_scripts = element ∷ d.current_scripts;
      } in
      ground (arith, balanced.count source q, balanced.stack source q)

  internal_balanced :
      (o : Option Source) (canceled external imported : Bool) (element : ℕ) (d : Document)
      → let r = execute_script_block_internal run o canceled external imported element d in
        (r.ignore_destructive_write_count ≡ d.ignore_destructive_write_count)
        × (r.current_scripts ≡ d.current_scripts)
  unfolding execute_script_block_internal
  internal_balanced none canceled external imported element d = (refl, refl)
  internal_balanced (some s) canceled external imported element d =
      ground (arith, run_script_balanced (external || imported) element s d)

  -- When running a script puts the counter of ignored writes and the stack of current scripts back,
  -- then so does the execution of a pending script on every path: without a frame, for a script that
  -- failed or was cancelled, and for one that ran, itself inside another script or not. The script is
  -- disposed of on every path.
  pub execute_script_block_balanced :
      (active imported : Bool) (element : ℕ) (p : PendingScript) (d : Document)
      → let (q, r) = execute_script_block run active imported element p d in
        (r.ignore_destructive_write_count ≡ d.ignore_destructive_write_count)
        × (r.current_scripts ≡ d.current_scripts)
        × (q.element ≡ false)
        × (q.client ≡ none)
        × (is_some q.streamer ≡ false)
        × (is_some q.resource ≡ false)
  unfolding execute_script_block
  execute_script_block_balanced active imported element p d = ground (
    arith,
    internal_balanced (get_source p) (was_canceled p) p.is_external imported element d,
    dispose_lem p.client p.streamer p refl refl,
  )

get_source-error : (p : PendingScript) → p.ready_state ≡ error_occurred → get_source p ≡ none
unfolding get_source
get_source-error p e = ground arith

-- A script from its fetch on, whose resource ends with an error: its execution runs nothing, and its
-- element has one more event, the error.
execute_script_block-error :
    {p : PendingScript}
    → Loads p
    → (run : Source → Document → Document) (canceled imported : Bool) (element : ℕ) (d : Document)
    → (execute_script_block run true imported element (finish_resource false true canceled p) d).1
      ≡ dispatch (error_event element) d
unfolding execute_script_block
execute_script_block-error {p} l run canceled imported element d =
    let q = finish_resource false true canceled p in
    let g = get_source-error q (Loads-finish_resource l false true canceled).0 in
    ap
      (λ (o : Option Source).
        execute_script_block_internal run o (was_canceled q) q.is_external imported element d)
      g
