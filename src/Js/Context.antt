-- ===== src/Js/Context.antt =====
-- blinkit/js/context_impl.h and context_impl.cpp: `ContextImpl`. The stack of Duktape is a list with
-- its top in front; scripts are run by the parameter `Engine`. A call that Duktape answers by its
-- fatal handler, which does not return, is `none`. The prototypes are left out.
use blinkit.Prelude.{
  ◌∙◌, length-append, ℕ, ◌-◌, Bool, true, false, List, [], ◌∷◌, ◌++◌, ◌≡◌, refl, ap, Option, none,
  some, if◌then◌else◌, Bytes, codes, arith, length, drop, drop-append, is_some,
}
use blinkit.Js.Value.{Numbers, StackValue, JsValue, create}

-- `duk_set_top` to fewer items than there are.
unfoldable pub set_top {ℓ} : {A : Type ℓ} → ℕ → List A → List A
set_top top stack = drop (length stack - top) stack

module _ (n : Numbers) where
  -- An item of the stack: the heap stash, a text, a compiled function, or a script value.
  pub data Item : Type 0 where
    heap_stash : Item
    text : Bytes → Item
    function : Bytes → Item
    value : StackValue n → Item
    pointer : ℕ → Item

  -- Compiling a text, to whether that succeeds; what running it leaves on the stack, its result or
  -- what it throws; `duk_safe_to_lstring`; the trimming of white space.
  pub record Engine : Type 0 where
    pub compiles : Bytes → Bool
    pub compile_error : Bytes → StackValue n
    pub outcome : Bytes → StackValue n
    pub safe_text : StackValue n → Bytes
    pub trim : Bytes → Bytes

  -- `ContextImpl` with the properties of the heap stash: the crawler object, if there is one, and
  -- the context itself; and what went to the console as an error.
  pub record Context : Type 0 where
    pub stack : List Item
    pub crawler_object : Option (StackValue n)
    pub native_context : ℕ
    pub errors : List Bytes

  abbrev pub is_error_value : StackValue n → Bool
  is_error_value (StackValue.error _ _ _ _ _) = true
  is_error_value _ = false

  abbrev pub is_object_value : StackValue n → Bool
  is_object_value (StackValue.error _ _ _ _ _) = true
  is_object_value (StackValue.object _ _) = true
  is_object_value _ = false

  -- `AccessCrawler`; the worker gets the context with the crawler object on top.
  unfoldable pub access_with :
      (Context → Context) → Context → Option (StackValue n) → Bool × Context
  unfolding set_top
  access_with worker c none = (
    false,
    record c {
      stack = set_top (length c.stack) (value StackValue.undefined ∷ heap_stash ∷ c.stack);
    },
  )
  access_with worker c (some v) =
      let after = worker (record c { stack = value v ∷ heap_stash ∷ c.stack }) in
      (true, record after { stack = set_top (length c.stack) after.stack })

  unfoldable pub access_crawler : (Context → Context) → Context → Bool × Context
  unfolding access_with
  access_crawler worker c = access_with worker c c.crawler_object

  -- `duk_set_top` behind the callback of `Eval`.
  unfoldable pub restore : {S : Type 0} → ℕ → Option (Context × S) → Option (Context × S)
  unfolding set_top
  restore top none = none
  restore top (some (after, s)) = some (record after { stack = set_top top after.stack }, s)

  -- `ContextImpl::From`
  unfoldable pub from_duk_context : Context → ℕ × Context
  from_duk_context c =
      let pushed = pointer c.native_context ∷ heap_stash ∷ c.stack in
      (c.native_context, record c { stack = drop 2 pushed })

  module _ (e : Engine) where
    -- `Eval`: the file name, which `Duktape` takes from the stack again, and then the compiled
    -- function are replaced by what comes of them.
    unfoldable pub compiled : Bytes → Option Bytes → List Item → List Item
    compiled code file_name stack =
        let named : List Item = elim file_name [ none ↦ stack | some f ↦ text f ∷ stack ] in
        let rest : List Item = elim file_name [ none ↦ named | some f ↦ drop 1 named ] in
        (if e.compiles code then function code else value (e.compile_error code)) ∷ rest

    unfoldable pub called : Bytes → List Item → List Item
    called code stack = if e.compiles code then value (e.outcome code) ∷ drop 1 stack else stack

    -- The callback also changes what it has captured.
    unfoldable pub evaluate :
        {S : Type 0}
        → Bytes
        → (Context × S → Option (Context × S))
        → Option Bytes
        → Context × S
        → Option (Context × S)
    unfolding restore compiled called
    evaluate code callback file_name (c, captured) =
        let top = length c.stack in
        let ready = record c { stack = called code (compiled code file_name c.stack) } in
        restore top (callback (ready, captured))

    -- What is on top of the stack for the callback.
    abbrev pub result : Bytes → StackValue n
    result code = if e.compiles code then e.outcome code else e.compile_error code

    -- The callback of `CreateCrawlerObject`, with the error log: `duk_put_prop_string` takes the top
    -- and puts it into the stash below; `duk_type_error` is called where nothing catches it.
    unfoldable pub take_crawler_object : Context × Bytes → Option (Context × Bytes)
    take_crawler_object (c, log) = elim c.stack [
      | value v ∷ rest ↦
          if is_error_value v
          then some (c, e.safe_text v)
          else if is_object_value v
          then some (record c { stack = rest; crawler_object = some v }, log)
          else none
      | _ ↦ none
    ]

    -- An empty object becomes the crawler object.
    abbrev pub default_object : Context → Context
    default_object c = record c { crawler_object = some (StackValue.object 0 false) }

    abbrev pub is_empty : Bytes → Bool
    is_empty [] = true
    is_empty (c ∷ cs) = false

    -- Behind the call of `Eval` there.
    unfoldable pub conclude : Option (Context × Bytes) → Option Context
    conclude none = none
    conclude (some (after, log)) = some (
        if is_empty log
        then after
        else default_object (record after { errors = after.errors ++ (log ∷ []) }))

    -- `CreateCrawlerObject`, with the script of the crawler's configuration.
    unfoldable pub create_crawler_object : Bytes → Context → Option Context
    create_crawler_object script c =
        let code = e.trim script in
        if is_empty code
        then some (default_object c)
        else conclude (evaluate code take_crawler_object none (c, []))

    -- `InitializeHeapStash`, with the address of the context.
    unfoldable pub initialize_heap_stash : ℕ → Bytes → Context → Option Context
    unfolding create_crawler_object
    initialize_heap_stash self script c =
        let stashed = record c { stack = heap_stash ∷ c.stack; native_context = self } in
        elim (create_crawler_object script stashed) [
          | none ↦ none
          | some after ↦ some (record after { stack = drop 1 after.stack })
        ]

    -- `BkJSEvaluate`; the flag is `BK_EVAL_IGNORE_RETURN_VALUE`.
    unfoldable pub copy_result :
        Bool → Context × Option (JsValue n) → Option (Context × Option (JsValue n))
    copy_result ignore (c, ret) =
        if ignore
        then some (c, ret)
        else elim c.stack [ value v ∷ rest ↦ some (c, create n v) | _ ↦ some (c, none) ]

    unfoldable pub bk_js_evaluate : Bytes → Bool → Context → Option (Context × Option (JsValue n))
    unfolding evaluate copy_result
    bk_js_evaluate code ignore c =
        evaluate code (copy_result ignore) (some (codes "eval")) (c, none)

set_top-append {ℓ} : {A : Type ℓ} (xs ys : List A) → set_top (length ys) (xs ++ ys) ≡ ys
unfolding set_top
set_top-append xs ys =
    ap (λ (k : ℕ). drop k (xs ++ ys)) (omega (arith, length-append xs ys)) ∙ drop-append xs ys

module _ (n : Numbers) (e : Engine n) where
  -- What the script leaves is alone on the stack, with and without a file name.
  called-compiled :
      (code : Bytes) (file_name : Option Bytes) (stack : List (Item n))
      → called n e code (compiled n e code file_name stack) ≡ value (result n e code) ∷ stack
  unfolding called compiled
  called-compiled code none stack = ground arith
  called-compiled code (some f) stack = ground arith

  -- A callback that leaves the stack below its argument alone finds the result of the script, or
  -- what has been thrown, on top; and the stack is as before when `Eval` comes back.
  pub evaluate_lem :
      {S : Type 0} (code : Bytes) (file_name : Option Bytes)
      (callback : Context n × S → Option (Context n × S)) (c after : Context n) (s t : S)
      (above : List (Item n))
      → callback (record c { stack = value (result n e code) ∷ c.stack }, s) ≡ some (after, t)
      → after.stack ≡ above ++ c.stack
      → evaluate n e code callback file_name (c, s) ≡ some (record after { stack = c.stack }, t)
  unfolding evaluate restore
  evaluate_lem code file_name callback c after s t above h k =
      let found =
        ap (λ (l : List (Item n)). callback (record c { stack = l }, s))
          (called-compiled code file_name c.stack)
        ∙ h in
      let below = ap (set_top (length c.stack)) k ∙ set_top-append above c.stack in
      ap (restore n (length c.stack)) found
      ∙ ap (λ (l : List (Item n)). some (record after { stack = l }, t)) below

  concluded :
      (v : StackValue n) (c : Context n)
      → conclude n e (
          restore n
            (length c.stack)
            (take_crawler_object n e (record c { stack = value v ∷ c.stack }, [])))
        ≡ (if is_error_value n v
            then (if is_empty n e (e.safe_text v)
                then some c
                else some
                    (default_object n e (record c { errors = c.errors ++ (e.safe_text v ∷ []) })))
            else if is_object_value n v
            then some (record c { crawler_object = some v })
            else none)
  unfolding conclude restore take_crawler_object
  concluded v c =
      let top : Item n = value v in
      ground (arith, set_top-append [] c.stack, set_top-append (top ∷ []) c.stack)

  -- What becomes of the crawler object, for every script: without a script it is an empty object; a
  -- script that yields or throws an object that is no error makes that the crawler object; after an
  -- error it is an empty object, and the error is on the console, unless its text is empty, in which
  -- case there is none; any other value ends the program. The stack is as before.
  pub create_crawler_object_lem :
      (script : Bytes) (c : Context n)
      → create_crawler_object n e script c ≡ (
          let code = e.trim script in
          let v = result n e code in
          if is_empty n e code
          then some (default_object n e c)
          else if is_error_value n v
          then (if is_empty n e (e.safe_text v)
              then some c
              else some
                  (default_object n e (record c { errors = c.errors ++ (e.safe_text v ∷ []) })))
          else if is_object_value n v
          then some (record c { crawler_object = some v })
          else none)
  unfolding create_crawler_object evaluate
  create_crawler_object_lem script c =
      let code = e.trim script in
      let found =
        ap
          (λ (l : List (Item n)).
            conclude n e
              (restore n (length c.stack) (take_crawler_object n e (record c { stack = l }, []))))
          (called-compiled code none c.stack) in
      ap (λ (o : Option (Context n)). if is_empty n e code then some (default_object n e c) else o)
        (found ∙ concluded (result n e code) c)

  -- `BkJSEvaluate` yields a copy of the result of the code, or of what it has thrown, unless the
  -- result is to be ignored, and leaves the stack as it was, whatever the code does.
  bk_js_evaluate_lem :
      (code : Bytes) (ignore : Bool) (c : Context n)
      → bk_js_evaluate n e code ignore c
        ≡ some (c, if ignore then none else create n (result n e code))
  unfolding bk_js_evaluate copy_result
  bk_js_evaluate_lem code ignore c =
      evaluate_lem code (some (codes "eval")) (copy_result n e ignore) c
        (record c { stack = value (result n e code) ∷ c.stack }) none
        (if ignore then none else create n (result n e code)) (value (result n e code) ∷ [])
        (ground arith) refl

  accessed :
      (worker : Context n → Context n) (c : Context n) (o : Option (StackValue n))
      → ((v : StackValue n)
          → (above : List (Item n)) × ((worker
                (record c { stack = value v ∷ heap_stash ∷ c.stack })).stack
              ≡ above ++ c.stack))
      → ((access_with n worker c o).0 ≡ is_some o) × ((access_with n worker c o).1.stack ≡ c.stack)
  unfolding access_with
  accessed worker c none h =
      (refl, set_top-append (value StackValue.undefined ∷ heap_stash ∷ []) c.stack)
  accessed worker c (some v) h =
      (refl, ap (set_top (length c.stack)) (h v).1 ∙ set_top-append (h v).0 c.stack)

  -- `AccessCrawler` says whether there is a crawler object, calls the worker with it on top exactly
  -- then, and leaves the stack as it was when the worker leaves alone what is below.
  pub access_crawler_lem :
      (worker : Context n → Context n) (c : Context n)
      → ((v : StackValue n)
          → (above : List (Item n)) × ((worker
                (record c { stack = value v ∷ heap_stash ∷ c.stack })).stack
              ≡ above ++ c.stack))
      → ((access_crawler n worker c).0 ≡ is_some c.crawler_object)
        × ((access_crawler n worker c).1.stack ≡ c.stack)
  unfolding access_crawler
  access_crawler_lem worker c h = accessed worker c c.crawler_object h
