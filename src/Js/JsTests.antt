-- ===== src/Js/JsTests.antt =====
-- Tests and concrete instances of the theorems on script values and their context.
use blinkit.Prelude.{◌≡◌, ◌⊎◌, inl, refl, true, [], ◌∷◌, none, some, codes, ℤ, find_key, put_key}
use blinkit.Js.Value.{Numbers, StackValue, type_error}
use blinkit.Js.Pins.{
  World, new_world, new_pins, makes, resets_document, here, next, PinReach-pinned, pin, reset,
  current,
}
use blinkit.Js.Context.{
  Engine, Context, heap_stash, create_crawler_object, create_crawler_object_lem,
}

abbrev integers : Numbers
integers = record {
  Number = ℤ;
  to_int = λ x. x;
  of_int = λ x. x;
  is_near = λ x y. true;
  int_text = λ x. codes "0";
  number_text = λ x. codes "0";
}

-- Every script throws an error with an empty text.
abbrev silent : Engine integers
silent = record {
  compiles = λ code. true;
  compile_error = λ code. StackValue.undefined;
  outcome = λ code. StackValue.error type_error none none none none;
  safe_text = λ v. [];
  trim = λ s. s;
}

abbrev fresh : Context integers
fresh = record { stack = heap_stash ∷ []; crawler_object = none; native_context = 1; errors = [] }

create_crawler_object_lem_example :
    create_crawler_object integers silent (codes "x") fresh ≡ some fresh
create_crawler_object_lem_example = create_crawler_object_lem integers silent (codes "x") fresh

abbrev held : World
held = record new_world {
  pins = reset (pin 7 70 new_pins);
  live = put_key 7 (70, 0) [];
  resets = 1;
}

PinReach-pinned_example :
    (find_key 7 held.pins.globals ≡ some 70) ⊎ (find_key 7 (current held.pins) ≡ some 70)
unfolding find_key put_key
PinReach-pinned_example =
    PinReach-pinned 7 70 0 (next (next here (makes 7 70 refl)) resets_document) refl (inl refl)
