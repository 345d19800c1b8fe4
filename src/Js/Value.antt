-- ===== src/Js/Value.antt =====
-- blinkit/js/js_value_impl.h and js_value_impl.cpp: the copies of script values that an application
-- gets. A `double` and its conversions are the parameter `Numbers`; a null pointer is `none`.
use blinkit.Prelude.{
  ℕ, Bool, true, false, [], ◌++◌, ◌≡◌, Option, none, some, if◌then◌else◌, Bytes, codes, ℤ, pos,
  arith, is_some,
}
use mathlib.Core.Option
use blinkit.Http.Code.{Code, success, unknown, eval, range, reference, syntax, type, uri}

pub record Numbers : Type 1 where
  pub Number : Type 0
  -- `static_cast<int>` and back, and the comparison with `DBL_EPSILON`.
  pub to_int : Number → ℤ
  pub of_int : ℤ → Number
  pub is_near : Number → Number → Bool
  pub int_text : ℤ → Bytes
  pub number_text : Number → Bytes

pub data ErrorCode : Type 0 where
  eval_error range_error reference_error syntax_error type_error uri_error : ErrorCode
  other_error : ErrorCode

-- `BkValueType`
pub data ValueType : Type 0 where
  vt_error vt_undefined vt_null vt_boolean vt_number vt_string vt_array vt_object : ValueType

abbrev pub is_boolean : ValueType → Bool
is_boolean vt_boolean = true
is_boolean _ = false

abbrev pub is_number : ValueType → Bool
is_number vt_number = true
is_number _ = false

abbrev pub is_error : ValueType → Bool
is_error vt_error = true
is_error _ = false

module _ (n : Numbers) where
  open n use {Number, to_int, of_int, is_near, int_text, number_text}

  -- A value on the stack of Duktape, as far as it is looked into. Of an error these are the
  -- properties, absent or with their text, which is empty for what is no string; an object is its
  -- heap pointer and whether it is an array; the rest are the types that `Create` does not expect.
  pub data StackValue : Type 0 where
    undefined null : StackValue
    boolean : Bool → StackValue
    number : Number → StackValue
    string : Bytes → StackValue
    error : ErrorCode → Option Bytes → Option Bytes → Option Bytes → Option ℤ → StackValue
    object : ℕ → Bool → StackValue
    unexpected : StackValue

  -- `JSErrorImpl`, `JSSimpleValue`, `JSStringValue`, `JSArrayImpl` and `JSObjectImpl`.
  pub data JsValue : Type 0 where
    js_error : Code → Bytes → Bytes → Bytes → ℤ → JsValue
    js_undefined js_null : JsValue
    js_boolean : Bool → JsValue
    js_number : Number → JsValue
    js_string : Bytes → JsValue
    js_array js_object : ℕ → JsValue

  -- The `switch` of `JSErrorImpl`.
  unfoldable pub error_code : ErrorCode → Code
  error_code eval_error = eval
  error_code range_error = range
  error_code reference_error = reference
  error_code syntax_error = syntax
  error_code type_error = type
  error_code uri_error = uri
  error_code other_error = unknown

  unfoldable pub extract : Option Bytes → Bytes
  extract none = []
  extract (some text) = text

  unfoldable pub line_number : Option ℤ → ℤ
  line_number none = pos 0
  line_number (some l) = l

  -- `JSValueImpl::Create`
  unfoldable pub create : StackValue → Option JsValue
  unfolding error_code extract line_number
  create (error code name message file line) = some (
      js_error (error_code code) (extract name) (extract message) (extract file) (line_number line))
  create undefined = some js_undefined
  create null = some js_null
  create (boolean b) = some (js_boolean b)
  create (number x) = some (js_number x)
  create (string s) = some (js_string s)
  create (object ptr is_array) = some (if is_array then js_array ptr else js_object ptr)
  create unexpected = none

  unfoldable pub get_type : JsValue → ValueType
  get_type (js_error _ _ _ _ _) = vt_error
  get_type js_undefined = vt_undefined
  get_type js_null = vt_null
  get_type (js_boolean _) = vt_boolean
  get_type (js_number _) = vt_number
  get_type (js_string _) = vt_string
  get_type (js_array _) = vt_array
  get_type (js_object _) = vt_object

  -- The getters: a code, and what is written to `dst`, if something is.
  unfoldable pub get_as_boolean : JsValue → Code × Option Bool
  get_as_boolean (js_boolean b) = (success, some b)
  get_as_boolean _ = (type, none)

  -- The conversion of a number outside of the range of `int` is undefined; it is that of the interface.
  unfoldable pub get_as_integer : JsValue → Code × Option ℤ
  get_as_integer (js_number x) = (success, some (to_int x))
  get_as_integer _ = (type, none)

  unfoldable pub get_as_number : JsValue → Code × Option Number
  get_as_number (js_number x) = (success, some x)
  get_as_number _ = (type, none)

  unfoldable pub can_be_treated_as_integer : Number → Bool
  can_be_treated_as_integer x = is_near x (of_int (to_int x))

  -- `GetAsString`; `safe_text` is what Duktape makes of an object.
  unfoldable pub get_as_string : (ℕ → Bytes) → JsValue → Bytes
  unfolding can_be_treated_as_integer
  get_as_string safe_text (js_error _ name message _ _) = name ++ (codes ": " ++ message)
  get_as_string safe_text js_undefined = codes "undefined"
  get_as_string safe_text js_null = codes "null"
  get_as_string safe_text (js_boolean b) = if b then codes "true" else codes "false"
  get_as_string safe_text (js_number x) =
      if can_be_treated_as_integer x then int_text (to_int x) else number_text x
  get_as_string safe_text (js_string s) = s
  get_as_string safe_text (js_array ptr) = safe_text ptr
  get_as_string safe_text (js_object ptr) = safe_text ptr

  -- `BkValueToError`
  unfoldable pub value_to_error : JsValue → Option JsValue
  value_to_error (js_error c name m f l) = some (js_error c name m f l)
  value_to_error _ = none

  -- A getter succeeds for its type and no other, writes just then, and comes back with the code for
  -- types elsewhere; the numbers are both integers and numbers, and the errors alone are errors.
  getters_lem :
      (v : JsValue)
      → ((get_as_boolean v).0 ≡ (if is_boolean (get_type v) then success else type))
        × (is_some (get_as_boolean v).1 ≡ is_boolean (get_type v))
        × ((get_as_integer v).0 ≡ (if is_number (get_type v) then success else type))
        × ((get_as_number v).0 ≡ (if is_number (get_type v) then success else type))
        × ((get_as_integer v).1 ≡ Option.map to_int (get_as_number v).1)
        × (is_some (get_as_number v).1 ≡ is_number (get_type v))
        × (value_to_error v ≡ (if is_error (get_type v) then some v else none))
  unfolding get_type get_as_boolean get_as_integer get_as_number value_to_error
  getters_lem (js_error c name m f l) = ground arith
  getters_lem js_undefined = ground arith
  getters_lem _ = ground arith
