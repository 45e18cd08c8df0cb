-- ===== src/ValueParser.antt =====
-- `ValueBuilder` (libiqxmlrpc/value_parser.cc), and the `sub_build` of the three builders, which
-- call one another. `boost::lexical_cast` is a parameter, and so are the defaults that
-- `Value::set_default_int` and `set_default_int64` set.
mod States
mod Containers
pub mod Scalars
pub mod Members
pub mod Leaves
pub mod Simple
pub mod Nested
pub mod Flat
pub mod Joins
pub mod Writable
pub mod RoundTrip
pub use States.*
unfoldable pub use Containers.*
use mathlib.Core.Option
use libiqxmlrpc.Base64.{Base64Error, BinaryData, from_data, from_base64}
use libiqxmlrpc.DateTime.{Tm, DateError, of_string}
use libiqxmlrpc.Prelude.Bytes.{Bytes, codes, str_eq}
use libiqxmlrpc.Prelude.Int.{ℤ, pos}
use libiqxmlrpc.Prelude.{
  ℕ, zero, suc, Bool, true, false, not, List, [], ◌∷◌, Option, none, some, Result, ok, err, ◌>>=◌,
  ◌==◌, if◌then◌else◌,
}
use libiqxmlrpc.Value.{
  Value, nil, int, int64, bool, double, string, array, struct, binary, datetime, Items, no_items,
  Fields, no_fields, array_push_back, struct_insert,
}
use libiqxmlrpc.Xml.{
  XmlError, xml_rpc_violation, bad_lexical_cast, malformed_base64, malformed_iso8601, out_of_fuel,
  Reader, Builder, Methods, parse, start, change,
}
use libiqxmlrpc.ValueParser.States.{
  ValueState, value_state, string_state, int_state, int64_state, bool_state, double_state,
  binary_state, time_state, struct_state, array_state, nil_state, value_index, value_trans,
  struct_none, array_none, ValueFields, StructFields, ArrayFields, SubBuild,
}
use libiqxmlrpc.ValueParser.Containers.{struct_methods, array_methods}

-- `double`, and the casts of `boost::lexical_cast` that values use; `none` is `bad_lexical_cast`.
pub record Lexical : Type 1 where
  pub Double : Type 0
  pub to_int : Bytes → Option ℤ
  pub to_int64 : Bytes → Option ℤ
  pub to_double : Bytes → Option Double
  pub of_int : ℤ → Bytes
  pub of_int64 : ℤ → Bytes
  pub of_double : Double → Bytes

-- `ValueOptions::default_int` and `default_int64`.
pub record Defaults : Type 0 where
  pub default_int : Option ℤ
  pub default_int64 : Option ℤ

abbrev lexical : {A : Type 0} → Option A → Result XmlError A
lexical (some a) = ok a
lexical none = err bad_lexical_cast

abbrev base64_result : {A : Type 0} → Result Base64Error A → Result XmlError A
base64_result (ok a) = ok a
base64_result (err _) = err malformed_base64

abbrev date_result : {A : Type 0} → Result DateError A → Result XmlError A
date_result (ok a) = ok a
date_result (err _) = err malformed_iso8601

abbrev is_zero : ℤ → Bool
is_zero (pos n) = n == 0
is_zero _ = false

abbrev pub is_value_state : ValueState → Bool
is_value_state value_state = true
is_value_state _ = false

module _ (l : Lexical) (defaults : Defaults) where
  open l use {Double, to_int, to_int64, to_double}
  open defaults use {default_int, default_int64}

  -- `ValueBuilder`
  abbrev pub set_retval : Builder (ValueFields Double) → Value Double → Builder (ValueFields Double)
  set_retval b v = record b { derived = record b.derived { retval = some v } }

  -- `if (retval.get()) want_exit();`
  abbrev pub exit_if_set : Builder (ValueFields Double) → Builder (ValueFields Double)
  exit_if_set b = elim b.derived.retval [ some _ ↦ record b { wants_exit = true } | none ↦ b ]

  pub value_visit :
      SubBuild (Value Double)
      → SubBuild (Value Double)
      → ValueState
      → Builder (ValueFields Double)
      → Reader
      → Result XmlError (Builder (ValueFields Double) × Reader)
  value_visit sub_struct sub_array struct_state b r = do
    (v, r') ← sub_struct r
    ok (exit_if_set (set_retval b v), r')
  value_visit sub_struct sub_array array_state b r = do
    (v, r') ← sub_array r
    ok (exit_if_set (set_retval b v), r')
  value_visit sub_struct sub_array nil_state b r = ok (exit_if_set (set_retval b nil), r)
  value_visit sub_struct sub_array _ b r = ok (exit_if_set b, r)

  abbrev or_violation : Option (Value Double) → Result XmlError (Value Double)
  or_violation (some v) = ok v
  or_violation none = err xml_rpc_violation

  -- The value of an element with no text.
  pub default_value : ValueState → Result XmlError (Value Double)
  default_value value_state = ok (string [])
  default_value string_state = ok (string [])
  default_value int_state = or_violation (Option.map int default_int)
  default_value int64_state = or_violation (Option.map int64 default_int64)
  default_value binary_state = ok (binary (from_data []))
  default_value _ = err xml_rpc_violation

  value_end : Bytes → Builder (ValueFields Double) → Result XmlError (Builder (ValueFields Double))
  value_end tag b = elim b.derived.retval [
    | some _ ↦ ok b
    | none ↦ do v ← default_value b.derived.state; ok (set_retval b v)
  ]

  -- The value of a text.
  pub text_value : ValueState → Bytes → Result XmlError (Value Double)
  text_value value_state s = ok (string s)
  text_value string_state s = ok (string s)
  text_value int_state s = do i ← lexical (to_int s); ok (int i)
  text_value int64_state s = do i ← lexical (to_int64 s); ok (int64 i)
  text_value bool_state s = do i ← lexical (to_int s); ok (bool (not (is_zero i)))
  text_value double_state s = do d ← lexical (to_double s); ok (double d)
  text_value binary_state s = do b ← base64_result (from_base64 s); ok (binary b)
  text_value time_state s = do t ← date_result (of_string s); ok (datetime t)
  text_value _ s = err xml_rpc_violation

  value_text : Bytes → Builder (ValueFields Double) → Result XmlError (Builder (ValueFields Double))
  value_text s b = do
    v ← text_value b.derived.state s
    ok (set_retval (if is_value_state b.derived.state then record b { wants_exit = true } else b) v)

  unfoldable pub value_methods :
      SubBuild (Value Double) → SubBuild (Value Double) → Methods (ValueFields Double)
  unfolding value_visit default_value value_end text_value value_text
  value_methods sub_struct sub_array = record {
    expects_text = true;
    visit_element = λ tag b r. (do
      s ← change value_index value_trans b.derived.state tag
      value_visit sub_struct sub_array s (record b { derived = record b.derived { state = s } }) r);
    visit_element_end = value_end;
    visit_text = value_text;
  }

  abbrev pub struct_start : StructFields Double
  struct_start = record { state = struct_none; name = []; value = nil; fields = no_fields }

  abbrev pub array_start : ArrayFields Double
  array_start = record { state = array_none; items = no_items }

  abbrev pub value_start : ValueFields Double
  value_start = record { state = value_state; retval = none }

  abbrev struct_result : Builder (StructFields Double) × Reader → Value Double × Reader
  struct_result (b, r) = (struct b.derived.fields, r)

  abbrev array_result : Builder (ArrayFields Double) × Reader → Value Double × Reader
  array_result (b, r) = (array b.derived.items, r)

  abbrev value_result : Builder (ValueFields Double) × Reader → Option (Value Double) × Reader
  value_result (b, r) = (b.derived.retval, r)

  -- `sub_build` of each builder. The fuel bounds the depth of the calls, and the rounds of each.
  unfoldable mutual
    pub build_value : ℕ → Bool → Reader → Result XmlError (Option (Value Double) × Reader)
    build_value zero flat r = err out_of_fuel
    build_value (suc n) flat r = do
      res ← parse (value_methods (build_struct n) (build_array n)) n (start flat value_start) r
      ok (value_result res)

    pub build_struct : ℕ → Reader → Result XmlError (Value Double × Reader)
    build_struct zero r = err out_of_fuel
    build_struct (suc n) r = do
      res ← parse (struct_methods (build_value n false)) n (start true struct_start) r
      ok (struct_result res)

    pub build_array : ℕ → Reader → Result XmlError (Value Double × Reader)
    build_array zero r = err out_of_fuel
    build_array (suc n) r = do
      res ← parse (array_methods (build_value n false)) n (start true array_start) r
      ok (array_result res)
