-- ===== src/ValueParser/Containers.antt =====
-- `StructBuilder` and `ArrayBuilder` (libiqxmlrpc/value_parser.cc). Each takes the `sub_build` of a
-- `ValueBuilder` that it calls.
use libiqxmlrpc.Prelude.Bytes.{Bytes, codes, str_eq}
use libiqxmlrpc.Prelude.{
  Bool, true, false, not, [], Option, none, some, Result, ok, err, ◌>>=◌, if◌then◌else◌,
}
use libiqxmlrpc.Value.{Value, string, array_push_back, struct_insert}
use libiqxmlrpc.Xml.{XmlError, xml_rpc_violation, Reader, read_data, Builder, Methods, change}
use libiqxmlrpc.ValueParser.States.{
  StructState, struct_none, member_state, name_read, value_read, struct_index, struct_trans,
  ArrayState, values_state, array_index, array_trans, StructFields, ArrayFields, SubBuild,
}

abbrev is_value_read : StructState → Bool
is_value_read value_read = true
is_value_read _ = false

module _ {D : Type 0} where
  -- A null result stands for an empty string.
  abbrev pub value_or_empty : Option (Value D) → Value D
  value_or_empty (some v) = v
  value_or_empty none = string []

  struct_visit :
      SubBuild (Option (Value D))
      → StructState
      → Builder (StructFields D)
      → Reader
      → Result XmlError (Builder (StructFields D) × Reader)
  struct_visit sub name_read b r = do
    (name, r') ← read_data r
    ok (record b { derived = record b.derived { state = name_read; name = name } }, r')
  struct_visit sub value_read b r = do
    (v, r') ← sub r
    ok (
      record b { derived = record b.derived { state = value_read; value = value_or_empty v } },
      r',
    )
  struct_visit sub member_state b r =
      ok (record b { derived = record b.derived { state = member_state } }, r)
  struct_visit sub struct_none b r = err xml_rpc_violation

  struct_end : Bytes → Builder (StructFields D) → Result XmlError (Builder (StructFields D))
  struct_end tag b =
      if str_eq tag (codes "member")
      then (if not (is_value_read b.derived.state)
          then err xml_rpc_violation
          else ok (record b {
            derived = record b.derived {
              state = struct_none;
              fields = struct_insert b.derived.name b.derived.value b.derived.fields;
            };
          }))
      else ok b

  unfoldable pub struct_methods : SubBuild (Option (Value D)) → Methods (StructFields D)
  unfolding struct_visit struct_end
  struct_methods sub = record {
    expects_text = false;
    visit_element = λ tag b r. (do
      s ← change struct_index struct_trans b.derived.state tag
      struct_visit sub s b r);
    visit_element_end = struct_end;
    visit_text = λ s b. ok b;
  }

  -- `ArrayBuilder`
  array_visit :
      SubBuild (Option (Value D))
      → ArrayState
      → Builder (ArrayFields D)
      → Reader
      → Result XmlError (Builder (ArrayFields D) × Reader)
  array_visit sub values_state b r = do
    (v, r') ← sub r
    ok (
      record b {
        derived = record {
          state = values_state;
          items = array_push_back b.derived.items (value_or_empty v);
        };
      },
      r',
    )
  array_visit sub s b r = ok (record b { derived = record b.derived { state = s } }, r)

  unfoldable pub array_methods : SubBuild (Option (Value D)) → Methods (ArrayFields D)
  unfolding array_visit
  array_methods sub = record {
    expects_text = false;
    visit_element = λ tag b r. (do
      s ← change array_index array_trans b.derived.state tag
      array_visit sub s b r);
    visit_element_end = λ tag b. ok b;
    visit_text = λ s b. ok b;
  }
