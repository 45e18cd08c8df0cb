-- ===== src/ValueParser/States.antt =====
-- The states and the transition tables of the builders (libiqxmlrpc/value_parser.cc), and the
-- fields that they change.
use libiqxmlrpc.Prelude.Bytes.{Bytes, codes}
use libiqxmlrpc.Prelude.{ℕ, List, [], ◌∷◌, Option, Result}
use libiqxmlrpc.Value.{Value, Items, Fields}
use libiqxmlrpc.Xml.{XmlError, Reader}

pub data ValueState : Type 0 where
  value_state string_state int_state int64_state bool_state double_state : ValueState
  binary_state time_state struct_state array_state nil_state : ValueState

abbrev pub value_index : ValueState → ℕ
value_index value_state = 0
value_index string_state = 1
value_index int_state = 2
value_index int64_state = 3
value_index bool_state = 4
value_index double_state = 5
value_index binary_state = 6
value_index time_state = 7
value_index struct_state = 8
value_index array_state = 9
value_index nil_state = 10

abbrev pub value_trans : List (ValueState × ValueState × Bytes)
value_trans =
    (value_state, string_state, codes "string")
    ∷ (value_state, int_state, codes "int")
    ∷ (value_state, int_state, codes "i4")
    ∷ (value_state, int64_state, codes "i8")
    ∷ (value_state, bool_state, codes "boolean")
    ∷ (value_state, double_state, codes "double")
    ∷ (value_state, binary_state, codes "base64")
    ∷ (value_state, time_state, codes "dateTime.iso8601")
    ∷ (value_state, struct_state, codes "struct")
    ∷ (value_state, array_state, codes "array")
    ∷ (value_state, nil_state, codes "nil")
    ∷ []

pub data StructState : Type 0 where
  struct_none member_state name_read value_read : StructState

abbrev pub struct_index : StructState → ℕ
struct_index struct_none = 0
struct_index member_state = 1
struct_index name_read = 2
struct_index value_read = 3

abbrev pub struct_trans : List (StructState × StructState × Bytes)
struct_trans =
    (struct_none, member_state, codes "member")
    ∷ (member_state, name_read, codes "name")
    ∷ (name_read, value_read, codes "value")
    ∷ []

pub data ArrayState : Type 0 where
  array_none data_state values_state : ArrayState

abbrev pub array_index : ArrayState → ℕ
array_index array_none = 0
array_index data_state = 1
array_index values_state = 2

abbrev pub array_trans : List (ArrayState × ArrayState × Bytes)
array_trans =
    (array_none, data_state, codes "data")
    ∷ (data_state, values_state, codes "value")
    ∷ (values_state, values_state, codes "value")
    ∷ []

-- The fields of the builders. A `Value_type*` that may be null is an option.
pub record ValueFields (D : Type 0) : Type 0 where
  pub state : ValueState
  pub retval : Option (Value D)

-- `value` is not read before it is set.
pub record StructFields (D : Type 0) : Type 0 where
  pub state : StructState
  pub name : Bytes
  pub value : Value D
  pub fields : Fields D

pub record ArrayFields (D : Type 0) : Type 0 where
  pub state : ArrayState
  pub items : Items D

-- What `sub_build` of another builder does, at the reader's state.
abbrev pub SubBuild : Type 0 → Type 0
SubBuild A = Reader → Result XmlError (A × Reader)
