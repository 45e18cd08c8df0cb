-- ===== src/Value/Printing.antt =====
-- The text of a value for debugging (`Print_value_visitor` of libiqxmlrpc/value_type_visitor.cc, and
-- `print_value` of value.cc), with how a stream writes numbers as parameters.
use libiqxmlrpc.DateTime.{to_string}
use libiqxmlrpc.Prelude.Bytes.{Bytes, codes}
use libiqxmlrpc.Prelude.Int.{ℤ}
use libiqxmlrpc.Prelude.{true, false, Option, none, some, ◌++◌}
use libiqxmlrpc.Value.{
  Value, nil, int, int64, bool, double, string, array, struct, binary, datetime, Items, no_items,
  item, Fields, no_fields, field,
}

abbrev quoted : Bytes → Bytes
quoted s = codes "'" ++ s ++ codes "'"

module _ {D : Type 0} (of_int : ℤ → Bytes) (of_double : D → Bytes) (buffer : Bytes) where
  -- The text of a date, or what its buffer holds where `strftime` writes nothing.
  abbrev or_buffer : Option Bytes → Bytes
  or_buffer (some s) = s
  or_buffer none = buffer

  unfoldable mutual
    pub print_value : Value D → Bytes
    print_value nil = codes "NIL"
    print_value (int i) = of_int i
    print_value (int64 i) = of_int i
    print_value (bool true) = codes "1"
    print_value (bool false) = codes "0"
    print_value (double d) = of_double d
    print_value (string s) = quoted s
    print_value (array a) = codes "[" ++ print_items a ++ codes " ]"
    print_value (struct s) = codes "{" ++ print_fields s ++ codes " }"
    print_value (binary b) = codes "RAWDATA"
    print_value (datetime t) = quoted (or_buffer (to_string t))

    pub print_items : Items D → Bytes
    print_items no_items = codes ""
    print_items (item v a) = codes " " ++ print_value v ++ codes "," ++ print_items a

    pub print_fields : Fields D → Bytes
    print_fields no_fields = codes ""
    print_fields (field k v s) =
        codes " '" ++ k ++ codes "' => " ++ print_value v ++ codes "," ++ print_fields s
