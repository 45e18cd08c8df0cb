-- ===== src/Value.antt =====
-- The values of XML-RPC (libiqxmlrpc/value.cc, value_type.cc, value_type.h): a `Value` owns one
-- object of a subclass of `Value_type`, here a constructor. `D` stands for `double`. Copies are
-- deep in the source, so a value is the tree that it holds.
pub mod Structs
pub mod Casts
pub mod Copies
pub mod Printing
use libiqxmlrpc.Base64.{BinaryData}
use libiqxmlrpc.DateTime.{Tm}
use libiqxmlrpc.Prelude.Bytes.{Bytes, codes, str_eq, str_lt}
use libiqxmlrpc.Prelude.Int.{ℤ}
use libiqxmlrpc.Prelude.{
  ℕ, zero, suc, Bool, true, false, Option, none, some, Result, ok, err, if◌then◌else◌, ◌>>=◌,
}

mutual
  pub data Value (D : Type 0) : Type 0 where
    nil : Value D
    int : ℤ → Value D
    int64 : ℤ → Value D
    bool : Bool → Value D
    double : D → Value D
    string : Bytes → Value D
    array : Items D → Value D
    struct : Fields D → Value D
    binary : BinaryData → Value D
    datetime : Tm → Value D

  -- `Array::values`
  pub data Items (D : Type 0) : Type 0 where
    no_items : Items D
    item : Value D → Items D → Items D

  -- `Struct::values`, a `std::map`: the fields in the order of their names
  pub data Fields (D : Type 0) : Type 0 where
    no_fields : Fields D
    field : Bytes → Value D → Fields D → Fields D

-- `Value::Bad_cast`, `Array::Out_of_range`, `Struct::No_field`
pub data ValueError : Type 0 where
  bad_cast out_of_range : ValueError
  no_field : Bytes → ValueError

module _ {D : Type 0} where
  unfoldable pub type_name : Value D → Bytes
  type_name nil = codes "nil"
  type_name (int _) = codes "i4"
  type_name (int64 _) = codes "i8"
  type_name (bool _) = codes "boolean"
  type_name (double _) = codes "double"
  type_name (string _) = codes "string"
  type_name (array _) = codes "array"
  type_name (struct _) = codes "struct"
  type_name (binary _) = codes "base64"
  type_name (datetime _) = codes "dateTime.iso8601"

  -- Array::size, Array::operator[], Array::push_back
  abbrev pub array_size : Items D → ℕ
  array_size no_items = 0
  array_size (item v a) = suc (array_size a)

  unfoldable pub array_at : Items D → ℕ → Result ValueError (Value D)
  array_at no_items i = err out_of_range
  array_at (item v a) zero = ok v
  array_at (item v a) (suc i) = array_at a i

  unfoldable pub array_push_back : Items D → Value D → Items D
  array_push_back no_items v = item v no_items
  array_push_back (item w a) v = item w (array_push_back a v)

  -- Struct::size, `values.find`, Struct::has_field, Struct::operator[], Struct::insert,
  -- Struct::erase
  abbrev pub struct_size : Fields D → ℕ
  struct_size no_fields = 0
  struct_size (field k v s) = suc (struct_size s)

  unfoldable pub struct_find : Bytes → Fields D → Option (Value D)
  struct_find f no_fields = none
  struct_find f (field k v s) = if str_eq k f then some v else struct_find f s

  abbrev pub has_field : Bytes → Fields D → Bool
  has_field f s = elim (struct_find f s) [ some _ ↦ true | none ↦ false ]

  unfoldable pub struct_at : Bytes → Fields D → Result ValueError (Value D)
  struct_at f s = elim (struct_find f s) [ some v ↦ ok v | none ↦ err (no_field f) ]

  unfoldable pub struct_insert : Bytes → Value D → Fields D → Fields D
  struct_insert f v no_fields = field f v no_fields
  struct_insert f v (field k w s) =
      if str_lt f k
      then field f v (field k w s)
      else if str_eq f k
      then field f v s
      else field k w (struct_insert f v s)

  unfoldable pub struct_erase : Bytes → Fields D → Fields D
  struct_erase f no_fields = no_fields
  struct_erase f (field k v s) = if str_eq k f then s else field k v (struct_erase f s)

  -- Value::get_int, Value::get_string, Value::the_struct: casts that may throw `Bad_cast`
  unfoldable pub get_int : Value D → Result ValueError ℤ
  get_int (int i) = ok i
  get_int _ = err bad_cast

  unfoldable pub get_int64 : Value D → Result ValueError ℤ
  get_int64 (int64 i) = ok i
  get_int64 _ = err bad_cast

  unfoldable pub get_bool : Value D → Result ValueError Bool
  get_bool (bool b) = ok b
  get_bool _ = err bad_cast

  unfoldable pub get_double : Value D → Result ValueError D
  get_double (double d) = ok d
  get_double _ = err bad_cast

  unfoldable pub get_binary : Value D → Result ValueError BinaryData
  get_binary (binary b) = ok b
  get_binary _ = err bad_cast

  unfoldable pub get_datetime : Value D → Result ValueError Tm
  get_datetime (datetime t) = ok t
  get_datetime _ = err bad_cast

  unfoldable pub get_string : Value D → Result ValueError Bytes
  get_string (string s) = ok s
  get_string _ = err bad_cast

  unfoldable pub the_struct : Value D → Result ValueError (Fields D)
  the_struct (struct s) = ok s
  the_struct _ = err bad_cast

  unfoldable pub the_array : Value D → Result ValueError (Items D)
  the_array (array a) = ok a
  the_array _ = err bad_cast

  -- Value::is_nil and the like: whether the cast would succeed
  unfoldable pub is_nil : Value D → Bool
  is_nil nil = true
  is_nil _ = false

  unfoldable pub is_int : Value D → Bool
  is_int (int _) = true
  is_int _ = false

  unfoldable pub is_int64 : Value D → Bool
  is_int64 (int64 _) = true
  is_int64 _ = false

  unfoldable pub is_bool : Value D → Bool
  is_bool (bool _) = true
  is_bool _ = false

  unfoldable pub is_double : Value D → Bool
  is_double (double _) = true
  is_double _ = false

  unfoldable pub is_string : Value D → Bool
  is_string (string _) = true
  is_string _ = false

  unfoldable pub is_binary : Value D → Bool
  is_binary (binary _) = true
  is_binary _ = false

  unfoldable pub is_datetime : Value D → Bool
  is_datetime (datetime _) = true
  is_datetime _ = false

  unfoldable pub is_array : Value D → Bool
  is_array (array _) = true
  is_array _ = false

  unfoldable pub is_struct : Value D → Bool
  is_struct (struct _) = true
  is_struct _ = false

  -- Value::insert, Value::push_back, Value::operator[]
  unfoldable pub insert : Bytes → Value D → Value D → Result ValueError (Value D)
  insert f v w = do s ← the_struct w; ok (struct (struct_insert f v s))

  unfoldable pub push_back : Value D → Value D → Result ValueError (Value D)
  push_back v w = do a ← the_array w; ok (array (array_push_back a v))

  unfoldable pub at_index : Value D → ℕ → Result ValueError (Value D)
  at_index w i = do a ← the_array w; array_at a i

  unfoldable pub at_field : Value D → Bytes → Result ValueError (Value D)
  at_field w f = do s ← the_struct w; struct_at f s

  -- Value::size, Value::has_field
  unfoldable pub value_size : Value D → Result ValueError ℕ
  value_size w = do a ← the_array w; ok (array_size a)

  unfoldable pub value_has_field : Value D → Bytes → Result ValueError Bool
  value_has_field w f = do s ← the_struct w; ok (has_field f s)
