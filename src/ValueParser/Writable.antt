-- ===== src/ValueParser/Writable.antt =====
-- The values that survive being written and read (libiqxmlrpc/value_parser.cc,
-- value_type_xml.cc), what they become, and what is relied on of `boost::lexical_cast`.
use libiqxmlrpc.Base64.{BinaryData, get_base64, decode}
use libiqxmlrpc.Base64.RoundTrip.{IsByte}
use libiqxmlrpc.DateTime.RoundTrip.{IsTm}
use libiqxmlrpc.Prelude.Bytes.{codes}
use libiqxmlrpc.Prelude.Int.{ℤ, pos, FitsInt}
use libiqxmlrpc.Prelude.{ℕ, suc, ◌+◌, ◌≡◌, ◌⊎◌, false, [], some, ok, All}
use libiqxmlrpc.Value.{
  Value, nil, int, int64, bool, double, string, array, struct, binary, datetime, Items, no_items,
  item, Fields, no_fields, field,
}
use libiqxmlrpc.Value.Structs.{IsSorted}
use libiqxmlrpc.ValueParser.{Lexical}
use libiqxmlrpc.XmlBuilder.{is_blank}

-- `lexical_cast` reads back what it writes, for every value of the type, and writes no blanks only.
pub record LexicalLaws (l : Lexical) : Type 0 where
  pub int_law : (i : ℤ) → FitsInt 31 i → l.to_int (l.of_int i) ≡ some i
  pub int64_law : (i : ℤ) → FitsInt 63 i → l.to_int64 (l.of_int64 i) ≡ some i
  pub double_law : (x : l.Double) → l.to_double (l.of_double x) ≡ some x
  pub int_shown : (i : ℤ) → is_blank (l.of_int i) ≡ false
  pub int64_shown : (i : ℤ) → is_blank (l.of_int64 i) ≡ false
  pub double_shown : (x : l.Double) → is_blank (l.of_double x) ≡ false
  pub one_law : l.to_int (codes "1") ≡ some (pos 1)
  pub zero_law : l.to_int (codes "0") ≡ some (pos 0)

-- An object that `from_data` made, or that was read from a text that is not blank.
abbrev pub IsBinary : BinaryData → Type 0
IsBinary b =
    (All IsByte b.bytes × (b.base64 ≡ []))
    ⊎ ((decode b.base64 ≡ ok b.bytes) × (is_blank b.base64 ≡ false))

module _ {D : Type 0} where
  -- No nil anywhere, no text or name of blanks only, no empty name, and integers and dates in their
  -- ranges. The names of a struct are in order, as a `std::map` keeps them.
  abbrev mutual
    pub IsWritable : Value D → Type 0
    IsWritable nil = ⊥
    IsWritable (int i) = FitsInt 31 i
    IsWritable (int64 i) = FitsInt 63 i
    IsWritable (bool _) = Unit
    IsWritable (double _) = Unit
    IsWritable (string s) = (s ≡ []) ⊎ (is_blank s ≡ false)
    IsWritable (array a) = AreWritable a
    IsWritable (struct s) = IsSorted s × FieldsAreWritable s
    IsWritable (binary b) = IsBinary b
    IsWritable (datetime t) = IsTm t

    pub AreWritable : Items D → Type 0
    AreWritable no_items = Unit
    AreWritable (item v a) = IsWritable v × AreWritable a

    pub FieldsAreWritable : Fields D → Type 0
    FieldsAreWritable no_fields = Unit
    FieldsAreWritable (field k v s) = (is_blank k ≡ false) × IsWritable v × FieldsAreWritable s

  -- The value that is left after it was written, which fills the caches of its binary objects.
  abbrev mutual
    pub written : Value D → Value D
    written nil = nil
    written (int i) = int i
    written (int64 i) = int64 i
    written (bool b) = bool b
    written (double x) = double x
    written (string s) = string s
    written (array a) = array (written_items a)
    written (struct s) = struct (written_fields s)
    written (binary b) = binary (get_base64 b)
    written (datetime t) = datetime t

    pub written_items : Items D → Items D
    written_items no_items = no_items
    written_items (item v a) = item (written v) (written_items a)

    pub written_fields : Fields D → Fields D
    written_fields no_fields = no_fields
    written_fields (field k v s) = field k (written v) (written_fields s)

  -- Fuel that is enough to read a value back.
  abbrev mutual
    pub size : Value D → ℕ
    size (array a) = suc (suc (suc (suc (size_items a))))
    size (struct s) = suc (suc (suc (size_fields s)))
    size _ = 5

    pub size_items : Items D → ℕ
    size_items no_items = 2
    size_items (item v a) = size v + suc (suc (size_items a))

    pub size_fields : Fields D → ℕ
    size_fields no_fields = 1
    size_fields (field k v s) = size v + suc (suc (suc (suc (suc (suc (size_fields s))))))
