-- ===== src/ValueParser/Members.antt =====
-- Reading structs and arrays (libiqxmlrpc/value_parser.cc, parser2.cc): the rounds of the parser's
-- loop for one member, one item, and the end.
use libiqxmlrpc.Prelude.Bytes.{Bytes, codes, str_eq}
use libiqxmlrpc.Prelude.{ℕ, suc, Bool, true, false, List, ◌∷◌, Option, some, ok, ◌≡◌}
use libiqxmlrpc.Value.{Value, Items, Fields, array_push_back, struct_insert}
use libiqxmlrpc.ValueParser.Scalars.{at}
use libiqxmlrpc.ValueParser.{
  struct_none, StructFields, ArrayState, values_state, ArrayFields, array_index, array_trans,
  SubBuild, struct_methods, array_methods,
}
use libiqxmlrpc.Xml.{Node, element, end_element, text, Reader, read, Builder, parse, round, change}

module _ {D : Type 0} (sub : SubBuild (Option (Value D))) (br : Bool) where
  -- The builder of a struct between two members.
  abbrev pub between : Bytes → Value D → Fields D → Builder (StructFields D)
  between name value fs = record {
    depth = 1;
    wants_exit = false;
    derived = record { state = struct_none; name = name; value = value; fields = fs };
  }

  pub parse-member :
      (k : ℕ) (name key : Bytes) (value v : Value D) (fs : Fields D) (r r1 : Reader)
      (inner rest : List Node)
      → read r
        ≡ ok (
            at br (element (codes "member") false) (
              element (codes "name") false
              ∷ text key
              ∷ end_element (codes "name")
              ∷ element (codes "value") false
              ∷ inner))
      → sub (at br (element (codes "value") false) inner) ≡ ok (some v, r1)
      → read r1 ≡ ok (at br (end_element (codes "value")) (end_element (codes "member") ∷ rest))
      → parse (struct_methods sub) (suc (suc (suc (suc (suc (suc k)))))) (between name value fs) r
        ≡ parse
            (struct_methods sub)
            k
            (between key v (struct_insert key v fs))
            (at br (end_element (codes "member")) rest)
  unfolding parse round read struct_methods change str_eq
  parse-member k name key value v fs r r1 inner rest hr hs he = rw (hr, hs, he)

  pub parse-struct_end :
      (k : ℕ) (name : Bytes) (value : Value D) (fs : Fields D) (r : Reader) (rest : List Node)
      → read r ≡ ok (at br (end_element (codes "struct")) rest)
      → parse (struct_methods sub) (suc k) (between name value fs) r
        ≡ ok (
          record (between name value fs) { depth = 0; wants_exit = true },
          at br (end_element (codes "struct")) rest,
        )
  unfolding parse round read struct_methods change str_eq
  parse-struct_end k name value fs r rest hr = rw hr

  -- The builder of an array inside its `data` element.
  abbrev pub inside : ArrayState → Items D → Builder (ArrayFields D)
  inside st items = record {
    depth = 2;
    wants_exit = false;
    derived = record { state = st; items = items };
  }

  pub parse-item :
      (k : ℕ) (st : ArrayState) (v : Value D) (items : Items D) (r r1 : Reader)
      (inner rest : List Node)
      → change array_index array_trans st (codes "value") ≡ ok values_state
      → read r ≡ ok (at br (element (codes "value") false) inner)
      → sub (at br (element (codes "value") false) inner) ≡ ok (some v, r1)
      → read r1 ≡ ok (at br (end_element (codes "value")) rest)
      → parse (array_methods sub) (suc (suc k)) (inside st items) r
        ≡ parse
            (array_methods sub)
            k
            (inside values_state (array_push_back items v))
            (at br (end_element (codes "value")) rest)
  unfolding parse round read array_methods change str_eq
  parse-item k st v items r r1 inner rest hc hr hs he = rw (hr, hc, hs, he)

  pub parse-array_end :
      (k : ℕ) (st : ArrayState) (items : Items D) (r : Reader) (rest : List Node)
      → read r ≡ ok (at br (end_element (codes "data")) (end_element (codes "array") ∷ rest))
      → parse (array_methods sub) (suc (suc k)) (inside st items) r
        ≡ ok (
          record (inside st items) { depth = 0; wants_exit = true },
          at br (end_element (codes "array")) rest,
        )
  unfolding parse round read array_methods change str_eq
  parse-array_end k st items r rest hr = rw hr
