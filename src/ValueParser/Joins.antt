-- ===== src/ValueParser/Joins.antt =====
-- What the builders of arrays and structs collect (libiqxmlrpc/value_parser.cc): items one behind
-- another, and fields inserted in the order of their names.
use libiqxmlrpc.Prelude.Bytes.{Bytes, str_lt, str_eq_iff, str_lt_irrefl, str_lt_asymm}
use libiqxmlrpc.Prelude.{true, ◌≡◌, refl, ap, arith}
use libiqxmlrpc.Value.Structs.{After, IsSorted}
use libiqxmlrpc.Value.{
  Value, Items, no_items, item, Fields, no_fields, field, array_push_back, struct_insert,
}

module _ {D : Type 0} where
  abbrev pub join_items : Items D → Items D → Items D
  join_items no_items b = b
  join_items (item v a) b = item v (join_items a b)

  abbrev pub join_fields : Fields D → Fields D → Fields D
  join_fields no_fields t = t
  join_fields (field k v s) t = field k v (join_fields s t)

  pub join_items-no_items : (a : Items D) → a ≡ join_items a no_items
  join_items-no_items no_items = refl
  join_items-no_items (item v a) = ap (item v) (join_items-no_items a)

  pub join_fields-no_fields : (s : Fields D) → s ≡ join_fields s no_fields
  join_fields-no_fields no_fields = refl
  join_fields-no_fields (field k v s) = ap (field k v) (join_fields-no_fields s)

  pub join_items-array_push_back :
      (a : Items D) (v : Value D) (b : Items D)
      → join_items (array_push_back a v) b ≡ join_items a (item v b)
  unfolding array_push_back
  join_items-array_push_back no_items v b = refl
  join_items-array_push_back (item w a) v b = ap (item w) (join_items-array_push_back a v b)

  After-join_fields :
      (j k : Bytes) (v : Value D) (s t : Fields D)
      → After j (join_fields s (field k v t))
      → str_lt j k ≡ true
  After-join_fields j k v no_fields t h = h.0
  After-join_fields j k v (field i w s) t h = After-join_fields j k v s t h.1

  -- A name that comes after all the others is inserted at the end.
  pub join_fields-struct_insert :
      (k : Bytes) (v w : Value D) (s t u : Fields D)
      → IsSorted (join_fields s (field k w t))
      → join_fields (struct_insert k v s) u ≡ join_fields s (field k v u)
  unfolding struct_insert
  join_fields-struct_insert k v w no_fields t u h = refl
  join_fields-struct_insert k v w (field j x s) t u h =
      let lt : str_lt j k ≡ true = After-join_fields j k w s t h.0 in
      ground (
        arith,
        str_lt_asymm j k lt,
        str_eq_iff k j,
        str_lt_irrefl k,
        join_fields-struct_insert k v w s t u h.1,
      )

  After-same_names :
      (j k : Bytes) (v w : Value D) (s t : Fields D)
      → After j (join_fields s (field k v t))
      → After j (join_fields s (field k w t))
  After-same_names j k v w no_fields t h = h
  After-same_names j k v w (field i x s) t h = (h.0, After-same_names j k v w s t h.1)

  -- The order is that of the names, whatever the values are.
  pub IsSorted-same_names :
      (k : Bytes) (v w : Value D) (s t : Fields D)
      → IsSorted (join_fields s (field k v t))
      → IsSorted (join_fields s (field k w t))
  IsSorted-same_names k v w no_fields t h = h
  IsSorted-same_names k v w (field j x s) t h =
      (After-same_names j k v w s t h.0, IsSorted-same_names k v w s t h.1)
