-- ===== src/Value/Copies.antt =====
-- Copies of values (`clone`, and the copy constructors of `Array` and `Struct`, of
-- libiqxmlrpc/value_type.cc and value.cc).
use libiqxmlrpc.Prelude.Bytes.{Bytes, str_eq, str_lt, str_eq_iff, str_lt_irrefl, str_lt_asymm}
use libiqxmlrpc.Prelude.{true, false, if◌then◌else◌, ◌≡◌, refl, ap, ◌∙◌, sym, arith}
use libiqxmlrpc.Value.Structs.{IsSorted, After}
use libiqxmlrpc.Value.{
  Value, nil, int, int64, bool, double, string, array, struct, binary, datetime, Items, no_items,
  item, Fields, no_fields, field, array_push_back,
}

module _ {D : Type 0} where
  -- `insert` of a `std::map`, which leaves a field that is there alone
  unfoldable pub map_insert : Bytes → Value D → Fields D → Fields D
  map_insert f v no_fields = field f v no_fields
  map_insert f v (field k w s) =
      if str_lt f k
      then field f v (field k w s)
      else if str_eq f k
      then field k w s
      else field k w (map_insert f v s)

  unfoldable mutual
    -- `Value_type::clone`
    pub clone : Value D → Value D
    clone nil = nil
    clone (int i) = int i
    clone (int64 i) = int64 i
    clone (bool b) = bool b
    clone (double d) = double d
    clone (string s) = string s
    clone (array a) = array (push_items a no_items)
    clone (struct s) = struct (insert_fields s no_fields)
    clone (binary b) = binary b
    clone (datetime t) = datetime t

    -- `Array_inserter` on each item, and `Struct_inserter` on each field
    pub push_items : Items D → Items D → Items D
    push_items no_items acc = acc
    push_items (item v a) acc = push_items a (array_push_back acc (clone v))

    pub insert_fields : Fields D → Fields D → Fields D
    insert_fields no_fields acc = acc
    insert_fields (field k v s) acc = insert_fields s (map_insert k (clone v) acc)

  -- The copy constructors, and the assignments of `Value`, `Array` and `Struct`, which copy before what
  -- was there is dropped; `clear` leaves nothing.
  abbrev pub array_assign : Items D → Items D → Items D
  array_assign old other = push_items other no_items

  abbrev pub struct_assign : Fields D → Fields D → Fields D
  struct_assign old other = insert_fields other no_fields

  abbrev pub value_assign : Value D → Value D → Value D
  value_assign old other = clone other

  abbrev pub array_clear : Items D → Items D
  array_clear a = no_items

  abbrev pub struct_clear : Fields D → Fields D
  struct_clear s = no_fields

  -- A value whose structs, also those inside it, have their names in order, as a `std::map` has.
  abbrev mutual
    pub IsMap : Value D → Type 0
    IsMap (array a) = ItemsAreMaps a
    IsMap (struct s) = IsSorted s × FieldsAreMaps s
    IsMap _ = Unit

    pub ItemsAreMaps : Items D → Type 0
    ItemsAreMaps no_items = Unit
    ItemsAreMaps (item v a) = IsMap v × ItemsAreMaps a

    pub FieldsAreMaps : Fields D → Type 0
    FieldsAreMaps no_fields = Unit
    FieldsAreMaps (field k v s) = IsMap v × FieldsAreMaps s

  abbrev append_items : Items D → Items D → Items D
  append_items no_items b = b
  append_items (item v a) b = item v (append_items a b)

  abbrev append_fields : Fields D → Fields D → Fields D
  append_fields no_fields t = t
  append_fields (field k v s) t = field k v (append_fields s t)

  push-append :
      (acc : Items D) (v : Value D) (a : Items D)
      → append_items (array_push_back acc v) a ≡ append_items acc (item v a)
  unfolding array_push_back
  push-append no_items v a = refl
  push-append (item w acc) v a = ap (item w) (push-append acc v a)

  append-no_items : (a : Items D) → append_items a no_items ≡ a
  append-no_items no_items = refl
  append-no_items (item v a) = ap (item v) (append-no_items a)

  append-no_fields : (s : Fields D) → append_fields s no_fields ≡ s
  append-no_fields no_fields = refl
  append-no_fields (field k v s) = ap (field k v) (append-no_fields s)

  After-append :
      (j k : Bytes) (v : Value D) (acc s : Fields D)
      → After j (append_fields acc (field k v s))
      → str_lt j k ≡ true
  After-append j k v no_fields s h = h.0
  After-append j k v (field i w acc) s h = After-append j k v acc s h.1

  -- A name behind all the others is inserted at the end.
  insert-append :
      (k : Bytes) (v : Value D) (acc s : Fields D)
      → IsSorted (append_fields acc (field k v s))
      → append_fields (map_insert k v acc) s ≡ append_fields acc (field k v s)
  unfolding map_insert
  insert-append k v no_fields s h = refl
  insert-append k v (field j w acc) s h =
      let lt : str_lt j k ≡ true = After-append j k v acc s h.0 in
      let ge : str_lt k j ≡ false = str_lt_asymm j k lt in
      let ne : str_eq k j ≡ false = ground (arith, str_eq_iff k j, str_lt_irrefl j, lt) in
      rw (ge, ne) (ap (field j w) (insert-append k v acc s h.1))

  mutual
    unfolding clone push_items insert_fields

    same_value : (v : Value D) → IsMap v → clone v ≡ v
    same_value nil h = refl
    same_value (int i) h = refl
    same_value (int64 i) h = refl
    same_value (bool b) h = refl
    same_value (double d) h = refl
    same_value (string s) h = refl
    same_value (array a) h = ap array (push_items-append a no_items h)
    same_value (struct s) h = ap struct (insert_fields-append s no_fields h.0 h.1)
    same_value (binary b) h = refl
    same_value (datetime t) h = refl

    push_items-append : (a acc : Items D) → ItemsAreMaps a → push_items a acc ≡ append_items acc a
    push_items-append no_items acc h = sym (append-no_items acc)
    push_items-append (item v a) acc (h, hs) =
        push_items-append a (array_push_back acc (clone v)) hs
        ∙ push-append acc (clone v) a
        ∙ ap (λ w. append_items acc (item w a)) (same_value v h)

    insert_fields-append :
        (s acc : Fields D)
        → IsSorted (append_fields acc s)
        → FieldsAreMaps s
        → insert_fields s acc ≡ append_fields acc s
    insert_fields-append no_fields acc o h = sym (append-no_fields acc)
    insert_fields-append (field k v s) acc o (h, hs) =
        let e = insert-append k v acc s o in
        rw (same_value v h) (insert_fields-append s (map_insert k v acc) (rw e o) hs ∙ e)

  -- A copy of a value is the value, where the structs inside it have their names in order: the items
  -- are pushed back one by one, and the fields inserted, each behind the others.
  pub clone_same : (v : Value D) → IsMap v → clone v ≡ v
  clone_same v h = same_value v h
