-- ===== src/Value/Structs.antt =====
-- The map inside `Struct` (libiqxmlrpc/value_type.cc): lookups after insertions and removals, and
-- the order of the names.
use libiqxmlrpc.Value.{Value, Fields, no_fields, field, struct_find, struct_insert, struct_erase}
use libiqxmlrpc.Prelude.Bytes.{
  Bytes, str_eq, str_lt, str_eq_iff, str_lt_irrefl, str_lt_trans, str_lt_total,
}
use libiqxmlrpc.Prelude.{
  ◌≡◌, refl, true, false, none, some, if◌then◌else◌, arith, Bool-cases, inl, inr,
}

str_lt_of_not : (f k : Bytes) → str_lt f k ≡ false → str_eq f k ≡ false → str_lt k f ≡ true
str_lt_of_not f k h e = ground (arith, str_lt_total f k h, str_eq_iff f k)

module _ {D : Type 0} where
  -- Every name of the struct comes after `k`.
  abbrev pub After : Bytes → Fields D → Type 0
  After k no_fields = Unit
  After k (field j v s) = (str_lt k j ≡ true) × After k s

  -- The names are in strictly ascending order, as in a `std::map`.
  abbrev pub IsSorted : Fields D → Type 0
  IsSorted no_fields = Unit
  IsSorted (field k v s) = After k s × IsSorted s

  -- After an insertion, the inserted value is found under its name, and every other name is as it
  -- was.
  pub struct_find-struct_insert :
      (f g : Bytes) (v : Value D) (s : Fields D)
      → struct_find g (struct_insert f v s) ≡ (if str_eq f g then some v else struct_find g s)
  unfolding struct_find struct_insert
  struct_find-struct_insert f g v no_fields = refl
  struct_find-struct_insert f g v (field k w s) =
      ground
        (arith, str_eq_iff f k, str_eq_iff f g, str_eq_iff k g, struct_find-struct_insert f g v s)

  After-trans : (j k : Bytes) (s : Fields D) → str_lt j k ≡ true → After k s → After j s
  After-trans j k no_fields h a = tt
  After-trans j k (field i v s) h a = (str_lt_trans j k i h a.0, After-trans j k s h a.1)

  After-struct_insert :
      (k f : Bytes) (v : Value D) (s : Fields D)
      → str_lt k f ≡ true
      → After k s
      → After k (struct_insert f v s)
  unfolding struct_insert
  After-struct_insert k f v no_fields h a = (h, tt)
  After-struct_insert k f v (field j w s) h a = elim (Bool-cases (str_lt f j)) [
    | inl e ↦ rw e (h, a)
    | inr e ↦ rw e (elim (Bool-cases (str_eq f j)) [
      | inl q ↦ rw q (h, a.1)
      | inr q ↦ rw q (a.0, After-struct_insert k f v s h a.1)
    ])
  ]

  -- An insertion keeps the fields in the strict order of their names.
  pub struct_insert-IsSorted :
      (f : Bytes) (v : Value D) (s : Fields D) → IsSorted s → IsSorted (struct_insert f v s)
  unfolding struct_insert
  struct_insert-IsSorted f v no_fields h = (tt, tt)
  struct_insert-IsSorted f v (field k w s) h = elim (Bool-cases (str_lt f k)) [
    | inl e ↦ rw e ((e, After-trans f k s e h.0), h)
    | inr e ↦ rw e (elim (Bool-cases (str_eq f k)) [
      | inl q ↦ rw q (rw ((str_eq_iff f k).0 q) h)
      | inr q ↦ rw q (
        After-struct_insert k f v s (str_lt_of_not f k e q) h.0,
        struct_insert-IsSorted f v s h.1,
      )
    ])
  ]

  struct_find-After : (f : Bytes) (s : Fields D) → After f s → struct_find f s ≡ none
  unfolding struct_find
  struct_find-After f no_fields a = refl
  struct_find-After f (field k v s) a =
      ground (arith, str_eq_iff k f, str_lt_irrefl f, struct_find-After f s a.1)

  -- After a removal from fields in the strict order of their names, the removed name is missing, and
  -- every other name is as it was.
  pub struct_find-struct_erase :
      (f g : Bytes) (s : Fields D)
      → IsSorted s
      → struct_find g (struct_erase f s) ≡ (if str_eq f g then none else struct_find g s)
  unfolding struct_find struct_erase
  struct_find-struct_erase f g no_fields h = ground arith
  struct_find-struct_erase f g (field k v s) h = ground (
    arith,
    str_eq_iff k f,
    str_eq_iff f g,
    str_eq_iff k g,
    struct_find-After k s h.0,
    struct_find-struct_erase f g s h.1,
  )
