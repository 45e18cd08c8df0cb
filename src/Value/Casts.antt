-- ===== src/Value/Casts.antt =====
-- The tests, casts and accessors of `Value` (libiqxmlrpc/value.cc) against one another.
use libiqxmlrpc.Prelude.{
  ap, Option, some, none, Option-cases, sym, ◌∙◌, inl, inr, Bool-cases, ℕ, suc, Bool, true, false,
  ◌≡◌, refl, Result, ok, err, arith, if◌then◌else◌, ◌>>=◌, ◌==◌, zero,
}
use libiqxmlrpc.Prelude.Bytes.{Bytes, str_eq}
use libiqxmlrpc.Value.{
  no_field, Fields, struct_insert, struct_find, Value, nil, int, int64, bool, double, string, array,
  struct, binary, datetime, Items, no_items, item, ValueError, the_array, the_struct, get_int,
  get_int64, get_bool, get_double, get_string, get_binary, get_datetime, is_int, is_int64, is_bool,
  is_double, is_string, is_binary, is_datetime, is_array, is_struct, is_nil, array_size, array_at,
  array_push_back, push_back, at_index, value_size, insert, at_field, struct_at,
}
use libiqxmlrpc.Value.Structs.{struct_find-struct_insert}

abbrev pub succeeds : {A : Type 0} → Result ValueError A → Bool
succeeds (ok _) = true
succeeds (err _) = false

abbrev count : Bool → ℕ → ℕ
count b n = if b then suc n else n

module _ {D : Type 0} where
  -- How many of the ten tests hold.
  abbrev pub tests : Value D → ℕ
  tests v = count (is_nil v) (
      count (is_int v) (
        count (is_int64 v) (
          count (is_bool v) (
            count (is_double v) (
              count (is_string v) (
                count (is_binary v)
                  (count (is_datetime v) (count (is_array v) (count (is_struct v) 0)))))))))

  -- Each cast succeeds exactly where the test of its name says so, and one test of the ten holds.
  pub get-is :
      (v : Value D)
      → (succeeds (get_int v) ≡ is_int v)
        × (succeeds (get_int64 v) ≡ is_int64 v)
        × (succeeds (get_bool v) ≡ is_bool v)
        × (succeeds (get_double v) ≡ is_double v)
        × (succeeds (get_string v) ≡ is_string v)
        × (succeeds (get_binary v) ≡ is_binary v)
        × (succeeds (get_datetime v) ≡ is_datetime v)
        × (succeeds (the_array v) ≡ is_array v)
        × (succeeds (the_struct v) ≡ is_struct v)
        × (tests v ≡ 1)
  unfolding get_int get_int64 get_bool get_double get_string get_binary get_datetime the_array
      the_struct is_nil is_int is_int64 is_bool is_double is_string is_binary is_datetime is_array
      is_struct
  get-is nil = (refl, refl, refl, refl, refl, refl, refl, refl, refl, refl)
  get-is (int _) = (refl, refl, refl, refl, refl, refl, refl, refl, refl, refl)
  get-is (int64 _) = (refl, refl, refl, refl, refl, refl, refl, refl, refl, refl)
  get-is (bool _) = (refl, refl, refl, refl, refl, refl, refl, refl, refl, refl)
  get-is (double _) = (refl, refl, refl, refl, refl, refl, refl, refl, refl, refl)
  get-is (string _) = (refl, refl, refl, refl, refl, refl, refl, refl, refl, refl)
  get-is (array _) = (refl, refl, refl, refl, refl, refl, refl, refl, refl, refl)
  get-is (struct _) = (refl, refl, refl, refl, refl, refl, refl, refl, refl, refl)
  get-is (binary _) = (refl, refl, refl, refl, refl, refl, refl, refl, refl, refl)
  get-is (datetime _) = (refl, refl, refl, refl, refl, refl, refl, refl, refl, refl)

  array_at-array_push_back :
      (a : Items D) (v : Value D) (i : ℕ)
      → array_at (array_push_back a v) i ≡ (if i == array_size a then ok v else array_at a i)
  unfolding array_at array_push_back
  array_at-array_push_back no_items v zero = refl
  array_at-array_push_back no_items v (suc i) = ground arith
  array_at-array_push_back (item w a) v zero = ground arith
  array_at-array_push_back (item w a) v (suc i) = ground (arith, array_at-array_push_back a v i)

  -- An item that is pushed back to an array is at the index that was its size, the other indices are
  -- as before, those out of range included, and what is no array is refused.
  pub at_index-push_back :
      (w v : Value D) (i : ℕ)
      → (push_back v w >>= λ u. at_index u i)
        ≡ (value_size w >>= λ n. if i == n then ok v else at_index w i)
  unfolding push_back at_index value_size the_array
  at_index-push_back (array a) v i = array_at-array_push_back a v i
  at_index-push_back nil v i = refl
  at_index-push_back (int _) v i = refl
  at_index-push_back (int64 _) v i = refl
  at_index-push_back (bool _) v i = refl
  at_index-push_back (double _) v i = refl
  at_index-push_back (string _) v i = refl
  at_index-push_back (struct _) v i = refl
  at_index-push_back (binary _) v i = refl
  at_index-push_back (datetime _) v i = refl

  found : Bytes → Option (Value D) → Result ValueError (Value D)
  found f (some v) = ok v
  found f none = err (no_field f)

  struct_at-struct_find : (f : Bytes) (s : Fields D) → struct_at f s ≡ found f (struct_find f s)
  unfolding struct_at found
  struct_at-struct_find f s = elim (Option-cases (struct_find f s)) [
    | inl e ↦ rw (struct_at, e) refl
    | inr (v, e) ↦ rw (struct_at, e) refl
  ]

  struct_at-struct_insert :
      (f g : Bytes) (v : Value D) (s : Fields D)
      → struct_at g (struct_insert f v s) ≡ (if str_eq f g then ok v else struct_at g s)
  unfolding found
  struct_at-struct_insert f g v s =
      struct_at-struct_find g (struct_insert f v s)
      ∙ ap (found g) (struct_find-struct_insert f g v s)
      ∙ (elim (Bool-cases (str_eq f g)) [
        | inl e ↦ rw e refl
        | inr e ↦ rw e (sym (struct_at-struct_find g s))
      ])

  -- A field that is inserted into a struct is found under its name, the other names are as before,
  -- those that are missing included, and what is no struct is refused.
  pub at_field-insert :
      (f g : Bytes) (v w : Value D)
      → (insert f v w >>= λ u. at_field u g)
        ≡ (the_struct w >>= λ s. if str_eq f g then ok v else at_field w g)
  unfolding insert at_field the_struct struct_at
  at_field-insert f g v (struct s) = struct_at-struct_insert f g v s
  at_field-insert f g v nil = refl
  at_field-insert f g v (int _) = refl
  at_field-insert f g v (int64 _) = refl
  at_field-insert f g v (bool _) = refl
  at_field-insert f g v (double _) = refl
  at_field-insert f g v (string _) = refl
  at_field-insert f g v (array _) = refl
  at_field-insert f g v (binary _) = refl
  at_field-insert f g v (datetime _) = refl
