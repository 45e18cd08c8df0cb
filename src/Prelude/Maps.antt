-- ===== src/Prelude/Maps.antt =====
-- `std::map<std::string, V>`: the entries in the order of their keys.
use libiqxmlrpc.Prelude.Bytes.{
  Bytes, str_eq, str_lt, str_eq_iff, str_eq_refl, str_lt_irrefl, str_lt_trans, str_lt_total,
}
use libiqxmlrpc.Prelude.Tests.{if◌then◌else◌, Bool-cases}
use mathlib.Core.Bool.{Bool, true, false}
use mathlib.Core.List.{List, [], ◌∷◌}
use mathlib.Core.Logic.{inl, inr}
use mathlib.Core.Option.{Option, none, some}
use mathlib.Core.Path.{◌≡◌, refl}
use native.Mathlib.Omega.{arith}

abbrev pub Map {ℓ} : Type ℓ → Type ℓ
Map V = List (Bytes × V)

lt_of_not_lt : (j k : Bytes) → str_lt j k ≡ false → str_eq j k ≡ false → str_lt k j ≡ true
lt_of_not_lt j k h e = ground (arith, str_lt_total j k h, str_eq_iff j k)

module _ {ℓ} {V : Type ℓ} where
  unfoldable pub find : Bytes → Map V → Option V
  find k [] = none
  find k ((j, v) ∷ m) = if str_eq j k then some v else find k m

  -- `m[k] = v`
  unfoldable pub insert : Bytes → V → Map V → Map V
  insert k v [] = (k, v) ∷ []
  insert k v ((j, w) ∷ m) =
      if str_lt k j
      then (k, v) ∷ (j, w) ∷ m
      else if str_eq j k
      then (k, v) ∷ m
      else (j, w) ∷ insert k v m

  abbrev pub contains : Bytes → Map V → Bool
  contains k m = elim (find k m) [ some _ ↦ true | none ↦ false ]

  -- Every key comes after `k`.
  abbrev pub After : Bytes → Map V → Type 0
  After k [] = Unit
  After k ((j, v) ∷ m) = (str_lt k j ≡ true) × After k m

  abbrev pub IsOrdered : Map V → Type 0
  IsOrdered [] = Unit
  IsOrdered ((k, v) ∷ m) = After k m × IsOrdered m

  pub find-insert :
      (j k : Bytes) (v : V) (m : Map V)
      → find j (insert k v m) ≡ (if str_eq k j then some v else find j m)
  unfolding find insert
  find-insert j k v [] = refl
  find-insert j k v ((i, w) ∷ m) =
      ground (arith, str_eq_iff i k, str_eq_iff k j, str_eq_iff i j, find-insert j k v m)

  pub find-insert_same : (k : Bytes) (v : V) (m : Map V) → find k (insert k v m) ≡ some v
  find-insert_same k v m = rw (find-insert k k v m, str_eq_refl k)

  pub contains-insert_same : (k : Bytes) (v : V) (m : Map V) → contains k (insert k v m) ≡ true
  contains-insert_same k v m = rw (contains, find-insert_same k v m) refl

  pub find-After : (k : Bytes) (m : Map V) → After k m → find k m ≡ none
  unfolding find
  find-After k [] a = refl
  find-After k ((j, v) ∷ m) a = ground (arith, str_eq_iff j k, str_lt_irrefl k, find-After k m a.1)

  After-trans : (j k : Bytes) (m : Map V) → str_lt j k ≡ true → After k m → After j m
  After-trans j k [] h a = tt
  After-trans j k ((i, v) ∷ m) h a = (str_lt_trans j k i h a.0, After-trans j k m h a.1)

  After-insert :
      (j k : Bytes) (v : V) (m : Map V) → str_lt j k ≡ true → After j m → After j (insert k v m)
  unfolding insert
  After-insert j k v [] h a = (h, tt)
  After-insert j k v ((i, w) ∷ m) h a = elim (Bool-cases (str_lt k i)) [
    | inl e ↦ rw e (h, a)
    | inr e ↦ rw e (elim (Bool-cases (str_eq i k)) [
      | inl q ↦ rw q (h, a.1)
      | inr q ↦ rw q (a.0, After-insert j k v m h a.1)
    ])
  ]

  pub insert-IsOrdered : (k : Bytes) (v : V) (m : Map V) → IsOrdered m → IsOrdered (insert k v m)
  unfolding insert
  insert-IsOrdered k v [] o = (tt, tt)
  insert-IsOrdered k v ((j, w) ∷ m) o = elim (Bool-cases (str_lt k j)) [
    | inl e ↦ rw e ((e, After-trans k j m e o.0), o)
    | inr e ↦ rw e (elim (Bool-cases (str_eq j k)) [
      | inl q ↦ rw q (rw (← (str_eq_iff j k).0 q) o)
      | inr q ↦ rw q (
        After-insert j k v m (ground (arith, lt_of_not_lt k j e, str_eq_iff k j, str_eq_iff j k))
            o.0,
        insert-IsOrdered k v m o.1,
      )
    ])
  ]
