-- ===== src/Prelude/Int.antt =====
-- Signed integers over the native numbers, under the library's names.
use Prim.Native.Nat.{ℕ, ◌<◌, ◌^◌}

-- `negsuc n` is -(n + 1).
pub data ℤ : Type 0 where
  pos : ℕ → ℤ
  negsuc : ℕ → ℤ

-- The values of a two's complement integer of `suc w` bits.
abbrev pub FitsInt : ℕ → ℤ → Type 0
FitsInt w (pos n) = n < 2 ^ w
FitsInt w (negsuc n) = n < 2 ^ w
