-- ===== src/DateTime/Checks.antt =====
-- Which texts the constructor from text takes (libiqxmlrpc/value_type.cc).
use libiqxmlrpc.DateTime.{
  Tm, malformed_iso8601, is_digit, all_alpha, atoi_from, atoi, make_tm, of_string, substr,
}
use libiqxmlrpc.DateTime.RoundTrip.{IsTm}
use native.Mathlib.Nat.{pow-zero, pow-suc, one-le-pow, pow-le-pow_right}
use libiqxmlrpc.Prelude.Bytes.{Bytes}
use libiqxmlrpc.Prelude.{
  ℕ, ◌+◌, ◌-◌, ◌*◌, ◌^◌, ◌≤◌, ◌<◌, ◌≡◌, true, false, not, ◌||◌, [], ◌∷◌, ok, ◌==◌, length, take,
  arith, length-take, Bool-cases, inl, inr, guard-eq-ok, get_or,
}

power_step : (n d p : ℕ) → d ≤ 9 → (n * 10 + d + 1) * p ≤ (n + 1) * (p * 10)
power_step n d p h = grind arith

digit_le : (c : ℕ) → is_digit c ≡ true → c - b'0' ≤ 9
digit_le c h = ground arith

more_le : (n k : ℕ) → n < (n + 1) * 10 ^ k
more_le n k = let h : 1 ≤ 10 ^ k = one-le-pow k 10 (omega arith) in grind arith

-- `k` digits read on from `n` give less than `(n + 1) * 10 ^ k`.
atoi_from-lt : (s : Bytes) (n : ℕ) → atoi_from n s < (n + 1) * 10 ^ length s
unfolding atoi_from
atoi_from-lt [] n = simp pow-zero (omega arith)
atoi_from-lt (c ∷ s) n = elim (Bool-cases (is_digit c)) [
  | inl e ↦
      rw (e, pow-suc)
        (omega (
          arith,
          atoi_from-lt s (n * 10 + (c - b'0')),
          power_step n (c - b'0') (10 ^ length s) (digit_le c e),
        ))
  | inr e ↦ rw e (more_le n (length (c ∷ s)))
]

make_tm-fields : (y m d h i s : ℕ) (t : Tm) → make_tm y m d h i s ≡ ok t → y < 10000 → IsTm t
unfolding make_tm
make_tm-fields y m d h i s t e l = ground arith

length-substr : (s : Bytes) → length (substr s 0 4) ≤ 4
length-substr s = omega (arith, length-take 4 s)

atoi_year-lt : (s : Bytes) → atoi (substr s 0 4) < 10000
atoi_year-lt s =
    let h : 10 ^ length (substr s 0 4) ≤ 10 ^ 4 =
      pow-le-pow_right (omega arith) (length-substr s) in
    omega (arith, atoi_from-lt (substr s 0 4) 0)

-- The first test of the constructor.
length_test : (l c : ℕ) → (not (l == 17) || not (c == b'T')) ≡ false → (l ≡ 17) × (c ≡ b'T')
length_test l c h = ground arith

-- A text that is read as a date has seventeen characters with a `T` after the eighth, and the fields
-- of the date are in their ranges.
pub of_string-IsTm :
    (s : Bytes) (t : Tm) → of_string s ≡ ok t → (length s ≡ 17) × (get_or s 8 0 ≡ b'T') × IsTm t
unfolding of_string
of_string-IsTm s t h =
    let (e, h') =
      guard-eq-ok (not (length s == 17) || not (get_or s 8 0 == b'T')) malformed_iso8601 _ h in
    let (_, made) = guard-eq-ok (not (all_alpha (take 16 s))) malformed_iso8601 _ h' in
    let (l, c) = length_test (length s) (get_or s 8 0) e in
    (
      l,
      c,
      make_tm-fields (atoi (substr s 0 4)) (atoi (substr s 4 2)) (atoi (substr s 6 2))
          (atoi (substr s 9 2)) (atoi (substr s 12 2)) (atoi (substr s 15 2)) t made
          (atoi_year-lt s),
    )
