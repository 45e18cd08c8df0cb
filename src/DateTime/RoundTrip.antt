-- ===== src/DateTime/RoundTrip.antt =====
-- A printed date is read back (libiqxmlrpc/value_type.cc).
use libiqxmlrpc.DateTime.{
  Tm, is_digit, in_alpha, all_alpha, atoi_from, atoi, make_tm, of_string, digit, two_digits,
  four_digits, to_string,
}
use libiqxmlrpc.Prelude.Bytes.{Bytes}
use libiqxmlrpc.Prelude.{ℕ, ◌+◌, ◌-◌, ◌/◌, ◌≤◌, ◌<◌, ◌≡◌, true, ◌∷◌, ◌++◌, some, ok, take, arith}

-- The ranges of the fields; a year has four digits.
pub record IsTm (t : Tm) : Type 0 where
  pub year_le : t.year ≤ 8099
  pub mon_le : t.mon ≤ 11
  pub mday_pos : 1 ≤ t.mday
  pub mday_le : t.mday ≤ 31
  pub hour_le : t.hour ≤ 23
  pub min_le : t.min ≤ 59
  pub sec_le : t.sec ≤ 61

is_digit-digit : (n : ℕ) → is_digit (digit n) ≡ true
is_digit-digit n = ground arith

atoi-two_digits : (n : ℕ) → n < 100 → atoi (two_digits n) ≡ n
unfolding atoi_from
atoi-two_digits n h = ground (arith, is_digit-digit n, is_digit-digit (n / 10))

atoi-four_digits : (n : ℕ) → n < 10000 → atoi (four_digits n) ≡ n
unfolding atoi_from
atoi-four_digits n h = ground (
  arith,
  is_digit-digit n,
  is_digit-digit (n / 10),
  is_digit-digit (n / 100),
  is_digit-digit (n / 1000),
)

in_alpha-digit : (n : ℕ) → in_alpha (digit n) ≡ true
in_alpha-digit n = ground arith

abbrev printed : (y m d h i s : ℕ) → Bytes
printed y m d h i s =
    four_digits y
    ++ two_digits m
    ++ two_digits d
    ++ b'T' ∷ two_digits h
    ++ b':' ∷ two_digits i
    ++ b':' ∷ two_digits s

-- What `to_string` writes passes the test of the characters.
all_alpha-printed : (y m d h i s : ℕ) → all_alpha (take 16 (printed y m d h i s)) ≡ true
unfolding all_alpha
all_alpha-printed y m d h i s = simp in_alpha-digit

Tm_path : (t : Tm) → record t { year = t.year + 1900 - 1900; mon = t.mon + 1 - 1 } ≡ t
Tm_path t = ground arith

make_tm-IsTm :
    (t : Tm) → IsTm t → make_tm (t.year + 1900) (t.mon + 1) t.mday t.hour t.min t.sec ≡ ok t
unfolding make_tm
make_tm-IsTm t v = ground (arith, Tm_path t)

of_string-printed :
    (t : Tm)
    → IsTm t
    → of_string (printed (t.year + 1900) (t.mon + 1) t.mday t.hour t.min t.sec) ≡ ok t
unfolding of_string
of_string-printed t v = rw (
  all_alpha-printed (t.year + 1900) (t.mon + 1) t.mday t.hour t.min t.sec,
  atoi-four_digits (t.year + 1900) (omega arith),
  atoi-two_digits (t.mon + 1) (omega arith),
  atoi-two_digits t.mday (omega arith),
  atoi-two_digits t.hour (omega arith),
  atoi-two_digits t.min (omega arith),
  atoi-two_digits t.sec (omega arith),
  make_tm-IsTm t v,
)

-- A date whose fields are in range is printed, and the text is read as the same date.
pub of_string-to_string :
    (t : Tm) → IsTm t → (s : Bytes) × (to_string t ≡ some s) × (of_string s ≡ ok t)
unfolding to_string
of_string-to_string t v = (
  printed (t.year + 1900) (t.mon + 1) t.mday t.hour t.min t.sec,
  ground arith,
  of_string-printed t v,
)
