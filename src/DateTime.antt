-- ===== src/DateTime.antt =====
-- `Date_time` (libiqxmlrpc/value_type.cc): reading and printing of dateTime.iso8601 values. The
-- fields of `struct tm` are numbers here, so a hand-made `struct tm` with a negative field has no
-- counterpart; the constructor from text never makes one.
pub mod RoundTrip
pub mod Checks
use libiqxmlrpc.Prelude.Bytes.{Bytes, codes}
use libiqxmlrpc.Prelude.{
  ℕ, ◌+◌, ◌-◌, ◌*◌, ◌/◌, ◌%◌, Bool, true, false, not, ◌&&◌, ◌||◌, List, [], ◌∷◌, ◌++◌, Option, none,
  some, Result, ok, err, ltb, leb, ◌==◌, if◌then◌else◌, length, get_or, take, drop,
}

-- The fields of `struct tm` that the code reads; `year` counts from 1900, `mon` from 0.
pub record Tm : Type 0 where
  pub year : ℕ
  pub mon : ℕ
  pub mday : ℕ
  pub hour : ℕ
  pub min : ℕ
  pub sec : ℕ

pub data DateError : Type 0 where
  malformed_iso8601 : DateError

abbrev pub is_digit : ℕ → Bool
is_digit c = leb b'0' c && leb c b'9'

-- The characters of `alpha`, "0123456789T:".
abbrev in_alpha : ℕ → Bool
in_alpha c = is_digit c || c == b'T' || c == b':'

-- `find_first_not_of(alpha) == npos`
pub all_alpha : Bytes → Bool
all_alpha [] = true
all_alpha (c ∷ s) = in_alpha c && all_alpha s

-- `atoi` of a text that begins with no blank and no sign: the value of the leading digits.
pub atoi_from : ℕ → Bytes → ℕ
atoi_from n [] = n
atoi_from n (c ∷ s) = let rest = atoi_from (n * 10 + (c - b'0')) s in if is_digit c then rest else n

abbrev pub atoi : Bytes → ℕ
atoi = atoi_from 0

abbrev pub substr : Bytes → ℕ → ℕ → Bytes
substr s at n = take n (drop at s)

-- The range tests of the constructor, on the numbers as they are written in the text.
in_range : (year month mday hour min sec : ℕ) → Bool
in_range year month mday hour min sec =
    not (ltb year 1900)
    && (leb 1 month && leb month 12)
    && (leb 1 mday && leb mday 31)
    && leb hour 23
    && leb min 59
    && leb sec 61

-- The last part of the constructor: the fields are stored, or their ranges refuse them.
make_tm : (year month mday hour min sec : ℕ) → Result DateError Tm
unfolding in_range
make_tm year month mday hour min sec =
    if in_range year month mday hour min sec
    then ok (record {
      year = year - 1900;
      mon = month - 1;
      mday = mday;
      hour = hour;
      min = min;
      sec = sec;
    })
    else err malformed_iso8601

-- `Date_time( const std::string& s )`
unfoldable pub of_string : Bytes → Result DateError Tm
unfolding all_alpha atoi_from make_tm
of_string s =
    if not (length s == 17) || not (get_or s 8 0 == b'T')
    then err malformed_iso8601
    else if not (all_alpha (take 16 s))
    then err malformed_iso8601
    else make_tm (atoi (substr s 0 4)) (atoi (substr s 4 2)) (atoi (substr s 6 2))
        (atoi (substr s 9 2)) (atoi (substr s 12 2)) (atoi (substr s 15 2))

abbrev pub digit : ℕ → ℕ
digit n = b'0' + n % 10

-- Two digits of `strftime`, for a number below 100.
abbrev pub two_digits : ℕ → Bytes
two_digits n = digit (n / 10) ∷ digit n ∷ []

abbrev pub four_digits : ℕ → Bytes
four_digits n = digit (n / 1000) ∷ digit (n / 100) ∷ digit (n / 10) ∷ digit n ∷ []

-- `to_string`, for fields in their ranges: `strftime` into 18 bytes writes nothing where the year
-- has five digits.
unfoldable pub to_string : Tm → Option Bytes
to_string t =
    if ltb (t.year + 1900) 10000
    then some (
        four_digits (t.year + 1900)
        ++ two_digits (t.mon + 1)
        ++ two_digits t.mday
        ++ b'T' ∷ two_digits t.hour
        ++ b':' ∷ two_digits t.min
        ++ b':' ∷ two_digits t.sec)
    else none
