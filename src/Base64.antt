-- ===== src/Base64.antt =====
-- The base64 codec of `Binary_data` (libiqxmlrpc/value_type.cc): `encode`, `get_idx`,
-- `decode_four`, `decode`, and the object with its cached text. A byte is a number below 256; the
-- masks, shifts and ors of disjoint bits are written by `*`, `/`, `%` and `+`.
pub mod RoundTrip
pub mod Texts
use libiqxmlrpc.Prelude.Bytes.{Bytes, codes}
use libiqxmlrpc.Prelude.{
  ℕ, ◌+◌, ◌-◌, ◌*◌, ◌/◌, ◌%◌, ◌^◌, Bool, true, false, not, ◌&&◌, ◌||◌, List, [], ◌∷◌, ◌++◌, Result,
  ok, err, ◌>>=◌, leb, ◌==◌, if◌then◌else◌, length, get_or,
}

-- `base64_alpha`
abbrev pub base64_alpha : Bytes
base64_alpha = codes "ABCDEFGHIJKLMNOPQRSTUVWXYZabcdefghijklmnopqrstuvwxyz0123456789+/"

-- `add_base64_char`: the character that is appended for an index
pub base64_char : ℕ → ℕ
base64_char idx = get_or base64_alpha idx 0

-- The text that `encode` appends; `c` is the 24-bit group of the loop's round.
unfoldable pub encode : Bytes → Bytes
encode [] = []
encode (a ∷ []) =
    let c = a * 2 ^ 16 in
    base64_char (c / 2 ^ 18 % 64) ∷ base64_char (c / 2 ^ 12 % 64) ∷ b'=' ∷ b'=' ∷ []
encode (a ∷ b ∷ []) =
    let c = a * 2 ^ 16 + b * 2 ^ 8 in
    base64_char (c / 2 ^ 18 % 64)
    ∷ base64_char (c / 2 ^ 12 % 64)
    ∷ base64_char (c / 2 ^ 6 % 64)
    ∷ b'='
    ∷ []
encode (a ∷ b ∷ d ∷ rest) =
    let c = a * 2 ^ 16 + b * 2 ^ 8 + d in
    base64_char (c / 2 ^ 18 % 64)
    ∷ base64_char (c / 2 ^ 12 % 64)
    ∷ base64_char (c / 2 ^ 6 % 64)
    ∷ base64_char (c % 64)
    ∷ encode rest

-- The exceptions `End_of_data`, which stays inside, and `Malformed_base64`.
pub data Base64Error : Type 0 where
  end_of_data malformed_base64 : Base64Error

abbrev within : ℕ → ℕ → ℕ → Bool
within lo hi c = leb lo c && leb c hi

pub get_idx : ℕ → Result Base64Error ℕ
get_idx c =
    if c == b'='
    then err end_of_data
    else if within b'A' b'Z' c
    then ok (c - b'A')
    else if within b'a' b'z' c
    then ok (26 + c - b'a')
    else if within b'0' b'9' c
    then ok (52 + c - b'0')
    else if c == b'+'
    then ok 62
    else if c == b'/'
    then ok 63
    else err malformed_base64

-- `get_idx(c) << 6 | get_idx(d)`
get_pair : ℕ → ℕ → Result Base64Error ℕ
get_pair c d = do i ← get_idx c; j ← get_idx d; ok (i * 2 ^ 6 + j)

-- `catch( const End_of_data& ) {}`: what was appended before stays.
catch_end : Bytes → Base64Error → Result Base64Error Bytes
catch_end bytes end_of_data = ok bytes
catch_end bytes malformed_base64 = err malformed_base64

-- The three appends of the `try` block, each after a pair of indices was read.
append_third : Bytes → ℕ → ℕ → Result Base64Error Bytes
append_third bytes c3 c4 = elim (get_pair c3 c4) [
  | ok pair ↦ ok (bytes ++ (pair % 256) ∷ [])
  | err e ↦ catch_end bytes e
]

append_second : Bytes → ℕ → ℕ → ℕ → Result Base64Error Bytes
append_second bytes c2 c3 c4 = elim (get_pair c2 c3) [
  | ok pair ↦ append_third (bytes ++ (pair / 2 ^ 2 % 256) ∷ []) c3 c4
  | err e ↦ catch_end bytes e
]

append_first : Bytes → ℕ → ℕ → ℕ → ℕ → Result Base64Error Bytes
append_first bytes c1 c2 c3 c4 = elim (get_pair c1 c2) [
  | ok pair ↦ append_second (bytes ++ (pair / 2 ^ 4 % 256) ∷ []) c2 c3 c4
  | err e ↦ catch_end bytes e
]

-- `decode_four`: the bytes so far, and with those of the group
pub decode_four : Bytes → Bytes → Result Base64Error Bytes
unfolding append_first append_second append_third catch_end
decode_four bytes four =
    let c1 = get_or four 0 0 in
    let c2 = get_or four 1 0 in
    if c1 == b'=' || c2 == b'='
    then err malformed_base64
    else append_first bytes c1 c2 (get_or four 2 0) (get_or four 3 0)

-- `isspace` of the C locale
unfoldable pub is_space : ℕ → Bool
is_space c = c == b' ' || within 9 13 c

-- The two strings that the loop of `decode` changes.
pub record Decoder : Type 0 where
  pub bytes : Bytes
  pub four : Bytes

-- One round of the loop.
pub decode_step : Decoder → ℕ → Result Base64Error Decoder
decode_step s c =
    if is_space c
    then ok s
    else let four = s.four ++ c ∷ [] in
      if length four == 4
      then (do d ← decode_four s.bytes four; ok (record { bytes = d; four = [] }))
      else ok (record s { four = four })

-- `if( !four.empty() ) throw Malformed_base64()`
decode_finish : Bytes → Bytes → Result Base64Error Bytes
decode_finish bytes [] = ok bytes
decode_finish bytes (_ ∷ _) = err malformed_base64

pub decode_loop : Decoder → Bytes → Result Base64Error Bytes
unfolding decode_finish
decode_loop s [] = decode_finish s.bytes s.four
decode_loop s (c ∷ cs) = do t ← decode_step s c; decode_loop t cs

unfoldable pub decode : Bytes → Result Base64Error Bytes
unfolding decode_loop decode_step decode_four is_space get_idx get_pair
decode = decode_loop (record { bytes = []; four = [] })

-- The object: raw bytes and the cached text, each empty until it is known.
pub record BinaryData : Type 0 where
  pub bytes : Bytes
  pub base64 : Bytes

unfoldable pub from_data : Bytes → BinaryData
from_data s = record { bytes = s; base64 = [] }

unfoldable pub from_base64 : Bytes → Result Base64Error BinaryData
from_base64 s = do d ← decode s; ok (record { bytes = d; base64 = s })

abbrev is_empty : Bytes → Bool
is_empty [] = true
is_empty (_ ∷ _) = false

-- The object that `get_base64` leaves; its result is the object's `base64`.
unfoldable pub get_base64 : BinaryData → BinaryData
get_base64 b =
    if is_empty b.base64 && not (is_empty b.bytes)
    then record b { base64 = b.base64 ++ encode b.bytes }
    else b
