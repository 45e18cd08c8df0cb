-- ===== src/Base64/RoundTrip.antt =====
-- `decode` undoes `encode` (libiqxmlrpc/value_type.cc).
use libiqxmlrpc.Base64.{
  base64_char, encode, end_of_data, get_idx, decode_four, get_pair, is_space, decode_step,
  decode_loop, decode, from_data, from_base64, get_base64,
}
use libiqxmlrpc.Prelude.Bytes.{Bytes}
use mathlib.Core.List.{append_assoc, append-nil}
use native.Mathlib.Nat.{mod-lt}
use libiqxmlrpc.Prelude.{
  ℕ, ◌+◌, ◌*◌, ◌/◌, ◌%◌, ◌^◌, ◌<◌, ◌≡◌, refl, ◌∙◌, ap, Bool, true, false, not, ◌&&◌, [], ◌∷◌, ◌++◌,
  ok, err, ◌>>=◌, ◌==◌, arith, All, passes_below, passes_below-at, bind_assoc,
}

-- An index is what its character is read as, and no character is blank or padding.
abbrev char_test : ℕ → Bool
char_test i =
    elim (get_idx (base64_char i)) [ ok j ↦ j == i | err _ ↦ false ]
    && not (is_space (base64_char i))
    && not (base64_char i == b'=')

chars_table : passes_below char_test 64 ≡ true
unfolding passes_below get_idx base64_char is_space
chars_table = refl

record IsChar (i c : ℕ) : Type 0 where
  read : get_idx c ≡ ok i
  not_space : is_space c ≡ false
  not_pad : (c == b'=') ≡ false

-- What a passed test says.
char_test-IsChar : (i : ℕ) → char_test i ≡ true → IsChar i (base64_char i)
char_test-IsChar i h = ground arith

base64_char-IsChar : (i : ℕ) → i < 64 → IsChar i (base64_char i)
base64_char-IsChar i h = char_test-IsChar i (passes_below-at char_test 64 i h chars_table)

-- Four characters that are not blank make one call of `decode_four`.
loop_four :
    (d : Bytes) (c1 c2 c3 c4 : ℕ) (s : Bytes)
    → is_space c1 ≡ false
    → is_space c2 ≡ false
    → is_space c3 ≡ false
    → is_space c4 ≡ false
    → decode_loop (record { bytes = d; four = [] }) (c1 ∷ c2 ∷ c3 ∷ c4 ∷ s) ≡ (do
      e ← decode_four d (c1 ∷ c2 ∷ c3 ∷ c4 ∷ [])
      decode_loop (record { bytes = e; four = [] }) s)
unfolding decode_loop decode_step
loop_four d c1 c2 c3 c4 s h1 h2 h3 h4 =
    rw (h1, h2, h3, h4) (bind_assoc (decode_four d (c1 ∷ c2 ∷ c3 ∷ c4 ∷ [])) _ _)

get_pair-ok :
    (c d : ℕ) {i j : ℕ} → get_idx c ≡ ok i → get_idx d ≡ ok j → get_pair c d ≡ ok (i * 2 ^ 6 + j)
unfolding get_pair
get_pair-ok c d h k = rw (h, k)

get_pair-pad : (c : ℕ) {i : ℕ} → get_idx c ≡ ok i → get_pair c b'=' ≡ err end_of_data
unfolding get_pair get_idx
get_pair-pad c h = rw h

get_pair-pad_pad : get_pair b'=' b'=' ≡ err end_of_data
unfolding get_pair get_idx
get_pair-pad_pad = refl

module _ (d : Bytes) {i1 i2 c1 c2 : ℕ} (h1 : IsChar i1 c1) (h2 : IsChar i2 c2) where
  decode_four-two :
      decode_four d (c1 ∷ c2 ∷ b'=' ∷ b'=' ∷ []) ≡ ok (d ++ ((i1 * 2 ^ 6 + i2) / 2 ^ 4 % 256) ∷ [])
  unfolding decode_four
  decode_four-two = ground (arith, get_pair-ok c1 c2 h1.read h2.read, get_pair-pad c2 h2.read)

  decode_four-three :
      {i3 c3 : ℕ}
      → IsChar i3 c3
      → decode_four d (c1 ∷ c2 ∷ c3 ∷ b'=' ∷ [])
        ≡ ok (d ++ ((i1 * 2 ^ 6 + i2) / 2 ^ 4 % 256) ∷ ((i2 * 2 ^ 6 + i3) / 2 ^ 2 % 256) ∷ [])
  unfolding decode_four
  decode_four-three {i3} {c3} h3 = ground (
    arith,
    get_pair-ok c1 c2 h1.read h2.read,
    get_pair-ok c2 c3 h2.read h3.read,
    get_pair-pad c3 h3.read,
    append_assoc d (((i1 * 2 ^ 6 + i2) / 2 ^ 4 % 256) ∷ [])
        (((i2 * 2 ^ 6 + i3) / 2 ^ 2 % 256) ∷ []),
  )

  decode_four-four :
      {i3 i4 c3 c4 : ℕ}
      → IsChar i3 c3
      → IsChar i4 c4
      → decode_four d (c1 ∷ c2 ∷ c3 ∷ c4 ∷ [])
        ≡ ok (
            d
            ++ ((i1 * 2 ^ 6 + i2) / 2 ^ 4 % 256)
              ∷ ((i2 * 2 ^ 6 + i3) / 2 ^ 2 % 256)
              ∷ ((i3 * 2 ^ 6 + i4) % 256)
              ∷ [])
  unfolding decode_four
  decode_four-four {i3} {i4} {c3} {c4} h3 h4 = ground (
    arith,
    get_pair-ok c1 c2 h1.read h2.read,
    get_pair-ok c2 c3 h2.read h3.read,
    get_pair-ok c3 c4 h3.read h4.read,
    append_assoc d (((i1 * 2 ^ 6 + i2) / 2 ^ 4 % 256) ∷ [])
        (((i2 * 2 ^ 6 + i3) / 2 ^ 2 % 256) ∷ []),
    append_assoc d (((i1 * 2 ^ 6 + i2) / 2 ^ 4 % 256) ∷ ((i2 * 2 ^ 6 + i3) / 2 ^ 2 % 256) ∷ [])
        (((i3 * 2 ^ 6 + i4) % 256) ∷ []),
  )

pad_not_space : is_space b'=' ≡ false
unfolding is_space
pad_not_space = refl

abbrev pub IsByte : ℕ → Type 0
IsByte b = b < 256

abbrev char_of : ℕ → ℕ → ℕ
char_of c k = base64_char (c / 2 ^ k % 64)

char_of-IsChar : (c k : ℕ) → IsChar (c / 2 ^ k % 64) (char_of c k)
char_of-IsChar c k = base64_char-IsChar (c / 2 ^ k % 64) (mod-lt (c / 2 ^ k) (omega arith))

-- The three bytes that the four indices of a group give back.
group_bytes :
    (x y z : ℕ)
    → IsByte x
    → IsByte y
    → IsByte z
    → let c = x * 65536 + y * 256 + z in
      ((c / 262144 % 64 * 64 + c / 4096 % 64) / 16 % 256 ≡ x)
      × ((c / 4096 % 64 * 64 + c / 64 % 64) / 4 % 256 ≡ y)
      × ((c / 64 % 64 * 64 + c % 64) % 256 ≡ z)
group_bytes x y z hx hy hz = (omega arith, omega arith, omega arith)

two_bytes :
    (x y : ℕ)
    → IsByte x
    → IsByte y
    → let c = x * 65536 + y * 256 in
      ((c / 262144 % 64 * 64 + c / 4096 % 64) / 16 % 256 ≡ x)
      × ((c / 4096 % 64 * 64 + c / 64 % 64) / 4 % 256 ≡ y)
two_bytes x y hx hy = (omega arith, omega arith)

one_byte :
    (x : ℕ) → IsByte x → (x * 65536 / 262144 % 64 * 64 + x * 65536 / 4096 % 64) / 16 % 256 ≡ x
one_byte x hx = omega arith

decode_loop-encode :
    (b d : Bytes)
    → All IsByte b
    → decode_loop (record { bytes = d; four = [] }) (encode b) ≡ ok (d ++ b)
unfolding encode
decode_loop-encode [] d h = rw append-nil (unfold decode_loop in refl)
decode_loop-encode (x ∷ []) d h =
    let c = x * 2 ^ 16 in
    let h1 = char_of-IsChar c 18 in
    let h2 = char_of-IsChar c 12 in
    loop_four d _ _ _ _ [] h1.not_space h2.not_space pad_not_space pad_not_space
    ∙ rw (decode_four-two d h1 h2) (rw (one_byte x h.0) (unfold decode_loop in refl))
decode_loop-encode (x ∷ y ∷ []) d h =
    let c = x * 2 ^ 16 + y * 2 ^ 8 in
    let h1 = char_of-IsChar c 18 in
    let h2 = char_of-IsChar c 12 in
    let h3 = char_of-IsChar c 6 in
    let (ex, ey) = two_bytes x y h.0 h.1.0 in
    loop_four d _ _ _ _ [] h1.not_space h2.not_space h3.not_space pad_not_space
    ∙ rw (decode_four-three d h1 h2 h3) (rw (ex, ey) (unfold decode_loop in refl))
decode_loop-encode (x ∷ y ∷ z ∷ b) d h =
    let c = x * 2 ^ 16 + y * 2 ^ 8 + z in
    let h1 = char_of-IsChar c 18 in
    let h2 = char_of-IsChar c 12 in
    let h3 = char_of-IsChar c 6 in
    let h4 = base64_char-IsChar (c % 64) (mod-lt c (omega arith)) in
    let (ex, ey, ez) = group_bytes x y z h.0 h.1.0 h.1.1.0 in
    loop_four d _ _ _ _ (encode b) h1.not_space h2.not_space h3.not_space h4.not_space
    ∙ rw (decode_four-four d h1 h2 h3 h4) (
        rw (ex, ey, ez)
          (decode_loop-encode b _ h.1.1.1 ∙ ap ok (append_assoc d (x ∷ y ∷ z ∷ []) b)))

-- Decoding the encoded form of a string of bytes, each below 256, gives the string back.
pub decode-encode : (b : Bytes) → All IsByte b → decode (encode b) ≡ ok b
unfolding decode
decode-encode b h = decode_loop-encode b [] h

-- An object made from the text that `get_base64` gives for raw bytes, each below 256, has the same
-- bytes, and keeps that text.
pub from_base64-get_base64 :
    (b : Bytes)
    → All IsByte b
    → from_base64 (get_base64 (from_data b)).base64 ≡ ok (record { bytes = b; base64 = encode b })
unfolding from_base64 get_base64 from_data encode
from_base64-get_base64 [] h = rw (decode-encode [] h)
from_base64-get_base64 (x ∷ b) h = rw (decode-encode (x ∷ b) h)

-- The encoded form of some bytes begins with a character that is not blank.
pub encode-cons :
    (x : ℕ) (b : Bytes) → (c : ℕ) × (s : Bytes) × (encode (x ∷ b) ≡ c ∷ s) × (is_space c ≡ false)
unfolding encode
encode-cons x [] = (_, _, refl, (char_of-IsChar (x * 2 ^ 16) 18).not_space)
encode-cons x (y ∷ []) = (_, _, refl, (char_of-IsChar (x * 2 ^ 16 + y * 2 ^ 8) 18).not_space)
encode-cons x (y ∷ z ∷ b) = (_, _, refl, (char_of-IsChar (x * 2 ^ 16 + y * 2 ^ 8 + z) 18).not_space)

-- No character of the encoded form is blank.
abbrev pub IsVisible : ℕ → Type 0
IsVisible c = is_space c ≡ false

pub encode-IsVisible : (b : Bytes) → All IsVisible (encode b)
unfolding encode is_space
encode-IsVisible [] = tt
encode-IsVisible (x ∷ []) =
    let c = x * 2 ^ 16 in
    ((char_of-IsChar c 18).not_space, ((char_of-IsChar c 12).not_space, (refl, (refl, tt))))
encode-IsVisible (x ∷ y ∷ []) =
    let c = x * 2 ^ 16 + y * 2 ^ 8 in
    (
      (char_of-IsChar c 18).not_space,
      ((char_of-IsChar c 12).not_space, ((char_of-IsChar c 6).not_space, (refl, tt))),
    )
encode-IsVisible (x ∷ y ∷ z ∷ b) =
    let c = x * 2 ^ 16 + y * 2 ^ 8 + z in
    let d = (base64_char-IsChar (c % 64) (mod-lt c (omega arith))).not_space in
    (
      (char_of-IsChar c 18).not_space,
      ((char_of-IsChar c 12).not_space, ((char_of-IsChar c 6).not_space, (d, encode-IsVisible b))),
    )

pub get_base64-encode : (b : Bytes) → (get_base64 (from_data b)).base64 ≡ encode b
unfolding get_base64 from_data encode
get_base64-encode [] = refl
get_base64-encode (x ∷ b) = refl
