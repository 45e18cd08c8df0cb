-- ===== src/Base64/Texts.antt =====
-- Which texts `decode` takes (libiqxmlrpc/value_type.cc): blanks count for nothing, the rest comes
-- in groups of four, and a group adds at most three bytes.
use libiqxmlrpc.Base64.{
  Base64Error, end_of_data, malformed_base64, decode_four, get_pair, catch_end, is_space, Decoder,
  decode_step, decode_loop, decode, encode, append_first, append_second, append_third,
  decode_finish,
}
use mathlib.Core.Path.{fun_ext}
use native.Mathlib.Nat.{add-zero, zero-add}
use libiqxmlrpc.Prelude.Bytes.{Bytes}
use libiqxmlrpc.Prelude.{
  ℕ, suc, ◌+◌, ◌*◌, ◌/◌, ◌%◌, ◌≤◌, ◌≡◌, refl, ◌∙◌, ap, true, false, [], ◌∷◌, ◌++◌, ok, ◌>>=◌,
  if◌then◌else◌, arith, length, length-append, Bool-cases, Result-cases, inl, inr, bind-eq-ok,
  get_or,
}

-- The text without its blanks.
abbrev pub strip : Bytes → Bytes
strip [] = []
strip (c ∷ s) = if is_space c then strip s else c ∷ strip s

decode_loop-cons :
    (t : Decoder) (c : ℕ) (r s : Bytes)
    → ((u : Decoder) → decode_loop u r ≡ decode_loop u s)
    → decode_loop t (c ∷ r) ≡ decode_loop t (c ∷ s)
unfolding decode_loop
decode_loop-cons t c r s h = ap (λ f. decode_step t c >>= f) (fun_ext h)

decode_loop-blank :
    (t : Decoder) (c : ℕ) (s : Bytes) → is_space c ≡ true → decode_loop t s ≡ decode_loop t (c ∷ s)
unfolding decode_loop decode_step
decode_loop-blank t c s h = rw h

decode_loop-strip : (t : Decoder) (s : Bytes) → decode_loop t (strip s) ≡ decode_loop t s
decode_loop-strip t [] = refl
decode_loop-strip t (c ∷ s) = elim (Bool-cases (is_space c)) [
  | inl blank ↦ rw blank (decode_loop-strip t s ∙ decode_loop-blank t c s blank)
  | inr solid ↦ rw solid (decode_loop-cons t c (strip s) s (λ u. decode_loop-strip u s))
]

-- Blanks anywhere in the text change nothing: not the result, and not whether there is one.
pub decode-strip : (s : Bytes) → decode (strip s) ≡ decode s
unfolding decode
decode-strip s = decode_loop-strip _ s

length-catch_end :
    (b : Bytes) (e : Base64Error) (d : Bytes) → catch_end b e ≡ ok d → length d ≤ length b
unfolding catch_end
length-catch_end b end_of_data d h = ground arith
length-catch_end b malformed_base64 d h = cc

length-append_third :
    (b : Bytes) (c3 c4 : ℕ) (d : Bytes) → append_third b c3 c4 ≡ ok d → length d ≤ length b + 1
unfolding append_third
length-append_third b c3 c4 d h = elim (Result-cases (get_pair c3 c4)) [
  | inl (p, e) ↦ ground (arith, length-append b ((p % 256) ∷ []))
  | inr (x, e) ↦ ground (arith, length-catch_end b x d)
]

length-append_second :
    (b : Bytes) (c2 c3 c4 : ℕ) (d : Bytes)
    → append_second b c2 c3 c4 ≡ ok d
    → length d ≤ length b + 2
unfolding append_second
length-append_second b c2 c3 c4 d h = elim (Result-cases (get_pair c2 c3)) [
  | inl (p, e) ↦ ground (
    arith,
    length-append_third (b ++ (p / 4 % 256) ∷ []) c3 c4 d,
    length-append b ((p / 4 % 256) ∷ []),
  )
  | inr (x, e) ↦ ground (arith, length-catch_end b x d)
]

length-append_first :
    (b : Bytes) (c1 c2 c3 c4 : ℕ) (d : Bytes)
    → append_first b c1 c2 c3 c4 ≡ ok d
    → length d ≤ length b + 3
unfolding append_first
length-append_first b c1 c2 c3 c4 d h = elim (Result-cases (get_pair c1 c2)) [
  | inl (p, e) ↦ ground (
    arith,
    length-append_second (b ++ (p / 16 % 256) ∷ []) c2 c3 c4 d,
    length-append b ((p / 16 % 256) ∷ []),
  )
  | inr (x, e) ↦ ground (arith, length-catch_end b x d)
]

-- A group adds at most three bytes.
length-decode_four : (b four d : Bytes) → decode_four b four ≡ ok d → length d ≤ length b + 3
unfolding decode_four
length-decode_four b four d h = ground (
  arith,
  length-append_first b (get_or four 0 0) (get_or four 1 0) (get_or four 2 0) (get_or four 3 0) d,
)

add-one-add : (n m : ℕ) → n + 1 + m ≡ n + suc m
add-one-add n m = omega arith

-- What holds of the decoder after `n` characters that are not blank.
record Counts (n : ℕ) (t : Decoder) : Type 0 where
  pending : length t.four ≡ n % 4
  bounded : length t.bytes ≤ n / 4 * 3

decode_step-Counts :
    (n c : ℕ) (t u : Decoder)
    → Counts n t
    → is_space c ≡ false
    → decode_step t c ≡ ok u
    → Counts (n + 1) u
unfolding decode_step
decode_step-Counts n c t u k solid h =
    elim (Result-cases (decode_four t.bytes (t.four ++ c ∷ []))) [
      | inl (d, e) ↦
          ground (
            arith,
            length-append t.four (c ∷ []),
            length-decode_four t.bytes (t.four ++ c ∷ []) d e,
          )
      | inr (x, e) ↦ ground (arith, length-append t.four (c ∷ []))
    ]

decode_finish-Counts :
    (n : ℕ) (b four d : Bytes)
    → Counts n (record { bytes = b; four = four })
    → decode_finish b four ≡ ok d
    → (n % 4 ≡ 0) × (length d ≤ n / 4 * 3)
unfolding decode_finish
decode_finish-Counts n b [] d k h = ground arith
decode_finish-Counts n b (c ∷ four) d k h = cc

decode_loop-uncons :
    (t : Decoder) (c : ℕ) (s d : Bytes)
    → decode_loop t (c ∷ s) ≡ ok d
    → (u : Decoder) × (decode_step t c ≡ ok u) × (decode_loop u s ≡ ok d)
unfolding decode_loop
decode_loop-uncons t c s d h = bind-eq-ok (decode_step t c) (λ u. decode_loop u s) h

decode_loop-Counts :
    (n : ℕ) (t : Decoder) (s d : Bytes)
    → Counts n t
    → decode_loop t s ≡ ok d
    → let m = n + length (strip s) in (m % 4 ≡ 0) × (length d ≤ m / 4 * 3)
decode_loop-Counts n t [] d k h =
    rw add-zero (decode_finish-Counts n t.bytes t.four d k (unfold decode_loop in h))
decode_loop-Counts n t (c ∷ s) d k h = elim (Bool-cases (is_space c)) [
  | inl blank ↦ rw blank (decode_loop-Counts n t s d k (decode_loop-blank t c s blank ∙ h))
  | inr solid ↦
      let (u, e, later) = decode_loop-uncons t c s d h in
      rw solid (
        rw (← add-one-add n (length (strip s)))
          (decode_loop-Counts (n + 1) u s d (decode_step-Counts n c t u k solid e) later))
]

-- A text that decodes has its characters, blanks aside, in groups of four, and gives at most three
-- bytes for each group.
pub decode_groups :
    (s d : Bytes)
    → decode s ≡ ok d
    → (length (strip s) % 4 ≡ 0) × (length d ≤ length (strip s) / 4 * 3)
unfolding decode
decode_groups s d h =
    rw zero-add at (decode_loop-Counts 0 _ s d (record { pending = refl; bounded = omega arith }) h)

-- The encoded form has four characters for each group of three bytes, the last one padded.
pub length-encode : (b : Bytes) → length (encode b) ≡ (length b + 2) / 3 * 4
unfolding encode
length-encode [] = omega arith
length-encode (x ∷ []) = omega arith
length-encode (x ∷ y ∷ []) = omega arith
length-encode (x ∷ y ∷ z ∷ b) = omega (arith, length-encode b)
