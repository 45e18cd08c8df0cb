-- ===== src/Tls/Fingers.antt =====
-- The fingerprint of a certificate as a text (`cert_finger_sha256` of libiqxmlrpc/ssl_lib.cc).
use libiqxmlrpc.Prelude.Bytes.{Bytes}
use libiqxmlrpc.Prelude.{
  ℕ, zero, suc, ◌+◌, ◌-◌, ◌/◌, ◌%◌, ◌≤◌, ◌<◌, List, [], ◌∷◌, ◌++◌, length, length-append, take, ltb,
  if◌then◌else◌, ◌≡◌, ◌≢◌, refl, ap, ◌∙◌, sym, All, arith,
}
use mathlib.Core.List.{append_assoc}
use libiqxmlrpc.Tls.{Openssl}

-- The digits of `std::hex`.
abbrev pub hex_digit : ℕ → ℕ
hex_digit n = if ltb n 10 then b'0' + n else b'a' + n - 10

-- An `int` below 256 as `operator<<` prints it.
unfoldable pub hex : ℕ → Bytes
hex n = if ltb n 16 then hex_digit n ∷ [] else hex_digit (n / 16) ∷ hex_digit (n % 16) ∷ []

unfoldable pub hex_all : Bytes → Bytes
hex_all [] = []
hex_all (n ∷ md) = hex n ++ hex_all md

-- `ConnectionVerifier::cert_finger_sha256`, whose loop is of 32 bytes
unfoldable pub cert_finger_sha256 : (api : Openssl) → api.Cert → Bytes
cert_finger_sha256 api c = hex_all (take 32 (api.digest c))

-- A byte that has two digits.
abbrev pub IsTwoDigits : ℕ → Type 0
IsTwoDigits n = (16 ≤ n) × (n < 256)

take_all : (s : Bytes) (k : ℕ) → length s ≡ k → take k s ≡ s
take_all [] zero h = refl
take_all [] (suc k) h = refl
take_all (x ∷ s) zero h = absurd (omega (arith, h))
take_all (x ∷ s) (suc k) h = ap (◌∷◌ x) (take_all s k (omega (arith, h)))

hex_digit-inj : (m n : ℕ) → m < 16 → n < 16 → hex_digit m ≡ hex_digit n → m ≡ n
hex_digit-inj m n lm ln h = ground arith

two_digits : (n : ℕ) → IsTwoDigits n → hex n ≡ hex_digit (n / 16) ∷ hex_digit (n % 16) ∷ []
unfolding hex
two_digits n h = ground arith

head_eq : {A : Type 0} {x y : A} {xs ys : List A} → x ∷ xs ≡ y ∷ ys → x ≡ y
head_eq h = cc

tail_eq : {A : Type 0} {x y : A} {xs ys : List A} → x ∷ xs ≡ y ∷ ys → xs ≡ ys
tail_eq h = cc

by_digits : (m n : ℕ) → m / 16 ≡ n / 16 → m % 16 ≡ n % 16 → m ≡ n
by_digits m n h k = omega (arith, h, k)

hex_all-inj : (a b : Bytes) → All IsTwoDigits a → All IsTwoDigits b → hex_all a ≡ hex_all b → a ≡ b
unfolding hex_all
hex_all-inj [] [] ha hb h = refl
hex_all-inj [] (y ∷ b) ha (hy, hb) h = let h' = rw (two_digits y hy) at h in cc
hex_all-inj (x ∷ a) [] (hx, ha) hb h = let h' = rw (two_digits x hx) at h in cc
hex_all-inj (x ∷ a) (y ∷ b) (hx, ha) (hy, hb) h =
    let h' = rw (two_digits x hx, two_digits y hy) at h in
    let d = hex_digit-inj (x / 16) (y / 16) (omega arith) (omega arith) (head_eq h') in
    let e = hex_digit-inj (x % 16) (y % 16) (omega arith) (omega arith) (head_eq (tail_eq h')) in
    let q = by_digits x y d e in let r = hex_all-inj a b ha hb (tail_eq (tail_eq h')) in cc

hex_all-append : (a b : Bytes) → hex_all (a ++ b) ≡ hex_all a ++ hex_all b
unfolding hex_all
hex_all-append [] b = refl
hex_all-append (x ∷ a) b =
    ap (◌++◌ (hex x)) (hex_all-append a b) ∙ sym (append_assoc (hex x) (hex_all a) (hex_all b))

same_texts : (pre post : Bytes) → hex_all (pre ++ 1 ∷ 17 ∷ post) ≡ hex_all (pre ++ 17 ∷ 1 ∷ post)
unfolding hex_all hex
same_texts pre post = hex_all-append pre (1 ∷ 17 ∷ post) ∙ sym (hex_all-append pre (17 ∷ 1 ∷ post))

differ : (pre post : Bytes) → pre ++ 1 ∷ 17 ∷ post ≢ pre ++ 17 ∷ 1 ∷ post
differ [] post h = absurd (omega (arith, head_eq h))
differ (x ∷ pre) post h = differ pre post (tail_eq h)

module _ (api : Openssl) where
  -- Two certificates have the same fingerprint only if they have the same digest, where each digest has
  -- 32 bytes of 16 or more, which are printed with two digits.
  pub cert_finger_sha256-inj :
      (c d : api.Cert)
      → length (api.digest c) ≡ 32
      → length (api.digest d) ≡ 32
      → All IsTwoDigits (api.digest c)
      → All IsTwoDigits (api.digest d)
      → cert_finger_sha256 api c ≡ cert_finger_sha256 api d
      → api.digest c ≡ api.digest d
  unfolding cert_finger_sha256
  cert_finger_sha256-inj c d lc ld hc hd h =
      hex_all-inj (api.digest c) (api.digest d) hc hd
        (rw (take_all (api.digest c) 32 lc, take_all (api.digest d) 32 ld) at h)

  -- Without that it does not: wherever in digests of 32 bytes, that otherwise agree, one has the bytes
  -- 1 and 17 and the other 17 and 1, the digests differ and the fingerprints are the same.
  pub cert_finger_sha256-collides :
      (pre post : Bytes) (c d : api.Cert)
      → api.digest c ≡ pre ++ 1 ∷ 17 ∷ post
      → api.digest d ≡ pre ++ 17 ∷ 1 ∷ post
      → length pre + length post ≡ 30
      → (api.digest c ≢ api.digest d) × (cert_finger_sha256 api c ≡ cert_finger_sha256 api d)
  unfolding cert_finger_sha256
  cert_finger_sha256-collides pre post c d hc hd le =
      let lc : length (pre ++ 1 ∷ 17 ∷ post) ≡ 32 =
        omega (arith, le, length-append pre (1 ∷ 17 ∷ post)) in
      let ld : length (pre ++ 17 ∷ 1 ∷ post) ≡ 32 =
        omega (arith, le, length-append pre (17 ∷ 1 ∷ post)) in
      (
        rw (hc, hd) (differ pre post),
        rw (hc, hd, take_all (pre ++ 1 ∷ 17 ∷ post) 32 lc, take_all (pre ++ 17 ∷ 1 ∷ post) 32 ld)
            (same_texts pre post),
      )
