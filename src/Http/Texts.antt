-- ===== src/Http/Texts.antt =====
-- The functions of boost that libiqxmlrpc/http.cc and xheaders.cc call, as a parameter of the model,
-- and what is relied on of them: each does what its documentation says, which is written here as a
-- function by clauses.
use libiqxmlrpc.Base64.{is_space}
use libiqxmlrpc.Prelude.Bytes.{Bytes}
use libiqxmlrpc.Prelude.Int.{ℤ}
use libiqxmlrpc.Prelude.{
  ℕ, ◌+◌, ◌<◌, ◌^◌, Bool, true, false, ◌&&◌, List, [], ◌∷◌, map, Option, none, some, ◌≡◌, ◌==◌, leb,
  if◌then◌else◌,
}
use mathlib.Core.List.{reverse}

-- `boost::split` (whose last argument is `token_compress_on` or not), `trim`, `to_lower`,
-- `find_first`, which gives what stands in front of the range that it finds and behind it,
-- `starts_with`, `all` with `is_digit`, and `lexical_cast`.
pub record Texts : Type 0 where
  pub split : (ℕ → Bool) → Bool → Bytes → List Bytes
  pub trim : Bytes → Bytes
  pub to_lower : Bytes → Bytes
  pub find_first : Bytes → Bytes → Option (Bytes × Bytes)
  pub starts_with : Bytes → Bytes → Bool
  pub all_digits : Bytes → Bool
  pub to_unsigned : Bytes → Option ℕ
  pub of_size : ℕ → Bytes
  pub to_int : Bytes → Option ℤ
  pub of_int : ℤ → Bytes

-- `is_any_of("\r\n")`
abbrev pub is_crlf : ℕ → Bool
is_crlf c = if c == 13 then true else c == 10

-- The rest behind a prefix.
abbrev pub strip_prefix : Bytes → Bytes → Option Bytes
strip_prefix [] s = some s
strip_prefix (c ∷ p) [] = none
strip_prefix (c ∷ p) (d ∷ s) = if c == d then strip_prefix p s else none

abbrev pub in_front : ℕ → Option (Bytes × Bytes) → Option (Bytes × Bytes)
in_front c none = none
in_front c (some (a, b)) = some (c ∷ a, b)

abbrev pub found_or : ℕ → Option Bytes → Option (Bytes × Bytes) → Option (Bytes × Bytes)
found_or c (some b) rest = some ([], b)
found_or c none rest = in_front c rest

-- The first occurrence of a text that is not empty.
unfoldable pub first_of : Bytes → Bytes → Option (Bytes × Bytes)
first_of p [] = none
first_of p (c ∷ s) = found_or c (strip_prefix p (c ∷ s)) (first_of p s)

abbrev pub first_word : ℕ → List Bytes → List Bytes
first_word c [] = (c ∷ []) ∷ []
first_word c (w ∷ ws) = (c ∷ w) ∷ ws

-- The words of a text: whether adjacent separators are taken as one, and whether one was just read.
unfoldable pub words : (ℕ → Bool) → Bool → Bool → Bytes → List Bytes
words sep compress after [] = [] ∷ []
words sep compress after (c ∷ s) =
    let rest : List Bytes = words sep compress true s in
    let word : List Bytes = first_word c (words sep compress false s) in
    if sep c then (if compress && after then rest else [] ∷ rest) else word

abbrev pub lower : ℕ → ℕ
lower c = if leb b'A' c && leb c b'Z' then c + 32 else c

unfoldable pub trim_left : Bytes → Bytes
trim_left [] = []
trim_left (c ∷ s) = let rest : Bytes = trim_left s in if is_space c then rest else c ∷ s

unfoldable pub trimmed : Bytes → Bytes
unfolding trim_left
trimmed s = reverse (trim_left (reverse (trim_left s)))

abbrev pub begins_with : Bytes → Bytes → Bool
begins_with s p = elim (strip_prefix p s) [ some _ ↦ true | none ↦ false ]

-- What is relied on. A number of 32 bits is read as it was written.
pub record TextsLaws (t : Texts) : Type 0 where
  pub split_law :
      (sep : ℕ → Bool) (compress : Bool) (s : Bytes)
      → t.split sep compress s ≡ words sep compress false s
  pub trim_law : (s : Bytes) → t.trim s ≡ trimmed s
  pub to_lower_law : (s : Bytes) → t.to_lower s ≡ map lower s
  pub find_law : (c : ℕ) (p s : Bytes) → t.find_first (c ∷ p) s ≡ first_of (c ∷ p) s
  pub starts_law : (s p : Bytes) → t.starts_with s p ≡ begins_with s p
  pub size_law : (n : ℕ) → n < 2 ^ 32 → t.to_unsigned (t.of_size n) ≡ some n
  pub digits_law : (n : ℕ) → t.all_digits (t.of_size n) ≡ true
