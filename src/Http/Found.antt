-- ===== src/Http/Found.antt =====
-- Lemmas on the functions by which `Texts` says what boost does.
use libiqxmlrpc.Http.Texts.{first_of, found_or, in_front, strip_prefix}
use libiqxmlrpc.Prelude.Bytes.{Bytes}
use libiqxmlrpc.Prelude.{
  ℕ, ◌≤◌, [], ◌∷◌, ◌++◌, Option, none, some, Option-cases, length, length-append, ◌≡◌, refl, ap,
  arith, inl, inr,
}

pub strip_prefix-append : (p s b : Bytes) → strip_prefix p s ≡ some b → s ≡ p ++ b
strip_prefix-append [] s b e = cc
strip_prefix-append (c ∷ p) [] b e = cc
strip_prefix-append (c ∷ p) (d ∷ s) b e = grind (arith, strip_prefix-append p s b)

pub found_or-append :
    (c : ℕ) (p s : Bytes) (o : Option Bytes) (rest : Option (Bytes × Bytes)) (a b : Bytes)
    → ((b' : Bytes) → o ≡ some b' → c ∷ s ≡ p ++ b')
    → ((a' b' : Bytes) → rest ≡ some (a', b') → s ≡ a' ++ p ++ b')
    → found_or c o rest ≡ some (a, b)
    → c ∷ s ≡ a ++ p ++ b
found_or-append c p s (some b') rest a b h k e = let q = h b' refl in grind (arith, q)
found_or-append c p s none none a b h k e = cc
found_or-append c p s none (some (a', b')) a b h k e = let q = k a' b' refl in grind (arith, q)

-- What is found stands between what is in front of it and what is behind it.
pub first_of-append : (p s a b : Bytes) → first_of p s ≡ some (a, b) → s ≡ a ++ p ++ b
unfolding first_of
first_of-append p [] a b e = cc
first_of-append p (c ∷ s) a b e =
    found_or-append c p s (strip_prefix p (c ∷ s)) (first_of p s) a b
      (strip_prefix-append p (c ∷ s)) (first_of-append p s) e

-- What is found in a text is found in a longer one.
pub strip_prefix-longer :
    (p s b e : Bytes) → strip_prefix p s ≡ some b → strip_prefix p (s ++ e) ≡ some (b ++ e)
strip_prefix-longer [] s b e h = cc
strip_prefix-longer (c ∷ p) [] b e h = cc
strip_prefix-longer (c ∷ p) (d ∷ s) b e h = ground (arith, strip_prefix-longer p s b e)

pub strip_prefix-none :
    (p s e : Bytes) → length p ≤ length s → strip_prefix p s ≡ none → strip_prefix p (s ++ e) ≡ none
strip_prefix-none [] s e le h = cc
strip_prefix-none (c ∷ p) [] e le h = absurd (omega arith)
strip_prefix-none (c ∷ p) (d ∷ s) e le h = ground (arith, strip_prefix-none p s e)

in_front-some :
    (c : ℕ) (o : Option (Bytes × Bytes)) (a b : Bytes)
    → in_front c o ≡ some (a, b)
    → (a' : Bytes) × (o ≡ some (a', b)) × (a ≡ c ∷ a')
in_front-some c none a b h = cc
in_front-some c (some (x, y)) a b h = (x, cc, cc)

pub first_of-longer :
    (p s a b e : Bytes) → first_of p s ≡ some (a, b) → first_of p (s ++ e) ≡ some (a, b ++ e)
unfolding first_of
first_of-longer p [] a b e h = cc
first_of-longer p (c ∷ s) a b e h = elim (Option-cases (strip_prefix p (c ∷ s))) [
  | inl n ↦
      let (a', f, _) = in_front-some c (first_of p s) a b (rw n at h) in
      let l : length p ≤ length (c ∷ s) = omega (
        arith,
        ap length (first_of-append p s a' b f),
        length-append (a' ++ p) b,
        length-append a' p,
      ) in
      rw (strip_prefix-none p (c ∷ s) e l n, first_of-longer p s a' b e f) cc
  | inr (b', y) ↦
      rw (strip_prefix-longer p (c ∷ s) b' e y)
        (let h' : ◌≡◌ {A = Option (Bytes × Bytes)} (some ([], b')) (some (a, b)) = rw y at h in cc)
]
