-- ===== src/Reactor/Table.antt =====
-- Tables whose rows carry a key, as the reactor keeps them: a map from sockets to handlers, and the
-- list of their states. A row is found, changed and erased at its first occurrence.
use libiqxmlrpc.Prelude.{
  ◌∙◌, ℕ, Bool, true, false, if◌then◌else◌, ◌==◌, ==_iff, List, [], ◌∷◌, ◌++◌, Option, none, some,
  ◌≡◌, refl, ap, arith, inl, inr, Bool-cases,
}

unfoldable pub member : ℕ → List ℕ → Bool
member k [] = false
member k (x ∷ xs) = if x == k then true else member k xs

unfoldable pub remove : ℕ → List ℕ → List ℕ
remove k [] = []
remove k (x ∷ xs) = let rest : List ℕ = remove k xs in if x == k then xs else x ∷ rest

abbrev pub AreDistinct : List ℕ → Type 0
AreDistinct [] = Unit
AreDistinct (x ∷ xs) = (member x xs ≡ false) × AreDistinct xs

pub member-append :
    (j y : ℕ) (xs : List ℕ) → member j (xs ++ y ∷ []) ≡ (if member j xs then true else y == j)
unfolding member
member-append j y [] = ground arith
member-append j y (x ∷ xs) = ground (arith, member-append j y xs)

pub append-AreDistinct :
    (y : ℕ) (xs : List ℕ) → AreDistinct xs → member y xs ≡ false → AreDistinct (xs ++ y ∷ [])
unfolding member
append-AreDistinct y [] d h = (refl, tt)
append-AreDistinct y (x ∷ xs) d h = (
  ground (arith, member-append x y xs, ==_iff x y, ==_iff y x, d.0),
  append-AreDistinct y xs d.1 (ground arith),
)

pub member-remove_other :
    (j k : ℕ) (xs : List ℕ) → (k == j) ≡ false → member j (remove k xs) ≡ member j xs
unfolding member remove
member-remove_other j k [] h = refl
member-remove_other j k (x ∷ xs) h =
    ground (arith, member-remove_other j k xs h, ==_iff x k, ==_iff k j, ==_iff x j)

pub member-remove : (k : ℕ) (xs : List ℕ) → AreDistinct xs → member k (remove k xs) ≡ false
unfolding member remove
member-remove k [] d = refl
member-remove k (x ∷ xs) d = ground (arith, member-remove k xs d.1, d.0, ==_iff x k)

pub remove-AreDistinct : (k : ℕ) (xs : List ℕ) → AreDistinct xs → AreDistinct (remove k xs)
unfolding remove
remove-AreDistinct k [] d = tt
remove-AreDistinct k (x ∷ xs) d = elim (Bool-cases (x == k)) [
  | inl e ↦ rw e d.1
  | inr e ↦ rw e (
    member-remove_other x k xs (ground (arith, ==_iff x k, ==_iff k x)) ∙ d.0,
    remove-AreDistinct k xs d.1,
  )
]

module _ {A : Type 0} (key : A → ℕ) where
  unfoldable pub lookup : ℕ → List A → Option A
  lookup k [] = none
  lookup k (x ∷ xs) = if key x == k then some x else lookup k xs

  unfoldable pub erase : ℕ → List A → List A
  erase k [] = []
  erase k (x ∷ xs) = let rest : List A = erase k xs in if key x == k then xs else x ∷ rest

  unfoldable pub update : ℕ → (A → A) → List A → List A
  update k f [] = []
  update k f (x ∷ xs) =
      let rest : List A = update k f xs in if key x == k then f x ∷ xs else x ∷ rest

  unfoldable pub keys : List A → List ℕ
  keys [] = []
  keys (x ∷ xs) = key x ∷ keys xs

  pub lookup-none : (k : ℕ) (xs : List A) → lookup k xs ≡ none → member k (keys xs) ≡ false
  unfolding lookup keys member
  lookup-none k [] h = refl
  lookup-none k (x ∷ xs) h = ground (arith, lookup-none k xs)

  pub lookup-some : (k : ℕ) (x : A) (xs : List A) → lookup k xs ≡ some x → member k (keys xs) ≡ true
  unfolding lookup keys member
  lookup-some k x [] h = cc
  lookup-some k x (y ∷ xs) h = ground (arith, lookup-some k x xs)

  pub keys-append : (x : A) (xs : List A) → keys (xs ++ x ∷ []) ≡ keys xs ++ key x ∷ []
  unfolding keys
  keys-append x [] = refl
  keys-append x (y ∷ xs) = ap (◌∷◌ (key y)) (keys-append x xs)

  pub keys-erase : (k : ℕ) (xs : List A) → keys (erase k xs) ≡ remove k (keys xs)
  unfolding keys erase remove
  keys-erase k [] = refl
  keys-erase k (x ∷ xs) = ground (arith, keys-erase k xs)

  pub keys-update :
      (k : ℕ) (f : A → A) (xs : List A)
      → ((x : A) → key (f x) ≡ key x)
      → keys (update k f xs) ≡ keys xs
  unfolding keys update
  keys-update k f [] h = refl
  keys-update k f (x ∷ xs) h = elim (Bool-cases (key x == k)) [
    | inl e ↦ rw (e, h x)
    | inr e ↦ rw (e, keys-update k f xs h)
  ]

  pub lookup-append :
      (k : ℕ) (x : A) (xs : List A)
      → lookup k xs ≡ none
      → lookup k (xs ++ x ∷ []) ≡ (if key x == k then some x else none)
  unfolding lookup
  lookup-append k x [] h = refl
  lookup-append k x (y ∷ xs) h = ground (arith, lookup-append k x xs)

  pub lookup-append_some :
      (k : ℕ) (x y : A) (xs : List A) → lookup k xs ≡ some y → lookup k (xs ++ x ∷ []) ≡ some y
  unfolding lookup
  lookup-append_some k x y [] h = cc
  lookup-append_some k x y (z ∷ xs) h = ground (arith, lookup-append_some k x y xs)

  pub lookup-erase_other :
      (j k : ℕ) (xs : List A) → (k == j) ≡ false → lookup j (erase k xs) ≡ lookup j xs
  unfolding lookup erase
  lookup-erase_other j k [] h = refl
  lookup-erase_other j k (x ∷ xs) h =
      ground (arith, lookup-erase_other j k xs h, ==_iff (key x) k, ==_iff k j, ==_iff (key x) j)

  pub lookup-update :
      (k : ℕ) (f : A → A) (x : A) (xs : List A)
      → ((x : A) → key (f x) ≡ key x)
      → lookup k xs ≡ some x
      → lookup k (update k f xs) ≡ some (f x)
  unfolding lookup update
  lookup-update k f x [] h e = cc
  lookup-update k f x (y ∷ xs) h e = ground (arith, h y, lookup-update k f x xs h)

  -- A key is found where it is one of the keys.
  pub member-lookup : (k : ℕ) (xs : List A) → member k (keys xs) ≡ false → lookup k xs ≡ none
  unfolding lookup keys member
  member-lookup k [] h = refl
  member-lookup k (x ∷ xs) h = ground (arith, member-lookup k xs)

  pub lookup-member :
      (k : ℕ) (xs : List A) → member k (keys xs) ≡ true → (x : A) × (lookup k xs ≡ some x)
  unfolding lookup keys member
  lookup-member k [] h = absurd (cc)
  lookup-member k (x ∷ xs) h = elim (Bool-cases (key x == k)) [
    | inl t ↦ rw t (x, refl)
    | inr t ↦ rw t (lookup-member k xs (ground arith))
  ]
