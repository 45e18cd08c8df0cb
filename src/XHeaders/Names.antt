-- ===== src/XHeaders/Names.antt =====
-- The names of the headers that `XHeaders` keeps (libiqxmlrpc/xheaders.cc, http.cc).
use libiqxmlrpc.Http.Headers.{Header}
use libiqxmlrpc.Http.Texts.{Texts, TextsLaws, lower}
use libiqxmlrpc.Prelude.Bytes.{Bytes, str_eq_iff}
use libiqxmlrpc.Prelude.Maps.{Map, find, insert, IsOrdered, find-insert, find-After}
use libiqxmlrpc.Prelude.{
  [], ◌∷◌, map, Option, none, some, ◌≡◌, refl, if◌then◌else◌, arith, Bool-cases, inl, inr, All,
}
use libiqxmlrpc.XHeaders.{XHeaders, validate, assign_all, assign, find_key, get_xheaders}

-- The names are in lower case.
abbrev pub AreLower : Map Bytes → Type 0
AreLower m = All (λ e. map lower e.0 ≡ e.0) m

abbrev pub or_else : Option Bytes → Option Bytes → Option Bytes
or_else (some v) y = some v
or_else none y = y

or_else-none : (o : Option Bytes) → or_else o none ≡ o
or_else-none (some v) = refl
or_else-none none = refl

module _ (t : Texts) (laws : TextsLaws t) where
  find-assign_all :
      (j : Bytes) (m x : Map Bytes)
      → IsOrdered m
      → AreLower m
      → find j (assign_all t m x)
        ≡ (if validate t j then or_else (find j m) (find j x) else find j x)
  unfolding assign_all find
  find-assign_all j [] x o l = elim (Bool-cases (validate t j)) [ inl e ↦ rw e | inr e ↦ rw e ]
  find-assign_all j ((k, v) ∷ m) x (a, o) (e, l) =
      rw
        (laws.to_lower_law k, e, find-assign_all j m (if validate t k then insert k v x else x) o l)
        (ground (arith, str_eq_iff k j, find-After k m a, find-insert j k v x))

  -- The headers of a request whose names begin with `X-`, and no others, are found in what
  -- `get_xheaders` takes from it, in any case of the letters; the request's names are in lower case, as
  -- they are once it is parsed, and in the order of its map.
  pub find_key-get_xheaders :
      (h : Header) (k : Bytes)
      → IsOrdered h.options
      → AreLower h.options
      → find_key t k (get_xheaders t h)
        ≡ (if validate t (map lower k) then find (map lower k) h.options else none)
  unfolding find_key get_xheaders assign find
  find_key-get_xheaders h k o l = rw (
    laws.to_lower_law k,
    find-assign_all (map lower k) h.options [] o l,
    or_else-none (find (map lower k) h.options),
  )
