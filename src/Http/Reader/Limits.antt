-- ===== src/Http/Reader/Limits.antt =====
-- The limit on the size of a packet, which `check_sz` and `read_packet` of libiqxmlrpc/http.cc keep.
use libiqxmlrpc.Http.Headers.{Level, Header, content_length}
use libiqxmlrpc.Http.Errors.{HttpError}
use libiqxmlrpc.Http.Packets.{Packet, new_packet}
use libiqxmlrpc.Http.Reader.{
  Reader, Read, ◌then_read◌, clear, start_packet, check_sz, check_header_size, add_size, length_of,
  or_find, found_header, read_header, got_header, make_header, take_piece, finish_packet,
  make_packet, read_packet, crlf2, lf2,
}
use libiqxmlrpc.Http.Found.{first_of-append}
use libiqxmlrpc.Http.Reader.Contents.{read_pieces, keep}
use libiqxmlrpc.Http.Texts.{Texts, TextsLaws, first_of}
use libiqxmlrpc.Prelude.Bytes.{Bytes}
use mathlib.Core.Path.{subst}
use libiqxmlrpc.Prelude.{
  ℕ, ◌+◌, ◌^◌, ◌%◌, ◌≤◌, ◌<◌, Bool, true, false, List, [], ◌∷◌, ◌++◌, Option, none, some,
  Result-cases, Result, ok, err, length, length-append, length-take, ◌==◌, ◌&&◌, ◌||◌, leb, ◌≡◌,
  refl, ap, arith, Bool-cases, inl, inr, All,
}

-- What the caches hold was counted, and the count is below the limit.
unfoldable pub IsBounded : Reader → Type 0
IsBounded r =
    (length r.header_cache + length r.content_cache ≤ r.total_sz) × (r.total_sz < r.pkt_max_sz)

-- The same, with room for a piece that is counted and in no cache yet.
unfoldable HasRoom : ℕ → Reader → Type 0
HasRoom n r =
    (length r.header_cache + length r.content_cache + n ≤ r.total_sz) × (r.total_sz < r.pkt_max_sz)

-- The packet, where there is one, is below the limit.
unfoldable pub IsBelow : ℕ → Option Packet → Type 0
IsBelow m none = Unit
IsBelow m (some p) = length p.content < m

-- A predicate of a result and the reader, where no exception was thrown.
abbrev Holds : {A : Type 0} → (A → Reader → Type 0) → Read A → Type 0
Holds P (ok a, r) = P a r
Holds P (err e, r) = Unit

then_read-Holds :
    {A B : Type 0} {P : A → Reader → Type 0} (Q : B → Reader → Type 0) (x : Read A)
    (f : A → Reader → Read B)
    → Holds P x
    → ((a : A) (r : Reader) → P a r → Holds Q (f a r))
    → Holds Q (x then_read f)
then_read-Holds Q (ok a, r) f h k = k a r h
then_read-Holds Q (err e, r) f h k = tt

first_of-length : (p s a b : Bytes) → first_of p s ≡ some (a, b) → length a + length b ≤ length s
first_of-length p s a b e =
    omega
      (arith, ap length (first_of-append p s a b e), length-append (a ++ p) b, length-append a p)

module _ (t : Texts) (laws : TextsLaws t) (m : ℕ) where
  -- The limit is the one given, too.
  abbrev Bounded : Reader → Type 0
  Bounded r = IsBounded r × (r.pkt_max_sz ≡ m)

  abbrev Roomy : ℕ → Reader → Type 0
  Roomy n r = HasRoom n r × (r.pkt_max_sz ≡ m)

  start_packet-Bounded : (r : Reader) → 0 < m → Bounded r → Bounded (start_packet t r)
  unfolding clear IsBounded
  start_packet-Bounded r pos ((a, b), e) = elim (Bool-cases r.constructed) [
    | inl h ↦ rw h ((omega arith, omega arith), e)
    | inr h ↦ rw h ((a, b), e)
  ]

  add_size-Roomy :
      (sz : ℕ) (r : Reader) → m + sz ≤ 2 ^ 64 → Bounded r → Holds (λ _. Roomy sz) (add_size t sz r)
  unfolding IsBounded HasRoom
  add_size-Roomy sz r fits ((a, b), e) =
      elim (Bool-cases (leb r.pkt_max_sz ((r.total_sz + sz) % 2 ^ 64))) [
        | inl h ↦ rw h tt
        | inr h ↦ rw h (
            let q : (r.total_sz + sz) % 2 ^ 64 ≡ r.total_sz + sz = omega arith in
            ground (arith, h, q))
      ]

  length_of-Bounded : (h : Header) (r : Reader) → Bounded r → Holds (λ _. Bounded) (length_of t h r)
  length_of-Bounded h r b = elim (Result-cases (content_length t h)) [
    | inl (n, e) ↦ rw e b
    | inr (x, e) ↦ rw e tt
  ]

  check_header_size-Roomy :
      (h : Option Header) (sz : ℕ) (r : Reader)
      → m + sz ≤ 2 ^ 64
      → Bounded r
      → Holds (λ _. Roomy sz) (check_header_size t h sz r)
  check_header_size-Roomy none sz r fits b = add_size-Roomy sz r fits b
  check_header_size-Roomy (some h) sz r fits b =
      then_read-Holds {P = λ n r'. Bounded r'} _ (length_of t h r) _ (length_of-Bounded h r b)
        λ n r' b'. elim (Bool-cases (leb r'.pkt_max_sz ((n + length r'.header_cache) % 2 ^ 64))) [
          | inl e ↦ rw e tt
          | inr e ↦ rw e (add_size-Roomy sz r' fits b')
        ]

  check_sz-Roomy :
      (sz : ℕ) (r : Reader)
      → 0 < m
      → m + sz ≤ 2 ^ 64
      → Bounded r
      → Holds (λ _. Roomy sz) (check_sz t sz r)
  unfolding check_sz
  check_sz-Roomy sz r pos fits (b, e) = elim (Bool-cases (r.pkt_max_sz == 0)) [
    | inl h ↦ absurd (ground (arith, h, e, pos))
    | inr h ↦ rw h (check_header_size-Roomy r.header sz r fits (b, e))
  ]

  found_header-Bounded :
      (o : Option (Bytes × Bytes)) (r : Reader)
      → ((a b : Bytes) → o ≡ some (a, b) → length a + length b ≤ length r.header_cache)
      → Bounded r
      → Bounded (found_header t o r).1
  unfolding IsBounded
  found_header-Bounded none r h b = b
  found_header-Bounded (some (before, behind)) r h ((a, b), e) =
      let q = h before behind refl in
      ((omega (arith, q, a, length-append r.content_cache behind), b), e)

  or_find-first :
      (s a b : Bytes)
      → or_find (t.find_first crlf2 s) (t.find_first lf2 s) ≡ some (a, b)
      → length a + length b ≤ length s
  or_find-first s a b e = ground (
    arith,
    laws.find_law 13 (10 ∷ 13 ∷ 10 ∷ []) s,
    laws.find_law 10 (10 ∷ []) s,
    first_of-length crlf2 s a b,
    first_of-length lf2 s a b,
  )

  read_header-Bounded :
      (s : Bytes) (r : Reader) → Roomy (length s) r → Bounded (read_header t s r).1
  unfolding read_header IsBounded HasRoom
  read_header-Bounded s r ((a, b), e) =
      found_header-Bounded _ (record r { header_cache = r.header_cache ++ s })
        (or_find-first (r.header_cache ++ s))
        ((omega (arith, a, length-append r.header_cache s), b), e)

  got_header-Bounded :
      (h : Result HttpError Header) (r : Reader)
      → Bounded r
      → Holds (λ _. Bounded) (got_header t h r)
  unfolding IsBounded
  got_header-Bounded (ok h) r b = b
  got_header-Bounded (err e) r b = tt

  make_header-Bounded :
      (make : Level → Bytes → Result HttpError Header) (x : Bool × Reader)
      → Bounded x.1
      → Holds (λ _. Bounded) (make_header t make x)
  make_header-Bounded make (true, r) b = got_header-Bounded (make r.ver_level r.header_cache) r b
  make_header-Bounded make (false, r) b = b

  take_piece-Bounded :
      (make : Level → Bytes → Result HttpError Header) (s : Bytes) (h : Option Header) (r : Reader)
      → Roomy (length s) r
      → Holds (λ _. Bounded) (take_piece t make s h r)
  unfolding IsBounded HasRoom
  take_piece-Bounded make s (some h) r ((a, b), e) =
      ((omega (arith, a, length-append r.content_cache s), b), e)
  take_piece-Bounded make [] none r b = tt
  take_piece-Bounded make (c ∷ s) none r b =
      make_header-Bounded make (read_header t (c ∷ s) r) (read_header-Bounded (c ∷ s) r b)

  abbrev Delivers : Option Packet → Reader → Type 0
  Delivers x r = Bounded r × IsBelow m x

  finish_packet-Bounded :
      (s : Bytes) (h : Header) (n : ℕ) (r : Reader)
      → Bounded r
      → Holds Delivers (finish_packet t s h n r)
  unfolding IsBounded IsBelow new_packet
  finish_packet-Bounded s h n r ((a, b), e) =
      elim (Bool-cases ((n == 0) && (length s == 0) || leb n (length r.content_cache))) [
        | inl q ↦ rw q (
            let l = length-take n r.content_cache in
            (((omega (arith, l, a), b), e), omega (arith, l, a, b, e)))
        | inr q ↦ rw q (((a, b), e), tt)
      ]

  make_packet-Bounded :
      (hdr_only : Bool) (s : Bytes) (h : Option Header) (r : Reader)
      → 0 < m
      → Bounded r
      → Holds Delivers (make_packet t hdr_only s h r)
  unfolding IsBounded IsBelow new_packet
  make_packet-Bounded hdr_only s none r pos b = (b, tt)
  make_packet-Bounded true s (some h) r pos b = (b, pos)
  make_packet-Bounded false s (some h) r pos b =
      then_read-Holds {P = λ n r'. Bounded r'} _ (length_of t h r) _ (length_of-Bounded h r b)
        λ n r' b'. finish_packet-Bounded s h n r' b'

  read_packet-Delivers :
      (make : Level → Bytes → Result HttpError Header) (hdr_only : Bool) (s : Bytes) (r : Reader)
      → 0 < m
      → m + length s ≤ 2 ^ 64
      → Bounded r
      → Holds Delivers (read_packet t make hdr_only s r)
  unfolding read_packet
  read_packet-Delivers make hdr_only s r pos fits b =
      then_read-Holds {P = λ _. Roomy (length s)} _ (check_sz t (length s) (start_packet t r)) _
        (check_sz-Roomy (length s) (start_packet t r) pos fits (start_packet-Bounded r pos b))
        λ _ r1 b1.
          then_read-Holds {P = λ _. Bounded} _ (take_piece t make s r1.header r1) _
            (take_piece-Bounded make s r1.header r1 b1)
            λ _ r2 b2. make_packet-Bounded hdr_only s r2.header r2 pos b2

  abbrev Fits : Bytes → Type 0
  Fits s = m + length s ≤ 2 ^ 64

  abbrev AllBelow : List Packet → Reader → Type 0
  AllBelow ps r = Bounded r × All (λ p. length p.content < m) ps

  keep-AllBelow :
      (x : Option Packet) (ps : List Packet) (r : Reader)
      → IsBelow m x
      → AllBelow ps r
      → AllBelow (keep x ps) r
  unfolding IsBelow
  keep-AllBelow none ps r b (c, d) = (c, d)
  keep-AllBelow (some p) ps r b (c, d) = (c, (b, d))

  read_pieces-AllBelow :
      (make : Level → Bytes → Result HttpError Header) (ss : List Bytes) (r : Reader)
      → 0 < m
      → All Fits ss
      → Bounded r
      → Holds AllBelow (read_pieces t make ss r)
  unfolding read_pieces
  read_pieces-AllBelow make [] r pos fits b = (b, tt)
  read_pieces-AllBelow make (s ∷ ss) r pos (fit, fits) b =
      then_read-Holds {P = Delivers} _ (read_packet t make false s r) _
        (read_packet-Delivers make false s r pos fit b)
        λ x r1 (b1, c1).
          then_read-Holds {P = AllBelow} _ (read_pieces t make ss r1) _
            (read_pieces-AllBelow make ss r1 pos fits b1) λ ps r2 b2. keep-AllBelow x ps r2 c1 b2

  -- Where a reader has the limit `m`, which is positive, and keeps to it, as one that has read nothing
  -- does, then after any pieces that it reads without an exception it still keeps to it: what its
  -- caches hold was counted and is below the limit, and the content of every packet that it gave is
  -- shorter than the limit. The pieces are so short that the count of 64 bits does not overflow.
  pub read_pieces-IsBounded :
      (make : Level → Bytes → Result HttpError Header) (ss : List Bytes) (r r' : Reader)
      (ps : List Packet)
      → 0 < m
      → r.pkt_max_sz ≡ m
      → All Fits ss
      → IsBounded r
      → read_pieces t make ss r ≡ (ok ps, r')
      → IsBounded r' × (r'.pkt_max_sz ≡ m) × All (λ p. length p.content < m) ps
  read_pieces-IsBounded make ss r r' ps pos e fits b h =
      let ((x, y), z) : AllBelow ps r' =
        subst (Holds AllBelow) h (read_pieces-AllBelow make ss r pos fits (b, e)) in
      (x, y, z)
