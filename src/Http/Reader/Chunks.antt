-- ===== src/Http/Reader/Chunks.antt =====
-- Messages that arrive in pieces (`read_packet` of libiqxmlrpc/http.cc).
use libiqxmlrpc.Http.Reader.Contents.{
  read_pieces, join, IsReady, IsPiece, GivesPacket, finish_packet-GivesPacket,
}
use libiqxmlrpc.Http.Errors.{HttpError}
use libiqxmlrpc.Http.Found.{first_of-longer}
use libiqxmlrpc.Http.Headers.{Level, Header, content_length}
use libiqxmlrpc.Http.Packets.{new_packet}
use libiqxmlrpc.Http.Reader.{
  Reader, clear, check_sz, read_header, finish_packet, read_packet, crlf2, lf2, or_find,
}
use libiqxmlrpc.Http.Texts.{Texts, TextsLaws, first_of}
use libiqxmlrpc.Prelude.Bytes.{Bytes}
use mathlib.Core.List.{append_assoc, append-nil}
use libiqxmlrpc.Prelude.{
  ◌≤◌, ◌<◌, false, List, [], ◌∷◌, ◌++◌, Option, none, some, Option-cases, Result, ok, length,
  length-append, append-cut, ◌≡◌, refl, ap, sym, ◌∙◌, ltb, ltb→lt, arith, Bool-cases, inl, inr, All,
}

some-length :
    (b e : Bytes) {a : Bytes} {a' : Bytes}
    → IsPiece e
    → ◌≡◌ {A = Option (Bytes × Bytes)} (some (a, b ++ e)) (some (a', []))
    → ⊥
some-length [] (x ∷ e) piece h = cc
some-length (y ∷ b) e piece h = cc
some-length [] [] piece h = omega arith

module _ (t : Texts) (laws : TextsLaws t) (make : Level → Bytes → Result HttpError Header)
    (head body : Bytes) (h : Header) (length_law : content_length t h ≡ ok (length body))
    (level : Level) (make_law : make level head ≡ ok h)
    (end_law : first_of crlf2 (head ++ crlf2) ≡ some (head, []))
    (no_end : first_of lf2 (head ++ crlf2) ≡ none) where
  -- The reader while the header arrives.
  abbrev Searching : Bytes → Reader → Type 0
  Searching c r =
      (r.pkt_max_sz ≡ 0)
      × (r.constructed ≡ false)
      × (r.header ≡ none)
      × (r.header_cache ≡ c)
      × (r.content_cache ≡ [])
      × (r.ver_level ≡ level)

  -- What is in front of the end of the header's text has no end in it.
  no-end : (c e : Bytes) → head ++ crlf2 ≡ c ++ e → IsPiece e → first_of crlf2 c ≡ none
  no-end c e x piece = elim (Option-cases (first_of crlf2 c)) [
    | inl n ↦ n
    | inr ((a, b), y) ↦ absurd (
        some-length b e piece
          (sym (first_of-longer crlf2 c a b e y) ∙ ap (first_of crlf2) (sym x) ∙ end_law))
  ]

  no-other : (c e : Bytes) → head ++ crlf2 ≡ c ++ e → first_of lf2 c ≡ none
  no-other c e x = elim (Option-cases (first_of lf2 c)) [
    | inl n ↦ n
    | inr ((a, b), y) ↦
        let f = sym (first_of-longer lf2 c a b e y) ∙ ap (first_of lf2) (sym x) ∙ no_end in cc
  ]

  abbrev Ends : Bytes → Option (Bytes × Bytes) → Type 0
  Ends s o = or_find (first_of crlf2 s) (first_of lf2 s) ≡ o

  read_packet-Searching :
      (s c : Bytes) (r : Reader)
      → IsPiece s
      → Searching c r
      → Ends (c ++ s) none
      → read_packet t make false s r ≡ (ok none, record r { header_cache = c ++ s })
  unfolding read_packet check_sz read_header
  read_packet-Searching [] c r piece _ f = absurd (omega arith)
  read_packet-Searching (x ∷ s) c r piece (m, n, o, p, q, l) f = rw (
    n,
    m,
    o,
    p,
    laws.find_law 13 (10 ∷ 13 ∷ 10 ∷ []) (c ++ x ∷ s),
    laws.find_law 10 (10 ∷ []) (c ++ x ∷ s),
    f,
  )

  read_packet-found :
      (s c b : Bytes) (r : Reader)
      → IsPiece s
      → Searching c r
      → Ends (c ++ s) (some (head, b))
      → read_packet t make false s r
        ≡ finish_packet t s h
            (length body)
            (record r { header_cache = head; content_cache = b; header = some h })
  unfolding read_packet check_sz read_header
  read_packet-found [] c b r piece _ f = absurd (omega arith)
  read_packet-found (x ∷ s) c b r piece (m, n, o, p, q, l) f = rw (
    n,
    m,
    o,
    p,
    laws.find_law 13 (10 ∷ 13 ∷ 10 ∷ []) (c ++ x ∷ s),
    laws.find_law 10 (10 ∷ []) (c ++ x ∷ s),
    f,
    q,
    l,
    make_law,
    length_law,
  )

  read_pieces-GivesPacket :
      (ss : List Bytes) (c : Bytes) (r : Reader)
      → All IsPiece ss
      → c ++ join ss ≡ head ++ crlf2 ++ body
      → length c < length (head ++ crlf2)
      → Searching c r
      → GivesPacket t make body h length_law (read_pieces t make ss r)
  unfolding read_pieces join
  read_pieces-GivesPacket [] c r pieces e lt search =
      absurd
        (omega (arith, ap length e, ap length (append-nil c), length-append (head ++ crlf2) body))
  read_pieces-GivesPacket (s ∷ ss) c r (piece, pieces) e lt (m, n, o, p, q, l) =
      let f : (c ++ s) ++ join ss ≡ head ++ crlf2 ++ body = append_assoc c s (join ss) ∙ e in
      elim (Bool-cases (ltb (length (c ++ s)) (length (head ++ crlf2)))) [
        | inl x ↦
            let le : length (c ++ s) ≤ length (head ++ crlf2) = ground (arith, x) in
            let (d, y, z) = append-cut (c ++ s) (head ++ crlf2) (join ss) body f le in
            let piece' : IsPiece d = ground (arith, x, ap length y, length-append (c ++ s) d) in
            let none' : Ends (c ++ s) none =
              rw (no-end (c ++ s) d y piece', no-other (c ++ s) d y) in
            let (r', g, ready) =
              read_pieces-GivesPacket ss (c ++ s) (record r { header_cache = c ++ s }) pieces f
                (ltb→lt (length (c ++ s)) (length (head ++ crlf2)) x) (m, n, o, refl, q, l) in
            (r', rw (read_packet-Searching s c r piece (m, n, o, p, q, l) none', g), ready)
        | inr x ↦
            let le : length (head ++ crlf2) ≤ length (c ++ s) = ground (arith, x) in
            let (b, y, z) = append-cut (head ++ crlf2) (c ++ s) body (join ss) (sym f) le in
            let found : Ends (c ++ s) (some (head, b)) =
              rw (y, first_of-longer crlf2 (head ++ crlf2) head [] b end_law) in
            let (r', g, ready) =
              finish_packet-GivesPacket t make body h length_law ss s b
                (record r { header_cache = head; content_cache = b; header = some h }) piece pieces
                (sym z) (m, n, refl, refl) in
            (r', rw (read_packet-found s c b r piece (m, n, o, p, q, l) found) g, ready)
      ]

  read_packet-clear :
      (s : Bytes) (r : Reader)
      → IsReady r
      → read_packet t make false s r ≡ read_packet t make false s (clear r)
  unfolding read_packet IsReady clear
  read_packet-clear s r (m, e) = rw e

  -- A reader without a limit that has read nothing, or has just given a packet, is given a text in
  -- pieces, none of them empty, in any cut: the text of a header, its end, and a content that is as
  -- long as the header says. It gives one packet, which has that header and that content, and is
  -- ready again. The header's text is one that is read, and its end is where it first ends.
  pub read_pieces-one_packet :
      (ss : List Bytes) (r : Reader)
      → IsReady r
      → r.ver_level ≡ level
      → All IsPiece ss
      → join ss ≡ head ++ crlf2 ++ body
      → (r' : Reader) × (read_pieces t make ss r ≡ (ok (new_packet t h body ∷ []), r')) × IsReady r'
  unfolding read_pieces join IsReady clear
  read_pieces-one_packet [] r ready l pieces e =
      absurd
        (omega (arith, ap length e, length-append (head ++ crlf2) body, length-append head crlf2))
  read_pieces-one_packet (s ∷ ss) r (m, x) l pieces e =
      let (r', g, ready) =
        read_pieces-GivesPacket (s ∷ ss) [] (clear r) pieces e
          (omega (arith, length-append head crlf2)) (m, refl, refl, refl, refl, l) in
      (r', rw (read_packet-clear s r (m, x)) g, ready)
