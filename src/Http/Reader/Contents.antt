-- ===== src/Http/Reader/Contents.antt =====
-- A content that arrives in pieces (`read_packet` of libiqxmlrpc/http.cc), behind its header.
use libiqxmlrpc.Http.Errors.{HttpError}
use libiqxmlrpc.Http.Headers.{Level, Header, content_length}
use libiqxmlrpc.Http.Packets.{Packet, new_packet}
use libiqxmlrpc.Http.Reader.{Reader, Read, ◌then_read◌, clear, check_sz, finish_packet, read_packet}
use libiqxmlrpc.Http.Texts.{Texts}
use libiqxmlrpc.Prelude.Bytes.{Bytes}
use mathlib.Core.List.{append_assoc, append-nil}
use libiqxmlrpc.Prelude.{
  ◌<◌, Bool, true, false, ◌&&◌, List, [], ◌∷◌, ◌++◌, Option, none, some, Result, ok, length,
  length-append, take, ◌==◌, leb, ◌≡◌, refl, ap, sym, ◌∙◌, le→leb, if◌then◌else◌, arith, All,
}

-- The packets of a list of pieces, each read by a call.
abbrev pub keep : Option Packet → List Packet → List Packet
keep none ps = ps
keep (some p) ps = p ∷ ps

unfoldable pub read_pieces :
    Texts → (Level → Bytes → Result HttpError Header) → List Bytes → Reader → Read (List Packet)
read_pieces t make [] r = (ok [], r)
read_pieces t make (s ∷ ss) r = read_packet t make false s r then_read λ x r1.
    read_pieces t make ss r1 then_read λ ps r2. (ok (keep x ps), r2)

unfoldable pub join : List Bytes → Bytes
join [] = []
join (s ∷ ss) = s ++ join ss

-- A reader without a limit that has just given a packet, or has read nothing.
unfoldable pub IsReady : Reader → Type 0
IsReady r = (r.pkt_max_sz ≡ 0) × ((if r.constructed then clear r else r) ≡ clear r)

abbrev pub IsPiece : Bytes → Type 0
IsPiece s = 0 < length s

module _ (t : Texts) (make : Level → Bytes → Result HttpError Header) (body : Bytes) (h : Header)
    (length_law : content_length t h ≡ ok (length body)) where
  -- The reader while the content arrives.
  abbrev pub Reading : Bytes → Reader → Type 0
  Reading c r =
      (r.pkt_max_sz ≡ 0) × (r.constructed ≡ false) × (r.header ≡ some h) × (r.content_cache ≡ c)

  -- The packet, and no other.
  abbrev pub GivesPacket : Read (List Packet) → Type 0
  GivesPacket x = (r : Reader) × (x ≡ (ok (new_packet t h body ∷ []), r)) × IsReady r

  -- The pieces that are left, behind what a call gave.
  abbrev and_then : List Bytes → Option Packet → Reader → Read (List Packet)
  and_then ss x r = read_pieces t make ss r then_read λ ps r'. (ok (keep x ps), r')

  take-length : (s : Bytes) → take (length s) s ≡ s
  take-length [] = refl
  take-length (c ∷ s) = ap (◌∷◌ c) (take-length s)

  read_packet-content :
      (s c : Bytes) (r : Reader)
      → Reading c r
      → read_packet t make false s r
        ≡ finish_packet t s h (length body) (record r { content_cache = c ++ s })
  unfolding read_packet check_sz
  read_packet-content s c r (m, n, o, p) = rw (n, m, o, length_law, p)

  never_empty : (b : Bool) (s : Bytes) → IsPiece s → (b && (length s == 0)) ≡ false
  never_empty true s piece = ground arith
  never_empty false s piece = refl

  pub finish_packet-GivesPacket :
      (ss : List Bytes) (s c : Bytes) (r : Reader)
      → IsPiece s
      → All IsPiece ss
      → c ++ join ss ≡ body
      → Reading c r
      → GivesPacket (finish_packet t s h (length body) r then_read and_then ss)
  unfolding read_pieces join IsReady clear
  finish_packet-GivesPacket [] s c r piece pieces e (m, n, o, p) =
      let f : c ≡ body = sym (append-nil c) ∙ e in
      (
        record r {
          content_cache = body;
          header = some (new_packet t h body).header;
          constructed = true;
        },
        rw (
          p,
          f,
          never_empty (length body == 0) s piece,
          le→leb (length body) (length body) (omega arith),
          take-length body,
        ),
        (m, refl),
      )
  finish_packet-GivesPacket (s1 ∷ ss) s c r piece (piece1, pieces) e (m, n, o, p) =
      let l : leb (length body) (length c) ≡ false =
        ground (
          arith,
          piece1,
          ap length e,
          length-append c (s1 ++ join ss),
          length-append s1 (join ss),
        ) in
      let (r', f, ready) =
        finish_packet-GivesPacket ss s1 (c ++ s1) (record r { content_cache = c ++ s1 }) piece1
          pieces (append_assoc c s1 (join ss) ∙ e) (m, n, o, refl) in
      (
        r',
        rw (
          p,
          never_empty (length body == 0) s piece,
          l,
          read_packet-content s1 c (record r { content_cache = c }) (m, n, o, refl),
          f,
        ),
        ready,
      )
