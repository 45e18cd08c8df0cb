-- ===== src/Http/Reader.antt =====
-- `Packet_reader` (libiqxmlrpc/http.cc, http.h). An exception leaves the fields as they are when it is
-- thrown, so each function gives the reader back besides its result. Sizes are of 64 bits.
pub mod Contents
pub mod Chunks
pub mod Limits
use libiqxmlrpc.Http.Errors.{HttpError, malformed_packet, request_too_large}
use libiqxmlrpc.Http.Headers.{Level, check_weak, Header, content_length, expects_continue}
use libiqxmlrpc.Http.Packets.{Packet, new_packet, parse_request_header, parse_response_header}
use libiqxmlrpc.Http.Texts.{Texts}
use libiqxmlrpc.Prelude.Bytes.{Bytes}
use libiqxmlrpc.Prelude.{
  ℕ, zero, ◌+◌, ◌^◌, ◌%◌, Bool, true, false, not, ◌&&◌, ◌||◌, [], ◌∷◌, ◌++◌, Option, none, some,
  Result, ok, err, length, take, ◌==◌, leb, if◌then◌else◌,
}

pub record Reader : Type 0 where
  pub header_cache : Bytes
  pub content_cache : Bytes
  pub header : Option Header
  pub ver_level : Level
  pub constructed : Bool
  pub pkt_max_sz : ℕ
  pub total_sz : ℕ
  pub continue_sent : Bool

abbrev pub new_reader : Reader
new_reader = record {
  header_cache = [];
  content_cache = [];
  header = none;
  ver_level = check_weak;
  constructed = false;
  pkt_max_sz = 0;
  total_sz = 0;
  continue_sent = false;
}

unfoldable pub clear : Reader → Reader
clear r = record r {
  header = none;
  content_cache = [];
  header_cache = [];
  constructed = false;
  total_sz = 0;
}

-- A result, or an exception, and the reader.
abbrev pub Read : Type 0 → Type 0
Read A = Result HttpError A × Reader

infixl 5 ◌then_read◌
abbrev pub ◌then_read◌ : {A B : Type 0} → Read A → (A → Reader → Read B) → Read B
(ok a, r) then_read f = f a r
(err e, r) then_read f = (err e, r)

-- The end of the header, which is one of two texts; the second is looked for where the first is not.
abbrev pub or_find : Option (Bytes × Bytes) → Option (Bytes × Bytes) → Option (Bytes × Bytes)
or_find (some x) y = some x
or_find none y = y

abbrev pub crlf2 : Bytes
crlf2 = 13 ∷ 10 ∷ 13 ∷ 10 ∷ []

abbrev pub lf2 : Bytes
lf2 = 10 ∷ 10 ∷ []

module _ (t : Texts) where
  -- `header->content_length()`
  abbrev pub length_of : Header → Reader → Read ℕ
  length_of h r = (content_length t h, r)

  -- The second half of `check_sz`.
  abbrev pub add_size : ℕ → Reader → Read (Unit {0})
  add_size sz r =
      let total : ℕ = (r.total_sz + sz) % 2 ^ 64 in
      let r' : Reader = record r { total_sz = total } in
      if leb r.pkt_max_sz total then (err request_too_large, r') else (ok tt, r')

  abbrev pub check_header_size : Option Header → ℕ → Reader → Read (Unit {0})
  check_header_size none sz r = add_size sz r
  check_header_size (some h) sz r = length_of h r then_read λ n r'.
      if leb r'.pkt_max_sz ((n + length r'.header_cache) % 2 ^ 64)
      then (err request_too_large, r')
      else add_size sz r'

  unfoldable pub check_sz : ℕ → Reader → Read (Unit {0})
  check_sz sz r = if r.pkt_max_sz == 0 then (ok tt, r) else check_header_size r.header sz r

  abbrev pub found_header : Option (Bytes × Bytes) → Reader → Bool × Reader
  found_header none r = (false, r)
  found_header (some (before, behind)) r =
      (true, record r { header_cache = before; content_cache = r.content_cache ++ behind })

  unfoldable pub read_header : Bytes → Reader → Bool × Reader
  read_header s r =
      let r' : Reader = record r { header_cache = r.header_cache ++ s } in
      found_header (or_find (t.find_first crlf2 r'.header_cache) (t.find_first lf2 r'.header_cache))
        r'

  -- `header = new Header_type(ver_level_, header_cache)`
  abbrev pub got_header : Result HttpError Header → Reader → Read (Unit {0})
  got_header (ok h) r = (ok tt, record r { header = some h })
  got_header (err e) r = (err e, r)

  abbrev pub make_header :
      (Level → Bytes → Result HttpError Header) → Bool × Reader → Read (Unit {0})
  make_header make (true, r) = got_header (make r.ver_level r.header_cache) r
  make_header make (false, r) = (ok tt, r)

  -- The middle of `read_packet`, which takes the piece into one of the caches.
  abbrev pub take_piece :
      (Level → Bytes → Result HttpError Header) → Bytes → Option Header → Reader → Read (Unit {0})
  take_piece make s (some h) r = (ok tt, record r { content_cache = r.content_cache ++ s })
  take_piece make [] none r = (err malformed_packet, r)
  take_piece make (c ∷ s) none r = make_header make (read_header (c ∷ s) r)

  -- The test of the length, and the packet.
  abbrev pub finish_packet : Bytes → Header → ℕ → Reader → Read (Option Packet)
  finish_packet s h n r =
      if ((n == 0) && (length s == 0)) || leb n (length r.content_cache)
      then (
        ok (some (new_packet t h (take n r.content_cache))),
        record r {
          content_cache = take n r.content_cache;
          header = some (new_packet t h (take n r.content_cache)).header;
          constructed = true;
        },
      )
      else (ok none, r)

  abbrev pub make_packet : Bool → Bytes → Option Header → Reader → Read (Option Packet)
  make_packet hdr_only s none r = (ok none, r)
  make_packet true s (some h) r = (
    ok (some (new_packet t h [])),
    record r { header = some (new_packet t h []).header; constructed = true },
  )
  make_packet false s (some h) r = length_of h r then_read λ n r'. finish_packet s h n r'

  abbrev pub start_packet : Reader → Reader
  start_packet r = if r.constructed then clear r else r

  -- `read_packet`
  unfoldable pub read_packet :
      (Level → Bytes → Result HttpError Header) → Bool → Bytes → Reader → Read (Option Packet)
  read_packet make hdr_only s r = check_sz (length s) (start_packet r) then_read λ _ r1.
      take_piece make s r1.header r1 then_read λ _ r2. make_packet hdr_only s r2.header r2

  unfoldable pub read_request : Bytes → Reader → Read (Option Packet)
  read_request s r = read_packet (parse_request_header t) false s r

  unfoldable pub read_response : Bool → Bytes → Reader → Read (Option Packet)
  read_response hdr_only s r = read_packet (parse_response_header t) hdr_only s r

-- `expect_continue`, and `set_continue_sent`
abbrev header_expects : Option Header → Bool
header_expects none = false
header_expects (some h) = expects_continue h

unfoldable pub expect_continue : Reader → Bool
expect_continue r = header_expects r.header && not r.continue_sent

unfoldable pub set_continue_sent : Reader → Reader
set_continue_sent r = record r { continue_sent = true }
