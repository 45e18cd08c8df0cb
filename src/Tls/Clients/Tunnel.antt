-- ===== src/Tls/Clients/Tunnel.antt =====
-- The tunnel of a client through a proxy (`Proxy_request_header` and `Https_proxy_client_connection` of
-- libiqxmlrpc/https_client.cc).
use libiqxmlrpc.Client.{
  Connection, Happening, can_send, gives, times_out, client_timeout, closed_by_peer, got, goes_on,
  unless_packet, handle_output,
}
use Prim.Native.Nat.{min}
use libiqxmlrpc.Exceptions.{Thrown, http}
use libiqxmlrpc.Http.Errors.{error_response}
use libiqxmlrpc.Http.Headers.{Kind, request, response, check_weak, crlf, new_header, dump_options}
use libiqxmlrpc.Http.Packets.{Packet}
use libiqxmlrpc.Http.Reader.{read_response}
use libiqxmlrpc.Net.Addresses.{InetAddr, has_line_end, of_host, ok-inj}
use libiqxmlrpc.Net.{System}
use libiqxmlrpc.Prelude.Bytes.{Bytes, codes}
use libiqxmlrpc.Prelude.Int.{ℤ, pos, negsuc}
use libiqxmlrpc.Prelude.{
  true, false, List, [], ◌∷◌, ◌++◌, Option, none, some, Result, ok, err, ◌>>=◌, length, ◌==◌,
  if◌then◌else◌, ◌≡◌, refl, Bool-cases, inl, inr, arith,
}
use libiqxmlrpc.Server.Execute.{output_event, registered}
use libiqxmlrpc.Server.{Library}
use libiqxmlrpc.Tls.Clients.{Calling, Event, post_connect, do_process_session}
use libiqxmlrpc.Tls.{Openssl}
use mathlib.Core.Path.{subst}
use mathlib.Core.List.{append_assoc}

has_line_end-append :
    (s u : Bytes) → has_line_end s ≡ false → has_line_end u ≡ false → has_line_end (s ++ u) ≡ false
unfolding has_line_end
has_line_end-append [] u h k = k
has_line_end-append (c ∷ s) u h k = ground (arith, has_line_end-append s u)

joined :
    (s u : Bytes)
    → has_line_end s ≡ false
    → has_line_end u ≡ false
    → has_line_end (codes "CONNECT " ++ s ++ codes ":" ++ u ++ codes " HTTP/1.0") ≡ false
unfolding has_line_end
joined s u h k =
    has_line_end-append (codes "CONNECT " ++ s ++ codes ":" ++ u) (codes " HTTP/1.0")
      (has_line_end-append (codes "CONNECT " ++ s ++ codes ":") u
        (has_line_end-append (codes "CONNECT " ++ s) (codes ":")
          (has_line_end-append (codes "CONNECT ") s refl h) refl)
        k)
      refl

module _ (lib : Library) where
  -- The line of `dump_head`, without its end
  unfoldable pub connect_line : InetAddr → Bytes
  connect_line a =
      codes "CONNECT " ++ a.host ++ codes ":" ++ lib.texts.of_int a.port ++ codes " HTTP/1.0"

  unfoldable pub connect_head : InetAddr → Bytes
  connect_head a = connect_line a ++ crlf

  -- `dump` of this header, whose options are those of a new one
  unfoldable pub tunnel_request : InetAddr → Bytes
  tunnel_request a =
      connect_head a ++ dump_options lib.texts (new_header (request []) check_weak).options ++ crlf

  -- A round of the loop of `handle_input`, which reads only a header.
  abbrev pub tunnel_receive : Bytes → Connection → Result Thrown Connection
  tunnel_receive [] c = err closed_by_peer
  tunnel_receive (x ∷ s) c = got lib (read_response lib.texts true (x ∷ s) c.preader) c

  unfoldable pub tunnel_loop : List Bytes → Thrown → Connection → Result Thrown Connection
  tunnel_loop [] e c = err e
  tunnel_loop (s ∷ ss) e c = tunnel_receive s c >>= λ c'.
      (let rest : Result Thrown Connection = tunnel_loop ss e c' in
        if goes_on lib s c' then rest else ok c')

  unfoldable pub tunnel_input : List Bytes → Thrown → Connection → Result Thrown Connection
  tunnel_input ss e c = do c' ← tunnel_loop ss e c; ok (unless_packet lib c'.resp_packet c')

  unfoldable pub tunnel_happen : Happening → Connection → Result Thrown Connection
  tunnel_happen (can_send n) c = ok (handle_output lib (min n (length c.out_str)) c)
  tunnel_happen (gives ss e) c = tunnel_input ss e c
  tunnel_happen times_out c = err client_timeout

  -- The test of the answer's code; a header that is no response has the code 0.
  abbrev pub opened : Kind → Connection → Result Thrown Connection
  opened (response (pos n) phrase) c =
      if n == 200 then ok c else err (http (error_response phrase (pos n)))
  opened (response (negsuc n) phrase) c = err (http (error_response phrase (negsuc n)))
  opened (request uri) c = err (http (error_response [] (pos 0)))

  abbrev pub until_opened :
      Option Packet
      → Connection
      → Option (Result Thrown Connection)
      → Option (Result Thrown Connection)
  until_opened none c rest = rest
  until_opened (some p) c rest = some (opened p.header.kind c)

  abbrev pub after_happening :
      Result Thrown Connection
      → (Connection → Option (Result Thrown Connection))
      → Option (Result Thrown Connection)
  after_happening (err e) k = some (err e)
  after_happening (ok c) k = until_opened c.resp_packet c (k c)

  unfoldable pub open_loop : List Happening → Connection → Option (Result Thrown Connection)
  open_loop [] c = none
  open_loop (h ∷ hs) c = after_happening (tunnel_happen h c) (λ c'. open_loop hs c')

  -- `setup_tunnel`
  unfoldable pub setup_tunnel :
      InetAddr → List Happening → Connection → Option (Result Thrown Connection)
  setup_tunnel a hs c = open_loop hs (record c {
    out_str = tunnel_request a;
    reactor = registered output_event c.handler c.reactor;
  })

  -- `do_process_session`, with the connection under TLS that it makes on the same socket
  abbrev pub through :
      {api : Openssl}
      → Option (Result Thrown Connection)
      → Option (Result Thrown Packet × Calling lib api)
      → Calling lib api
      → Option (Result Thrown Packet × Calling lib api)
  through none rest c = none
  through (some (err e)) rest c = some (err e, c)
  through (some (ok t)) rest c = rest

  unfoldable pub proxy_session :
      (api : Openssl)
      → InetAddr
      → Bytes
      → List Happening
      → List Event
      → Connection
      → Calling lib api
      → Option (Result Thrown Packet × Calling lib api)
  proxy_session api a s hs es t c =
      through (setup_tunnel a hs t) (do_process_session lib api s es (post_connect lib api c)) c

  -- What a client sends to a proxy begins with one line and its end: the name of an address puts no end
  -- of a line into it, where the address was made of a name and a port, and the port is printed without
  -- one.
  pub tunnel_request-one_line :
      (sys : System) (h : Bytes) (p : ℤ) (a : InetAddr) (w : sys.Sys)
      → of_host sys h p w ≡ ok a
      → has_line_end (lib.texts.of_int p) ≡ false
      → (rest : Bytes) × (tunnel_request a ≡ connect_line a ++ crlf ++ rest)
        × (has_line_end (connect_line a) ≡ false)
  unfolding of_host tunnel_request connect_head connect_line
  tunnel_request-one_line sys h p a w e q = elim (Bool-cases (has_line_end h)) [
    | inl b ↦ let e' = rw b at e in cc
    | inr b ↦
        let e' : record { sa = none; host = h; port = p } ≡ a = ok-inj (rw b at e) in
        let rest = dump_options lib.texts (new_header (request []) check_weak).options ++ crlf in
        subst
          (λ z.
            (r : Bytes) × (tunnel_request z ≡ connect_line z ++ crlf ++ r)
            × (has_line_end (connect_line z) ≡ false))
          e'
          (
            rest,
            append_assoc (connect_line (record { sa = none; host = h; port = p }) ++ crlf)
                (dump_options lib.texts (new_header (request []) check_weak).options) crlf,
            joined h (lib.texts.of_int p) b q,
          )
  ]
