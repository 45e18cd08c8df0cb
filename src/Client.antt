-- ===== src/Client.antt =====
-- The client (libiqxmlrpc/client.cc, client_opts.h, client_conn.cc, http_client.cc): its options, the
-- connection that it keeps, and a session on a connection. What the socket takes and gives is a list of
-- what happens to it.
pub mod Session
pub mod Cache
use Prim.Native.Nat.{min}
use libiqxmlrpc.Exceptions.{
  Thrown, http, exception, std_exception, xml, xml_build_error, undefined_error,
}
use libiqxmlrpc.Http.Errors.{error_response}
use libiqxmlrpc.Http.Headers.{Kind, request, response, Header, set_xheaders}
use libiqxmlrpc.Http.Packets.{
  Packet, new_packet, new_request_header, set_authinfo, set_keep_alive, dump_packet,
}
use libiqxmlrpc.Http.Reader.{Reader, Read, read_response}
use libiqxmlrpc.Prelude.Bytes.{Bytes, codes}
use libiqxmlrpc.Prelude.Int.{ℤ, pos, negsuc}
use libiqxmlrpc.Prelude.{
  ℕ, zero, suc, Bool, true, false, List, [], ◌∷◌, ◌++◌, Option, none, some, Result, ok, err, ◌>>=◌,
  length, take, drop, ◌==◌, leb, if◌then◌else◌,
}
use libiqxmlrpc.Reactor.{Reactor, Handler, Events, unregister_handler}
use libiqxmlrpc.Reactor.Masks.{mask_of}
use libiqxmlrpc.RequestParser.{dump_request}
use libiqxmlrpc.ResponseParser.{Response, parse_response}
use libiqxmlrpc.Server.Execute.{D, input_event, output_event, registered}
use libiqxmlrpc.Server.Handlers.{unregistered}
use libiqxmlrpc.Server.{Library, or_http}
use libiqxmlrpc.Value.{Value}
use libiqxmlrpc.XHeaders.{XHeaders}
use libiqxmlrpc.Xml.{XmlError}

-- `Client_options`, with the name and the port of the address.
pub record Options : Type 0 where
  pub host_name : Bytes
  pub port : ℤ
  pub uri : Bytes
  pub vhost : Bytes
  pub keep_alive : Bool
  pub timeout : ℤ
  pub non_blocking : Bool
  pub auth_user : Bytes
  pub auth_passwd : Bytes
  pub xheaders : XHeaders

abbrev or_name : Bytes → Bytes → Bytes
or_name [] name = name
or_name (c ∷ s) name = c ∷ s

unfoldable pub new_options : Bytes → ℤ → Bytes → Bytes → Options
new_options host_name port uri vhost = record {
  host_name = host_name;
  port = port;
  uri = uri;
  vhost = or_name vhost host_name;
  keep_alive = false;
  timeout = negsuc 0;
  non_blocking = false;
  auth_user = [];
  auth_passwd = [];
  xheaders = [];
}

abbrev is_positive : ℤ → Bool
is_positive (pos (suc n)) = true
is_positive _ = false

unfoldable pub set_timeout : ℤ → Options → Options
set_timeout seconds o = record o {
  timeout = seconds;
  non_blocking = if is_positive seconds then true else o.non_blocking;
}

abbrev pub has_authinfo : Options → Bool
has_authinfo o = elim o.auth_user [ [] ↦ false | _ ∷ _ ↦ true ]

-- `Http_client_connection`, or the one for a proxy.
pub data Route : Type 0 where
  direct proxied : Route

-- The history: what `send` has taken.
pub record Connection : Type 0 where
  pub route : Route
  pub preader : Reader
  pub out_str : Bytes
  pub taken : Bytes
  pub resp_packet : Option Packet
  pub handler : Handler
  pub reactor : Option Reactor

-- What happens while a session waits: the socket has room for some bytes, or `recv` gives these bytes,
-- one call after another, and then throws, or the time is over.
pub data Happening : Type 0 where
  can_send : ℕ → Happening
  gives : List Bytes → Thrown → Happening
  times_out : Happening

-- `handle_events` gives false where no handler is left, as where the time is over. The test for
-- stoppers behind that is left out, since the one handler of a client is none.
abbrev pub is_idle : Option Reactor → Bool
is_idle none = false
is_idle (some r) = length r.handlers == 0

abbrev pub read_buf_sz : ℕ
read_buf_sz = 65536

abbrev pub client_timeout : Thrown
client_timeout = exception undefined_error (codes "Connection timeout.")

-- `network_error`, a `std::runtime_error`
abbrev pub closed_by_peer : Thrown
closed_by_peer = std_exception (codes "Connection closed by peer.")

module _ (lib : Library) where
  -- `decorate_uri`
  abbrev slash : Bytes → Bytes
  slash [] = []
  slash (c ∷ s) = if c == b'/' then [] else codes "/"

  unfoldable pub decorate_uri : Route → Options → Bytes
  decorate_uri direct o = o.uri
  decorate_uri proxied o =
      codes "http://" ++ o.vhost ++ codes ":" ++ lib.texts.of_int o.port ++ slash o.uri ++ o.uri

  abbrev with_auth : Options → Header → Header
  with_auth o h = if has_authinfo o then set_authinfo lib.texts o.auth_user o.auth_passwd h else h

  -- The packet that `process_session` makes of a document.
  unfoldable pub request_packet : Route → Options → XHeaders → Bytes → Packet
  request_packet route o xheaders text = set_keep_alive lib.texts o.keep_alive (
      new_packet lib.texts
        (set_xheaders xheaders (
          set_xheaders o.xheaders (
            with_auth o
              (new_request_header lib.texts lib.agent (decorate_uri route o) o.vhost o.port))))
        text)

  -- `handle_output`, where `send` took as many bytes.
  abbrev pub sent : Bytes → Connection → Connection
  sent [] c = record c {
    out_str = [];
    reactor = registered input_event c.handler (unregistered output_event c.handler c.reactor);
  }
  sent (x ∷ s) c = record c { out_str = x ∷ s }

  unfoldable pub handle_output : ℕ → Connection → Connection
  handle_output sz c = sent (drop sz c.out_str) (record c { taken = c.taken ++ take sz c.out_str })

  abbrev pub removed : Connection → Connection
  removed c = record c {
    reactor = elim c.reactor [ some r ↦ unregister_handler r c.handler | none ↦ none ];
  }

  -- A round of the loop of `handle_input` that got some bytes.
  abbrev pub got : Read (Option Packet) → Connection → Result Thrown Connection
  got (ok none, r) c = ok (record c { preader = r })
  got (ok (some p), r) c = ok (record c { preader = r; resp_packet = some p })
  got (err e, r) c = err (http e)

  abbrev pub receive : Bytes → Connection → Result Thrown Connection
  receive [] c = err closed_by_peer
  receive (x ∷ s) c = got (read_response lib.texts false (x ∷ s) c.preader) c

  -- The loop, whose test is of the bytes that the last round got; `recv` gives no more than the buffer
  -- holds.
  abbrev pub goes_on : Bytes → Connection → Bool
  goes_on s c = elim c.resp_packet [ some _ ↦ false | none ↦ length s == read_buf_sz ]

  unfoldable pub input_loop : List Bytes → Thrown → Connection → Result Thrown Connection
  input_loop [] e c = err e
  input_loop (s ∷ ss) e c = receive s c >>= λ c'.
      (let rest : Result Thrown Connection = input_loop ss e c' in
        if goes_on s c' then rest else ok c')

  abbrev pub unless_packet : Option Packet → Connection → Connection
  unless_packet none c = c
  unless_packet (some p) c = removed c

  unfoldable pub handle_input : List Bytes → Thrown → Connection → Result Thrown Connection
  handle_input ss e c = do c' ← input_loop ss e c; ok (unless_packet c'.resp_packet c')

  -- A round of the reactor: a handler is called for an event that it is registered for, and without one
  -- it waits on.
  abbrev pub polled : Events → Happening → Connection → Result Thrown Connection
  polled m (can_send n) c =
      if m.output then ok (handle_output (min n (length c.out_str)) c) else ok c
  polled m (gives ss e) c = if m.input then handle_input ss e c else ok c
  polled m times_out c = err client_timeout

  abbrev pub unless_idle : Bool → Happening → Connection → Result Thrown Connection
  unless_idle true h c = err client_timeout
  unless_idle false h c = polled (mask_of c.handler c.reactor) h c

  unfoldable pub happen : Happening → Connection → Result Thrown Connection
  happen h c = unless_idle (is_idle c.reactor) h c

  -- The loop of `do_process_session`; `none` where the session still waits.
  abbrev pub until_packet :
      Option Packet
      → Connection
      → Option (Result Thrown (Packet × Connection))
      → Option (Result Thrown (Packet × Connection))
  until_packet (some p) c rest = some (ok (p, c))
  until_packet none c rest = rest

  abbrev pub next :
      Result Thrown Connection
      → (Connection → Option (Result Thrown (Packet × Connection)))
      → Option (Result Thrown (Packet × Connection))
  next (err e) k = some (err e)
  next (ok c) k = until_packet c.resp_packet c (k c)

  unfoldable pub session_loop :
      List Happening → Connection → Option (Result Thrown (Packet × Connection))
  session_loop [] c = none
  session_loop (h ∷ hs) c = next (happen h c) (λ c'. session_loop hs c')

  unfoldable pub do_process_session :
      Bytes → List Happening → Connection → Option (Result Thrown (Packet × Connection))
  do_process_session s hs c = session_loop hs (record c {
    out_str = s;
    resp_packet = none;
    reactor = registered output_event c.handler c.reactor;
  })

  -- The end of `process_session`; a header that is no response has the code 0.
  abbrev or_xml : {A : Type 0} → Bytes → Result XmlError A → Result Thrown A
  or_xml s (ok a) = ok a
  or_xml s (err e) = err (xml e (lib.problem s e))

  abbrev read_document : Bytes → Result Thrown (Response (D lib))
  read_document s =
      or_xml s (parse_response lib.lexical lib.defaults lib.fuel (lib.nodes s).0 (lib.nodes s).1)

  unfoldable pub session_response : Packet → Result Thrown (Response (D lib))
  session_response p = elim p.header.kind [
    | response (pos n) phrase ↦
        if n == 200 then read_document p.content else err (http (error_response phrase (pos n)))
    | response (negsuc n) phrase ↦ err (http (error_response phrase (negsuc n)))
    | request uri ↦ err (http (error_response [] (pos 0)))
  ]

  -- `process_session`, where these things happen.
  abbrev with_document : Result Bytes Bytes → Result Thrown Bytes
  with_document (ok s) = ok s
  with_document (err problem) = err (xml_build_error problem)

  abbrev responded :
      Option (Result Thrown (Packet × Connection))
      → Option (Result Thrown (Response (D lib) × Connection))
  responded none = none
  responded (some (err e)) = some (err e)
  responded (some (ok (p, c))) = some (session_response p >>= λ r. ok (r, c))

  unfoldable pub process_session :
      Options
      → XHeaders
      → Bytes
      → List (Value (D lib))
      → List Happening
      → Connection
      → Option (Result Thrown (Response (D lib) × Connection))
  process_session o xheaders name params hs c =
      elim (with_document (lib.document (dump_request lib.lexical name params))) [
        | err e ↦ some (err e)
        | ok s ↦
            responded (
              do_process_session (dump_packet lib.texts (request_packet c.route o xheaders s)) hs c)
      ]
