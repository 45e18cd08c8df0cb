-- ===== src/Server/Handlers.antt =====
-- A connection of the server: `Server_connection::read_request` (libiqxmlrpc/server_conn.cc), and
-- `handle_input` and `handle_output` of `Http_server_connection` (libiqxmlrpc/http_server.cc). What the
-- socket gave, and how much it took, are parameters.
use libiqxmlrpc.Exceptions.{Thrown, http, Caught, error_response, caught}
use libiqxmlrpc.Http.Errors.{HttpError, malformed_packet, bad_request}
use libiqxmlrpc.Http.Headers.{conn_keep_alive}
use libiqxmlrpc.Http.Packets.{Packet}
use libiqxmlrpc.Http.Reader.{Reader, Read, read_request, expect_continue, set_continue_sent}
use libiqxmlrpc.Prelude.Bytes.{Bytes, codes}
use libiqxmlrpc.Prelude.{
  ℕ, Bool, true, false, [], ◌∷◌, ◌++◌, Option, none, some, Result, ok, err, length, drop, ◌==◌,
  if◌then◌else◌,
}
use libiqxmlrpc.Reactor.{Reactor, Handler, Events, unregister_events}
use libiqxmlrpc.Server.Execute.{
  D, Ran, input_event, output_event, registered, do_schedule_response, conn_schedule_response,
  error_of, schedule_execute,
}
use libiqxmlrpc.Server.{Library, World}

abbrev pub unregistered : Events → Handler → Option Reactor → Option Reactor
unregistered m h none = none
unregistered m h (some r) = some (unregister_events r h m)

abbrev pub continue_text : Bytes
continue_text = codes "HTTP/1.1 100" ++ 13 ∷ 10 ∷ 13 ∷ 10 ∷ []

-- `Malformed_packet` becomes `Bad_request`.
abbrev pub as_refusal : HttpError → HttpError
as_refusal malformed_packet = bad_request
as_refusal e = e

module _ (lib : Library) where
  abbrev pub set_reader : Reader → World (D lib) → World (D lib)
  set_reader r w = record w { conn = record w.conn { preader = r } }

  abbrev pub set_keeping : Bool → World (D lib) → World (D lib)
  set_keeping k w = record w { conn = record w.conn { keep_alive = k } }

  -- `set_verification_level`, `set_max_size`
  abbrev pub prepared : World (D lib) → Reader
  prepared w = record w.conn.preader {
    ver_level = w.server.ver_level;
    pkt_max_sz = w.server.max_req_sz;
  }

  -- The answer to `Expect: 100-continue`.
  unfoldable pub send_continue : World (D lib) → World (D lib)
  send_continue w =
      let w' : World (D lib) =
        do_schedule_response lib
          (record w { conn = record w.conn { response = continue_text; keep_alive = true } }) in
      set_reader (set_continue_sent w'.conn.preader) w'

  abbrev pub kept :
      Packet
      → Result HttpError Bool
      → World (D lib)
      → Result HttpError (Option Packet) × World (D lib)
  kept p (ok k) w = (ok (some p), set_keeping k w)
  kept p (err e) w = (err (as_refusal e), w)

  abbrev pub read_packet_end :
      Option Packet → World (D lib) → Result HttpError (Option Packet) × World (D lib)
  read_packet_end (some p) w = kept p (conn_keep_alive p.header) w
  read_packet_end none w = (ok none, if expect_continue w.conn.preader then send_continue w else w)

  abbrev pub read_end :
      Read (Option Packet) → World (D lib) → Result HttpError (Option Packet) × World (D lib)
  read_end (ok p, r) w = read_packet_end p (set_reader r w)
  read_end (err e, r) w = (err (as_refusal e), set_reader r w)

  -- `Server_connection::read_request`
  unfoldable pub conn_read_request :
      Bytes → World (D lib) → Result HttpError (Option Packet) × World (D lib)
  conn_read_request s w = read_end (read_request lib.texts s (prepared w)) w

  -- Whether to terminate, or an exception that leaves the handler.
  abbrev pub Handled : Type 0
  Handled = Result Thrown Bool × World (D lib)

  -- `catch( const http::Error_response& )`
  abbrev pub refuse : Thrown → Caught → World (D lib) → Handled
  refuse e (error_response head text) w =
      (ok false, conn_schedule_response lib (error_of lib head) (set_keeping false w))
  refuse e _ w = (err e, w)

  abbrev pub executed : Ran (D lib) → Handled
  executed (ok u, w) = (ok false, w)
  executed (err e, w) = refuse e (caught e) w

  abbrev pub input_read : Result HttpError (Option Packet) × World (D lib) → Handled
  input_read (err e, w) = refuse (http e) (caught (http e)) w
  input_read (ok none, w) = (ok false, w)
  input_read (ok (some p), w) = executed (
      schedule_execute lib p
        (record w { reactor = unregistered input_event w.conn.handler w.reactor }))

  -- `handle_input`, where `recv` gave these bytes, or threw.
  unfoldable pub handle_input : Result Thrown Bytes → World (D lib) → Handled
  handle_input (err e) w = refuse e (caught e) w
  handle_input (ok []) w = (ok true, w)
  handle_input (ok (c ∷ s)) w = input_read (conn_read_request (c ∷ s) w)

  -- Once all is sent.
  abbrev pub all_sent : Bool → World (D lib) → Handled
  all_sent true w = (
    ok false,
    record w {
      reactor =
          registered input_event w.conn.handler
            (unregistered output_event w.conn.handler w.reactor);
    },
  )
  all_sent false w = (ok true, w)

  -- `handle_output`, where `send` took as many bytes, or threw.
  unfoldable pub handle_output : Result Thrown ℕ → World (D lib) → Handled
  handle_output (err e) w = (err e, w)
  handle_output (ok sz) w =
      if sz == length w.conn.response
      then all_sent w.conn.keep_alive w
      else (ok false, record w { conn = record w.conn { response = drop sz w.conn.response } })

  -- `post_accept`
  unfoldable pub post_accept : World (D lib) → World (D lib)
  post_accept w = record w { reactor = registered input_event w.conn.handler w.reactor }
