-- ===== src/Tls/Clients.antt =====
-- A connection of the client under TLS (`Https_client_connection` and `Https_proxy_client_connection` of
-- libiqxmlrpc/https_client.cc).
pub mod Busy
pub mod Rounds
pub mod Session
pub mod Closed
pub mod Tunnel
use libiqxmlrpc.Client.{closed_by_peer, client_timeout, read_buf_sz, is_idle}
use libiqxmlrpc.Exceptions.{Thrown, http}
use libiqxmlrpc.Http.Packets.{Packet}
use libiqxmlrpc.Http.Reader.{Reader, Read, read_response}
use libiqxmlrpc.Prelude.Bytes.{Bytes}
use libiqxmlrpc.Prelude.{
  ℕ, zero, suc, Bool, true, false, List, [], ◌∷◌, Option, none, some, Result, ok, err, length, take,
  ◌==◌, if◌then◌else◌,
}
use libiqxmlrpc.Reactor.{Reactor, Handler, Events, unregister_handler}
use libiqxmlrpc.Server.Execute.{registered}
use libiqxmlrpc.Server.Handlers.{unregistered}
use libiqxmlrpc.Server.{Library}
use libiqxmlrpc.Tls.Reaction.{
  Reaction, Handled, Host, Virtual, reg_connect, reg_send, reg_recv, handle_input, handle_output,
}
use libiqxmlrpc.Tls.Servers.{faked}
use libiqxmlrpc.Tls.{Openssl}

-- What the reactor of the connection finds: an event of the socket, one that was faked, or none in time.
pub data Event : Type 0 where
  input output timeout : Event

module _ (lib : Library) (api : Openssl) where
  pub record Calling : Type 0 where
    pub tls : Reaction api
    pub preader : Reader
    pub resp_packet : Option Packet
    pub out_str : Bytes
    pub established : Bool
    pub handler : Handler
    pub reactor : Option Reactor

  abbrev pub on_reactor :
      (Events → Handler → Option Reactor → Option Reactor) → Events → Calling → Calling
  on_reactor f m c = record c { reactor = f m c.handler c.reactor }

  abbrev pub host : Host api Calling
  host = record {
    reaction = λ c. c.tls;
    set_reaction = λ r c. record c { tls = r };
    register = on_reactor registered;
    unregister = on_reactor unregistered;
    fake = on_reactor faked;
  }

  unfoldable pub reg_send_request : Calling → Calling
  reg_send_request c = reg_send host c.out_str (length c.out_str) c

  unfoldable pub connect_succeed : Calling → Result Thrown (Unit {0}) × Calling
  connect_succeed c = (ok tt, reg_send_request (record c { established = true }))

  unfoldable pub send_succeed : Calling → Handled Calling
  send_succeed c = (ok false, reg_recv host read_buf_sz c)

  -- What `read_response` gave.
  abbrev pub responded : Read (Option Packet) → Calling → Handled Calling
  responded (ok (some p), r) c = (ok false, record c { preader = r; resp_packet = some p })
  responded (ok none, r) c =
      (ok false, reg_recv host read_buf_sz (record c { preader = r; resp_packet = none }))
  responded (err e, r) c = (err (http e), record c { preader = r })

  unfoldable pub recv_succeed : ℕ → ℕ × Bytes → Calling → Handled Calling
  recv_succeed req_len (zero, buf) c = (err closed_by_peer, c)
  recv_succeed req_len (suc n, buf) c =
      responded (read_response lib.texts false (take (suc n) buf) c.preader) c

  abbrev pub virtual : Virtual Calling
  virtual = record {
    accept_succeed = λ c. (ok tt, c);
    connect_succeed = connect_succeed;
    recv_succeed = recv_succeed;
    send_succeed = send_succeed;
  }

  unfoldable pub post_connect : Calling → Calling
  post_connect c = reg_connect host c

  -- The reactor removes a handler that terminates; it catches nothing for this one.
  abbrev pub ended : Handled Calling → Handled Calling
  ended (ok true, c) = (
    ok false,
    record c { reactor = elim c.reactor [ some r ↦ unregister_handler r c.handler | none ↦ none ] },
  )
  ended (ok false, c) = (ok false, c)
  ended (err e, c) = (err e, c)

  abbrev pub dispatch : Event → Calling → Handled Calling
  dispatch input c = ended (handle_input host virtual c)
  dispatch output c = ended (handle_output host virtual c)
  dispatch timeout c = (err client_timeout, c)

  -- A round of the reactor.
  abbrev pub unless_idle : Bool → Event → Calling → Handled Calling
  unless_idle true e c = (err client_timeout, c)
  unless_idle false e c = dispatch e c

  unfoldable pub happen : Event → Calling → Handled Calling
  happen e c = unless_idle (is_idle c.reactor) e c

  -- The loop of `do_process_session`; `none` where it still waits.
  abbrev pub Session : Type 0
  Session = Option (Result Thrown Packet × Calling)

  abbrev pub until_packet : Option Packet → Calling → Session → Session
  until_packet (some p) c rest = some (ok p, c)
  until_packet none c rest = rest

  abbrev pub after_event : Handled Calling → (Calling → Session) → Session
  after_event (err e, c) k = some (err e, c)
  after_event (ok done, c) k = until_packet c.resp_packet c (k c)

  unfoldable pub session_loop : List Event → Calling → Session
  session_loop [] c = none
  session_loop (e ∷ es) c = after_event (happen e c) (λ c'. session_loop es c')

  unfoldable pub do_process_session : Bytes → List Event → Calling → Session
  do_process_session s es c =
      let c' : Calling = record c { out_str = s; resp_packet = none } in
      session_loop es (if c.established then reg_send_request c' else c')
