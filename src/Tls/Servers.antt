-- ===== src/Tls/Servers.antt =====
-- A connection of the server under TLS (`Https_server_connection` of libiqxmlrpc/https_server.cc).
pub mod Sends
pub mod Answers
use libiqxmlrpc.Exceptions.{Thrown, http, caught}
use libiqxmlrpc.Http.Errors.{HttpError}
use libiqxmlrpc.Http.Packets.{Packet}
use libiqxmlrpc.Prelude.Bytes.{Bytes}
use libiqxmlrpc.Prelude.{
  ℕ, Bool, true, false, [], ◌∷◌, Option, none, some, Result, ok, err, length, take, ◌==◌,
  if◌then◌else◌,
}
use libiqxmlrpc.Reactor.{Reactor, Handler, Events, fake_event}
use libiqxmlrpc.Server.Execute.{D, registered, schedule_execute, pool_round, input_event}
use libiqxmlrpc.Server.Handlers.{unregistered, conn_read_request, refuse, executed}
use libiqxmlrpc.Server.{Library, World}
use libiqxmlrpc.Tls.Reaction.{
  State, accepting, writing, Reaction, Handled, Host, Virtual, reg_accept, reg_recv, reg_shutdown,
  handle_input, handle_output,
}
use libiqxmlrpc.Tls.{Openssl}

abbrev pub faked : Events → Handler → Option Reactor → Option Reactor
faked m h none = none
faked m h (some r) = some (fake_event r h m)

abbrev pub read_buf_sz : ℕ
read_buf_sz = 65536

module _ (lib : Library) (api : Openssl) where
  pub record Serving : Type 0 where
    pub tls : Reaction api
    pub world : World (D lib)

  abbrev pub on_reactor :
      (Events → Handler → Option Reactor → Option Reactor) → Events → Serving → Serving
  on_reactor f m t = record t {
    world = record t.world { reactor = f m t.world.conn.handler t.world.reactor };
  }

  abbrev pub host : Host api Serving
  host = record {
    reaction = λ t. t.tls;
    set_reaction = λ r t. record t { tls = r };
    register = on_reactor registered;
    unregister = on_reactor unregistered;
    fake = on_reactor faked;
  }

  -- `my_reg_recv`
  unfoldable pub my_reg_recv : Serving → Serving
  my_reg_recv t = reg_recv host read_buf_sz t

  -- What the `do_schedule_response` of this class does besides that of `Server.Execute`, which registers
  -- the same event and adds to the history: where a response was scheduled, it is what the connection
  -- now writes.
  abbrev pub reg_response : World (D lib) → World (D lib) → Reaction api → Reaction api
  reg_response before after r =
      if length after.responses == length before.responses then r else record r {
        state = writing;
        send_buf = after.conn.response;
        buf_len = length after.conn.response;
      }

  -- What `read_request` gave: a packet is executed, and an `Error_response` is caught.
  abbrev pub run_request :
      Result HttpError (Option Packet) × World (D lib) → Handled (World (D lib))
  run_request (err e, w) = refuse lib (http e) (caught (http e)) w
  run_request (ok none, w) = (ok false, w)
  run_request (ok (some p), w) = executed lib (schedule_execute lib p w)

  abbrev pub unless_response : Bytes → Serving → Serving
  unless_response [] t = my_reg_recv t
  unless_response (c ∷ s) t = t

  abbrev pub read_more : Result HttpError (Option Packet) → Serving → Serving
  read_more (ok none) t = unless_response t.world.conn.response t
  read_more _ t = t

  abbrev pub requested :
      Result HttpError (Option Packet) × World (D lib) → Serving → Handled Serving
  requested r t =
      let h : Handled (World (D lib)) = run_request r in
      (h.0, read_more r.0 (record { tls = reg_response t.world h.1 t.tls; world = h.1 }))

  -- `recv_succeed`, of the bytes at the front of the buffer
  unfoldable pub recv_succeed : ℕ → ℕ × Bytes → Serving → Handled Serving
  recv_succeed req_len (real_len, buf) t =
      requested (conn_read_request lib (take real_len buf) t.world) t

  abbrev pub without_response : Serving → Serving
  without_response t = record t {
    world = record t.world { conn = record t.world.conn { response = [] } };
  }

  abbrev pub all_sent : Bool → Serving → Handled Serving
  all_sent true t = (ok false, my_reg_recv t)
  all_sent false t = let (done, t') = reg_shutdown host t in (ok done, t')

  unfoldable pub send_succeed : Serving → Handled Serving
  send_succeed t = all_sent t.world.conn.keep_alive (without_response t)

  abbrev pub virtual : Virtual Serving
  virtual = record {
    accept_succeed = λ t. (ok tt, my_reg_recv t);
    connect_succeed = λ t. (ok tt, t);
    recv_succeed = recv_succeed;
    send_succeed = send_succeed;
  }

  unfoldable pub post_accept : Serving → Serving
  post_accept t = reg_accept host t

  -- The calls of the reactor.
  abbrev pub on_input : Serving → Handled Serving
  on_input t = handle_input host virtual t

  abbrev pub on_output : Serving → Handled Serving
  on_output t = handle_output host virtual t

  -- A round of a thread of the pool, which schedules a response of this connection.
  unfoldable pub pooled_round : Serving → Result Thrown (Unit {0}) × Serving
  pooled_round t =
      let (r, w) = pool_round lib t.world in
      (r, record { tls = reg_response t.world w t.tls; world = w })
