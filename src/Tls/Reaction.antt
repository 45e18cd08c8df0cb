-- ===== src/Tls/Reaction.antt =====
-- A connection under TLS on a socket that does not block (`ssl::Reaction_connection` of
-- libiqxmlrpc/ssl_connection.cc): what it is doing, and the calls that the reactor makes of it.
use libiqxmlrpc.Exceptions.{Thrown}
use libiqxmlrpc.Prelude.Bytes.{Bytes}
use libiqxmlrpc.Prelude.{ℕ, Bool, true, false, Result, ok, err, if◌then◌else◌}
use libiqxmlrpc.Reactor.{Events}
use libiqxmlrpc.Server.Execute.{input_event, output_event}
use libiqxmlrpc.Tls.Verify.{Ctx, ssl_accept, ssl_connect}
use libiqxmlrpc.Tls.{
  Openssl, Io, IoError, need_read, need_write, connection_close, failed, send, recv, shutdown,
}

-- `State`
pub data State : Type 0 where
  empty accepting connecting reading writing shutting_down : State

-- `ssl::Reaction_connection`, with its context. A buffer is what it holds; the owner leaves one that is
-- being sent alone.
pub record Reaction (api : Openssl) : Type 0 where
  pub ssl_ctx : Ctx api
  pub ssl : api.Ssl
  pub state : State
  pub send_buf : Bytes
  pub buf_len : ℕ

-- How a handler comes back: whether to terminate, or an exception; with the state.
abbrev pub Handled : Type 0 → Type 0
Handled W = Result Thrown Bool × W

-- What a class that is derived has: the reaction as a part of its state, and the calls of the reactor
-- with `this`.
pub record Host (api : Openssl) (W : Type 0) : Type 0 where
  pub reaction : W → Reaction api
  pub set_reaction : Reaction api → W → W
  pub register : Events → W → W
  pub unregister : Events → W → W
  pub fake : Events → W → W

-- Its virtual functions.
pub record Virtual (W : Type 0) : Type 0 where
  pub accept_succeed : W → Result Thrown (Unit {0}) × W
  pub connect_succeed : W → Result Thrown (Unit {0}) × W
  pub recv_succeed : ℕ → ℕ × Bytes → W → Handled W
  pub send_succeed : W → Handled W

module _ {api : Openssl} {W : Type 0} (o : Host api W) where
  abbrev pub set_state : State → W → W
  set_state s w = o.set_reaction (record (o.reaction w) { state = s }) w

  abbrev pub set_ssl : api.Ssl → W → W
  set_ssl s w = o.set_reaction (record (o.reaction w) { ssl = s }) w

  unfoldable pub reg_accept : W → W
  reg_accept w = o.register input_event (set_state accepting w)

  unfoldable pub reg_connect : W → W
  reg_connect w = o.register output_event (set_state connecting w)

  unfoldable pub reg_send : Bytes → ℕ → W → W
  reg_send buf len w =
      o.register output_event (
        o.set_reaction (record (o.reaction w) { state = writing; send_buf = buf; buf_len = len }) w)

  abbrev fake_pending : W → W
  fake_pending w = if api.pending (o.reaction w).ssl then o.fake input_event w else w

  unfoldable pub reg_recv : ℕ → W → W
  reg_recv len w = fake_pending (
      o.register input_event
        (o.set_reaction (record (o.reaction w) { state = reading; buf_len = len }) w))

  -- `reg_shutdown`: true where both sides have been closed already
  unfoldable pub reg_shutdown : W → Bool × W
  reg_shutdown w =
      let flags = api.get_shutdown (o.reaction w).ssl in
      if flags.sent
      then (if flags.received
          then (true, set_state empty w)
          else (false, o.register input_event (set_state shutting_down w)))
      else (false, o.register output_event (set_state shutting_down w))

  -- The `catch` clauses of `switch_state`.
  unfoldable pub catch_io : IoError → W → Handled W
  catch_io need_read w = (ok false, o.register input_event w)
  catch_io need_write w = (ok false, o.register output_event w)
  catch_io (connection_close clean) w = (ok false, (reg_shutdown w).1)
  catch_io (failed e) w = (err e, w)

  -- A call of OpenSSL in its `try` block, and what follows where it threw nothing; in all cases but a
  -- shutdown `state` becomes EMPTY in between.
  abbrev pub tried : {A : Type 0} → Io api A → (A → W → Handled W) → W → Handled W
  tried (ok a, s) k w = k a (set_ssl s w)
  tried (err e, s) k w = catch_io e (set_ssl s w)

  abbrev pub succeeded : Result Thrown (Unit {0}) × W → Handled W
  succeeded (ok u, w) = (ok false, w)
  succeeded (err e, w) = (err e, w)

  abbrev pub in_state : Virtual W → State → W → Handled W
  in_state v accepting w =
      tried (ssl_accept api (o.reaction w).ssl_ctx (o.reaction w).ssl)
        (λ u w'. succeeded (v.accept_succeed (set_state empty w'))) w
  in_state v connecting w =
      tried (ssl_connect api (o.reaction w).ssl_ctx (o.reaction w).ssl)
        (λ u w'. succeeded (v.connect_succeed (set_state empty w'))) w
  in_state v reading w =
      tried (recv api (o.reaction w).buf_len (o.reaction w).ssl)
        (λ got w'. v.recv_succeed (o.reaction w').buf_len got (set_state empty w')) w
  in_state v writing w =
      tried (send api (o.reaction w).send_buf (o.reaction w).buf_len (o.reaction w).ssl)
        (λ n w'. v.send_succeed (set_state empty w')) w
  in_state v shutting_down w = tried (shutdown api (o.reaction w).ssl) (λ u w'. (ok true, w')) w
  in_state v empty w = (ok true, w)

  unfoldable pub switch_state : Virtual W → W → Handled W
  switch_state v w = in_state v (o.reaction w).state w

  unfoldable pub handle_input : Virtual W → W → Handled W
  handle_input v w = switch_state v (o.unregister input_event w)

  unfoldable pub handle_output : Virtual W → W → Handled W
  handle_output v w = switch_state v (o.unregister output_event w)
