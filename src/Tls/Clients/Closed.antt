-- ===== src/Tls/Clients/Closed.antt =====
-- What a client under TLS makes of a server that closes (libiqxmlrpc/https_client.cc,
-- ssl_connection.cc, reactor_impl.h).
use libiqxmlrpc.Client.{client_timeout, is_idle}
use libiqxmlrpc.Prelude.Bytes.{Bytes}
use libiqxmlrpc.Prelude.Int.{ℤ, pos}
use libiqxmlrpc.Prelude.{ℕ, true, false, List, ◌∷◌, Option, none, some, ok, err, ◌≡◌, refl, ap, ◌∙◌}
use libiqxmlrpc.Reactor.{Reactor, unregister_handler, find_handler, forget_stopper, count_stopper}
use libiqxmlrpc.Reactor.Single.{only, nobody, only-input, only-output, nobody-register}
use libiqxmlrpc.Reactor.Table.{lookup}
use libiqxmlrpc.Server.Execute.{registered, input_event, output_event}
use libiqxmlrpc.Server.Handlers.{unregistered}
use libiqxmlrpc.Server.{Library}
use libiqxmlrpc.Tls.Clients.{Calling, Event, happen, session_loop, unless_idle}
use libiqxmlrpc.Tls.Clients.Rounds.{on_state, until_packet-none}
use libiqxmlrpc.Tls.Reaction.{
  reading, shutting_down, handle_input, handle_output, switch_state, catch_io, reg_shutdown,
}
use libiqxmlrpc.Tls.Verify.{Ctx}
use libiqxmlrpc.Tls.{Openssl, zero_return, is_positive, to_int, recv, throw_io_exception, shutdown}

module _ (lib : Library) (api : Openssl) (x : Ctx api) where
  first_round :
      (c : Calling lib api) (a b : api.Ssl) (ret : ℤ) (s buf : Bytes) (len k : ℕ)
      → api.read (to_int len) a ≡ ((ret, buf), b)
      → is_positive api ret ≡ false
      → api.get_error b ret ≡ zero_return
      → api.get_shutdown b ≡ record { sent = false; received = true }
      → happen lib api Event.input
          (on_state lib api x c a reading s len (some (only c.handler input_event k)))
        ≡ (
          ok false,
          on_state lib api x c b shutting_down s len (
              some (
                only c.handler output_event
                  (count_stopper c.handler (forget_stopper c.handler k)))),
        )
  unfolding happen handle_input switch_state recv throw_io_exception catch_io reg_shutdown
  first_round c a b ret s buf len k h q z flags =
      rw (unregistered, only-input, h, q, z, flags, registered, nobody-register) refl

  second_round :
      (c : Calling lib api) (b d : api.Ssl) (s : Bytes) (len k : ℕ)
      → api.get_shutdown b ≡ record { sent = false; received = true }
      → api.close b ≡ (pos 1, d)
      → (r : Option Reactor) × (happen lib api Event.output
            (on_state lib api x c b shutting_down s len (some (only c.handler output_event k)))
          ≡ (ok false, on_state lib api x c d shutting_down s len r))
        × (is_idle r ≡ true)
  unfolding happen handle_output switch_state shutdown unregister_handler find_handler lookup
  second_round c b d s len k flags shut = (
    some (nobody (forget_stopper c.handler k)),
    rw (unregistered, only-output, flags, shut) refl,
    refl,
  )

  idle_round :
      (c : Calling lib api) (e : Event)
      → is_idle c.reactor ≡ true
      → happen lib api e c ≡ (err client_timeout, c)
  unfolding happen
  idle_round c e h = ap (λ b. unless_idle lib api b e c) h

  -- A client that waits for an answer under TLS, with itself as the one handler of its reactor, gets the
  -- notice of the server that it closes, which it answers with its own. The session then ends, whatever
  -- the reactor would be asked for next, and not with the error of a connection that is closed by the
  -- peer, but with that of a time that is over.
  pub session_loop-closed :
      (c : Calling lib api) (a b d : api.Ssl) (ret : ℤ) (s buf : Bytes) (len k : ℕ) (e : Event)
      (es : List Event)
      → c.resp_packet ≡ none
      → api.read (to_int len) a ≡ ((ret, buf), b)
      → is_positive api ret ≡ false
      → api.get_error b ret ≡ zero_return
      → api.get_shutdown b ≡ record { sent = false; received = true }
      → api.close b ≡ (pos 1, d)
      → (c' : Calling lib api) × (session_loop lib api
            (Event.input ∷ Event.output ∷ e ∷ es)
            (on_state lib api x c a reading s len (some (only c.handler input_event k)))
          ≡ some (err client_timeout, c'))
  unfolding session_loop
  session_loop-closed c a b d ret s buf len k e es none_yet h q z flags shut =
      let n = count_stopper c.handler (forget_stopper c.handler k) in
      let (r, f, idle) = second_round c b d s len n flags shut in
      let c2 = on_state lib api x c d shutting_down s len r in
      (
        c2,
        rw (first_round c a b ret s buf len k h q z flags) (
            until_packet-none lib api x c.resp_packet _ _ none_yet
            ∙ rw f (
                until_packet-none lib api x c.resp_packet _ _ none_yet
                ∙ rw (idle_round c2 e idle) refl)),
      )
