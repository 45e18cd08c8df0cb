-- ===== src/Net/Connects.antt =====
-- The connector of a client (libiqxmlrpc/connector.cc), with the reactor of one handler on which it
-- waits (reactor_impl.h, reactor_poll_impl.cc).
use libiqxmlrpc.Client.{client_timeout}
use libiqxmlrpc.Net.Addresses.{InetAddr, get_sockaddr}
use libiqxmlrpc.Net.{
  System, SockAddr, Run, count, then_run, new_socket, set_non_blocking, connect, network_error,
}
use libiqxmlrpc.Prelude.Bytes.{codes}
use libiqxmlrpc.Prelude.Int.{ℤ, pos, negsuc}
use libiqxmlrpc.Prelude.{
  ℕ, zero, suc, ◌*◌, Bool, true, false, List, [], ◌∷◌, Option, none, some, Result, ok, err, ◌==◌,
  if◌then◌else◌, ◌≡◌, ◌∙◌, refl, inl, inr, Bool-cases,
}
use libiqxmlrpc.Reactor.Polls.{
  Polled, failed, interrupted, timed_out, ready, Revents, poll, poll_reset, poll_collect,
}
use libiqxmlrpc.Reactor.{HandlerState, no_events}
use libiqxmlrpc.Server.Execute.{output_event}
use libiqxmlrpc.Tls.{to_int}

-- The time that the reactor waits, -1 being for ever. The product is one of an `int` of 32 bits, which
-- wraps here; C++ leaves open what it is from 2147484 seconds on.
unfoldable pub wait_time : ℤ → ℤ
wait_time (pos (suc n)) = to_int (1000 * suc n)
wait_time _ = negsuc 0

module _ (sys : System) where
  -- `Connect_processor`, with its descriptor
  unfoldable pub new_processor : sys.Sys → Run sys ℤ
  new_processor w =
      then_run sys (new_socket sys w)
        (λ fd w1. then_run sys (set_non_blocking sys fd true w1) (λ u w2. (ok fd, w2)))

  abbrev pub is_failure : ℕ → Bool
  is_failure zero = false
  is_failure (suc e) = if suc e == sys.einprogress then false else true

  -- `handle_output`, by the error of the socket
  abbrev pub checked : ℤ → ℕ × sys.Sys → Run sys ℤ
  checked fd (e, w) =
      if is_failure e
      then (err (network_error sys (codes "Connector") true e (sys.close fd w)), sys.close fd w)
      else (ok fd, w)

  -- The one state of the reactor, as it is registered.
  abbrev pub waiting : ℤ → List HandlerState
  waiting fd = record { fd = count fd; mask = output_event; revents = no_events } ∷ []

  -- The call of the handler: `handle_input` is that of the base class, which does nothing. There is one
  -- state at most.
  abbrev pub invoked : ℤ → List HandlerState → sys.Sys → Run sys ℤ
  invoked fd [] w = (ok fd, w)
  invoked fd (s ∷ ss) w =
      if s.revents.input
      then (ok fd, w)
      else if s.revents.output
      then checked fd (sys.so_error fd w)
      else (ok fd, w)

  -- What `handle_events` gave: an exception of the reactor leaves `connect`, and `none` is false.
  abbrev pub after_events : ℤ → Result (Unit {0}) (Option (List HandlerState)) → sys.Sys → Run sys ℤ
  after_events fd (err u) w = (err (network_error sys (codes "poll()") true 0 w), w)
  after_events fd (ok none) w = (err client_timeout, sys.close fd w)
  after_events fd (ok (some ss)) w = invoked fd ss w

  abbrev pub waited : ℤ → Polled (List Revents) × sys.Sys → Run sys ℤ
  waited fd (x, w) = after_events fd (poll (waiting fd) x) w

  abbrev pub unless_done :
      ℤ → (ℤ → sys.Sys → Polled (List Revents) × sys.Sys) → ℤ → Bool → sys.Sys → Run sys ℤ
  unless_done timeout polls fd true w = (ok fd, w)
  unless_done timeout polls fd false w = waited fd (polls (wait_time timeout) w)

  -- What `connect` does with the address: false where the connection is still to be made.
  abbrev pub connect_to : ℤ → Run sys SockAddr → Run sys Bool
  connect_to fd r = then_run sys r (λ s w. connect sys fd s w)

  -- `Connector_base::connect`, up to the making of the connection from the descriptor that it gives;
  -- `polls` is the call `::poll` with the one descriptor, by the time that it waits.
  unfoldable pub connector_connect :
      InetAddr → ℤ → (ℤ → sys.Sys → Polled (List Revents) × sys.Sys) → sys.Sys → Run sys ℤ
  connector_connect peer timeout polls w = then_run sys (new_processor w) (λ fd w1.
      then_run sys (connect_to fd (get_sockaddr sys peer w1).1)
        (λ over w2. unless_done timeout polls fd over w2))

  module _ (is_open : ℤ → sys.Sys → Bool)
      (close-shut : (fd : ℤ) (w : sys.Sys) → is_open fd (sys.close fd w) ≡ false)
      (so_error-open : (fd : ℤ) (w : sys.Sys)
        → is_open fd (sys.so_error fd w).1 ≡ is_open fd w) where
    -- A descriptor that is given, open, or an exception and one that is closed.
    abbrev pub GivesOrCloses : ℤ → Run sys ℤ → Type 0
    GivesOrCloses fd (ok x, w) = (x ≡ fd) × (is_open fd w ≡ true)
    GivesOrCloses fd (err e, w) = is_open fd w ≡ false

    -- An exception that leaves the descriptor open.
    abbrev pub Leaks : ℤ → Run sys ℤ → Type 0
    Leaks fd (ok x, w) = false ≡ true
    Leaks fd (err e, w) = is_open fd w ≡ true

    abbrev pub Ends : ℤ → Polled (List Revents) → Run sys ℤ → Type 0
    Ends fd failed r = Leaks fd r
    Ends fd interrupted (r, w) = (r ≡ ok fd) × (is_open fd w ≡ true)
    Ends fd timed_out (r, w) = (r ≡ err client_timeout) × (is_open fd w ≡ false)
    Ends fd (ready rs) r = GivesOrCloses fd r

    checked-GivesOrCloses :
        (fd : ℤ) (x : ℕ × sys.Sys) → is_open fd x.1 ≡ true → GivesOrCloses fd (checked fd x)
    checked-GivesOrCloses fd (e, w) h = elim (Bool-cases (is_failure e)) [
      | inl q ↦ rw (checked, q) (close-shut fd w)
      | inr q ↦ rw (checked, q) (refl, h)
    ]

    invoked-GivesOrCloses :
        (fd : ℤ) (ss : List HandlerState) (w : sys.Sys)
        → is_open fd w ≡ true
        → GivesOrCloses fd (invoked fd ss w)
    invoked-GivesOrCloses fd [] w h = (refl, h)
    invoked-GivesOrCloses fd (s ∷ ss) w h = elim (Bool-cases s.revents.input) [
      | inl e ↦ rw e (refl, h)
      | inr e ↦ elim (Bool-cases s.revents.output) [
        | inl f ↦ rw (e, f) (checked-GivesOrCloses fd (sys.so_error fd w) (so_error-open fd w ∙ h))
        | inr f ↦ rw (e, f) (refl, h)
      ]
    ]

    waited-Ends :
        (fd : ℤ) (x : Polled (List Revents)) (w : sys.Sys)
        → is_open fd w ≡ true
        → Ends fd x (waited fd (x, w))
    unfolding poll poll_reset poll_collect
    waited-Ends fd failed w h = h
    waited-Ends fd interrupted w h = (refl, h)
    waited-Ends fd timed_out w h = (refl, close-shut fd w)
    waited-Ends fd (ready rs) w h = invoked-GivesOrCloses fd _ w h

    -- The system has begun to connect a new socket, whose descriptor is open and stays so through calls
    -- of `::poll` and reading its error. Where that call gives what is ready, the connector gives the
    -- socket, open, or throws with the socket closed; where the time is over first, it throws
    -- `Client_timeout` with the socket closed. Where the call fails, it throws and the socket stays open;
    -- where a signal interrupts the call, it gives the socket, whose connection may not be made.
    pub connector_connect-Ends :
        (peer : InetAddr) (timeout : ℤ) (polls : ℤ → sys.Sys → Polled (List Revents) × sys.Sys)
        (fd : ℤ) (w w1 w2 : sys.Sys)
        → ((ms : ℤ) (v : sys.Sys) → is_open fd (polls ms v).1 ≡ is_open fd v)
        → new_processor w ≡ (ok fd, w1)
        → connect_to fd (get_sockaddr sys peer w1).1 ≡ (ok false, w2)
        → is_open fd w2 ≡ true
        → Ends fd (polls (wait_time timeout) w2).0 (connector_connect peer timeout polls w)
    unfolding connector_connect
    connector_connect-Ends peer timeout polls fd w w1 w2 keeps h k o =
        let x = polls (wait_time timeout) w2 in
        rw (h, k) (waited-Ends fd x.0 x.1 (keeps (wait_time timeout) w2 ∙ o))
