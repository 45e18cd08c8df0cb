-- ===== src/Tls/Servers/Sends.antt =====
-- How a response is sent under TLS (libiqxmlrpc/ssl_connection.cc, https_server.cc).
use libiqxmlrpc.Prelude.Bytes.{Bytes}
use libiqxmlrpc.Prelude.Int.{ℤ}
use libiqxmlrpc.Prelude.{
  ℕ, Bool, true, false, List, [], ◌∷◌, Option, ok, err, length, ◌==◌, ◌≡◌, refl, ap, ◌∙◌, ◌⊎◌, inl,
  inr, Bool-cases, if◌then◌else◌,
}
use libiqxmlrpc.Reactor.Masks.{mask_of, Waits, registered-Waits, unregistered-Waits, faked-Waits}
use libiqxmlrpc.Reactor.{Reactor, Events, no_events, is_none}
use libiqxmlrpc.Server.Execute.{D, input_event, output_event}
use libiqxmlrpc.Server.Handlers.{unregistered}
use libiqxmlrpc.Server.{Library, World}
use libiqxmlrpc.Tls.Verify.{Ctx}
use libiqxmlrpc.Tls.Reaction.{
  State, empty, reading, writing, shutting_down, Handled, handle_input, handle_output, switch_state,
  catch_io, reg_recv, reg_shutdown,
}
use libiqxmlrpc.Tls.Servers.{Serving, on_input, on_output, send_succeed, all_sent, my_reg_recv}
use libiqxmlrpc.Tls.{
  Openssl, Shutdown, ErrorCode, want_read, want_write, to_int, to_size, send, throw_io_exception,
}

-- Whether OpenSSL waits for the socket, and for what.
abbrev pub IsWait : ErrorCode → Type 0
IsWait e = (e ≡ want_read) ⊎ (e ≡ want_write)

-- The calls of `SSL_write` with one text of which all but the last ask for the socket: what the object
-- is before them and behind them, and how many asked.
pub data Writes (api : Openssl) (s : Bytes) : ℕ → api.Ssl → api.Ssl → Type 0 where
  done :
      {a b : api.Ssl} (ret : ℤ)
      → api.write s (to_int (length s)) a ≡ (ret, b)
      → (to_size ret == length s) ≡ true
      → Writes api s 0 a b
  again :
      {n : ℕ} {a b c : api.Ssl} (ret : ℤ)
      → api.write s (to_int (length s)) a ≡ (ret, b)
      → (to_size ret == length s) ≡ false
      → IsWait (api.get_error b ret)
      → Writes api s n b c
      → Writes api s (ℕ.suc n) a c

-- Which of its handlers the reactor calls.
pub data Call : Type 0 where
  input output : Call

-- The call that OpenSSL waits for, and the calls that a text takes behind the first one.
abbrev pub call_for : {e : ErrorCode} → IsWait e → Call
call_for (inl e) = input
call_for (inr e) = output

abbrev pub calls_of :
    {api : Openssl} {s : Bytes} {n : ℕ} {a b : api.Ssl} → Writes api s n a b → List Call
calls_of (done ret h q) = []
calls_of (again ret h q z x) = call_for z ∷ calls_of x

abbrev pub event_of : Call → Events
event_of input = input_event
event_of output = output_event

-- What a connection does behind its answer, by whether it is kept alive and by what is shut down
-- already: whether it terminates, its state, the size of its buffer, and what it waits for.
abbrev pub after_answer : Bool → Shutdown → ℕ → Bool × State × ℕ × Events
after_answer true f len = (false, reading, 65536, input_event)
after_answer false f len =
    if f.sent
    then (if f.received
        then (true, empty, len, no_events)
        else (false, shutting_down, len, input_event))
    else (false, shutting_down, len, output_event)

module _ (lib : Library) (api : Openssl) where
  abbrev pub called : Bool → Call → Serving lib api → Handled (Serving lib api)
  called false e t = (ok false, t)
  called true input t = on_input lib api t
  called true output t = on_output lib api t

  abbrev pub is_in : Call → Events → Bool
  is_in input m = m.input
  is_in output m = m.output

  -- The reactor calls a handler for an event that it is registered for.
  abbrev pub call : Call → Serving lib api → Handled (Serving lib api)
  call e t = called (is_in e (mask_of t.world.conn.handler t.world.reactor)) e t

  -- Calls as long as the connection only waits.
  abbrev pub unless_waits :
      Handled (Serving lib api)
      → (Serving lib api → Handled (Serving lib api))
      → Handled (Serving lib api)
  unless_waits (ok false, t) k = k t
  unless_waits h k = h

  unfoldable pub calls : List Call → Serving lib api → Handled (Serving lib api)
  calls [] t = (ok false, t)
  calls (e ∷ es) t = unless_waits (call e t) (λ t'. calls es t')

  abbrev pub with_tls :
      (c : Ctx api) (a : api.Ssl) (s : Bytes) (w : World (D lib)) → Serving lib api
  with_tls c a s w = record {
    tls = record { ssl_ctx = c; ssl = a; state = writing; send_buf = s; buf_len = length s };
    world = w;
  }

  -- A connection whose answer is sent.
  abbrev pub rested :
      (c : Ctx api) (b : api.Ssl) (s : Bytes) (w : World (D lib)) (st : State) (len : ℕ)
      (r : Option Reactor)
      → Serving lib api
  rested c b s w st len r = record {
    tls = record { ssl_ctx = c; ssl = b; state = st; send_buf = s; buf_len = len };
    world = record w { conn = record w.conn { response = [] }; reactor = r };
  }

  abbrev pub Rests :
      (c : Ctx api) (b : api.Ssl) (s : Bytes) (w : World (D lib))
      → Bool × State × ℕ × Events
      → Handled (Serving lib api)
      → Type 0
  Rests c b s w (over, st, len, m) h =
      (r : Option Reactor) × (h ≡ (ok over, rested c b s w st len r)) × Waits m w.conn.handler r

  -- Behind its answer: it reads on where it is kept alive, and else shuts down.
  abbrev pub Sent :
      (c : Ctx api) (b : api.Ssl) (s : Bytes) (w : World (D lib))
      → Handled (Serving lib api)
      → Type 0
  Sent c b s w h = Rests c b s w (after_answer w.conn.keep_alive (api.get_shutdown b) (length s)) h

  pub called-registered :
      (e : Call) (t : Serving lib api)
      → Waits (event_of e) t.world.conn.handler t.world.reactor
      → call e t ≡ called true e t
  called-registered input t (r, e, c, m) =
      ap (λ x. called x.input input t) (ap (mask_of t.world.conn.handler) e ∙ m)
  called-registered output t (r, e, c, m) =
      ap (λ x. called x.output output t) (ap (mask_of t.world.conn.handler) e ∙ m)

  all_sent-Rests :
      (c : Ctx api) (b : api.Ssl) (s : Bytes) (w : World (D lib)) (k : Bool) (m m' : Events)
      → is_none m' ≡ false
      → Waits m w.conn.handler w.reactor
      → Rests c b s w (after_answer k (api.get_shutdown b) (length s)) (
          all_sent lib api k
            (rested c b s w empty (length s) (unregistered m' w.conn.handler w.reactor)))
  unfolding my_reg_recv reg_recv reg_shutdown
  all_sent-Rests c b s w true m m' q x = elim (Bool-cases (api.pending b)) [
    | inl e ↦ rw e (
      _,
      refl,
      faked-Waits input_event input_event w.conn.handler _
          (registered-Waits input_event m' m w.conn.handler w.reactor x q refl),
    )
    | inr e ↦ rw e (_, refl, registered-Waits input_event m' m w.conn.handler w.reactor x q refl)
  ]
  all_sent-Rests c b s w false m m' q x = elim (Bool-cases (api.get_shutdown b).sent) [
    | inl e ↦ elim (Bool-cases (api.get_shutdown b).received) [
      | inl f ↦ rw (e, f) (_, refl, unregistered-Waits m m' w.conn.handler w.reactor x q)
      | inr f ↦
          rw (e, f) (_, refl, registered-Waits input_event m' m w.conn.handler w.reactor x q refl)
    ]
    | inr e ↦ rw e (_, refl, registered-Waits output_event m' m w.conn.handler w.reactor x q refl)
  ]

  call-done :
      (e : Call) (c : Ctx api) (a b : api.Ssl) (s : Bytes) (w : World (D lib)) (ret : ℤ)
      → Waits (event_of e) w.conn.handler w.reactor
      → api.write s (to_int (length s)) a ≡ (ret, b)
      → (to_size ret == length s) ≡ true
      → Sent c b s w (call e (with_tls c a s w))
  unfolding handle_input handle_output switch_state send send_succeed
  call-done input c a b s w ret x h q =
      rw (called-registered input (with_tls c a s w) x, h, q)
        (all_sent-Rests c b s w w.conn.keep_alive input_event input_event refl x)
  call-done output c a b s w ret x h q =
      rw (called-registered output (with_tls c a s w) x, h, q)
        (all_sent-Rests c b s w w.conn.keep_alive output_event output_event refl x)

  -- Where OpenSSL waits, so does the connection, for the same text.
  abbrev Stays :
      (e e' : Call) (c : Ctx api) (a b : api.Ssl) (s : Bytes) (w : World (D lib)) → Type 0
  Stays e e' c a b s w =
      (r : Option Reactor) × (call e (with_tls c a s w)
        ≡ (ok false, with_tls c b s (record w { reactor = r })))
      × Waits (event_of e') w.conn.handler r

  call-again :
      (e : Call) (c : Ctx api) (a b : api.Ssl) (s : Bytes) (w : World (D lib)) (ret : ℤ)
      (z : IsWait (api.get_error b ret))
      → Waits (event_of e) w.conn.handler w.reactor
      → api.write s (to_int (length s)) a ≡ (ret, b)
      → (to_size ret == length s) ≡ false
      → Stays e (call_for z) c a b s w
  unfolding handle_input handle_output switch_state send throw_io_exception catch_io
  call-again input c a b s w ret (inl z) x h q = (
    _,
    rw (called-registered input (with_tls c a s w) x, h, q, z) refl,
    registered-Waits input_event input_event input_event w.conn.handler w.reactor x refl refl,
  )
  call-again input c a b s w ret (inr z) x h q = (
    _,
    rw (called-registered input (with_tls c a s w) x, h, q, z) refl,
    registered-Waits output_event input_event input_event w.conn.handler w.reactor x refl refl,
  )
  call-again output c a b s w ret (inl z) x h q = (
    _,
    rw (called-registered output (with_tls c a s w) x, h, q, z) refl,
    registered-Waits input_event output_event output_event w.conn.handler w.reactor x refl refl,
  )
  call-again output c a b s w ret (inr z) x h q = (
    _,
    rw (called-registered output (with_tls c a s w) x, h, q, z) refl,
    registered-Waits output_event output_event output_event w.conn.handler w.reactor x refl refl,
  )

  unless-result : (h : Handled (Serving lib api)) → unless_waits h (λ t'. (ok false, t')) ≡ h
  unless-result (ok false, t) = refl
  unless-result (ok true, t) = refl
  unless-result (err e, t) = refl

  -- A response that is being written, by a connection that is registered for an event, goes out: OpenSSL
  -- is called with the whole of it, again and again as long as it asks for the socket, and the
  -- connection is registered for just what it asks for. Behind the call that takes all of it the
  -- response is empty; the connection reads again where it is kept alive, and else shuts down, its
  -- object being as OpenSSL left it.
  pub calls-Sent :
      (c : Ctx api) (s : Bytes) (e : Call) (n : ℕ) (a b : api.Ssl) (w : World (D lib))
      (x : Writes api s n a b)
      → Waits (event_of e) w.conn.handler w.reactor
      → Sent c b s w (calls (e ∷ calls_of x) (with_tls c a s w))
  unfolding calls
  calls-Sent c s e _ a b w (done ret h q) x =
      let (r, f, y) = call-done e c a b s w ret x h q in (r, unless-result _ ∙ f, y)
  calls-Sent c s e _ a d w (again ret h q z y) x =
      let (r, f, x') = call-again e c a _ s w ret z x h q in
      rw f (calls-Sent c s (call_for z) _ _ d (record w { reactor = r }) y x')
