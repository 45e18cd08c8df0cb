-- ===== src/Tls/Clients/Rounds.antt =====
-- The rounds of a session of a client under TLS (libiqxmlrpc/https_client.cc, ssl_connection.cc).
use libiqxmlrpc.Client.{read_buf_sz}
use libiqxmlrpc.Http.Packets.{Packet}
use libiqxmlrpc.Http.Reader.{Reader, read_response}
use libiqxmlrpc.Prelude.Bytes.{Bytes}
use libiqxmlrpc.Prelude.Int.{ℤ, pos}
use libiqxmlrpc.Prelude.{
  ℕ, suc, Bool, true, false, List, [], ◌∷◌, Option, none, some, ok, length, take, ◌==◌, ◌≡◌, refl,
  inl, inr, Bool-cases, if◌then◌else◌,
}
use libiqxmlrpc.Reactor.{Reactor, Handler}
use libiqxmlrpc.Server.Execute.{registered, input_event, output_event}
use libiqxmlrpc.Server.Handlers.{unregistered}
use libiqxmlrpc.Server.{Library}
use libiqxmlrpc.Tls.Clients.{
  Calling, Event, host, happen, Session, until_packet, send_succeed, recv_succeed,
}
use libiqxmlrpc.Tls.Reaction.{
  State, empty, writing, reading, handle_input, handle_output, switch_state, reg_recv, catch_io,
}
use libiqxmlrpc.Tls.Servers.Sends.{Call, input, output, IsWait}
use libiqxmlrpc.Tls.Servers.{faked}
use libiqxmlrpc.Tls.Verify.{Ctx}
use libiqxmlrpc.Tls.{Openssl, is_positive, to_int, to_size, send, recv, throw_io_exception}
use libiqxmlrpc.Tls.Clients.Busy.{IsBusy, registered-IsBusy, faked-IsBusy}

-- The calls of `SSL_read` that give these pieces one after another, where OpenSSL may ask for the
-- socket in between: how many there are, and the object before and behind them.
pub data Gives (api : Openssl) : List Bytes → ℕ → api.Ssl → api.Ssl → Type 0 where
  end : {a : api.Ssl} → Gives api [] 0 a a
  piece :
      {ss : List Bytes} {k : ℕ} {a b c : api.Ssl} (n : ℕ) (s buf : Bytes)
      → api.read (to_int read_buf_sz) a ≡ ((pos (suc n), buf), b)
      → take (suc n) buf ≡ s
      → Gives api ss k b c
      → Gives api (s ∷ ss) (suc k) a c
  waits :
      {ss : List Bytes} {k : ℕ} {a b c : api.Ssl} (ret : ℤ) (buf : Bytes)
      → api.read (to_int read_buf_sz) a ≡ ((ret, buf), b)
      → is_positive api ret ≡ false
      → IsWait (api.get_error b ret)
      → Gives api ss k b c
      → Gives api ss (suc k) a c

abbrev pub event : Call → Event
event input = Event.input
event output = Event.output

module _ (lib : Library) (api : Openssl) (x : Ctx api) where
  abbrev pub on_state :
      (c : Calling lib api) (a : api.Ssl) (st : State) (s : Bytes) (len : ℕ) (r : Option Reactor)
      → Calling lib api
  on_state c a st s len r = record c {
    tls = record { ssl_ctx = x; ssl = a; state = st; send_buf = s; buf_len = len };
    reactor = r;
  }

  -- A round after which the connection is in this state, and the reactor has its handler.
  abbrev pub Goes :
      (e : Call) (c c' : Calling lib api) (st st' : State) (a b : api.Ssl) (s : Bytes)
      (len len' : ℕ) (r : Option Reactor)
      → Type 0
  Goes e c c' st st' a b s len len' r =
      (r' : Option Reactor) × (happen lib api (event e) (on_state c a st s len r)
        ≡ (ok false, on_state c' b st' s len' r'))
      × IsBusy r'

  pub write-again :
      (e : Call) (c : Calling lib api) (a b : api.Ssl) (s : Bytes) (r : Option Reactor) (ret : ℤ)
      → IsBusy r
      → api.write s (to_int (length s)) a ≡ (ret, b)
      → (to_size ret == length s) ≡ false
      → IsWait (api.get_error b ret)
      → Goes e c c writing writing a b s (length s) (length s) r
  unfolding happen handle_input handle_output switch_state send throw_io_exception catch_io
  write-again input c a b s r ret busy h q (inl z) = (
    registered input_event c.handler (unregistered input_event c.handler r),
    rw (busy, h, q, z) refl,
    registered-IsBusy _ _ _,
  )
  write-again input c a b s r ret busy h q (inr z) = (
    registered output_event c.handler (unregistered input_event c.handler r),
    rw (busy, h, q, z) refl,
    registered-IsBusy _ _ _,
  )
  write-again output c a b s r ret busy h q (inl z) = (
    registered input_event c.handler (unregistered output_event c.handler r),
    rw (busy, h, q, z) refl,
    registered-IsBusy _ _ _,
  )
  write-again output c a b s r ret busy h q (inr z) = (
    registered output_event c.handler (unregistered output_event c.handler r),
    rw (busy, h, q, z) refl,
    registered-IsBusy _ _ _,
  )

  abbrev removes : Call → Handler → Option Reactor → Option Reactor
  removes input h r = unregistered input_event h r
  removes output h r = unregistered output_event h r

  -- A reactor where the handler waits for input, of which there may be some already.
  abbrev then_faked : Bool → Handler → Option Reactor → Option Reactor
  then_faked b h r =
      if b then faked input_event h (registered input_event h r) else registered input_event h r

  then_faked-IsBusy : (b : Bool) (h : Handler) (r : Option Reactor) → IsBusy (then_faked b h r)
  then_faked-IsBusy true h r =
      faked-IsBusy input_event h (registered input_event h r) (registered-IsBusy input_event h r)
  then_faked-IsBusy false h r = registered-IsBusy input_event h r

  reg_recv-on_state :
      (c : Calling lib api) (b : api.Ssl) (st : State) (s : Bytes) (len : ℕ) (r : Option Reactor)
      → reg_recv (host lib api) read_buf_sz (on_state c b st s len r)
        ≡ on_state c b reading s read_buf_sz (then_faked (api.pending b) c.handler r)
  unfolding reg_recv
  reg_recv-on_state c b st s len r = elim (Bool-cases (api.pending b)) [
    | inl e ↦ rw e refl
    | inr e ↦ rw e refl
  ]

  pub write-done :
      (e : Call) (c : Calling lib api) (a b : api.Ssl) (s : Bytes) (r : Option Reactor) (ret : ℤ)
      → IsBusy r
      → api.write s (to_int (length s)) a ≡ (ret, b)
      → (to_size ret == length s) ≡ true
      → Goes e c c writing reading a b s (length s) read_buf_sz r
  unfolding happen handle_input handle_output switch_state send send_succeed
  write-done input c a b s r ret busy h q = (
    then_faked (api.pending b) c.handler (unregistered input_event c.handler r),
    rw (busy, h, q, reg_recv-on_state) refl,
    then_faked-IsBusy _ _ _,
  )
  write-done output c a b s r ret busy h q = (
    then_faked (api.pending b) c.handler (unregistered output_event c.handler r),
    rw (busy, h, q, reg_recv-on_state) refl,
    then_faked-IsBusy _ _ _,
  )

  pub read-again :
      (e : Call) (c : Calling lib api) (a b : api.Ssl) (s buf : Bytes) (r : Option Reactor)
      (ret : ℤ)
      → IsBusy r
      → api.read (to_int read_buf_sz) a ≡ ((ret, buf), b)
      → is_positive api ret ≡ false
      → IsWait (api.get_error b ret)
      → Goes e c c reading reading a b s read_buf_sz read_buf_sz r
  unfolding happen handle_input handle_output switch_state recv throw_io_exception catch_io
  read-again input c a b s buf r ret busy h q (inl z) = (
    registered input_event c.handler (unregistered input_event c.handler r),
    rw (busy, h, q, z) refl,
    registered-IsBusy _ _ _,
  )
  read-again input c a b s buf r ret busy h q (inr z) = (
    registered output_event c.handler (unregistered input_event c.handler r),
    rw (busy, h, q, z) refl,
    registered-IsBusy _ _ _,
  )
  read-again output c a b s buf r ret busy h q (inl z) = (
    registered input_event c.handler (unregistered output_event c.handler r),
    rw (busy, h, q, z) refl,
    registered-IsBusy _ _ _,
  )
  read-again output c a b s buf r ret busy h q (inr z) = (
    registered output_event c.handler (unregistered output_event c.handler r),
    rw (busy, h, q, z) refl,
    registered-IsBusy _ _ _,
  )

  abbrev pub more : (c : Calling lib api) (r1 : Reader) → Calling lib api
  more c r1 = record c { preader = r1; resp_packet = none }

  pub read-piece :
      (e : Call) (c : Calling lib api) (a b : api.Ssl) (s buf : Bytes) (n : ℕ) (r : Option Reactor)
      (r1 : Reader)
      → IsBusy r
      → api.read (to_int read_buf_sz) a ≡ ((pos (suc n), buf), b)
      → read_response lib.texts false (take (suc n) buf) c.preader ≡ (ok none, r1)
      → Goes e c (more c r1) reading reading a b s read_buf_sz read_buf_sz r
  unfolding happen handle_input handle_output switch_state recv recv_succeed to_size
  read-piece input c a b s buf n r r1 busy h q = (
    then_faked (api.pending b) c.handler (unregistered input_event c.handler r),
    rw (busy, h, q, reg_recv-on_state (more c r1)) refl,
    then_faked-IsBusy _ _ _,
  )
  read-piece output c a b s buf n r r1 busy h q = (
    then_faked (api.pending b) c.handler (unregistered output_event c.handler r),
    rw (busy, h, q, reg_recv-on_state (more c r1)) refl,
    then_faked-IsBusy _ _ _,
  )

  pub read-packet :
      (e : Call) (c : Calling lib api) (a b : api.Ssl) (s buf : Bytes) (n : ℕ) (r : Option Reactor)
      (r1 : Reader) (p : Packet)
      → IsBusy r
      → api.read (to_int read_buf_sz) a ≡ ((pos (suc n), buf), b)
      → read_response lib.texts false (take (suc n) buf) c.preader ≡ (ok (some p), r1)
      → (c' : Calling lib api) × (happen lib api (event e) (on_state c a reading s read_buf_sz r)
          ≡ (ok false, c'))
        × (c'.resp_packet ≡ some p)
  unfolding happen handle_input handle_output switch_state recv recv_succeed to_size
  read-packet input c a b s buf n r r1 p busy h q = (
    record (on_state c b empty s read_buf_sz (unregistered input_event c.handler r)) {
      preader = r1;
      resp_packet = some p;
    },
    rw (busy, h, q) refl,
    refl,
  )
  read-packet output c a b s buf n r r1 p busy h q = (
    record (on_state c b empty s read_buf_sz (unregistered output_event c.handler r)) {
      preader = r1;
      resp_packet = some p;
    },
    rw (busy, h, q) refl,
    refl,
  )

  pub until_packet-none :
      (y : Option Packet) (c : Calling lib api) (rest : Session lib api)
      → y ≡ none
      → until_packet lib api y c rest ≡ rest
  until_packet-none none c rest h = refl
  until_packet-none (some p) c rest h = cc
