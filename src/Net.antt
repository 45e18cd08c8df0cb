-- ===== src/Net.antt =====
-- Sockets and what stands on them (libiqxmlrpc/socket.cc, inet_addr.cc, net_except.cc, acceptor.cc,
-- connector.cc, reactor_interrupter.cc). The calls of the operating system are a parameter.
pub mod Addresses
pub mod Accepts
pub mod Connects
pub mod Interrupter
use libiqxmlrpc.Exceptions.{Thrown, std_exception}
use libiqxmlrpc.Prelude.Bytes.{Bytes, codes}
use libiqxmlrpc.Prelude.Int.{ℤ, pos, negsuc}
use libiqxmlrpc.Prelude.{
  ℕ, zero, suc, ◌+◌, ◌-◌, ◌%◌, ◌^◌, Bool, true, false, List, [], ◌∷◌, ◌++◌, Option, none, some,
  Result, ok, err, length, ◌==◌, if◌then◌else◌,
}

-- `sockaddr_in`, with the port in the order of the host.
pub record SockAddr : Type 0 where
  pub sin_family : ℕ
  pub sin_addr : ℕ
  pub sin_port : ℕ

-- The calls of the operating system on its state: what they return, -1 being an error, whose number is
-- then `errno`; `so_error` is the socket's option SO_ERROR, which reading clears.
pub record System : Type 1 where
  pub Sys : Type 0
  pub socket : Sys → ℤ × Sys
  pub set_reuseaddr : ℤ → Sys → Sys
  pub set_linger : ℤ → Sys → Sys
  pub set_ndelay : ℤ → Sys → ℤ × Sys
  pub send : ℤ → Bytes → Sys → ℤ × Sys
  pub recv : ℤ → ℕ → Sys → (ℤ × Bytes) × Sys
  pub bind : ℤ → SockAddr → Sys → ℤ × Sys
  pub listen : ℤ → ℕ → Sys → ℤ × Sys
  pub accept : ℤ → Sys → (ℤ × SockAddr) × Sys
  pub connect : ℤ → SockAddr → Sys → ℤ × Sys
  pub getsockname : ℤ → Sys → (ℤ × SockAddr) × Sys
  pub so_error : ℤ → Sys → ℕ × Sys
  pub shutdown : ℤ → ℕ → Sys → Sys
  pub close : ℤ → Sys → Sys
  pub gethostbyname : Bytes → Sys → Result Bytes ℕ × Sys
  pub inet_ntoa : ℕ → Bytes
  pub errno : Sys → ℕ
  pub strerror : ℕ → Bytes
  pub einprogress : ℕ
  pub pf_inet : ℕ
  pub inaddr_any : ℕ

-- The test `== -1`.
abbrev pub is_error : ℤ → Bool
is_error (negsuc zero) = true
is_error _ = false

-- The conversion of an `int` to a `size_t`, where the calls give -1 or what they did.
abbrev pub count : ℤ → ℕ
count (pos n) = n
count (negsuc n) = 2 ^ 64 - 1 - n

-- `htons` of an `int`, which has 16 bits of it.
unfoldable pub port_of : ℤ → ℕ
port_of (pos n) = n % 2 ^ 16
port_of (negsuc n) = 2 ^ 16 - 1 - n % 2 ^ 16

module _ (sys : System) where
  -- A function that may throw, with the state that it leaves.
  abbrev pub Run : Type 0 → Type 0
  Run A = Result Thrown A × sys.Sys

  abbrev pub then_run : {A B : Type 0} → Run A → (A → sys.Sys → Run B) → Run B
  then_run (ok a, w) k = k a w
  then_run (err e, w) k = (err e, w)

  abbrev pub or_errno : ℕ → sys.Sys → ℕ
  or_errno zero w = sys.errno w
  or_errno (suc n) w = suc n

  -- `exception_message`, and `network_error`
  unfoldable pub exception_message : Bytes → Bool → ℕ → sys.Sys → Bytes
  exception_message prefix use_errno myerrno w =
      if use_errno then prefix ++ codes ": " ++ sys.strerror (or_errno myerrno w) else prefix

  unfoldable pub network_error : Bytes → Bool → ℕ → sys.Sys → Thrown
  network_error msg use_errno myerrno w = std_exception (exception_message msg use_errno myerrno w)

  -- What a function returns where the call does not give -1.
  abbrev pub or_error : {A : Type 0} → Bytes → A → ℤ × sys.Sys → Run A
  or_error name a (ret, w) =
      if is_error ret
      then (err (network_error (codes "Socket::" ++ name) true 0 w), w)
      else (ok a, w)

  -- `Socket::Socket`, which gives the descriptor; `peer` is empty
  abbrev opened : ℤ × sys.Sys → Run ℤ
  opened (ret, w) =
      if is_error ret
      then (err (network_error (codes "Socket::Socket") true 0 w), w)
      else (ok ret, sys.set_reuseaddr ret w)

  unfoldable pub new_socket : sys.Sys → Run ℤ
  new_socket w = opened (sys.socket w)

  unfoldable pub set_non_blocking : ℤ → Bool → sys.Sys → Run (Unit {0})
  set_non_blocking fd false w = (ok tt, w)
  set_non_blocking fd true w = or_error (codes "set_non_blocking") tt (sys.set_ndelay fd w)

  abbrev pub counted : Bytes → ℤ × sys.Sys → Run ℕ
  counted name (ret, w) = or_error name (count ret) (ret, w)

  unfoldable pub send : ℤ → Bytes → sys.Sys → Run ℕ
  send fd s w = counted (codes "send") (sys.send fd s w)

  abbrev received : (ℤ × Bytes) × sys.Sys → Run (ℕ × Bytes)
  received ((ret, buf), w) = or_error (codes "recv") (count ret, buf) (ret, w)

  -- How many bytes came, and what the buffer holds.
  unfoldable pub recv : ℤ → ℕ → sys.Sys → Run (ℕ × Bytes)
  recv fd len w = received (sys.recv fd len w)

  unfoldable pub send_shutdown : ℤ → Bytes → sys.Sys → Run (Unit {0})
  send_shutdown fd s w =
      then_run (send fd s w) (λ n w'. (ok tt, sys.shutdown fd 1 (sys.set_linger fd w')))

  unfoldable pub bind : ℤ → SockAddr → sys.Sys → Run (Unit {0})
  bind fd a w = or_error (codes "bind") tt (sys.bind fd a w)

  unfoldable pub listen : ℤ → ℕ → sys.Sys → Run (Unit {0})
  listen fd blog w = or_error (codes "listen") tt (sys.listen fd blog w)

  abbrev accepted : (ℤ × SockAddr) × sys.Sys → Run (ℤ × SockAddr)
  accepted ((ret, a), w) = or_error (codes "accept") (ret, a) (ret, w)

  unfoldable pub accept : ℤ → sys.Sys → Run (ℤ × SockAddr)
  accept fd w = accepted (sys.accept fd w)

  abbrev named : (ℤ × SockAddr) × sys.Sys → Run SockAddr
  named ((ret, a), w) = or_error (codes "get_addr") a (ret, w)

  unfoldable pub get_addr : ℤ → sys.Sys → Run SockAddr
  get_addr fd w = named (sys.getsockname fd w)

  -- `connect`: false where the connection is still to be made
  abbrev would_block : ℕ → sys.Sys → Run Bool
  would_block e w =
      if e == sys.einprogress
      then (ok false, w)
      else (err (network_error (codes "Socket::connect") true 0 w), w)

  abbrev connected : ℤ × sys.Sys → Run Bool
  connected (ret, w) = if is_error ret then would_block (sys.errno w) w else (ok true, w)

  unfoldable pub connect : ℤ → SockAddr → sys.Sys → Run Bool
  connect fd a w = connected (sys.connect fd a w)
