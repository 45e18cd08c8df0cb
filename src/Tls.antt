-- ===== src/Tls.antt =====
-- Connections under TLS (libiqxmlrpc/ssl_lib.cc, ssl_lib.h, ssl_connection.cc): the errors of OpenSSL as
-- exceptions, and the calls of `ssl::Connection`. OpenSSL is a parameter.
pub mod Verify
pub mod Reaction
pub mod Fingers
pub mod Servers
pub mod Clients
use libiqxmlrpc.Exceptions.{Thrown, std_exception}
use libiqxmlrpc.Prelude.Bytes.{Bytes, codes}
use libiqxmlrpc.Prelude.Int.{ℤ, pos, negsuc}
use libiqxmlrpc.Prelude.{
  ℕ, zero, suc, ◌-◌, ◌%◌, ◌^◌, Bool, true, false, ◌++◌, Option, none, some, Result, ok, err, length,
  ltb, ◌==◌, ◌&&◌, if◌then◌else◌,
}

-- What `SSL_get_shutdown` says.
pub record Shutdown : Type 0 where
  pub sent : Bool
  pub received : Bool

-- What `SSL_get_error` gives; `other` is any code that the program does not name.
pub data ErrorCode : Type 0 where
  error_none zero_return want_read want_write syscall ssl_error : ErrorCode
  other : ℤ → ErrorCode

-- The flags `SSL_VERIFY_PEER` and `SSL_VERIFY_FAIL_IF_NO_PEER_CERT`; `SSL_VERIFY_NONE` has neither.
pub record Mode : Type 0 where
  pub peer : Bool
  pub fail_if_no_peer_cert : Bool

-- The functions of OpenSSL on an `SSL` object with the socket below it, and the texts of errors: that
-- of the error queue, that of a code, and that of `errno`. A `Cert` is an `X509_STORE_CTX`.
pub record Openssl : Type 1 where
  pub Ssl : Type 0
  pub Cert : Type 0
  pub accept : Ssl → ℤ × Ssl
  pub connect : Ssl → ℤ × Ssl
  pub close : Ssl → ℤ × Ssl
  pub write : Bytes → ℤ → Ssl → ℤ × Ssl
  pub read : ℤ → Ssl → (ℤ × Bytes) × Ssl
  pub pending : Ssl → Bool
  pub get_error : Ssl → ℤ → ErrorCode
  pub get_shutdown : Ssl → Shutdown
  pub set_shutdown : Shutdown → Ssl → Ssl
  pub set_verify : Mode → Option (Bool → Cert → ℤ) → Ssl → Ssl
  pub digest : Cert → Bytes
  pub reason : Ssl → Bytes
  pub reason_of : ℤ → Bytes
  pub system_error : Ssl → Bytes

-- What the calls throw: what `switch_state` catches, and any other exception.
pub data IoError : Type 0 where
  need_read need_write : IoError
  connection_close : Bool → IoError
  failed : Thrown → IoError

-- The conversions of `size_t` to an `int` of 32 bits, and of that to a `size_t` of 64.
abbrev signed : ℕ → ℤ
signed m = if ltb m (2 ^ 31) then pos m else negsuc (2 ^ 32 - 1 - m)

unfoldable pub to_int : ℕ → ℤ
to_int n = signed (n % 2 ^ 32)

unfoldable pub to_size : ℤ → ℕ
to_size (pos n) = n
to_size (negsuc n) = 2 ^ 64 - 1 - n

abbrev pub ssl_text : Bytes → Bytes
ssl_text s = codes "SSL: " ++ s

module _ (api : Openssl) where
  -- A call that gives a value or throws, and the object behind it.
  abbrev pub Io : Type 0 → Type 0
  Io A = Result IoError A × api.Ssl

  abbrev syscall_error : ℤ → api.Ssl → IoError
  syscall_error (pos zero) s = connection_close false
  syscall_error _ s =
      failed (std_exception (codes "iqnet::ssl::throw_io_exception: " ++ api.system_error s))

  abbrev pub io_exception : ErrorCode → ℤ → api.Ssl → Option IoError
  io_exception error_none ret s = none
  io_exception zero_return ret s = some (connection_close (api.get_shutdown s).received)
  io_exception want_read ret s = some need_read
  io_exception want_write ret s = some need_write
  io_exception syscall ret s = some (syscall_error ret s)
  io_exception ssl_error ret s = some (failed (std_exception (ssl_text (api.reason s))))
  io_exception (other code) ret s = some (failed (std_exception (ssl_text (api.reason_of code))))

  -- `throw_io_exception`; `none` where it comes back
  unfoldable pub throw_io_exception : ℤ → api.Ssl → Option IoError
  throw_io_exception ret s = io_exception (api.get_error s ret) ret s

  abbrev or_throw : {A : Type 0} → Option IoError → A → api.Ssl → Io A
  or_throw none a s = (ok a, s)
  or_throw (some e) a s = (err e, s)

  abbrev pub is_one : ℤ → Bool
  is_one (pos (suc zero)) = true
  is_one _ = false

  abbrev pub is_positive : ℤ → Bool
  is_positive (pos (suc n)) = true
  is_positive _ = false

  -- The ends of the calls, by what OpenSSL returned.
  abbrev pub handshake_end : ℤ × api.Ssl → Io (Unit {0})
  handshake_end (ret, s) =
      if is_one ret then (ok tt, s) else or_throw (throw_io_exception ret s) tt s

  -- The second call of `SSL_shutdown`, whose result is not looked at; `SSL_set_shutdown` replaces both
  -- flags.
  abbrev pub shutdown_end : ℤ × api.Ssl → Io (Unit {0})
  shutdown_end (pos zero, s) =
      (ok tt, api.set_shutdown (record { sent = false; received = true }) (api.close s).1)
  shutdown_end (pos (suc zero), s) = (ok tt, s)
  shutdown_end (ret, s) = or_throw (throw_io_exception ret s) tt s

  -- `ssl::Connection::shutdown`
  unfoldable pub shutdown : api.Ssl → Io (Unit {0})
  shutdown s =
      if (api.get_shutdown s).received && (api.get_shutdown s).sent
      then (ok tt, s)
      else shutdown_end (api.close s)

  abbrev pub send_end : ℕ → ℤ × api.Ssl → Io ℕ
  send_end len (ret, s) =
      if to_size ret == len
      then (ok (to_size ret), s)
      else or_throw (throw_io_exception ret s) (to_size ret) s

  -- `ssl::Connection::send`
  unfoldable pub send : Bytes → ℕ → api.Ssl → Io ℕ
  send buf len s = send_end len (api.write buf (to_int len) s)

  abbrev pub recv_end : (ℤ × Bytes) × api.Ssl → Io (ℕ × Bytes)
  recv_end ((ret, buf), s) =
      if is_positive ret
      then (ok (to_size ret, buf), s)
      else or_throw (throw_io_exception ret s) (to_size ret, buf) s

  -- `ssl::Connection::recv`: how many bytes came, and what the buffer holds
  unfoldable pub recv : ℕ → api.Ssl → Io (ℕ × Bytes)
  recv len s = recv_end (api.read (to_int len) s)
