-- ===== src/Tls/Verify.antt =====
-- The verification of peers (`Ctx` and `ConnectionVerifier` of libiqxmlrpc/ssl_lib.cc), and the
-- handshakes of `ssl::Connection`.
use libiqxmlrpc.Exceptions.{Thrown}
use libiqxmlrpc.Prelude.Int.{ℤ, pos}
use libiqxmlrpc.Prelude.{
  Bool, true, false, Option, none, some, Result, ok, err, ◌&&◌, if◌then◌else◌,
}
use libiqxmlrpc.Tls.{Openssl, Mode, Io, handshake_end}

module _ (api : Openssl) where
  -- `ConnectionVerifier`, by its `do_verify`, of a class of the program's own
  abbrev pub Verifier : Type 0
  Verifier = Bool → api.Cert → Result Thrown ℤ

  abbrev or_zero : Result Thrown ℤ → ℤ
  or_zero (ok n) = n
  or_zero (err e) = pos 0

  -- `ConnectionVerifier::verify`, and the callback `iqxmlrpc_SSL_verify`
  unfoldable pub verify : Verifier → Bool → api.Cert → ℤ
  verify v prev_ok c = or_zero (v prev_ok c)

  -- `Ctx::Impl`, without the context of OpenSSL
  pub record Ctx : Type 0 where
    pub server_verifier : Option Verifier
    pub client_verifier : Option Verifier
    pub require_client_cert : Bool

  abbrev pub new_ctx : Ctx
  new_ctx = record { server_verifier = none; client_verifier = none; require_client_cert = false }

  abbrev pub verify_server : Option Verifier → Ctx → Ctx
  verify_server v c = record c { server_verifier = v }

  abbrev pub verify_client : Bool → Option Verifier → Ctx → Ctx
  verify_client require_certificate v c = record c {
    client_verifier = v;
    require_client_cert = require_certificate;
  }

  abbrev pub verifier_of : Bool → Ctx → Option Verifier
  verifier_of server c = if server then c.client_verifier else c.server_verifier

  unfoldable pub verify_mode : Bool → Ctx → Mode
  verify_mode server c = record {
    peer = elim (verifier_of server c) [ none ↦ false | some v ↦ true ];
    fail_if_no_peer_cert = server && c.require_client_cert;
  }

  abbrev pub callback_of : Option Verifier → Option (Bool → api.Cert → ℤ)
  callback_of none = none
  callback_of (some v) = some (verify v)

  -- `Ctx::prepare_verify`
  unfoldable pub prepare_verify : Ctx → Bool → api.Ssl → api.Ssl
  prepare_verify c server s =
      api.set_verify (verify_mode server c) (callback_of (verifier_of server c)) s

  -- `ssl::Connection::ssl_accept` and `ssl_connect`
  unfoldable pub ssl_accept : Ctx → api.Ssl → Io api (Unit {0})
  ssl_accept c s = handshake_end api (api.accept (prepare_verify c true s))

  unfoldable pub ssl_connect : Ctx → api.Ssl → Io api (Unit {0})
  ssl_connect c s = handshake_end api (api.connect (prepare_verify c false s))
