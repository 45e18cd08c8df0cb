-- ===== src/Net/Addresses.antt =====
-- Internet addresses (`Inet_addr` of libiqxmlrpc/inet_addr.cc).
use libiqxmlrpc.Exceptions.{Thrown}
use libiqxmlrpc.Net.{System, SockAddr, Run, port_of, network_error}
use libiqxmlrpc.Prelude.Bytes.{Bytes, codes}
use libiqxmlrpc.Prelude.Int.{ℤ, pos}
use libiqxmlrpc.Prelude.{
  ℕ, Bool, true, false, [], ◌∷◌, ◌++◌, Option, none, some, Result, ok, err, ◌==◌, if◌then◌else◌,
  ◌≡◌, refl, Bool-cases, inl, inr,
}
use mathlib.Core.Path.{subst}

-- `Inet_addr::Impl`: the name, the port, and the address of the system once it is known
pub record InetAddr : Type 0 where
  pub sa : Option SockAddr
  pub host : Bytes
  pub port : ℤ

-- `find_first_of("\n\r") != npos`
unfoldable pub has_line_end : Bytes → Bool
has_line_end [] = false
has_line_end (c ∷ s) =
    let rest : Bool = has_line_end s in if c == 10 then true else if c == 13 then true else rest

-- `SystemSockAddrIn()`
abbrev pub no_address : SockAddr
no_address = record { sin_family = 0; sin_addr = 0; sin_port = 0 }

pub ok-inj : {A B : Type 0} {a b : B} → ◌≡◌ {A = Result A B} (ok a) (ok b) → a ≡ b
ok-inj h = cc

module _ (sys : System) where
  -- The three constructors.
  unfoldable pub of_host : Bytes → ℤ → sys.Sys → Result Thrown InetAddr
  of_host h p w =
      if has_line_end h
      then err (network_error sys (codes "Hostname must not contain CR LF characters") false 0 w)
      else ok (record { sa = none; host = h; port = p })

  unfoldable pub of_port : ℤ → InetAddr
  of_port p = record {
    sa =
        some (record { sin_family = sys.pf_inet; sin_addr = sys.inaddr_any; sin_port = port_of p });
    host = codes "0.0.0.0";
    port = p;
  }

  unfoldable pub of_sockaddr : SockAddr → InetAddr
  of_sockaddr a = record { sa = some a; host = sys.inet_ntoa a.sin_addr; port = pos a.sin_port }

  abbrev pub found : ℕ → ℤ → SockAddr
  found ip p = record { sin_family = sys.pf_inet; sin_addr = ip; sin_port = port_of p }

  -- `init_sockaddr`, with the object that it leaves, and the address where there is one: the object has
  -- one before the name is looked up.
  abbrev resolved : Result Bytes ℕ × sys.Sys → InetAddr → InetAddr × Run sys SockAddr
  resolved (ok ip, w) a = (record a { sa = some (found ip a.port) }, (ok (found ip a.port), w))
  resolved (err problem, w) a = (
    record a { sa = some no_address },
    (err (network_error sys (codes "gethostbyname: " ++ problem) false 0 w), w),
  )

  unfoldable pub init_sockaddr : InetAddr → sys.Sys → InetAddr × Run sys SockAddr
  init_sockaddr a w = resolved (sys.gethostbyname a.host w) a

  abbrev unless_stored : Option SockAddr → InetAddr → sys.Sys → InetAddr × Run sys SockAddr
  unless_stored (some s) a w = (a, (ok s, w))
  unless_stored none a w = init_sockaddr a w

  -- `get_sockaddr`
  unfoldable pub get_sockaddr : InetAddr → sys.Sys → InetAddr × Run sys SockAddr
  get_sockaddr a w = unless_stored a.sa a w

  -- What the object keeps of a lookup, and what the call that makes it is to give.
  abbrev pub kept : Result Bytes ℕ → ℤ → SockAddr
  kept (ok ip) p = found ip p
  kept (err problem) p = no_address

  abbrev pub first : Result Bytes ℕ × sys.Sys → ℤ → Run sys SockAddr
  first (ok ip, w) p = (ok (found ip p), w)
  first (err problem, w) p =
      (err (network_error sys (codes "gethostbyname: " ++ problem) false 0 w), w)

  stores :
      (x : Result Bytes ℕ × sys.Sys) (a : InetAddr) (w' : sys.Sys)
      → let r = resolved x a in
        (r.1 ≡ first x a.port) × (get_sockaddr r.0 w' ≡ (r.0, (ok (kept x.0 a.port), w')))
  unfolding get_sockaddr
  stores (ok ip, w) a w' = (refl, refl)
  stores (err problem, w) a w' = (refl, refl)

  -- The name of an address is looked up by the first call of `get_sockaddr` alone. Where it is found,
  -- that call gives what was found, with the port, and so does every later one. Where it is not, that
  -- call throws; but the later ones succeed, and give an address that is all zero.
  pub get_sockaddr-get_sockaddr :
      (h : Bytes) (p : ℤ) (a : InetAddr) (w w' : sys.Sys)
      → of_host h p w ≡ ok a
      → ((get_sockaddr a w).1 ≡ first (sys.gethostbyname h w) p)
        × (get_sockaddr (get_sockaddr a w).0 w'
            ≡ ((get_sockaddr a w).0, (ok (kept (sys.gethostbyname h w).0 p), w')))
  unfolding of_host get_sockaddr init_sockaddr
  get_sockaddr-get_sockaddr h p a w w' e = elim (Bool-cases (has_line_end h)) [
    | inl b ↦ let e' = rw b at e in cc
    | inr b ↦
        let e' : record { sa = none; host = h; port = p } ≡ a = ok-inj (rw b at e) in
        subst
          (λ z.
            ((get_sockaddr z w).1 ≡ first (sys.gethostbyname h w) p)
            × (get_sockaddr (get_sockaddr z w).0 w'
                ≡ ((get_sockaddr z w).0, (ok (kept (sys.gethostbyname h w).0 p), w'))))
          e' (stores (sys.gethostbyname h w) (record { sa = none; host = h; port = p }) w')
  ]
