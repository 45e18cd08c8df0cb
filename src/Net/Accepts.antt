-- ===== src/Net/Accepts.antt =====
-- The acceptor of connections and the firewall (libiqxmlrpc/acceptor.cc, firewall.h).
use libiqxmlrpc.Net.Addresses.{InetAddr, of_sockaddr, get_sockaddr}
use libiqxmlrpc.Net.{
  System, SockAddr, Run, then_run, accept, bind, listen, new_socket, send, counted, or_error,
  send_shutdown, is_error,
}
use libiqxmlrpc.Prelude.Bytes.{Bytes, codes}
use libiqxmlrpc.Prelude.Int.{ℤ}
use libiqxmlrpc.Prelude.{
  ℕ, zero, suc, Bool, true, false, List, [], ◌∷◌, ◌++◌, Option, none, some, ok, err, ◌≡◌, refl, All,
  Bool-cases, inl, inr,
}

-- `Firewall_base`, of a class of the program's own: both functions of its state
pub record Firewall : Type 0 where
  pub grant : InetAddr → Bool
  pub message : Bytes

-- `Firewall_base::message`
abbrev pub default_message : Bytes
default_message = codes "HTTP/1.0 403 Forbidden" ++ 13 ∷ 10 ∷ []

-- `Acceptor`: its socket, its firewall, and the history of what it gave to the factory
pub record Acceptor : Type 0 where
  pub sock : ℤ
  pub firewall : Option Firewall
  pub created : List (ℤ × InetAddr)

module _ (sys : System) where
  abbrev pub set_firewall : Option Firewall → Acceptor → Acceptor
  set_firewall fw a = record a { firewall = fw }

  abbrev bind_to : ℤ → Run sys SockAddr → Run sys (Unit {0})
  bind_to fd r = then_run sys r (λ s w. bind sys fd s w)

  -- The constructor, without the call of the reactor
  unfoldable pub new_acceptor : InetAddr → sys.Sys → Run sys Acceptor
  new_acceptor addr w = then_run sys (new_socket sys w) (λ fd w1.
      then_run sys (bind_to fd (get_sockaddr sys addr w1).1) (λ u w2.
        then_run sys (listen sys fd 100 w2)
          (λ u' w3. (ok (record { sock = fd; firewall = none; created = [] }), w3))))

  -- What becomes of a peer that the firewall does not let in.
  abbrev pub dismiss : Bytes → ℤ → sys.Sys → Run sys (Unit {0})
  dismiss [] fd w = (ok tt, sys.shutdown fd 2 w)
  dismiss (c ∷ s) fd w = send_shutdown sys fd (c ∷ s) w

  abbrev pub create_accepted : ℤ → InetAddr → Acceptor → Acceptor
  create_accepted fd peer a = record a { created = a.created ++ (fd, peer) ∷ [] }

  abbrev pub is_granted : Option Firewall → InetAddr → Bool
  is_granted none peer = true
  is_granted (some fw) peer = fw.grant peer

  abbrev pub message_of : Option Firewall → Bytes
  message_of none = []
  message_of (some fw) = fw.message

  abbrev pub with_acceptor : Acceptor → Run sys (Unit {0}) → Acceptor × Run sys (Unit {0})
  with_acceptor a r = (a, r)

  -- `Acceptor::accept` behind the call that got a socket
  abbrev pub admit : Bool → ℤ → InetAddr → Acceptor → sys.Sys → Acceptor × Run sys (Unit {0})
  admit true fd peer a w = (create_accepted fd peer a, (ok tt, w))
  admit false fd peer a w = (a, dismiss (message_of a.firewall) fd w)

  abbrev pub got_socket : Run sys (ℤ × SockAddr) → Acceptor → Acceptor × Run sys (Unit {0})
  got_socket (ok (fd, addr), w) a =
      admit (is_granted a.firewall (of_sockaddr sys addr)) fd (of_sockaddr sys addr) a w
  got_socket (err e, w) a = (a, (err e, w))

  -- `handle_input`
  unfoldable pub handle_input : Acceptor → sys.Sys → Acceptor × Run sys (Unit {0})
  handle_input a w = got_socket (accept sys a.sock w) a

  -- The calls of the reactor: a call that throws has been logged, or has ended the program, and so ends
  -- the run here.
  abbrev pub go_on :
      Acceptor × Run sys (Unit {0})
      → (Acceptor → sys.Sys → Acceptor × Run sys (Unit {0}))
      → Acceptor × Run sys (Unit {0})
  go_on (a, (ok u, w)) k = k a w
  go_on (a, (err e, w)) k = (a, (err e, w))

  -- Whether a socket is open, by what the system says: none of these calls closes it.
  pub record DescriptorLaws (is_open : ℤ → sys.Sys → Bool) : Type 0 where
    pub accept-open :
        (l fd : ℤ) (a : SockAddr) (w w' : sys.Sys)
        → sys.accept l w ≡ ((fd, a), w')
        → is_error fd ≡ false
        → is_open fd w' ≡ true
    pub send-open :
        (fd x : ℤ) (s : Bytes) (w : sys.Sys)
        → is_open fd w ≡ true
        → is_open fd (sys.send x s w).1 ≡ true
    pub linger-open :
        (fd x : ℤ) (w : sys.Sys) → is_open fd w ≡ true → is_open fd (sys.set_linger x w) ≡ true
    pub shutdown-open :
        (fd x : ℤ) (n : ℕ) (w : sys.Sys)
        → is_open fd w ≡ true
        → is_open fd (sys.shutdown x n w) ≡ true

  unfoldable pub handle_inputs : ℕ → Acceptor → sys.Sys → Acceptor × Run sys (Unit {0})
  handle_inputs zero a w = (a, (ok tt, w))
  handle_inputs (suc n) a w = go_on (handle_input a w) (λ a' w'. handle_inputs n a' w')

  -- Every peer that the factory got is one that the firewall grants.
  abbrev pub AllGranted : Acceptor → Type 0
  AllGranted a = All (λ e. is_granted a.firewall e.1 ≡ true) a.created

  All-snoc :
      (fw : Option Firewall) (es : List (ℤ × InetAddr)) (fd : ℤ) (p : InetAddr)
      → All (λ e. is_granted fw e.1 ≡ true) es
      → is_granted fw p ≡ true
      → All (λ e. is_granted fw e.1 ≡ true) (es ++ (fd, p) ∷ [])
  All-snoc fw [] fd p h q = (q, tt)
  All-snoc fw (e ∷ es) fd p h q = (h.0, All-snoc fw es fd p h.1 q)

  admit-AllGranted :
      (b : Bool) (fd : ℤ) (p : InetAddr) (a : Acceptor) (w : sys.Sys)
      → is_granted a.firewall p ≡ b
      → AllGranted a
      → AllGranted (admit b fd p a w).0
  admit-AllGranted true fd p a w e h = All-snoc a.firewall a.created fd p h e
  admit-AllGranted false fd p a w e h = h

  got_socket-AllGranted :
      (x : Run sys (ℤ × SockAddr)) (a : Acceptor) → AllGranted a → AllGranted (got_socket x a).0
  got_socket-AllGranted (ok (fd, addr), w) a h =
      admit-AllGranted (is_granted a.firewall (of_sockaddr sys addr)) fd (of_sockaddr sys addr) a w
        refl h
  got_socket-AllGranted (err e, w) a h = h

  go_on-AllGranted :
      (x : Acceptor × Run sys (Unit {0})) (k : Acceptor → sys.Sys → Acceptor × Run sys (Unit {0}))
      → AllGranted x.0
      → ((a : Acceptor) (w : sys.Sys) → AllGranted a → AllGranted (k a w).0)
      → AllGranted (go_on x k).0
  go_on-AllGranted (a, (ok u, w)) k h f = f a w h
  go_on-AllGranted (a, (err e, w)) k h f = h

  -- However often the reactor calls the acceptor, and whatever the system gives it, a connection is made
  -- for a peer only where the firewall, if there is one, grants it: this holds behind the calls where it
  -- holds before them.
  pub handle_inputs-AllGranted :
      (n : ℕ) (a : Acceptor) (w : sys.Sys) → AllGranted a → AllGranted (handle_inputs n a w).0
  unfolding handle_inputs handle_input
  handle_inputs-AllGranted zero a w h = h
  handle_inputs-AllGranted (suc n) a w h =
      go_on-AllGranted (handle_input a w) (λ a' w'. handle_inputs n a' w')
        (got_socket-AllGranted (accept sys a.sock w) a h)
        (λ a' w' h'. handle_inputs-AllGranted n a' w' h')

  module _ (is_open : ℤ → sys.Sys → Bool) (laws : DescriptorLaws is_open) where
    shuts-open :
        (fd : ℤ) (x : ℤ × sys.Sys)
        → is_open fd x.1 ≡ true
        → is_open fd
            (then_run sys
              (counted sys (codes "send") x)
              (λ n w'. (ok tt, sys.shutdown fd 1 (sys.set_linger fd w')))).1
          ≡ true
    shuts-open fd (ret, w) h = elim (Bool-cases (is_error ret)) [
      | inl e ↦ rw (then_run, counted, or_error, e) h
      | inr e ↦
          rw (then_run, counted, or_error, e)
            (laws.shutdown-open fd fd 1 (sys.set_linger fd w) (laws.linger-open fd fd w h))
    ]

    dismiss-open :
        (s : Bytes) (fd : ℤ) (w : sys.Sys)
        → is_open fd w ≡ true
        → is_open fd (dismiss s fd w).1 ≡ true
    unfolding send_shutdown send
    dismiss-open [] fd w h = laws.shutdown-open fd fd 2 w h
    dismiss-open (c ∷ s) fd w h =
        shuts-open fd (sys.send fd (c ∷ s) w) (laws.send-open fd fd (c ∷ s) w h)

    -- A peer that the firewall does not grant gets no connection: nothing is given to the factory. Its
    -- socket is shut down, behind the firewall's message where there is one, but never closed: where
    -- sending and shutting down leave descriptors open, its descriptor is open behind the call.
    pub handle_input-denied :
        (a : Acceptor) (fd : ℤ) (addr : SockAddr) (w w' : sys.Sys)
        → sys.accept a.sock w ≡ ((fd, addr), w')
        → is_error fd ≡ false
        → is_granted a.firewall (of_sockaddr sys addr) ≡ false
        → ((handle_input a w).0 ≡ a) × (is_open fd (handle_input a w).1.1 ≡ true)
    unfolding handle_input accept
    handle_input-denied a fd addr w w' e no_error denied =
        rw (e, no_error, denied)
          (
            refl,
            dismiss-open (message_of a.firewall) fd w'
                (laws.accept-open a.sock fd addr w w' e no_error),
          )
