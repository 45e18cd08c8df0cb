-- ===== src/Net/Interrupter.antt =====
-- The pair of sockets that interrupts the reactor (libiqxmlrpc/reactor_interrupter.cc).
use libiqxmlrpc.Net.Addresses.{InetAddr, get_sockaddr, of_host, of_sockaddr}
use libiqxmlrpc.Net.{
  System, SockAddr, Run, then_run, new_socket, set_non_blocking, bind, listen, accept, get_addr,
  connect, send, recv,
}
use libiqxmlrpc.Prelude.Bytes.{Bytes, codes}
use libiqxmlrpc.Prelude.Int.{ℤ, pos}
use libiqxmlrpc.Prelude.{ℕ, [], ◌∷◌, true, ok}

-- `Reactor_interrupter::Impl`, by its two descriptors
pub record Interrupter : Type 0 where
  pub server : ℤ
  pub client : ℤ

abbrev loopback : Bytes
loopback = codes "127.0.0.1"

module _ (sys : System) where
  abbrev address : ℤ → sys.Sys → Run sys InetAddr
  address port w = (of_host sys loopback port w, w)

  abbrev resolve : ℤ → sys.Sys → Run sys SockAddr
  resolve port w = then_run sys (address port w) (λ a w1. (get_sockaddr sys a w1).1)

  -- The constructor, up to the registration of the connection for input: `client_` is opened first; the
  -- listening socket is left as it is.
  unfoldable pub new_interrupter : sys.Sys → Run sys Interrupter
  new_interrupter w = then_run sys (new_socket sys w) (λ client w1.
      then_run sys (new_socket sys w1) (λ srv w2. then_run sys (resolve (pos 0) w2) (λ any w3.
        then_run sys (bind sys srv any w3) (λ u w4. then_run sys (listen sys srv 1 w4) (λ u' w5.
          then_run sys (get_addr sys srv w5) (λ addr w6.
            then_run sys (resolve (of_sockaddr sys addr).port w6) (λ to w7.
              then_run sys (connect sys client to w7) (λ over w8.
                then_run sys (accept sys srv w8) (λ conn w9.
                  then_run sys (set_non_blocking sys conn.0 true w9)
                    (λ u'' w10. (ok (record { server = conn.0; client = client }), w10)))))))))))

  -- `make_interrupt` sends one byte, and `handle_input` reads one.
  unfoldable pub make_interrupt : Interrupter → sys.Sys → Run sys ℕ
  make_interrupt i w = send sys i.client (0 ∷ []) w

  unfoldable pub handle_input : Interrupter → sys.Sys → Run sys (ℕ × Bytes)
  handle_input i w = recv sys i.server 1 w
