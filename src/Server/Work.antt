-- ===== src/Server/Work.antt =====
-- The loop of a server (`Server::work` of libiqxmlrpc/server.cc, with the acceptor of acceptor.cc).
use libiqxmlrpc.Exceptions.{Thrown}
use libiqxmlrpc.Net.Accepts.{Acceptor, Firewall, new_acceptor, set_firewall}
use libiqxmlrpc.Net.Addresses.{InetAddr}
use libiqxmlrpc.Net.{System, Run, count}
use libiqxmlrpc.Prelude.Int.{ℤ}
use libiqxmlrpc.Prelude.{ℕ, zero, suc, Bool, true, false, Option, none, some, Result, ok, err}
use libiqxmlrpc.Reactor.{
  Reactor, Handler, ReactorError, bad_iterator, Calls, handle_events, register_handler,
  unregister_handler,
}
use libiqxmlrpc.Server.Execute.{input_event}

-- The part of `Server::Impl` that the loop uses, with the system, and all else, of which handlers may
-- change anything.
pub record Working (sys : System) (W : Type 0) : Type 0 where
  pub bind_addr : InetAddr
  pub acceptor : Option Acceptor
  pub firewall : Option Firewall
  pub exit_flag : Bool
  pub system : sys.Sys
  pub others : W

-- What leaves `work`: an exception of a socket, or what goes wrong in the reactor.
pub data WorkError : Type 0 where
  socket_error : Thrown → WorkError
  reactor_error : ReactorError → WorkError

module _ (sys : System) {W : Type 0} (c : Calls (Working sys W)) where
  abbrev pub State : Type 0
  State = Working sys W × Reactor

  -- The acceptor as a handler.
  abbrev pub acceptor_handler : ℤ → Handler
  acceptor_handler fd = record { fd = count fd; is_stopper = false; catch_in_reactor = false }

  abbrev or_iterator : Working sys W → Option Reactor → Result WorkError State
  or_iterator s none = err (reactor_error bad_iterator)
  or_iterator s (some r) = ok (s, r)

  abbrev with_new : Run sys Acceptor → State → Result WorkError State
  with_new (err e, w) (s, r) = err (socket_error e)
  with_new (ok a, w) (s, r) =
      or_iterator (record s { acceptor = some (set_firewall sys s.firewall a); system = w })
        (register_handler r (acceptor_handler a.sock) input_event)

  abbrev unless_open : Option Acceptor → State → Result WorkError State
  unless_open (some a) s = ok s
  unless_open none s = with_new (new_acceptor sys s.0.bind_addr s.0.system) s

  -- The start of `work`.
  unfoldable pub open_acceptor : State → Result WorkError State
  open_acceptor s = unless_open s.0.acceptor s

  -- A round of the loop, and the rounds behind it; `none` where the rounds are not enough.
  abbrev pub after_round :
      Result ReactorError (State × Bool)
      → (State → Option (Result WorkError State))
      → Option (Result WorkError State)
  after_round (err e) k = some (err (reactor_error e))
  after_round (ok (s, true)) k = k s
  after_round (ok (s, false)) k = some (ok s)

  abbrev pub unless_exit :
      Bool → State → (State → Option (Result WorkError State)) → Option (Result WorkError State)
  unless_exit true s k = some (ok s)
  unless_exit false s k = after_round (handle_events c s) k

  unfoldable pub work_loop : ℕ → State → Option (Result WorkError State)
  work_loop zero s = none
  work_loop (suc n) s = unless_exit s.0.exit_flag s (λ s'. work_loop n s')

  -- The destructor of the acceptor, and the end of `work`.
  abbrev without_acceptor : Option Acceptor → State → Result WorkError State
  without_acceptor none s = ok s
  without_acceptor (some a) (s, r) =
      or_iterator (record s { acceptor = none; system = sys.close a.sock s.system })
        (unregister_handler r (acceptor_handler a.sock))

  abbrev reset_flag : Result WorkError State → Result WorkError State
  reset_flag (err e) = err e
  reset_flag (ok (s, r)) = ok (record s { exit_flag = false }, r)

  unfoldable pub leave_work : State → Result WorkError State
  leave_work s = reset_flag (without_acceptor s.0.acceptor s)

  abbrev ended : Option (Result WorkError State) → Option (Result WorkError State)
  ended none = none
  ended (some (err e)) = some (err e)
  ended (some (ok s)) = some (leave_work s)

  abbrev started : ℕ → Result WorkError State → Option (Result WorkError State)
  started n (err e) = some (err e)
  started n (ok s) = ended (work_loop n s)

  -- `Server::work`, with as many rounds as there are
  unfoldable pub work : ℕ → State → Option (Result WorkError State)
  work n s = started n (open_acceptor s)
