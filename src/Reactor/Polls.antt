-- ===== src/Reactor/Polls.antt =====
-- The two ways in which the reactor asks the system for events (libiqxmlrpc/reactor_poll_impl.cc,
-- reactor_select_impl.cc).
use libiqxmlrpc.Prelude.{
  ℕ, Bool, true, false, if◌then◌else◌, ◌||◌, List, [], ◌∷◌, map, Option, none, some, Result, ok,
  err, ◌≡◌, refl, ap,
}
use libiqxmlrpc.Reactor.Table.{member}
use libiqxmlrpc.Reactor.{Events, HandlerState, no_events, is_none}

-- How a call of the system comes back: with an error, EINTR or another, with 0, or with what is ready.
pub data Polled (A : Type 0) : Type 0 where
  failed interrupted timed_out : Polled A
  ready : A → Polled A

-- The bits of `revents` of a `pollfd`; `rest` is any other.
pub record Revents : Type 0 where
  pub pollin : Bool
  pub pollout : Bool
  pub pollerr : Bool
  pub pollhup : Bool
  pub rest : Bool

abbrev pub no_revents : Revents
no_revents = record {
  pollin = false;
  pollout = false;
  pollerr = false;
  pollhup = false;
  rest = false;
}

-- `pollfd`
pub record PollFd : Type 0 where
  pub fd : ℕ
  pub events : Events
  pub revents : Revents

abbrev pub any_of : Revents → Bool
any_of r = r.pollin || r.pollout || r.pollerr || r.pollhup || r.rest

-- `HandlerState( fd )` with the events that happened
abbrev pub happened : ℕ → Events → HandlerState
happened fd e = record { fd = fd; mask = no_events; revents = e }

-- `Reactor_poll_impl::reset`
unfoldable pub poll_reset : List HandlerState → List PollFd
poll_reset [] = []
poll_reset (s ∷ ss) = record { fd = s.fd; events = s.mask; revents = no_revents } ∷ poll_reset ss

abbrev pub poll_events : Revents → Events
poll_events r = record { input = r.pollin; output = r.pollout || r.pollerr || r.pollhup }

-- The loop of `poll` behind the call.
unfoldable pub poll_collect : List PollFd → List HandlerState
poll_collect [] = []
poll_collect (p ∷ ps) =
    let rest : List HandlerState = poll_collect ps in
    if any_of p.revents then happened p.fd (poll_events p.revents) ∷ rest else rest

-- The call writes `revents` of each, and nothing where it fails.
unfoldable pub set_revents : List Revents → List PollFd → List PollFd
set_revents (r ∷ rs) (p ∷ ps) = record p { revents = r } ∷ set_revents rs ps
set_revents _ ps = ps

-- `Reactor_poll_impl::poll`: an error of the reactor, `none` for false, or the states. Where the call
-- was interrupted, `continue` goes to the test of the loop, which ends it.
abbrev pub poll_end :
    List PollFd → Polled (List Revents) → Result (Unit {0}) (Option (List HandlerState))
poll_end ps failed = err tt
poll_end ps interrupted = ok (some (poll_collect ps))
poll_end ps timed_out = ok none
poll_end ps (ready rs) = ok (some (poll_collect (set_revents rs ps)))

unfoldable pub poll :
    List HandlerState → Polled (List Revents) → Result (Unit {0}) (Option (List HandlerState))
poll ss x = poll_end (poll_reset ss) x

-- `fd_set`
pub record Sets : Type 0 where
  pub read_set : List ℕ
  pub write_set : List ℕ
  pub err_set : List ℕ

abbrev add_if : Bool → ℕ → List ℕ → List ℕ
add_if b fd s = if b then fd ∷ s else s

-- `Reactor_select_impl::reset`
unfoldable pub select_reset : List HandlerState → Sets
select_reset [] = record { read_set = []; write_set = []; err_set = [] }
select_reset (s ∷ ss) =
    let sets : Sets = select_reset ss in
    record {
      read_set = add_if s.mask.input s.fd sets.read_set;
      write_set = add_if s.mask.output s.fd sets.write_set;
      err_set = s.fd ∷ sets.err_set;
    }

abbrev pub select_events : ℕ → Sets → Events
select_events fd x = record {
  input = member fd x.read_set;
  output = member fd x.write_set || member fd x.err_set;
}

unfoldable pub select_collect : Sets → List HandlerState → List HandlerState
select_collect x [] = []
select_collect x (s ∷ ss) =
    let rest : List HandlerState = select_collect x ss in
    if is_none (select_events s.fd x) then rest else happened s.fd (select_events s.fd x) ∷ rest

-- `Reactor_select_impl::poll`. The call writes the sets, and leaves them alone where it fails.
abbrev pub select_end :
    List HandlerState → Polled Sets → Result (Unit {0}) (Option (List HandlerState))
select_end ss failed = err tt
select_end ss interrupted = ok (some (select_collect (select_reset ss) ss))
select_end ss timed_out = ok none
select_end ss (ready x) = ok (some (select_collect x ss))

unfoldable pub select :
    List HandlerState → Polled Sets → Result (Unit {0}) (Option (List HandlerState))
select ss x = select_end ss x

-- What `poll` says of a socket that is in these sets.
abbrev pub revents_of : Sets → HandlerState → Revents
revents_of x s = record {
  pollin = member s.fd x.read_set;
  pollout = member s.fd x.write_set;
  pollerr = member s.fd x.err_set;
  pollhup = false;
  rest = false;
}

same_entry :
    (a b c : Bool) (fd : ℕ) (rest : List HandlerState)
    → (if a || b || c || false || false
        then happened fd (record { input = a; output = b || c || false }) ∷ rest
        else rest)
      ≡ (if is_none (record { input = a; output = b || c })
          then rest
          else happened fd (record { input = a; output = b || c }) ∷ rest)
same_entry true true c fd rest = refl
same_entry true false true fd rest = refl
same_entry true false false fd rest = refl
same_entry false true c fd rest = refl
same_entry false false true fd rest = refl
same_entry false false false fd rest = refl

collects-same :
    (x : Sets) (ss : List HandlerState)
    → poll_collect (set_revents (map (revents_of x) ss) (poll_reset ss)) ≡ select_collect x ss
unfolding poll_collect set_revents poll_reset select_collect
collects-same x [] = refl
collects-same x (s ∷ ss) = rw (collects-same x ss) (
    same_entry (member s.fd x.read_set) (member s.fd x.write_set) (member s.fd x.err_set) s.fd
      (select_collect x ss))

-- Where `::poll` says of each socket what the sets of `::select` say of it, an error or an exception of
-- the socket being the same, and no hangup nor anything else, the reactor gets the same states from the
-- one as from the other, in the same order.
pub poll-select :
    (x : Sets) (ss : List HandlerState)
    → poll ss (ready (map (revents_of x) ss)) ≡ select ss (ready x)
unfolding poll select
poll-select x ss = ap (λ r. ok (some r)) (collects-same x ss)
