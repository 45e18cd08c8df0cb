-- ===== src/Reactor.antt =====
-- The event reactor (libiqxmlrpc/reactor.h, reactor_impl.h): the tables of handlers, the events that
-- the program fakes, and the calls of the handlers.
pub mod Table
pub mod Consistent
pub mod Removal
pub mod Rounds
pub mod Single
pub mod Masks
pub mod Polls
pub mod Signals
use libiqxmlrpc.Prelude.{
  ℕ, zero, ◌+◌, ◌-◌, ◌^◌, ◌%◌, Bool, true, false, if◌then◌else◌, ◌==◌, List, [], ◌∷◌, ◌++◌, Option,
  none, some, Result, ok, err, ◌>>=◌, length,
}
use libiqxmlrpc.Reactor.Table.{lookup, erase, update}

-- `Event_handler`: what the reactor asks of it, its behaviour being a parameter.
pub record Handler : Type 0 where
  pub fd : ℕ
  pub is_stopper : Bool
  pub catch_in_reactor : Bool

-- `Event_mask`, and the sets of them in a `short`: bit 1 is INPUT, bit 2 is OUTPUT.
pub record Events : Type 0 where
  pub input : Bool
  pub output : Bool

abbrev pub no_events : Events
no_events = record { input = false; output = false }

abbrev pub is_none : Events → Bool
is_none m = if m.input then false else if m.output then false else true

-- The operators `|`, `&` and `!`; the last is the logical one, which gives 1 or 0.
abbrev pub join : Events → Events → Events
join m n = record {
  input = if m.input then true else n.input;
  output = if m.output then true else n.output;
}

abbrev pub meet : Events → Events → Events
meet m n = record {
  input = if m.input then n.input else false;
  output = if m.output then n.output else false;
}

abbrev pub logical_not : Events → Events
logical_not m = record { input = is_none m; output = false }

-- `HandlerState`
pub record HandlerState : Type 0 where
  pub fd : ℕ
  pub mask : Events
  pub revents : Events

-- `Reactor`, without its lock; `handlers` is the map from sockets to handlers.
pub record Reactor : Type 0 where
  pub handlers : List (ℕ × Handler)
  pub handlers_states : List HandlerState
  pub num_stoppers : ℕ

abbrev pub map_key : ℕ × Handler → ℕ
map_key e = e.0

abbrev pub state_key : HandlerState → ℕ
state_key s = s.fd

unfoldable pub find_handler : Reactor → ℕ → Option Handler
find_handler r fd = elim (lookup map_key fd r.handlers) [ none ↦ none | some e ↦ some e.1 ]

unfoldable pub find_handler_state : Reactor → Handler → Option HandlerState
find_handler_state r h = lookup state_key h.fd r.handlers_states

-- `num_stoppers` is an `unsigned` of 32 bits.
unfoldable pub count_stopper : Handler → ℕ → ℕ
count_stopper h n = if h.is_stopper then (n + 1) % 2 ^ 32 else n

unfoldable pub forget_stopper : Handler → ℕ → ℕ
forget_stopper h n = if h.is_stopper then (n + (2 ^ 32 - 1)) % 2 ^ 32 else n

abbrev pub add_mask : Events → HandlerState → HandlerState
add_mask m s = record s { mask = join s.mask m }

abbrev pub add_revents : Events → HandlerState → HandlerState
add_revents m s = record s { revents = join s.revents m }

-- `register_handler`. It gives `none` where the C++ code uses the end of the list as an element.
unfoldable pub register_handler : Reactor → Handler → Events → Option Reactor
register_handler r h mask =
    let n : ℕ = count_stopper h r.num_stoppers in
    elim (find_handler r h.fd) [
      | none ↦ some (record {
        handlers = r.handlers ++ (h.fd, h) ∷ [];
        handlers_states =
            r.handlers_states ++ record { fd = h.fd; mask = mask; revents = no_events } ∷ [];
        num_stoppers = n;
      })
      | some _ ↦ elim (find_handler_state r h) [
        | none ↦ none
        | some _ ↦ some (record {
          handlers = r.handlers;
          handlers_states = update state_key h.fd (add_mask mask) r.handlers_states;
          num_stoppers = n;
        })
      ]
    ]

-- `unregister_handler(eh, mask)`
unfoldable pub unregister_events : Reactor → Handler → Events → Reactor
unregister_events r h mask = elim (find_handler_state r h) [
  | none ↦ r
  | some s ↦
      let newmask : Events = meet s.mask (logical_not mask) in
      if is_none newmask
      then record {
        handlers = erase map_key h.fd r.handlers;
        handlers_states = erase state_key h.fd r.handlers_states;
        num_stoppers = forget_stopper h r.num_stoppers;
      }
      else record r {
        handlers_states =
            update state_key h.fd (λ s'. record s' { mask = newmask }) r.handlers_states;
      }
]

-- `unregister_handler(eh)`, with `none` as above.
unfoldable pub unregister_handler : Reactor → Handler → Option Reactor
unregister_handler r h = elim (find_handler r h.fd) [
  | none ↦ some r
  | some _ ↦ elim (find_handler_state r h) [
    | none ↦ none
    | some _ ↦ some (record {
      handlers = erase map_key h.fd r.handlers;
      handlers_states = erase state_key h.fd r.handlers_states;
      num_stoppers = forget_stopper h r.num_stoppers;
    })
  ]
]

unfoldable pub fake_event : Reactor → Handler → Events → Reactor
fake_event r h mask = record r {
  handlers_states = update state_key h.fd (add_revents mask) r.handlers_states;
}

-- The loop of `handle_user_events` under the lock: the states to call, and the states left.
unfoldable pub collect_faked : List HandlerState → List HandlerState × List HandlerState
collect_faked [] = ([], [])
collect_faked (s ∷ ss) =
    let rest : List HandlerState × List HandlerState = collect_faked ss in
    if is_none s.revents
    then (rest.0, s ∷ rest.1)
    else if is_none (join s.mask s.revents)
    then (rest.0, s ∷ rest.1)
    else (s ∷ rest.0, record s { revents = meet s.revents (logical_not s.mask) } ∷ rest.1)

-- `handlers.size() - num_stoppers <= 0` is a test on unsigned numbers of 64 bits.
unfoldable pub only_stoppers : Reactor → Bool
only_stoppers r = (length r.handlers + 2 ^ 64 - r.num_stoppers) % 2 ^ 64 == 0

-- What goes wrong: an exception that no handler catches, the failed assertion on a socket that has
-- no handler, the use of the end of a list, and `No_handlers`.
pub data ReactorError : Type 0 where
  uncaught no_handler bad_iterator no_handlers : ReactorError

-- How a handler's function comes back.
pub data Outcome (W : Type 0) : Type 0 where
  returned : W → Bool → Outcome W
  thrown : W → Outcome W

-- The handlers and the system, over the state `W` of all that they touch besides the reactor; a
-- handler may register and unregister handlers.
pub record Calls (W : Type 0) : Type 0 where
  pub handle_input : Handler → W × Reactor → Outcome (W × Reactor)
  pub handle_output : Handler → W × Reactor → Outcome (W × Reactor)
  pub log_exception : Handler → W × Reactor → W × Reactor
  pub finish : Handler → W × Reactor → W × Reactor
  pub poll : List HandlerState → W × Reactor → (W × Reactor) × Option (List HandlerState)

module _ {W : Type 0} (c : Calls W) where
  unfoldable pub invoke_clients_handler :
      Handler → HandlerState → W × Reactor → Outcome (W × Reactor)
  invoke_clients_handler h hs w =
      if hs.revents.input
      then c.handle_input h w
      else if hs.revents.output
      then c.handle_output h w
      else returned w false

  -- Both `catch` clauses log, and then terminate the handler.
  abbrev pub catch_all : Handler → Outcome (W × Reactor) → Outcome (W × Reactor)
  catch_all h (returned w t) = returned w t
  catch_all h (thrown w) = returned (c.log_exception h w) true

  unfoldable pub invoke_servers_handler :
      Handler → HandlerState → W × Reactor → Outcome (W × Reactor)
  invoke_servers_handler h hs w = catch_all h (invoke_clients_handler h hs w)

  unfoldable pub end_invoke : Handler → Outcome (W × Reactor) → Result ReactorError (W × Reactor)
  end_invoke h (thrown _) = err uncaught
  end_invoke h (returned w false) = ok w
  end_invoke h (returned w true) = elim (unregister_handler w.1 h) [
    | none ↦ err bad_iterator
    | some r ↦ ok (c.finish h (w.0, r))
  ]

  unfoldable pub invoke_event_handler :
      HandlerState → W × Reactor → Result ReactorError (W × Reactor)
  invoke_event_handler hs w = elim (find_handler w.1 hs.fd) [
    | none ↦ err no_handler
    | some h ↦ end_invoke h (
        if h.catch_in_reactor then invoke_servers_handler h hs w else invoke_clients_handler h hs w)
  ]

  -- The loops that take the states one by one from a list of the caller's own.
  unfoldable pub invoke_all : List HandlerState → W × Reactor → Result ReactorError (W × Reactor)
  invoke_all [] w = ok w
  invoke_all (hs ∷ rest) w = do w' ← invoke_event_handler hs w; invoke_all rest w'

  unfoldable pub handle_user_events : W × Reactor → Result ReactorError (W × Reactor)
  handle_user_events w =
      let (called, left) = collect_faked w.1.handlers_states in
      invoke_all called (w.0, record w.1 { handlers_states = left })

  -- The end of `handle_system_events`, behind `poll`.
  abbrev pub after_poll :
      W × Reactor → Option (List HandlerState) → Result ReactorError ((W × Reactor) × Bool)
  after_poll w none = ok (w, false)
  after_poll w (some ret) = do w' ← invoke_all ret w; ok (w', true)

  -- The states are copied before the call of `poll`.
  abbrev pub poll_states :
      List HandlerState → W × Reactor → Result ReactorError ((W × Reactor) × Bool)
  poll_states [] w = ok (w, true)
  poll_states (s ∷ ss) w = let (w', polled) = c.poll (s ∷ ss) w in after_poll w' polled

  unfoldable pub handle_system_events : W × Reactor → Result ReactorError ((W × Reactor) × Bool)
  handle_system_events w = poll_states w.1.handlers_states w

  unfoldable pub handle_events : W × Reactor → Result ReactorError ((W × Reactor) × Bool)
  handle_events w =
      if length w.1.handlers == 0
      then ok (w, false)
      else if only_stoppers w.1
      then err no_handlers
      else (do w' ← handle_user_events w; handle_system_events w')
