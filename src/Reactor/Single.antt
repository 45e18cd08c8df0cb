-- ===== src/Reactor/Single.antt =====
-- A reactor of one handler, as clients and connectors have it (libiqxmlrpc/reactor_impl.h).
use mathlib.Core.Path.{ap₂}
use libiqxmlrpc.Prelude.{ℕ, true, [], ◌∷◌, some, ◌==◌, ◌≡◌, refl, ap, arith}
use libiqxmlrpc.Reactor.{
  Reactor, Handler, Events, no_events, register_handler, unregister_events, unregister_handler,
  find_handler, find_handler_state, forget_stopper, count_stopper, map_key, state_key,
}
use libiqxmlrpc.Reactor.Table.{lookup, erase}
use libiqxmlrpc.Server.Execute.{input_event, output_event}

-- A reactor with one handler, and with none.
abbrev pub only : Handler → Events → ℕ → Reactor
only h m k = record {
  handlers = (h.fd, h) ∷ [];
  handlers_states = record { fd = h.fd; mask = m; revents = no_events } ∷ [];
  num_stoppers = k;
}

abbrev pub nobody : ℕ → Reactor
nobody k = record { handlers = []; handlers_states = []; num_stoppers = k }

pub same : (n : ℕ) → (n == n) ≡ true
same n = ground arith

erase_only : {A : Type 0} (key : A → ℕ) (a : A) → erase key (key a) (a ∷ []) ≡ []
unfolding erase
erase_only key a = rw (same (key a)) refl

-- What `unregister_handler` leaves of a handler that was all there is.
pub emptied :
    (h : Handler) (m : Events) (k : ℕ)
    → record {
      handlers = erase map_key h.fd ((h.fd, h) ∷ []);
      handlers_states =
          erase state_key h.fd (record { fd = h.fd; mask = m; revents = no_events } ∷ []);
      num_stoppers = k;
    }
      ≡ nobody k
emptied h m k =
    ap₂ (λ xs ys. record { handlers = xs; handlers_states = ys; num_stoppers = k })
      (erase_only map_key (h.fd, h))
      (erase_only state_key (record { fd = h.fd; mask = m; revents = no_events }))

pub only-input :
    (h : Handler) (k : ℕ)
    → unregister_events (only h input_event k) h input_event ≡ nobody (forget_stopper h k)
unfolding unregister_events find_handler_state lookup
only-input h k =
    rw (unregister_events, find_handler_state, lookup, same h.fd)
      (emptied h input_event (forget_stopper h k))

pub only-output :
    (h : Handler) (k : ℕ)
    → unregister_events (only h output_event k) h output_event ≡ nobody (forget_stopper h k)
unfolding unregister_events find_handler_state lookup
only-output h k =
    rw (unregister_events, find_handler_state, lookup, same h.fd)
      (emptied h output_event (forget_stopper h k))

pub nobody-register :
    (h : Handler) (k : ℕ) (m : Events)
    → register_handler (nobody k) h m ≡ some (only h m (count_stopper h k))
unfolding register_handler find_handler lookup
nobody-register h k m = refl

only-handler : (h : Handler) (m : Events) (k : ℕ) → find_handler (only h m k) h.fd ≡ some h
unfolding find_handler lookup
only-handler h m k = rw (find_handler, lookup, same h.fd) refl

pub only-state :
    (h : Handler) (m : Events) (k : ℕ)
    → find_handler_state (only h m k) h ≡ some (record { fd = h.fd; mask = m; revents = no_events })
unfolding find_handler_state lookup
only-state h m k = rw (find_handler_state, lookup, same h.fd) refl

pub only-unregister :
    (h : Handler) (m : Events) (k : ℕ)
    → unregister_handler (only h m k) h ≡ some (nobody (forget_stopper h k))
unfolding unregister_handler
only-unregister h m k =
    rw (unregister_handler, only-handler, only-state) (ap some (emptied h m (forget_stopper h k)))
