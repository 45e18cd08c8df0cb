-- ===== src/Tests/Reactors.antt =====
-- Concrete runs of the reactor of libiqxmlrpc/reactor_impl.h, with a socket that waits for both
-- events, the second of them faked, and a stopper.
use libiqxmlrpc.Prelude.{true, false, [], ◌∷◌, none, some, ◌≡◌, refl}
use libiqxmlrpc.Reactor.Consistent.{IsConsistent}
use libiqxmlrpc.Reactor.Removal.{unregister_events-IsConsistent}
use libiqxmlrpc.Reactor.Rounds.{KeepsConsistent, IsSafeRound, handle_events-IsSafeRound}
use libiqxmlrpc.Reactor.Table.{keys, member}
use libiqxmlrpc.Reactor.{
  Handler, Events, Reactor, Calls, returned, find_handler, unregister_events, handle_events,
}

abbrev connection : Handler
connection = record { fd = 5; is_stopper = false; catch_in_reactor = true }

abbrev interrupter : Handler
interrupter = record { fd = 7; is_stopper = true; catch_in_reactor = false }

abbrev newcomer : Handler
newcomer = record { fd = 9; is_stopper = false; catch_in_reactor = true }

abbrev in_events : Events
in_events = record { input = true; output = false }

abbrev out_events : Events
out_events = record { input = false; output = true }

abbrev all_events : Events
all_events = record { input = true; output = true }

abbrev reactor : Reactor
reactor = record {
  handlers = (5, connection) ∷ (7, interrupter) ∷ [];
  handlers_states =
      record { fd = 5; mask = all_events; revents = out_events }
      ∷ record { fd = 7; mask = in_events; revents = record { input = false; output = false } }
      ∷ [];
  num_stoppers = 1;
}

reactor-IsConsistent : IsConsistent reactor
unfolding keys member
reactor-IsConsistent = (refl, (refl, (refl, tt)), (refl, (refl, tt)))

unregister_events-IsConsistent_example :
    IsConsistent (unregister_events reactor connection out_events)
    × (find_handler (unregister_events reactor connection out_events) 5 ≡ none)
unregister_events-IsConsistent_example =
    unregister_events-IsConsistent reactor connection out_events reactor-IsConsistent refl

-- Handlers that terminate on their first call, and a system that reports every state.
abbrev one_shot : Calls Unit
one_shot = record {
  handle_input = λ h w. returned w true;
  handle_output = λ h w. returned w true;
  log_exception = λ h w. w;
  finish = λ h w. w;
  poll = λ ss w. (w, some ss);
}

one_shot-KeepsConsistent : KeepsConsistent one_shot
one_shot-KeepsConsistent = record {
  input_law = λ h w i. i;
  output_law = λ h w i. i;
  log_law = λ h w i. i;
  finish_law = λ h w i. i;
  poll_law = λ ss w i. i;
}

handle_events-IsSafeRound_example : IsSafeRound (handle_events one_shot (tt, reactor))
handle_events-IsSafeRound_example =
    handle_events-IsSafeRound one_shot one_shot-KeepsConsistent (tt, reactor) reactor-IsConsistent
