-- ===== src/Tests/Net.antt =====
-- Concrete runs of sockets, on a system that counts its calls, and of the reactor's ways to wait.
use libiqxmlrpc.Net.Accepts.{
  Acceptor, default_message, DescriptorLaws, AllGranted, handle_input, handle_inputs,
  handle_inputs-AllGranted, handle_input-denied,
}
use libiqxmlrpc.Net.Addresses.{
  InetAddr, has_line_end, of_host, get_sockaddr, first, kept, get_sockaddr-get_sockaddr,
}
use libiqxmlrpc.Net.Connects.{
  connector_connect, new_processor, connect_to, Ends, connector_connect-Ends,
}
use libiqxmlrpc.Net.{System, SockAddr, new_socket, set_non_blocking, connect}
use libiqxmlrpc.Prelude.Bytes.{codes}
use libiqxmlrpc.Prelude.Int.{ℤ, pos, negsuc}
use libiqxmlrpc.Reactor.{HandlerState, no_events, state_key}
use libiqxmlrpc.Reactor.Polls.{
  Polled, Revents, failed, poll, select, ready, interrupted, Sets, revents_of, poll-select,
}
use libiqxmlrpc.Reactor.Signals.{IsOutput, poll-select_interrupted}
use libiqxmlrpc.Server.Execute.{input_event, output_event}
use libiqxmlrpc.Prelude.{
  map, All, ap, sym, ℕ, ◌==◌, Bool, true, false, List, [], ◌∷◌, none, some, ok, err, ◌≡◌, refl,
}

abbrev peer : SockAddr
peer = record { sin_family = 2; sin_addr = 9; sin_port = 80 }

-- The state is the number of sockets; the last one that was made is open until `close`, which makes it 0.
abbrev pub some_system : System
some_system = record {
  Sys = ℕ;
  socket = λ n. (pos 7, 1);
  set_reuseaddr = λ fd n. n;
  set_linger = λ fd n. n;
  set_ndelay = λ fd n. (pos 0, n);
  send = λ fd s n. (pos 1, n);
  recv = λ fd len n. ((pos 0, []), n);
  bind = λ fd a n. (pos 0, n);
  listen = λ fd b n. (pos 0, n);
  accept = λ fd n. ((pos 8, peer), 1);
  connect = λ fd a n. (negsuc 0, n);
  getsockname = λ fd n. ((pos 0, peer), n);
  so_error = λ fd n. (3, n);
  shutdown = λ fd how n. n;
  close = λ fd n. 0;
  gethostbyname = λ s n. (err (codes "no host"), n);
  inet_ntoa = λ ip. codes "peer";
  errno = λ n. 4;
  strerror = λ e. codes "error";
  einprogress = 4;
  pf_inet = 2;
  inaddr_any = 0;
}

abbrev is_open : ℤ → ℕ → Bool
is_open fd n = n == 1

open_laws : DescriptorLaws some_system is_open
open_laws = record {
  accept-open = λ l fd a w w' e f. ap (λ n. n == 1) (sym (ap (λ x. x.1) e));
  send-open = λ fd x s w h. h;
  linger-open = λ fd x w h. h;
  shutdown-open = λ fd x n w h. h;
}

abbrev some_acceptor : Bool → Acceptor
some_acceptor granted = record {
  sock = pos 3;
  firewall = some (record { grant = λ a. granted; message = default_message });
  created = [];
}

handle_inputs-AllGranted_example :
    AllGranted some_system (handle_inputs some_system 2 (some_acceptor true) 0).0
handle_inputs-AllGranted_example = handle_inputs-AllGranted some_system 2 (some_acceptor true) 0 tt

handle_input-denied_example :
    ((handle_input some_system (some_acceptor false) 0).0 ≡ some_acceptor false)
    × (is_open (pos 8) (handle_input some_system (some_acceptor false) 0).1.1 ≡ true)
handle_input-denied_example =
    handle_input-denied some_system is_open open_laws (some_acceptor false) (pos 8) peer 0 1 refl
      refl refl

abbrev some_host : InetAddr
some_host = record { sa = none; host = codes "host"; port = pos 3 }

makes_host : of_host some_system (codes "host") (pos 3) 0 ≡ ok some_host
unfolding of_host has_line_end
makes_host = refl

get_sockaddr-get_sockaddr_example :
    ((get_sockaddr some_system some_host 0).1
      ≡ first some_system (err (codes "no host"), 0) (pos 3))
    × (get_sockaddr some_system (get_sockaddr some_system some_host 0).0 5 ≡ (
      (get_sockaddr some_system some_host 0).0,
      (ok (kept some_system (err (codes "no host")) (pos 3)), 5),
    ))
get_sockaddr-get_sockaddr_example =
    get_sockaddr-get_sockaddr some_system (codes "host") (pos 3) some_host 0 5 makes_host

abbrev some_peer : InetAddr
some_peer = record some_host { sa = some peer }

abbrev some_polls : ℤ → ℕ → Polled (List Revents) × ℕ
some_polls ms n = (failed, n)

makes_processor : new_processor some_system 0 ≡ (ok (pos 7), 1)
unfolding new_processor new_socket set_non_blocking
makes_processor = refl

begins : connect_to some_system (pos 7) (get_sockaddr some_system some_peer 1).1 ≡ (ok false, 1)
unfolding get_sockaddr connect
begins = refl

shuts : (fd : ℤ) (n : ℕ) → is_open fd (some_system.close fd n) ≡ false
shuts fd n = refl

reads_error : (fd : ℤ) (n : ℕ) → is_open fd (some_system.so_error fd n).1 ≡ is_open fd n
reads_error fd n = refl

polls_open : (ms : ℤ) (n : ℕ) → is_open (pos 7) (some_polls ms n).1 ≡ is_open (pos 7) n
polls_open ms n = refl

connector_connect-Ends_example :
    Ends some_system is_open shuts reads_error
      (pos 7)
      failed
      (connector_connect some_system some_peer (pos 5) some_polls 0)
connector_connect-Ends_example =
    connector_connect-Ends some_system is_open shuts reads_error some_peer (pos 5) some_polls
      (pos 7) 0 1 1 polls_open makes_processor begins refl

abbrev some_states : List HandlerState
some_states =
    record { fd = 3; mask = input_event; revents = no_events }
    ∷ record { fd = 4; mask = output_event; revents = no_events }
    ∷ []

abbrev some_sets : Sets
some_sets = record { read_set = 3 ∷ []; write_set = []; err_set = 4 ∷ [] }

poll-select_example :
    poll some_states (ready (map (revents_of some_sets) some_states))
    ≡ select some_states (ready some_sets)
poll-select_example = poll-select some_sets some_states

poll-select_interrupted_example :
    (poll some_states interrupted ≡ ok (some []))
    × ((rs : List HandlerState) × (select some_states interrupted ≡ ok (some rs))
        × (map state_key rs ≡ 3 ∷ 4 ∷ [])
        × All IsOutput rs)
poll-select_interrupted_example = poll-select_interrupted some_states
