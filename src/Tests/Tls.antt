-- ===== src/Tests/Tls.antt =====
-- Concrete runs under TLS, with an OpenSSL that gives what it is told to.
use libiqxmlrpc.Http.Headers.{
  crlf, dump_header, dump_head, set_conn_keep_alive, set_content_length, new_header,
}
use libiqxmlrpc.Http.Packets.{dump_packet, set_keep_alive, new_packet, new_response_header}
use libiqxmlrpc.Server.Execute.{response_packet, input_event}
use libiqxmlrpc.Prelude.Maps.{find, insert}
use libiqxmlrpc.Tests.Clients.{ok_head}
use libiqxmlrpc.Tls.Clients.{Calling, Event, session_loop}
use libiqxmlrpc.Tls.Clients.Rounds.{on_state}
use libiqxmlrpc.Reactor.Single.{only}
use libiqxmlrpc.Tls.Clients.Closed.{session_loop-closed}
use libiqxmlrpc.Tls.Clients.Tunnel.{tunnel_request, connect_line, tunnel_request-one_line}
use libiqxmlrpc.Tls.Fingers.{cert_finger_sha256, cert_finger_sha256-collides}
use libiqxmlrpc.Tls.Reaction.{empty, reading}
use libiqxmlrpc.Client.{client_timeout}
use libiqxmlrpc.Http.Reader.{new_reader}
use libiqxmlrpc.Net.Addresses.{InetAddr, has_line_end, of_host}
use libiqxmlrpc.Tests.Net.{some_system}
use libiqxmlrpc.Http.Reader.{crlf2}
use libiqxmlrpc.Prelude.Bytes.{Bytes, codes, str_lt, str_eq}
use libiqxmlrpc.Prelude.Int.{ℤ, pos}
use libiqxmlrpc.Prelude.{
  ℕ, zero, suc, ◌+◌, ◌-◌, ◌==◌, true, false, [], ◌∷◌, ◌++◌, none, some, ok, length, err, ◌≢◌, ◌≡◌,
  refl, inr, arith, if◌then◌else◌,
}
use libiqxmlrpc.Reactor.{find_handler_state}
use libiqxmlrpc.Server.Answers.{answer_text}
use libiqxmlrpc.Server.{World, serial}
use libiqxmlrpc.Tests.Messages.{
  plain_texts-laws, some_head, some_body, some_header, some_header-parsed, some_header-length,
  some_head-end, some_head-no_other,
}
use libiqxmlrpc.Tests.Servers.{
  some_library, some_world, write, writes, seven_answer, answers_seven, prepared-IsReady,
  some_header-closes,
}
use libiqxmlrpc.Tls.Servers.Answers.{reading_tls, calls-answer}
use libiqxmlrpc.Tls.Servers.Sends.{input, output, calls, after_answer, Rests, Writes, done, again}
use libiqxmlrpc.Reactor.Masks.{Waits, mask_of}
use libiqxmlrpc.Reactor.Table.{lookup, keys, member}
use libiqxmlrpc.Tls.Verify.{Ctx, new_ctx}
use libiqxmlrpc.Tls.{Openssl, want_write, want_read, zero_return, ErrorCode, to_int, to_size}

abbrev whole : Bytes
whole = some_head ++ crlf2 ++ some_body

-- What `SSL_write` gives at a state: at 1 it asks for the socket.
abbrev written : Bytes → ℕ → ℤ × ℕ
written s n = if n == 1 then (pos 0, 2) else (pos (length s), 3)

-- The object is a number. Reading gives the text, and makes it 1.
abbrev some_api : Bytes → ErrorCode → Openssl
some_api text e = record {
  Ssl = ℕ;
  Cert = Bytes;
  accept = λ n. (pos 1, n);
  connect = λ n. (pos 1, n);
  close = λ n. (pos 1, n + 10);
  write = λ s len n. written s n;
  read = λ len n. ((pos (length text), text), 1);
  pending = λ n. false;
  get_error = λ n ret. e;
  get_shutdown = λ n. record { sent = false; received = true };
  set_shutdown = λ f n. n;
  set_verify = λ m f n. n;
  digest = λ c. c;
  reason = λ n. [];
  reason_of = λ z. [];
  system_error = λ n. [];
}

abbrev api : Openssl
api = some_api whole want_write

abbrev some_answer : Bytes
some_answer = answer_text some_library write writes false seven_answer

same : (n : ℕ) → (n == n) ≡ true
same n = ground arith

not_empty : (0 == length some_answer) ≡ false
unfolding dump_packet dump_header dump_head set_keep_alive set_conn_keep_alive response_packet
    new_packet set_content_length new_response_header new_header find insert str_lt str_eq
not_empty = refl

answer_written : Writes api some_answer 1 1 3
unfolding to_size
answer_written =
    again (pos 0) refl not_empty (inr refl)
      (done (pos (length some_answer)) refl (same (length some_answer)))

abbrev no_verifier : Ctx api
no_verifier = new_ctx api

input_registered : Waits input_event (some_world serial).conn.handler (some_world serial).reactor
unfolding mask_of find_handler_state lookup keys member
input_registered = (_, refl, (refl, (refl, tt), (refl, tt)), refl)

calls-answer_example :
    (w' : World ℤ) × (w'.responses ≡ some_answer ∷ [])
    × Rests some_library api no_verifier 3 some_answer w'
        (after_answer false (api.get_shutdown 3) (length some_answer))
        (calls some_library api
          (input ∷ output ∷ output ∷ [])
          (reading_tls some_library api no_verifier 0 [] 65536 (some_world serial)))
unfolding answer_written
calls-answer_example =
    calls-answer some_library api plain_texts-laws write writes some_head some_body whole []
      (length whole - 1) 65536 1 some_header false seven_answer no_verifier 0 1 3
      (some_world serial) refl prepared-IsReady some_header-parsed some_header-length some_head-end
      some_head-no_other some_header-closes answers_seven input_registered refl refl answer_written

-- The objects of a client: 0 and 1 are written to, 2 and 3 read from, in two pieces; 9 is closed.
abbrev gives : ℕ → (ℤ × Bytes) × ℕ
gives n =
    if n == 3
    then ((pos (length (ok_head ++ crlf2)), ok_head ++ crlf2), 4)
    else if n == 4
    then ((pos 0, []), 5)
    else if n == 5
    then ((pos 2, codes "hi"), 6)
    else ((pos 0, []), 9)

abbrev client_api : ErrorCode → Openssl
client_api e = record (some_api [] e) { close = λ n. (pos 1, n + 10); read = λ len n. gives n }

abbrev reading_api : Openssl
reading_api = client_api want_read

abbrev closing_api : Openssl
closing_api = client_api zero_return

abbrev some_calling : (e : ErrorCode) → Calling some_library (client_api e)
some_calling e = record {
  tls = record {
    ssl_ctx = new_ctx (client_api e);
    ssl = 0;
    state = empty;
    send_buf = [];
    buf_len = 0;
  };
  preader = new_reader;
  resp_packet = none;
  out_str = [];
  established = true;
  handler = record { fd = 5; is_stopper = false; catch_in_reactor = false };
  reactor = none;
}

session_loop-closed_example :
    (c' : Calling some_library closing_api) × (session_loop some_library closing_api
        (Event.input ∷ Event.output ∷ Event.input ∷ [])
        (on_state some_library closing_api
          (new_ctx closing_api)
          (some_calling zero_return)
          7
          reading
          []
          65536
          (some (only (some_calling zero_return).handler input_event 0)))
      ≡ some (err client_timeout, c'))
unfolding to_int
session_loop-closed_example =
    session_loop-closed some_library closing_api (new_ctx closing_api) (some_calling zero_return) 7
      9 19 (pos 0) [] [] 65536 0 Event.input [] refl refl refl refl refl refl

unary_port : has_line_end (some_library.texts.of_int (pos 3)) ≡ false
unfolding has_line_end
unary_port = refl

abbrev some_address : InetAddr
some_address = record { sa = none; host = codes "host"; port = pos 3 }

is_some_address : of_host some_system (codes "host") (pos 3) 0 ≡ ok some_address
unfolding of_host has_line_end
is_some_address = refl

tunnel_request-one_line_example :
    (rest : Bytes) × (tunnel_request some_library some_address
      ≡ connect_line some_library some_address ++ crlf ++ rest)
    × (has_line_end (connect_line some_library some_address) ≡ false)
tunnel_request-one_line_example =
    tunnel_request-one_line some_library some_system (codes "host") (pos 3) some_address 0
      is_some_address unary_port

-- Parts of two digests.
abbrev many : ℕ → ℕ → Bytes
many zero n = []
many (suc k) n = n ∷ many k n

cert_finger_sha256-collides_example :
    (many 15 7 ++ 1 ∷ 17 ∷ many 15 7 ≢ many 15 7 ++ 17 ∷ 1 ∷ many 15 7)
    × (cert_finger_sha256 api (many 15 7 ++ 1 ∷ 17 ∷ many 15 7)
        ≡ cert_finger_sha256 api (many 15 7 ++ 17 ∷ 1 ∷ many 15 7))
cert_finger_sha256-collides_example =
    cert_finger_sha256-collides api (many 15 7) (many 15 7) (many 15 7 ++ 1 ∷ 17 ∷ many 15 7)
      (many 15 7 ++ 17 ∷ 1 ∷ many 15 7) refl refl refl
