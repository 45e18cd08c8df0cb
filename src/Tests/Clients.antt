-- ===== src/Tests/Clients.antt =====
-- Concrete runs of a client.
use libiqxmlrpc.Client.Cache.{Client, Session, calls, calls-connections}
use libiqxmlrpc.Client.Session.{arrives, over, do_process_session-packet}
use libiqxmlrpc.Client.{Connection, direct, can_send, do_process_session}
use libiqxmlrpc.Base64.{is_space}
use libiqxmlrpc.Exceptions.{Thrown, std_exception}
use libiqxmlrpc.Http.Headers.{
  Header, check_weak, response, crlf, content_length, get_unsigned, get_string, new_header,
  parse_header, parse_options, parse_option, set_option_checked, run_validators, check_number,
  set_option, set_option_default,
}
use libiqxmlrpc.Http.Packets.{new_packet, parse_response_header}
use libiqxmlrpc.Http.Reader.Contents.{read_pieces}
use libiqxmlrpc.Http.Reader.{Reader, new_reader, crlf2, read_packet, read_header, check_sz}
use libiqxmlrpc.Http.Texts.{words, first_of, trimmed, trim_left}
use libiqxmlrpc.Prelude.Bytes.{Bytes, codes, str_eq, str_lt}
use libiqxmlrpc.Prelude.Int.{pos, negsuc}
use libiqxmlrpc.Prelude.Maps.{find, insert}
use libiqxmlrpc.Prelude.{
  ℕ, zero, suc, ◌+◌, true, false, List, [], ◌∷◌, ◌++◌, map, none, some, Result, ok, err, ◌≡◌, refl,
  arith,
}
use libiqxmlrpc.Tests.Messages.{plain_texts}
use libiqxmlrpc.Tests.Servers.{some_library}

abbrev pub ok_head : Bytes
ok_head = codes "HTTP/1.1 11 OK" ++ crlf ++ codes "Content-Length: 11"

abbrev pub ok_header : Header
ok_header = record {
  kind = response (pos 2) (codes "OK");
  head_line = codes "HTTP/1.1 11 OK";
  options =
      (codes "connection", codes "close")
      ∷ (codes "content-length", codes "11")
      ∷ (codes "server", codes "unknown")
      ∷ [];
  ver_level = check_weak;
}

abbrev pub ok_pieces : List Bytes
ok_pieces = (ok_head ++ crlf2) ∷ codes "hi" ∷ []

abbrev pub ok_reader : Reader
ok_reader = record new_reader {
  header_cache = ok_head;
  content_cache = codes "hi";
  header = some (new_packet plain_texts ok_header (codes "hi")).header;
  constructed = true;
}

pub ok_pieces-read :
    read_pieces plain_texts (parse_response_header plain_texts) ok_pieces new_reader
    ≡ (ok (new_packet plain_texts ok_header (codes "hi") ∷ []), ok_reader)
unfolding read_pieces read_packet read_header check_sz content_length get_unsigned get_string
    parse_response_header parse_header parse_options parse_option set_option_checked run_validators
    check_number set_option set_option_default new_header words first_of trimmed trim_left is_space
    find insert str_eq str_lt
ok_pieces-read = refl

abbrev pub blocked : Thrown
blocked = std_exception (codes "recv")

abbrev pub some_connection : Connection
some_connection = record {
  route = direct;
  preader = new_reader;
  out_str = [];
  taken = [];
  resp_packet = none;
  handler = record { fd = 5; is_stopper = false; catch_in_reactor = false };
  reactor = some (record { handlers = []; handlers_states = []; num_stoppers = 0 });
}

do_process_session-packet_example :
    (r' : Reader) × (k' : ℕ) × (do_process_session some_library
        (codes "abc")
        (map can_send (2 ∷ 1 ∷ 9 ∷ []) ++ map (arrives blocked) ok_pieces)
        some_connection
      ≡ some (
          ok (
            new_packet plain_texts ok_header (codes "hi"),
            over some_library blocked some_connection r'
                (codes "abc")
                (new_packet plain_texts ok_header (codes "hi"))
                k',
          )))
do_process_session-packet_example =
    do_process_session-packet some_library blocked (codes "abc") (2 ∷ 1 ∷ 9 ∷ []) ok_pieces
      some_connection (new_packet plain_texts ok_header (codes "hi")) ok_reader 0 refl
      (omega arith, (omega arith, (omega arith, tt))) (omega arith) (omega arith)
      ((omega arith, omega arith), ((omega arith, omega arith), tt)) ok_pieces-read

-- Connections are numbers here, and a session gives the number that it finds and adds ten to it. The
-- first one that is to be made is refused.
abbrev add_ten : Session ℕ ℕ
add_ten o n = (ok n, n + 10)

abbrev some_factory : ℕ → Result Thrown ℕ
some_factory zero = err blocked
some_factory (suc n) = ok n

abbrev some_client : Client ℕ
some_client = record {
  opts = record {
    host_name = codes "host";
    port = pos 80;
    uri = codes "/";
    vhost = codes "host";
    keep_alive = true;
    timeout = negsuc 0;
    non_blocking = false;
    auth_user = [];
    auth_passwd = [];
    xheaders = [];
  };
  conn_cache = none;
  attempts = 0;
}

calls-connections_example :
    ◌≡◌ {A = List (Result Thrown ℕ) × ℕ}
      (
        (calls some_factory (add_ten ∷ add_ten ∷ add_ten ∷ []) some_client).0,
        (calls some_factory (add_ten ∷ add_ten ∷ add_ten ∷ []) some_client).1.attempts,
      )
      (err blocked ∷ ok 0 ∷ ok 10 ∷ [], 2)
calls-connections_example =
    calls-connections some_factory (add_ten ∷ add_ten ∷ add_ten ∷ []) some_client refl
