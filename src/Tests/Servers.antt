-- ===== src/Tests/Servers.antt =====
-- Concrete runs of a server with one method, and of the sending of its answers.
use libiqxmlrpc.Dispatch.{makes, default_create, create_method}
use libiqxmlrpc.Http.Errors.{method_not_allowed, ErrorHead, error_head}
use libiqxmlrpc.Http.Headers.{
  check_weak, conn_keep_alive, get_string, parse_header, parse_options, parse_option,
  set_option_checked, run_validators, check_number, set_option, set_option_default, new_header,
  set_content_length,
}
use libiqxmlrpc.Http.Packets.{Packet, new_packet, dump_packet, set_keep_alive, parse_request_header}
use libiqxmlrpc.Http.Reader.{
  new_reader, crlf2, clear, read_packet, read_request, read_header, check_sz,
}
use libiqxmlrpc.Http.Reader.Contents.{IsReady}
use libiqxmlrpc.Http.Texts.{words, first_of, trimmed, trim_left}
use libiqxmlrpc.Base64.{is_space}
use libiqxmlrpc.Methods.{Body, process_execution}
use libiqxmlrpc.Prelude.Bytes.{Bytes, codes, str_eq, str_lt}
use libiqxmlrpc.Prelude.Int.{ℤ, pos}
use libiqxmlrpc.Prelude.Maps.{find, insert}
use libiqxmlrpc.Prelude.{
  ℕ, ◌+◌, true, false, List, [], ◌∷◌, ◌++◌, none, some, ok, err, ◌≡◌, refl, arith,
}
use libiqxmlrpc.RequestParser.RoundTrip.{request_with, parse_request-dump_request}
use libiqxmlrpc.RequestParser.{dump_request}
use libiqxmlrpc.ResponseParser.{result}
use libiqxmlrpc.Server.Answers.{Answer, reply, answer, answer_text, schedule_execute-answer}
use libiqxmlrpc.Reactor.Single.{only}
use libiqxmlrpc.Server.Execute.{
  input_event, schedule_execute, make_executor, with_headers, registered, output_event, error_of,
  run, pool_round,
}
use libiqxmlrpc.Server.Handlers.{handle_input, prepared, as_refusal, all_sent}
use libiqxmlrpc.Server.Pooled.{pool_reply, pool_round-answer}
use libiqxmlrpc.Server.Refusals.{handle_input-refusal}
use libiqxmlrpc.Server.Requests.{handle_input-answer}
use libiqxmlrpc.Server.Sends.{send_all, send_all-response}
use libiqxmlrpc.Server.{
  Library, Server, serial, pooled, ExecutorKind, Executor, World, authenticate, read_call,
}
use libiqxmlrpc.Tests.Messages.{
  plain_texts, plain_texts-laws, some_head, some_body, some_header, some_header-parsed,
  some_header-length, some_head-end, some_head-no_other,
}
use libiqxmlrpc.Tests.Values.{unary, no_defaults, unary-laws}
use libiqxmlrpc.Value.{int}
use libiqxmlrpc.XmlBuilder.{Event, nodes_of, is_blank}

abbrev pub ping : Bytes
ping = codes "ping"

abbrev pub write : List Event → Bytes
write es = codes "document"

abbrev pub some_library : Library
some_library = record {
  texts = plain_texts;
  lexical = unary;
  defaults = no_defaults;
  fuel = 20;
  nodes = λ s. (nodes_of [] (dump_request unary ping []), false);
  document = λ es. ok (write es);
  problem = λ s e. codes "problem";
  agent = codes "agent";
  date = codes "today";
  omit_string_tag = false;
}

pub writes : (es : List Event) → some_library.document es ≡ ok (write es)
writes es = refl

abbrev pub seven : Body ℤ
seven info ps v = record { thrown = none; value = int (pos 7) }

abbrev pub some_server : ExecutorKind → Server ℤ
some_server kind = record {
  exec_factory = kind;
  exit_flag = false;
  log = some [];
  max_req_sz = 0;
  ver_level = check_weak;
  disp_manager = record { default_disp = (ping, makes seven) ∷ []; dispatchers = [] };
  interceptors = [];
  auth_plugin = none;
}

abbrev pub some_world : ExecutorKind → World ℤ
some_world kind = record {
  server = some_server kind;
  conn = record {
    peer_addr = codes "host";
    keep_alive = false;
    response = codes "response";
    preader = new_reader;
    handler = record { fd = 4; is_stopper = false; catch_in_reactor = true };
  };
  reactor =
      some (only (record { fd = 4; is_stopper = false; catch_in_reactor = true }) input_event 0);
  req_queue = [];
  responses = [];
  created = 0;
  deleted = 0;
  interrupts = 0;
}

abbrev pub some_packet : Packet
some_packet = new_packet plain_texts some_header some_body

reads_ping : read_call some_library some_body ≡ ok (request_with unary no_defaults ping [])
unfolding read_call is_blank
reads_ping =
    rw
      (parse_request-dump_request unary no_defaults unary-laws ping [] 20
        (nodes_of [] (dump_request unary ping [])) refl tt (omega arith) refl)
      refl

abbrev pub seven_answer : Answer some_library
seven_answer = reply (result (int (pos 7)))

pub answers_seven : answer some_library some_packet (some_world serial) ≡ some seven_answer
unfolding answer make_executor authenticate create_method default_create find str_eq with_headers
    process_execution new_packet
answers_seven = rw reads_ping refl

schedule_execute-answer_example :
    (w' : World ℤ) × (schedule_execute some_library some_packet (some_world serial) ≡ (ok tt, w'))
    × (w'.responses ≡ answer_text some_library write writes false seven_answer ∷ [])
    × (w'.deleted + 0 ≡ 0 + w'.created)
schedule_execute-answer_example =
    schedule_execute-answer some_library write writes some_packet seven_answer (some_world serial)
      refl answers_seven

pub prepared-IsReady : IsReady (prepared some_library (some_world serial))
unfolding IsReady clear
prepared-IsReady = (refl, refl)

pub some_header-closes : conn_keep_alive some_packet.header ≡ ok false
unfolding conn_keep_alive get_string new_packet set_content_length set_option find insert str_eq
    str_lt
some_header-closes = refl

handle_input-answer_example :
    (w' : World ℤ) × (handle_input some_library
        (ok (some_head ++ crlf2 ++ some_body))
        (some_world serial)
      ≡ (ok false, w'))
    × (w'.responses ≡ answer_text some_library write writes false seven_answer ∷ [])
    × (w'.deleted + 0 ≡ 0 + w'.created)
handle_input-answer_example =
    handle_input-answer some_library plain_texts-laws write writes some_head some_body
      (some_head ++ crlf2 ++ some_body) some_header false seven_answer (some_world serial) refl
      prepared-IsReady some_header-parsed some_header-length some_head-end some_head-no_other refl
      some_header-closes answers_seven

abbrev get_head : Bytes
get_head = codes "GET / HTTP/1.0"

get_head-refused :
    read_request plain_texts (get_head ++ crlf2) (prepared some_library (some_world serial))
    ≡ (err method_not_allowed, record new_reader { header_cache = get_head })
unfolding read_request read_packet read_header check_sz parse_request_header parse_header
    parse_options parse_option set_option_checked run_validators check_number set_option
    set_option_default new_header words first_of trimmed trim_left is_space find insert str_eq
    str_lt
get_head-refused = refl

handle_input-refusal_example :
    (head : ErrorHead) × (error_head (as_refusal method_not_allowed) ≡ some head)
    × ((w' : World ℤ) × (handle_input some_library (ok (get_head ++ crlf2)) (some_world serial)
          ≡ (ok false, w'))
        × (w'.conn.keep_alive ≡ false)
        × (w'.responses
            ≡ dump_packet plain_texts
                (set_keep_alive plain_texts false (error_of some_library head))
              ∷ [])
        × (w'.reactor
            ≡ registered output_event (some_world serial).conn.handler (some_world serial).reactor))
handle_input-refusal_example =
    handle_input-refusal some_library b'G' (codes "ET / HTTP/1.0" ++ crlf2) (some_world serial)
      method_not_allowed (record new_reader { header_cache = get_head }) get_head-refused

abbrev some_executor : Executor ℤ
some_executor = record {
  method = with_headers some_library some_packet.header (record {
    info = record {
      call = record { method_name = ping; peer_addr = codes "host" };
      authname = [];
      xheaders = [];
    };
    execute = seven;
  });
  interceptors = [];
  params = [];
}

makes_executor : make_executor some_library some_packet (some_world pooled) ≡ ok some_executor
unfolding make_executor authenticate create_method default_create find str_eq read_call with_headers
makes_executor = rw reads_ping refl

replies_seven :
    pool_reply some_library
      (run some_library some_executor).thrown
      (run some_library some_executor).value
    ≡ some (result (int (pos 7)))
unfolding process_execution with_headers
replies_seven = refl

pool_round-answer_example :
    (w1 w' : World ℤ) × (schedule_execute some_library some_packet (some_world pooled)
      ≡ (ok tt, w1))
    × (w1.responses ≡ [])
    × (pool_round some_library w1 ≡ (ok tt, w'))
    × (w'.responses ≡ answer_text some_library write writes false seven_answer ∷ [])
    × (w'.deleted + 0 ≡ 0 + w'.created)
pool_round-answer_example =
    pool_round-answer some_library write writes some_packet some_executor (result (int (pos 7)))
      (some_world pooled) refl refl makes_executor replies_seven

abbrev rooms : List ℕ
rooms = 3 ∷ 1 ∷ 1 ∷ 100 ∷ 1 ∷ 1 ∷ 1 ∷ 1 ∷ []

send_all-response_example :
    (w' : World ℤ) × (send_all some_library rooms (some_world serial) ≡ (
      codes "response",
      some (all_sent some_library false w'),
      (all_sent some_library false w').1,
    ))
    × (w'.reactor ≡ (some_world serial).reactor)
    × (w'.conn.handler ≡ (some_world serial).conn.handler)
    × (w'.responses ≡ [])
send_all-response_example =
    send_all-response some_library rooms (some_world serial)
      (
        omega arith,
        (
          omega arith,
          (
            omega arith,
            (omega arith, (omega arith, (omega arith, (omega arith, (omega arith, tt))))),
          ),
        ),
      )
      (omega arith) (omega arith)
