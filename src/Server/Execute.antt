-- ===== src/Server/Execute.antt =====
-- The execution of a request (`Server::schedule_execute` and `schedule_response` of
-- libiqxmlrpc/server.cc, libiqxmlrpc/executor.cc, and `schedule_response` of server_conn.cc).
use libiqxmlrpc.Dispatch.{create_method}
use libiqxmlrpc.Exceptions.{
  Thrown, fault, xml_build_error, Caught, error_response, coded, standard, anything, undefined,
  caught,
}
use libiqxmlrpc.Http.Headers.{Header}
use libiqxmlrpc.Http.Errors.{ErrorHead}
use libiqxmlrpc.Http.Packets.{
  Packet, new_packet, new_response_header, set_keep_alive, dump_packet, error_packet,
}
use libiqxmlrpc.Methods.{Method, Outcome, process_execution}
use libiqxmlrpc.Prelude.Bytes.{Bytes, codes}
use libiqxmlrpc.Prelude.Int.{pos, negsuc}
use libiqxmlrpc.Prelude.{
  suc, true, false, [], ◌∷◌, ◌++◌, Option, none, some, Result, ok, err, ◌>>=◌,
}
use libiqxmlrpc.Reactor.{Reactor, Handler, Events, register_handler}
use libiqxmlrpc.ResponseParser.{Response, fault, result, dump_response}
use libiqxmlrpc.Server.{
  Library, serial, pooled, ExecutorKind, Executor, World, log_err_msg, interrupt, authenticate,
  read_call,
}
use libiqxmlrpc.Value.{Value, int}
use libiqxmlrpc.XHeaders.{get_xheaders}

abbrev pub input_event : Events
input_event = record { input = true; output = false }

abbrev pub output_event : Events
output_event = record { input = false; output = true }

abbrev pub registered : Events → Handler → Option Reactor → Option Reactor
registered m h none = none
registered m h (some r) = register_handler r h m

-- The end of a call, or an exception, with the state that either leaves.
abbrev pub Ran : Type 0 → Type 0
Ran D = Result Thrown (Unit {0}) × World D

module _ (lib : Library) where
  abbrev pub D : Type 0
  D = lib.lexical.Double

  -- `do_schedule_response`
  unfoldable pub do_schedule_response : World D → World D
  do_schedule_response w = record w {
    reactor = registered output_event w.conn.handler w.reactor;
    responses = w.responses ++ w.conn.response ∷ [];
  }

  -- `Server_connection::schedule_response`
  unfoldable pub conn_schedule_response : Packet → World D → World D
  conn_schedule_response p w =
      let text : Bytes = dump_packet lib.texts (set_keep_alive lib.texts w.conn.keep_alive p) in
      do_schedule_response (record w { conn = record w.conn { response = text } })

  -- `Http_response_header()` with the text of a response.
  unfoldable pub response_packet : Bytes → Packet
  response_packet s =
      new_packet lib.texts (new_response_header lib.texts lib.agent lib.date (pos 200) (codes "OK"))
        s

  abbrev pub error_of : ErrorHead → Packet
  error_of e = error_packet lib.texts lib.agent lib.date e

  -- An executor is deleted, where there is one, when the function is left in any way; the destructor of
  -- `Pool_executor` interrupts the server.
  abbrev pub delete_executor : Option ExecutorKind → World D → World D
  delete_executor none w = w
  delete_executor (some serial) w = record w { deleted = suc w.deleted }
  delete_executor (some pooled) w = interrupt (record w { deleted = suc w.deleted })

  abbrev pub scheduled : Result Bytes Bytes → Option ExecutorKind → World D → Ran D
  scheduled (ok s) exec w =
      (ok tt, delete_executor exec (conn_schedule_response (response_packet s) w))
  scheduled (err problem) exec w = (err (xml_build_error problem), delete_executor exec w)

  -- `Server::schedule_response`, with an executor or without one
  unfoldable pub schedule_response : Response D → Option ExecutorKind → World D → Ran D
  schedule_response resp exec w =
      scheduled (lib.document (dump_response lib.lexical lib.omit_string_tag resp)) exec w

  abbrev pub zero_value : Value D
  zero_value = int (pos 0)

  -- `Serial_executor::execute`
  abbrev pub serial_end : Option Thrown → Value D → World D → Ran D
  serial_end none v w = schedule_response (result v) (some serial) w
  serial_end (some (fault c s)) v w = schedule_response (Response.fault c s) (some serial) w
  serial_end (some e) v w = (err e, w)

  abbrev pub run : Executor D → Outcome D
  run x = process_execution x.interceptors x.method x.params zero_value

  -- `execute` of the two executors; that of the pool goes to the queue.
  unfoldable pub execute : ExecutorKind → Executor D → World D → Ran D
  execute serial x w = serial_end (run x).thrown (run x).value w
  execute pooled x w = (ok tt, record w { req_queue = w.req_queue ++ x ∷ [] })

  -- The method object, with what the request's header adds to it.
  abbrev pub with_name : Option Bytes → Method D → Method D
  with_name none m = m
  with_name (some n) m = record m { info = record m.info { authname = n } }

  unfoldable pub with_headers : Header → Method D → Method D
  with_headers h m = record m { info = record m.info { xheaders = get_xheaders lib.texts h } }

  -- The `try` block of `schedule_execute` up to the executor.
  unfoldable pub make_executor : Packet → World D → Result Thrown (Executor D)
  make_executor pkt w = do
    authname ← authenticate lib.texts pkt.header w.server.auth_plugin
    req ← read_call lib pkt.content
    meth ←
        create_method w.server.disp_manager
          (record { method_name = req.name; peer_addr = w.conn.peer_addr })
    ok (record {
      method = with_headers pkt.header (with_name authname meth);
      interceptors = w.server.interceptors;
      params = req.params;
    })

  -- The `catch` clauses, with an executor or without one.
  abbrev pub catch_thrown : Thrown → Caught → Option ExecutorKind → World D → Ran D
  catch_thrown e (error_response head text) exec w =
      (ok tt, delete_executor exec (conn_schedule_response (error_of head) (log_err_msg text w)))
  catch_thrown e (coded c text) exec w =
      schedule_response (Response.fault c text) exec (log_err_msg (codes "Server: " ++ text) w)
  catch_thrown e (standard text) exec w =
      schedule_response (Response.fault (negsuc 32499) text) exec
        (log_err_msg (codes "Server: " ++ text) w)
  catch_thrown e anything exec w =
      schedule_response (Response.fault (negsuc 32499) (codes "Unknown Error")) exec
        (log_err_msg (codes "Server: Unknown exception") w)
  catch_thrown e undefined exec w = (err e, w)

  abbrev pub or_catch : Option ExecutorKind → Ran D → Ran D
  or_catch exec (ok u, w) = (ok u, w)
  or_catch exec (err e, w) = catch_thrown e (caught e) exec w

  abbrev pub execute_made : Result Thrown (Executor D) → World D → Ran D
  execute_made (err e) w = or_catch none (err e, w)
  execute_made (ok x) w =
      let kind : ExecutorKind = w.server.exec_factory in
      or_catch (some kind) (execute kind x (record w { created = suc w.created }))

  -- `schedule_execute`
  unfoldable pub schedule_execute : Packet → World D → Ran D
  schedule_execute pkt w = execute_made (make_executor pkt w) w

  -- `Pool_executor::process_actual_execution`. What `schedule_response` throws in the `try` block is
  -- caught there too.
  abbrev pub pool_catch : Thrown → Caught → World D → Ran D
  pool_catch e (error_response head text) w =
      schedule_response (Response.fault (negsuc 0) text) (some pooled) w
  pool_catch e (coded c text) w = schedule_response (Response.fault (negsuc 0) text) (some pooled) w
  pool_catch e (standard text) w =
      schedule_response (Response.fault (negsuc 0) text) (some pooled) w
  pool_catch e anything w =
      schedule_response (Response.fault (negsuc 0) (codes "Unknown Error")) (some pooled) w
  pool_catch e undefined w = (err e, w)

  abbrev pub or_pool_catch : Ran D → Ran D
  or_pool_catch (ok u, w) = (ok u, w)
  or_pool_catch (err (fault c s), w) = schedule_response (Response.fault c s) (some pooled) w
  or_pool_catch (err e, w) = pool_catch e (caught e) w

  abbrev pub pool_try : Option Thrown → Value D → World D → Ran D
  pool_try none v w = schedule_response (result v) (some pooled) w
  pool_try (some e) v w = (err e, w)

  unfoldable pub process_actual_execution : Executor D → World D → Ran D
  process_actual_execution x w = or_pool_catch (pool_try (run x).thrown (run x).value w)

  -- A round of a thread of the pool that finds the queue not empty (`Pool_thread`), and one that does
  -- not.
  unfoldable pub pool_round : World D → Ran D
  pool_round w = elim w.req_queue [
    | [] ↦ (ok tt, w)
    | x ∷ xs ↦ process_actual_execution x (record w { req_queue = xs })
  ]
