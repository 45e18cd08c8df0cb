-- ===== src/Server.antt =====
-- The server (libiqxmlrpc/server.cc, server_conn.cc, http_server.cc, executor.cc) and one connection
-- to it: the state that they change. What comes from outside, libxml2, boost, the clock, and the
-- program's own classes, is a parameter.
pub mod Execute
pub mod Answers
pub mod Handlers
pub mod Sends
pub mod Pooled
pub mod Refusals
pub mod Requests
pub mod Work
use libiqxmlrpc.Exceptions.{Thrown, http, malformed_binary, xml}
use libiqxmlrpc.Dispatch.{
  Manager, Dispatcher, Factory, register_method, push_back, enable_introspection,
}
use libiqxmlrpc.Http.Errors.{HttpError, unauthorized}
use libiqxmlrpc.Http.Headers.{Header, Level, option_exists, authorization_name}
use libiqxmlrpc.Http.Packets.{AuthError, refused, malformed_auth, get_authinfo}
use libiqxmlrpc.Http.Reader.{Reader}
use libiqxmlrpc.Http.Texts.{Texts}
use libiqxmlrpc.Methods.{Method, ParamList, Interceptor, Interceptors, push_interceptor}
use libiqxmlrpc.Prelude.Bytes.{Bytes}
use libiqxmlrpc.Prelude.Int.{ℤ}
use libiqxmlrpc.Prelude.{
  ℕ, suc, Bool, true, false, List, [], ◌∷◌, ◌++◌, Option, none, some, Result, ok, err, ◌>>=◌,
  if◌then◌else◌,
}
use libiqxmlrpc.Reactor.{Reactor, Handler}
use libiqxmlrpc.RequestParser.{Request, parse_request}
use libiqxmlrpc.ValueParser.{Lexical, Defaults}
use libiqxmlrpc.Xml.{Node, XmlError}
use libiqxmlrpc.XmlBuilder.{Event}

-- What comes from outside: casts, the nodes that libxml2 reports of a document and whether it then
-- reports an error, the document that its writer makes of the calls it gets (or what it says where it fails),
-- the texts of the exceptions of a document, the name of the library, the date, and two settings of
-- the library. The fuel is that of `parse_request`.
pub record Library : Type 1 where
  pub texts : Texts
  pub lexical : Lexical
  pub defaults : Defaults
  pub fuel : ℕ
  pub nodes : Bytes → List Node × Bool
  pub document : List Event → Result Bytes Bytes
  pub problem : Bytes → XmlError → Bytes
  pub agent : Bytes
  pub date : Bytes
  pub omit_string_tag : Bool

-- `Auth_Plugin_base`, of a class of the program's own.
pub record AuthPlugin : Type 0 where
  pub do_authenticate : Bytes → Bytes → Result Thrown Bool
  pub do_authenticate_anonymous : Result Thrown Bool

-- The factory of the executors: `Serial_executor_factory` or `Pool_executor_factory`.
pub data ExecutorKind : Type 0 where
  serial pooled : ExecutorKind

-- `Server::Impl`, without the sockets; `log` has what was logged, where there is a log.
pub record Server (D : Type 0) : Type 0 where
  pub exec_factory : ExecutorKind
  pub exit_flag : Bool
  pub log : Option (List Bytes)
  pub max_req_sz : ℕ
  pub ver_level : Level
  pub disp_manager : Manager D
  pub interceptors : Interceptors D
  pub auth_plugin : Option AuthPlugin

-- `Server_connection`, with its handler in the reactor.
pub record Connection : Type 0 where
  pub peer_addr : Bytes
  pub keep_alive : Bool
  pub response : Bytes
  pub preader : Reader
  pub handler : Handler

-- `Executor`, and the parameters of `Pool_executor`.
pub record Executor (D : Type 0) : Type 0 where
  pub method : Method D
  pub interceptors : Interceptors D
  pub params : ParamList D

-- All that a request changes: `reactor` is `none` once the reactor has used the end of a list as an
-- element; `req_queue` is that of the pool. The history: what was given to the connection to send, how
-- many executors were made, how often one was deleted, and how often the server was interrupted.
pub record World (D : Type 0) : Type 0 where
  pub server : Server D
  pub conn : Connection
  pub reactor : Option Reactor
  pub req_queue : List (Executor D)
  pub responses : List Bytes
  pub created : ℕ
  pub deleted : ℕ
  pub interrupts : ℕ

abbrev logged : Bytes → Option (List Bytes) → Option (List Bytes)
logged msg none = none
logged msg (some ms) = some (ms ++ msg ∷ [])

module _ {D : Type 0} where
  -- The operations of `Server` before it works.
  abbrev pub add_method : Bytes → Factory D → Server D → Server D
  add_method name f s = record s { disp_manager = register_method name f s.disp_manager }

  abbrev pub push_dispatcher : Dispatcher D → Server D → Server D
  push_dispatcher d s = record s { disp_manager = push_back d s.disp_manager }

  abbrev pub introspect : Server D → Server D
  introspect s = record s { disp_manager = enable_introspection s.disp_manager }

  abbrev pub intercept : Interceptor D → Server D → Server D
  intercept ic s = record s { interceptors = push_interceptor ic s.interceptors }

  -- `log_err_msg`
  unfoldable pub log_err_msg : Bytes → World D → World D
  log_err_msg msg w = record w { server = record w.server { log = logged msg w.server.log } }

  -- `interrupt`, and `set_exit_flag`
  abbrev pub interrupt : World D → World D
  interrupt w = record w { interrupts = suc w.interrupts }

  unfoldable pub set_exit_flag : World D → World D
  set_exit_flag w = interrupt (record w { server = record w.server { exit_flag = true } })

abbrev pub or_http : {A : Type 0} → Result HttpError A → Result Thrown A
or_http (ok a) = ok a
or_http (err e) = err (http e)

abbrev or_auth : {A : Type 0} → Result AuthError A → Result Thrown A
or_auth (ok a) = ok a
or_auth (err (refused e)) = err (http e)
or_auth (err malformed_auth) = err malformed_binary

-- The two tests of `authenticate`, each of what the plugin says.
abbrev pub unless_refused : {A : Type 0} → A → Bool → Result Thrown A
unless_refused a true = ok a
unless_refused a false = err (http unauthorized)

abbrev pub authenticate_with : Texts → Header → AuthPlugin → Result Thrown (Option Bytes)
authenticate_with t h ap =
    if option_exists h authorization_name
    then (do
      (user, password) ← or_auth (get_authinfo t h)
      allowed ← ap.do_authenticate user password
      unless_refused (some user) allowed)
    else (do allowed ← ap.do_authenticate_anonymous; unless_refused none allowed)

-- `authenticate`
unfoldable pub authenticate : Texts → Header → Option AuthPlugin → Result Thrown (Option Bytes)
authenticate t h none = ok none
authenticate t h (some ap) = authenticate_with t h ap

module _ (lib : Library) where
  abbrev or_xml : {A : Type 0} → Bytes → Result XmlError A → Result Thrown A
  or_xml s (ok a) = ok a
  or_xml s (err e) = err (xml e (lib.problem s e))

  -- `parse_request( packet->content() )`
  unfoldable pub read_call : Bytes → Result Thrown (Request lib.lexical.Double)
  read_call s =
      or_xml s (parse_request lib.lexical lib.defaults lib.fuel (lib.nodes s).0 (lib.nodes s).1)
