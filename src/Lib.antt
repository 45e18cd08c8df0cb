-- ===== src/Lib.antt =====
-- libiqxmlrpc, an XML-RPC library in C++: its values and their texts, the reading and writing of
-- XML, requests, responses, the event reactor, the messages of HTTP, the server with its pool of
-- threads, the client, connections under TLS, and sockets.
--
-- The program. A request is a method's name and a list of values. `parse_request` opens a pull
-- parser (libiqxmlrpc/parser2.cc) over the libxml2 text reader and runs a builder over it, which
-- calls the builders of values (libiqxmlrpc/value_parser.cc), and these one another. Values
-- (libiqxmlrpc/value.cc, value_type.cc) are written by a visitor (libiqxmlrpc/value_type_xml.cc)
-- through the libxml2 text writer. The reactor (libiqxmlrpc/reactor_impl.h) calls the handlers of
-- connections when their sockets have events. A connection of the server
-- (libiqxmlrpc/http_server.cc) gives the bytes that it gets to a `Packet_reader` (libiqxmlrpc/http.cc);
-- a packet goes to `Server::schedule_execute` (libiqxmlrpc/server.cc), which finds the method
-- (libiqxmlrpc/dispatcher_manager.cc), and an executor (libiqxmlrpc/executor.cc) runs it, at once or in
-- a thread of the pool, and schedules the response, which the connection then sends in parts.
--
-- The files.
-- Prelude passes on what the other modules share: library names, tests, lists, results, byte
-- strings (lists of numbers below 256, as characters), integers.
-- Base64 is `Binary_data` of libiqxmlrpc/value_type.cc. Its two strings are the fields of
-- `BinaryData`; the exceptions are `Base64Error`, of which `end_of_data` is caught inside.
-- DateTime is `Date_time`, with the fields of `struct tm`; a year is what `tm_year` holds.
-- Value has the classes of values as constructors, with the operations of `Value`, `Array` and
-- `Struct`. A `std::map` is the list of its fields in the order of their names. Value/Copies has the copies
-- of values, and Value/Printing libiqxmlrpc/value_type_visitor.cc.
-- Xml is `Parser`, `BuilderBase` and `StateMachine`. A builder's virtual functions are the fields of
-- `Methods`, and its own state is the parameter of `Builder`. A `Reader` is `Parser::Impl`, with the
-- nodes that libxml2 has still to report.
-- ValueParser has the three builders of values. `build_value`, `build_struct` and `build_array` are
-- the calls of `sub_build`, with their argument `flat`.
-- XmlBuilder has the visitor, as functions that put events in front of others, and `nodes_of`, which
-- says what a reader reports of a written document.
-- RequestParser is libiqxmlrpc/request.cc and request_parser.cc.
-- ResponseParser is libiqxmlrpc/response.cc and response_parser.cc.
-- Reactor is `Reactor<Lock>`. The handlers and `poll` are a parameter, `Calls`, on any state that they
-- touch besides the reactor.
-- Http has libiqxmlrpc/http.cc and http_errors.h. `Texts` are the functions of boost, and what is relied
-- on of them; `Reader` is `Packet_reader`, whose functions give the reader back besides a result, since
-- an exception leaves its fields as they are.
-- XHeaders is libiqxmlrpc/xheaders.cc, Exceptions is except.h.
-- Methods and Dispatch are libiqxmlrpc/method.h, method.cc, dispatcher_manager.cc and builtins.cc. A
-- method and an interceptor are functions; what they throw is a value in their outcome.
-- Server is libiqxmlrpc/server.cc, server_conn.cc, http_server.cc and the executors, on a `World` that
-- has the server, one connection, the reactor and the queue, with a history of what was given to the
-- connection to send and of how many executors were made and deleted.
-- Pool is the pool of threads of libiqxmlrpc/executor.cc, as a relation of steps on its queue and its
-- threads.
-- Client is libiqxmlrpc/client.cc, client_opts.h, client_conn.cc and http_client.cc. A session is over a
-- list of what happens to its socket, of which the reactor hands on what the connection is registered
-- for, with a history of what the socket took; the connection that is kept is of any type, and making one
-- may throw.
-- Tls is the calls of libiqxmlrpc/ssl_lib.cc and ssl_connection.cc over an `Openssl`. Tls/Verify has the
-- verification of peers and the handshakes, Tls/Fingers the fingerprints, Tls/Reaction the state machine
-- of a connection: `Host` is the object that has the machine as a part, and `Virtual` its functions. Tls/Servers
-- is libiqxmlrpc/https_server.cc, on the `World` of Server; Tls/Clients is libiqxmlrpc/https_client.cc, with
-- the tunnel through a proxy in Tls/Clients/Tunnel. Tls/Servers/Sends and Answers, and
-- Tls/Clients/Session and Closed are what is shown of them.
-- Net is libiqxmlrpc/socket.cc and net_except.cc over a `System`, Net/Addresses inet_addr.cc, Net/Accepts
-- acceptor.cc with firewall.h, Net/Connects connector.cc with its reactor of one handler, Net/Interrupter reactor_interrupter.cc.
-- Reactor/Polls has libiqxmlrpc/reactor_poll_impl.cc and reactor_select_impl.cc, Reactor/Masks what the
-- reactor waits for, Reactor/Single a reactor of one handler, Server/Work the loop of
-- `Server::work`.
-- Tests has a concrete run of each property.
--
-- Bounds and fuel. A builder's loop and the calls of builders run on fuel. A result that needs fuel
-- asks for at least the size of the value, which is defined beside it and counts the rounds of the
-- loops and the depth of the calls. Sockets are numbers, `num_stoppers` wraps at 2 ^ 32, and the test
-- in `handle_events` at 2 ^ 64. The depth of a builder, an `int`, is a number without a bound. The
-- connector's time, an `int` of milliseconds, wraps at 2 ^ 32, where C++ leaves the overflow open.
--
-- Sizes of packets are of 64 bits, and the sum of them wraps at 2 ^ 64.
--
-- What is a parameter. libxml2's reader is the list of nodes that it reports; where a result joins
-- writing and reading, that list is supposed to be `nodes_of` of the events. `boost::lexical_cast` and
-- `double` are the fields of `Lexical`, and what is relied on of them is `LexicalLaws`. The functions of
-- boost on texts are those of `Texts`, with `TextsLaws`. The server gets all of these, the clock and the
-- version of the library in a `Library`; the plugin of authentication, methods, interceptors and
-- dispatchers are the program's own. What a socket gives and takes is an argument of the handlers.
--
-- OpenSSL is an `Openssl`: its functions on the state of an object and of the socket below it. The system is a
-- `System` in the same way. The buffer of a connection under TLS is what it holds when it is given; the
-- owner leaves a text that is being sent alone.
--
-- What is not modelled. Memory and its ownership, since copies are deep; of the executors only how
-- often one is deleted. The texts of exceptions of a document. The lock of the reactor, each critical
-- section being one step; so is what the destructor of the pool does under its two locks. The making of OpenSSL's context and its locks. Dates from the
-- clock. A dispatcher is not changed while a method of it runs.
pub mod Prelude
pub mod Base64
pub mod DateTime
pub mod Value
pub mod Xml
pub mod ValueParser
pub mod XmlBuilder
pub mod RequestParser
pub mod ResponseParser
pub mod Http
pub mod XHeaders
pub mod Exceptions
pub mod Methods
pub mod Dispatch
pub mod Reactor
pub mod Pool
pub mod Server
pub mod Client
pub mod Tests
pub mod Tls
pub mod Net
