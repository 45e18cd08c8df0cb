-- ===== src/Tls/Clients/Session.antt =====
-- A session of a client under TLS (libiqxmlrpc/https_client.cc, ssl_connection.cc).
use libiqxmlrpc.Http.Packets.{Packet}
use libiqxmlrpc.Http.Reader.{Reader}
use libiqxmlrpc.Prelude.Bytes.{Bytes}
use libiqxmlrpc.Prelude.{List, some, ok, ◌≡◌}
use libiqxmlrpc.Reactor.{Reactor}
use libiqxmlrpc.Server.{Library}
use libiqxmlrpc.Tls.Clients.{Calling, Event, session_loop}
use libiqxmlrpc.Tls.Verify.{Ctx}
use libiqxmlrpc.Tls.{Openssl}

module _ (lib : Library) (api : Openssl) (x : Ctx api) where
  abbrev Ends : Packet → List Event → Calling lib api → Type 0
  Ends p es c = (c' : Calling lib api) × (session_loop lib api es c ≡ some (ok p, c'))
