-- ===== src/Server/Refusals.antt =====
-- What a connection does with a request that it can not read (libiqxmlrpc/server_conn.cc, http_server.cc).
use libiqxmlrpc.Exceptions.{caught}
use libiqxmlrpc.Http.Errors.{
  HttpError, ErrorHead, error_head, malformed_packet, bad_request, unauthorized, method_not_allowed,
  length_required, request_too_large, unsupported_content_type, expectation_failed, error_response,
}
use libiqxmlrpc.Http.Packets.{dump_packet, set_keep_alive}
use libiqxmlrpc.Http.Reader.{Reader, read_request}
use libiqxmlrpc.Prelude.Bytes.{Bytes}
use libiqxmlrpc.Prelude.{ℕ, false, [], ◌∷◌, ◌++◌, some, ok, err, ◌≡◌, refl}
use libiqxmlrpc.Server.Execute.{
  D, output_event, registered, conn_schedule_response, do_schedule_response, error_of,
}
use libiqxmlrpc.Server.Handlers.{
  as_refusal, prepared, conn_read_request, handle_input, set_reader, set_keeping,
}
use libiqxmlrpc.Server.{Library, World}

-- Every exception of the reading ends as an `Error_response`.
as_refusal-head : (e : HttpError) → (head : ErrorHead) × (error_head (as_refusal e) ≡ some head)
unfolding error_head
as_refusal-head malformed_packet = (_, refl)
as_refusal-head bad_request = (_, refl)
as_refusal-head unauthorized = (_, refl)
as_refusal-head method_not_allowed = (_, refl)
as_refusal-head length_required = (_, refl)
as_refusal-head request_too_large = (_, refl)
as_refusal-head expectation_failed = (_, refl)
as_refusal-head (unsupported_content_type wrong) = (_, refl)
as_refusal-head (error_response phrase code) = (_, refl)

module _ (lib : Library) where
  -- Whatever the reader throws at the bytes that a connection got, the connection does not throw: it is
  -- to send one answer, that of the HTTP error, where a malformed packet is a bad request; the answer
  -- says that the connection is closed, and the connection is not kept alive. The connection stays
  -- registered for what it was, and waits for output besides.
  pub handle_input-refusal :
      (c : ℕ) (s : Bytes) (w : World (D lib)) (e : HttpError) (r : Reader)
      → read_request lib.texts (c ∷ s) (prepared lib w) ≡ (err e, r)
      → (head : ErrorHead) × (error_head (as_refusal e) ≡ some head)
        × ((w' : World (D lib)) × (handle_input lib (ok (c ∷ s)) w ≡ (ok false, w'))
            × (w'.conn.keep_alive ≡ false)
            × (w'.responses
                ≡ w.responses
                  ++ dump_packet lib.texts (set_keep_alive lib.texts false (error_of lib head))
                    ∷ [])
            × (w'.reactor ≡ registered output_event w.conn.handler w.reactor))
  unfolding handle_input conn_read_request caught conn_schedule_response do_schedule_response
  handle_input-refusal c s w e r h =
      let (head, q) = as_refusal-head e in
      let w' =
        conn_schedule_response lib (error_of lib head)
          (set_keeping lib false (set_reader lib r w)) in
      (head, q, (w', rw (h, q) refl, refl, refl, refl))
