-- ===== src/Server/Requests.antt =====
-- From the bytes of a request to the bytes of its answer (libiqxmlrpc/http_server.cc, server_conn.cc,
-- http.cc, server.cc, executor.cc).
use libiqxmlrpc.Http.Headers.{Header, content_length, conn_keep_alive}
use libiqxmlrpc.Http.Packets.{Packet, new_packet, parse_request_header}
use libiqxmlrpc.Http.Reader.Chunks.{read_pieces-one_packet}
use libiqxmlrpc.Http.Reader.Contents.{IsReady, read_pieces, keep, join}
use libiqxmlrpc.Http.Reader.{Reader, Read, crlf2, lf2, read_packet, read_request, ◌then_read◌}
use libiqxmlrpc.Http.Texts.{TextsLaws, first_of}
use libiqxmlrpc.Prelude.Bytes.{Bytes}
use mathlib.Core.List.{append-nil}
use libiqxmlrpc.Prelude.{
  ◌+◌, Bool, false, List, [], ◌∷◌, ◌++◌, Option, none, some, ok, err, length, length-append, ◌≡◌,
  refl, ap, ◌∙◌, arith,
}
use libiqxmlrpc.Server.Answers.{Answer, answer, answer_text, schedule_execute-answer}
use libiqxmlrpc.Server.Execute.{D, make_executor, input_event}
use libiqxmlrpc.Server.Handlers.{
  prepared, conn_read_request, handle_input, set_reader, set_keeping, unregistered,
}
use libiqxmlrpc.Server.{Library, serial, World}
use libiqxmlrpc.XmlBuilder.{Event}

-- The packet that a call gave, where the calls gave one.
one_kept :
    (x : Read (Option Packet)) (p : Packet) (r : Reader)
    → (x then_read λ y r1. (ok (keep y []), r1)) ≡ (ok (p ∷ []), r)
    → x ≡ (ok (some p), r)
one_kept (ok none, r1) p r h = cc
one_kept (ok (some q), r1) p r h = cc
one_kept (err e, r1) p r h = cc

module _ (lib : Library) (laws : TextsLaws lib.texts) (write : List Event → Bytes)
    (writes : (es : List Event) → lib.document es ≡ ok (write es)) where
  pub read_request-whole :
      (s : Bytes) (r r' : Reader) (p : Packet)
      → read_pieces lib.texts (parse_request_header lib.texts) (s ∷ []) r ≡ (ok (p ∷ []), r')
      → read_request lib.texts s r ≡ (ok (some p), r')
  unfolding read_pieces read_request
  read_request-whole s r r' p h =
      one_kept (read_packet lib.texts (parse_request_header lib.texts) false s r) p r' h

  -- A connection of a server without a pool and without a limit on the size of requests, whose reader is
  -- ready, gets a request in one piece: the text of a header that is read, its end, which is where the
  -- text first ends, and a content as long as the header says. It is not terminated, and is to send one
  -- answer, the one to that header and that content, and as many executors are deleted as were made;
  -- libxml2 is assumed to write every document.
  pub handle_input-answer :
      (head body s : Bytes) (h : Header) (keep_alive : Bool) (a : Answer lib) (w : World (D lib))
      → w.server.exec_factory ≡ serial
      → IsReady (prepared lib w)
      → parse_request_header lib.texts w.server.ver_level head ≡ ok h
      → content_length lib.texts h ≡ ok (length body)
      → first_of crlf2 (head ++ crlf2) ≡ some (head, [])
      → first_of lf2 (head ++ crlf2) ≡ none
      → s ≡ head ++ crlf2 ++ body
      → conn_keep_alive (new_packet lib.texts h body).header ≡ ok keep_alive
      → answer lib (new_packet lib.texts h body) w ≡ some a
      → (w' : World (D lib)) × (handle_input lib (ok s) w ≡ (ok false, w'))
        × (w'.responses ≡ w.responses ++ answer_text lib write writes keep_alive a ∷ [])
        × (w'.deleted + w.created ≡ w.deleted + w'.created)
  unfolding handle_input conn_read_request join answer make_executor
  handle_input-answer head body [] h k a w kind ready parsed len ends no_end e keeps ans =
      absurd
        (omega (arith, ap length e, length-append (head ++ crlf2) body, length-append head crlf2))
  handle_input-answer head body (c ∷ s) h k a w kind ready parsed len ends no_end e keeps ans =
      let p = new_packet lib.texts h body in
      let (r, f, _) =
        read_pieces-one_packet lib.texts laws (parse_request_header lib.texts) head body h len
          w.server.ver_level parsed ends no_end ((c ∷ s) ∷ []) (prepared lib w) ready refl
          (omega arith, tt) (append-nil (c ∷ s) ∙ e) in
      let w1 = set_keeping lib k (set_reader lib r w) in
      let w2 = record w1 { reactor = unregistered input_event w1.conn.handler w1.reactor } in
      let (w', g, q, d) = schedule_execute-answer lib write writes p a w2 kind ans in
      (w', rw (read_request-whole (c ∷ s) (prepared lib w) r p f, keeps, g) refl, q, d)
