-- ===== src/Tls/Servers/Answers.antt =====
-- From a request that comes under TLS to its answer, sent (libiqxmlrpc/https_server.cc,
-- ssl_connection.cc, server_conn.cc, server.cc).
use libiqxmlrpc.Http.Headers.{Header, content_length, conn_keep_alive}
use libiqxmlrpc.Http.Packets.{new_packet, parse_request_header}
use libiqxmlrpc.Http.Reader.Chunks.{read_pieces-one_packet}
use libiqxmlrpc.Http.Reader.Contents.{IsReady, join}
use libiqxmlrpc.Http.Reader.{Reader, crlf2, lf2}
use libiqxmlrpc.Http.Texts.{TextsLaws, first_of}
use libiqxmlrpc.Prelude.Bytes.{Bytes}
use libiqxmlrpc.Prelude.Int.{pos}
use mathlib.Core.List.{append-nil}
use libiqxmlrpc.Prelude.{
  ℕ, suc, ◌+◌, ◌<◌, Bool, false, List, [], ◌∷◌, ◌++◌, Option, none, some, ok, length, length-append,
  take, ◌==◌, ◌≡◌, refl, sym, ap, ◌∙◌, arith,
}
use libiqxmlrpc.Server.Answers.{Answer, answer, answer_text, schedule_execute-Answered}
use libiqxmlrpc.Server.Execute.{D, make_executor, input_event, output_event}
use libiqxmlrpc.Server.Handlers.{prepared, conn_read_request, set_reader, set_keeping, unregistered}
use libiqxmlrpc.Server.Requests.{read_request-whole}
use libiqxmlrpc.Server.{Library, serial, World}
use libiqxmlrpc.Tls.Reaction.{empty, reading, writing, handle_input, switch_state}
use libiqxmlrpc.Tls.Servers.Sends.{
  input, output, calls, calls_of, with_tls, unless_waits, called-registered, after_answer, Rests,
  Writes, calls-Sent,
}
use libiqxmlrpc.Reactor.Masks.{Waits, registered-Waits}
use libiqxmlrpc.Reactor.{Reactor, Handler}
use mathlib.Core.Path.{subst}
use libiqxmlrpc.Tls.Servers.{Serving, on_input, recv_succeed, reg_response}
use libiqxmlrpc.Tls.Verify.{Ctx}
use libiqxmlrpc.Tls.{Openssl, to_int, to_size, recv}
use libiqxmlrpc.XmlBuilder.{Event}

module _ (lib : Library) (api : Openssl) where
  abbrev pub reading_tls :
      (c : Ctx api) (a : api.Ssl) (s : Bytes) (len : ℕ) (w : World (D lib)) → Serving lib api
  reading_tls c a s len w = record {
    tls = record { ssl_ctx = c; ssl = a; state = reading; send_buf = s; buf_len = len };
    world = w;
  }

  module _ (laws : TextsLaws lib.texts) (write : List Event → Bytes)
      (writes : (es : List Event) → lib.document es ≡ ok (write es)) where
    conn_read_request-whole :
        (head body s : Bytes) (h : Header) (keep_alive : Bool) (w : World (D lib))
        → IsReady (prepared lib w)
        → parse_request_header lib.texts w.server.ver_level head ≡ ok h
        → content_length lib.texts h ≡ ok (length body)
        → first_of crlf2 (head ++ crlf2) ≡ some (head, [])
        → first_of lf2 (head ++ crlf2) ≡ none
        → s ≡ head ++ crlf2 ++ body
        → conn_keep_alive (new_packet lib.texts h body).header ≡ ok keep_alive
        → (r : Reader) × (conn_read_request lib s w ≡ (
          ok (some (new_packet lib.texts h body)),
          set_keeping lib keep_alive (set_reader lib r w),
        ))
    unfolding conn_read_request join
    conn_read_request-whole head body s h k w ready parsed len ends no_end e keeps =
        let le : 0 < length s =
          omega
            (arith, ap length e, length-append (head ++ crlf2) body, length-append head crlf2) in
        let p = new_packet lib.texts h body in
        let (r, f, _) =
          read_pieces-one_packet lib.texts laws (parse_request_header lib.texts) head body h len
            w.server.ver_level parsed ends no_end (s ∷ []) (prepared lib w) ready refl (le, tt)
            (append-nil s ∙ e) in
        (r, rw (read_request-whole lib laws write writes s (prepared lib w) r p f, keeps) refl)

    longer : (n m : ℕ) → n ≡ m + 1 → (n == m) ≡ false
    longer n m h = ground arith

    reg_response-one :
        (before after : World (D lib)) (c : Ctx api) (b : api.Ssl) (s0 s : Bytes) (len : ℕ)
        → after.responses ≡ before.responses ++ s ∷ []
        → after.conn.response ≡ s
        → reg_response lib api before after
            (record { ssl_ctx = c; ssl = b; state = empty; send_buf = s0; buf_len = len })
          ≡ record { ssl_ctx = c; ssl = b; state = writing; send_buf = s; buf_len = length s }
    reg_response-one before after c b s0 s len h q =
        let ne : (length after.responses == length before.responses) ≡ false =
          longer (length after.responses) (length before.responses)
            (ap length h ∙ length-append before.responses (s ∷ [])) in
        rw (ne, q) refl

    -- The call that gets a request sets the connection to write its answer.
    on_input-answer :
        (head body buf s0 : Bytes) (n len : ℕ) (h : Header) (k : Bool) (ans : Answer lib)
        (c : Ctx api) (a b : api.Ssl) (w : World (D lib))
        → w.server.exec_factory ≡ serial
        → IsReady (prepared lib w)
        → parse_request_header lib.texts w.server.ver_level head ≡ ok h
        → content_length lib.texts h ≡ ok (length body)
        → first_of crlf2 (head ++ crlf2) ≡ some (head, [])
        → first_of lf2 (head ++ crlf2) ≡ none
        → conn_keep_alive (new_packet lib.texts h body).header ≡ ok k
        → answer lib (new_packet lib.texts h body) w ≡ some ans
        → Waits input_event w.conn.handler w.reactor
        → api.read (to_int len) a ≡ ((pos (suc n), buf), b)
        → take (suc n) buf ≡ head ++ crlf2 ++ body
        → (w' : World (D lib)) × (on_input lib api (reading_tls c a s0 len w)
            ≡ (ok false, with_tls lib api c b (answer_text lib write writes k ans) w'))
          × (w'.conn.keep_alive ≡ k)
          × Waits output_event w'.conn.handler w'.reactor
          × (w'.responses ≡ w.responses ++ answer_text lib write writes k ans ∷ [])
    unfolding handle_input switch_state recv recv_succeed to_size answer make_executor
    on_input-answer head body buf s0 n len h k ans c a b w kind ready parsed size ends no_end keeps
          replies waits reads e =
        let w0 = record w { reactor = unregistered input_event w.conn.handler w.reactor } in
        let p = new_packet lib.texts h body in
        let (r, f) =
          conn_read_request-whole head body (take (suc n) buf) h k w0 ready parsed size ends no_end
            e keeps in
        let w1 = set_keeping lib k (set_reader lib r w0) in
        let (w', g, q, d, u, z) =
          schedule_execute-Answered lib write writes p ans w1 kind replies in
        (
          w',
          rw (reads, f, g)
              (ap (λ t. (ok false, record { tls = t; world = w' }))
                (reg_response-one w0 w' c b s0 (answer_text lib write writes k ans) len q
                  (ap (λ x. x.response) u))),
          ap (λ x. x.keep_alive) u,
          subst (λ (x : Handler × Option Reactor). Waits output_event x.0 x.1)
              (λ i. ((sym u i).handler, sym z i))
              (registered-Waits output_event input_event input_event w.conn.handler w.reactor waits
                refl refl),
          q,
        )

    -- A connection under TLS of a server without a pool, that is reading, waits for input and has a ready
    -- reader, gets a request from one call of `SSL_read`: the text of a header that is read, its end,
    -- which is where the text first ends, and a content as long as the header says. A handler is only
    -- called for what it is registered for. The connection then writes the answer to that header and that
    -- content: `SSL_write` is called with the whole text of it as long as it asks for the socket, when
    -- what it asks for has happened. Behind the call that takes all of it nothing is left to send. Where
    -- the request keeps the connection alive, it reads, waiting for input; else it shuts down, waiting for
    -- output, or for input where it has sent its notice already, or it terminates where both sides have.
    -- The answer, and nothing else, is what was given to the connection to send; libxml2 is assumed to
    -- write every document.
    pub calls-answer :
        (head body buf s0 : Bytes) (n len m : ℕ) (h : Header) (k : Bool) (ans : Answer lib)
        (c : Ctx api) (a b d : api.Ssl) (w : World (D lib))
        → w.server.exec_factory ≡ serial
        → IsReady (prepared lib w)
        → parse_request_header lib.texts w.server.ver_level head ≡ ok h
        → content_length lib.texts h ≡ ok (length body)
        → first_of crlf2 (head ++ crlf2) ≡ some (head, [])
        → first_of lf2 (head ++ crlf2) ≡ none
        → conn_keep_alive (new_packet lib.texts h body).header ≡ ok k
        → answer lib (new_packet lib.texts h body) w ≡ some ans
        → Waits input_event w.conn.handler w.reactor
        → api.read (to_int len) a ≡ ((pos (suc n), buf), b)
        → take (suc n) buf ≡ head ++ crlf2 ++ body
        → (x : Writes api (answer_text lib write writes k ans) m b d)
        → (w' : World (D lib)) × (w'.responses
            ≡ w.responses ++ answer_text lib write writes k ans ∷ [])
          × Rests lib api c d
              (answer_text lib write writes k ans)
              w'
              (after_answer k (api.get_shutdown d) (length (answer_text lib write writes k ans)))
              (calls lib api (input ∷ output ∷ calls_of x) (reading_tls c a s0 len w))
    unfolding calls
    calls-answer head body buf s0 n len m h k ans c a b d w kind ready parsed size ends no_end keeps
          replies waits reads e x =
        let (w', f, q, v, u) =
          on_input-answer head body buf s0 n len h k ans c a b w kind ready parsed size ends no_end
            keeps replies waits reads e in
        let s = answer_text lib write writes k ans in
        let g = calls-Sent lib api c s output m b d w' x v in
        (
          w',
          u,
          subst (Rests lib api c d s w' (after_answer k (api.get_shutdown d) (length s)))
              (sym (
                ap (λ y. unless_waits lib api y (λ t. calls lib api (output ∷ calls_of x) t))
                  (called-registered lib api input (reading_tls c a s0 len w) waits ∙ f)))
              (subst
                (λ z.
                  Rests lib api c d s w' (after_answer z (api.get_shutdown d) (length s))
                    (calls lib api (output ∷ calls_of x) (with_tls lib api c b s w')))
                q g),
        )
