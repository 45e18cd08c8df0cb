-- ===== src/Server/Answers.antt =====
-- The answer that a request gets (libiqxmlrpc/server.cc, executor.cc).
use libiqxmlrpc.Exceptions.{
  Thrown, http, xml, fault, exception, std_exception, unknown, Caught, error_response, coded,
  standard, anything, undefined, caught,
}
use libiqxmlrpc.Http.Errors.{ErrorHead}
use libiqxmlrpc.Http.Packets.{Packet, set_keep_alive, dump_packet}
use libiqxmlrpc.Methods.{Outcome}
use libiqxmlrpc.Prelude.Bytes.{Bytes, codes}
use libiqxmlrpc.Prelude.Int.{negsuc}
use mathlib.Core.Path.{subst}
use libiqxmlrpc.Prelude.{
  ℕ, suc, ◌+◌, Bool, List, [], ◌∷◌, ◌++◌, Option, none, some, Result, ok, err, Result-cases, ◌≡◌,
  refl, ◌∙◌, inl, inr, arith,
}
use libiqxmlrpc.ResponseParser.{Response, fault, result, dump_response}
use libiqxmlrpc.Server.Execute.{
  D, Ran, output_event, registered, do_schedule_response, conn_schedule_response, response_packet,
  error_of, delete_executor, schedule_response, serial_end, run, execute, make_executor,
  catch_thrown, or_catch, schedule_execute,
}
use libiqxmlrpc.Server.{Library, ExecutorKind, serial, pooled, Executor, World, log_err_msg}
use libiqxmlrpc.XmlBuilder.{Event}

module _ (lib : Library) where
  -- An answer: an error of HTTP, or a response.
  pub data Answer : Type 0 where
    refusal : ErrorHead → Answer
    reply : Response (D lib) → Answer

  -- The answer to an exception: one of HTTP is answered as such, an `Exception` by its code and its
  -- text, all else by -32500.
  abbrev pub answer_caught : Caught → Option Answer
  answer_caught (error_response head text) = some (refusal head)
  answer_caught (coded c text) = some (reply (Response.fault c text))
  answer_caught (standard text) = some (reply (Response.fault (negsuc 32499) text))
  answer_caught anything = some (reply (Response.fault (negsuc 32499) (codes "Unknown Error")))
  answer_caught undefined = none

  abbrev pub answer_thrown : Option Thrown → Outcome (D lib) → Option Answer
  answer_thrown none o = some (reply (result o.value))
  answer_thrown (some e) o = answer_caught (caught e)

  -- The answer to a request: of what was thrown on the way to the method, or of what the method did.
  abbrev pub answer_made : Result Thrown (Executor (D lib)) → Option Answer
  answer_made (err e) = answer_caught (caught e)
  answer_made (ok x) = answer_thrown (run lib x).thrown (run lib x)

  unfoldable pub answer : Packet → World (D lib) → Option Answer
  answer pkt w = answer_made (make_executor lib pkt w)

  module _ (write : List Event → Bytes)
      (writes : (es : List Event) → lib.document es ≡ ok (write es)) where
    abbrev pub answer_packet : Answer → Packet
    answer_packet (refusal head) = error_of lib head
    answer_packet (reply resp) =
        response_packet lib (write (dump_response lib.lexical lib.omit_string_tag resp))

    abbrev pub answer_text : Bool → Answer → Bytes
    answer_text keep a = dump_packet lib.texts (set_keep_alive lib.texts keep (answer_packet a))

    -- An executor is deleted, where there is one.
    abbrev pub executors : Option ExecutorKind → ℕ
    executors none = 0
    executors (some k) = 1

    -- A call that comes back, and has given the answer, and nothing else, to the connection to send.
    abbrev pub Answered : Answer → Option ExecutorKind → World (D lib) → Ran (D lib) → Type 0
    Answered a exec w x =
        (w' : World (D lib)) × (x ≡ (ok tt, w'))
        × (w'.responses ≡ w.responses ++ answer_text w.conn.keep_alive a ∷ [])
        × (w'.deleted ≡ w.deleted + executors exec)
        × (w'.created ≡ w.created)
        × (w'.conn ≡ record w.conn { response = answer_text w.conn.keep_alive a })
        × (w'.reactor ≡ registered output_event w.conn.handler w.reactor)

    delete_executor-Answered :
        (a : Answer) (exec : Option ExecutorKind) (w : World (D lib))
        → Answered a exec w
            (ok tt, delete_executor lib exec (conn_schedule_response lib (answer_packet a) w))
    unfolding conn_schedule_response do_schedule_response
    delete_executor-Answered a none w = (_, refl, refl, omega arith, refl, refl, refl)
    delete_executor-Answered a (some serial) w = (_, refl, refl, omega arith, refl, refl, refl)
    delete_executor-Answered a (some pooled) w = (_, refl, refl, omega arith, refl, refl, refl)

    pub schedule_response-Answered :
        (resp : Response (D lib)) (exec : Option ExecutorKind) (w : World (D lib))
        → Answered (reply resp) exec w (schedule_response lib resp exec w)
    unfolding schedule_response
    schedule_response-Answered resp exec w =
        rw (writes (dump_response lib.lexical lib.omit_string_tag resp))
          (delete_executor-Answered (reply resp) exec w)

    catch_thrown-Answered :
        (e : Thrown) (c : Caught) (a : Answer) (exec : Option ExecutorKind) (w : World (D lib))
        → answer_caught c ≡ some a
        → Answered a exec w (catch_thrown lib e c exec w)
    unfolding log_err_msg
    catch_thrown-Answered e (error_response head text) a exec w h =
        let w1 = log_err_msg text w in
        let q : refusal head ≡ a = cc in
        subst (λ b. Answered b exec w (catch_thrown lib e (error_response head text) exec w)) q
          (delete_executor-Answered (refusal head) exec w1)
    catch_thrown-Answered e (coded c text) a exec w h =
        let w1 = log_err_msg (codes "Server: " ++ text) w in
        let q : reply (Response.fault c text) ≡ a = cc in
        subst (λ b. Answered b exec w (catch_thrown lib e (coded c text) exec w)) q
          (schedule_response-Answered (Response.fault c text) exec w1)
    catch_thrown-Answered e (standard text) a exec w h =
        let w1 = log_err_msg (codes "Server: " ++ text) w in
        let q : reply (Response.fault (negsuc 32499) text) ≡ a = cc in
        subst (λ b. Answered b exec w (catch_thrown lib e (standard text) exec w)) q
          (schedule_response-Answered (Response.fault (negsuc 32499) text) exec w1)
    catch_thrown-Answered e anything a exec w h =
        let w1 = log_err_msg (codes "Server: Unknown exception") w in
        let q : reply (Response.fault (negsuc 32499) (codes "Unknown Error")) ≡ a = cc in
        subst (λ b. Answered b exec w (catch_thrown lib e anything exec w)) q
          (schedule_response-Answered (Response.fault (negsuc 32499) (codes "Unknown Error")) exec
            w1)
    catch_thrown-Answered e undefined a exec w h = cc

    or_catch-Answered :
        (a : Answer) (exec k : Option ExecutorKind) (w : World (D lib)) (x : Ran (D lib))
        → Answered a exec w x
        → Answered a exec w (or_catch lib k x)
    or_catch-Answered a exec k w x (w', e, p, q, r, c, z) = (w', rw e refl, p, q, r, c, z)

    -- What the executor without a pool does with what the method did.
    serial_end-Answered :
        (e : Option Thrown) (o : Outcome (D lib)) (a : Answer) (w : World (D lib))
        → answer_thrown e o ≡ some a
        → Answered a (some serial) w (or_catch lib (some serial) (serial_end lib e o.value w))
    unfolding caught
    serial_end-Answered none o a w h =
        let q : reply (result o.value) ≡ a = cc in
        let x = serial_end lib none o.value w in
        subst (λ b. Answered b (some serial) w (or_catch lib (some serial) x)) q
          (or_catch-Answered (reply (result o.value)) (some serial) (some serial) w x
            (schedule_response-Answered (result o.value) (some serial) w))
    serial_end-Answered (some (fault c s)) o a w h =
        let q : reply (Response.fault c s) ≡ a = cc in
        let x = serial_end lib (some (fault c s)) o.value w in
        subst (λ b. Answered b (some serial) w (or_catch lib (some serial) x)) q
          (or_catch-Answered (reply (Response.fault c s)) (some serial) (some serial) w x
            (schedule_response-Answered (Response.fault c s) (some serial) w))
    serial_end-Answered (some (xml e s)) o a w h =
        catch_thrown-Answered (xml e s) (caught (xml e s)) a (some serial) w h
    serial_end-Answered (some (http e)) o a w h =
        catch_thrown-Answered (http e) (caught (http e)) a (some serial) w h
    serial_end-Answered (some (exception c s)) o a w h =
        catch_thrown-Answered (exception c s) (coded c s) a (some serial) w h
    serial_end-Answered (some (std_exception s)) o a w h =
        catch_thrown-Answered (std_exception s) (standard s) a (some serial) w h
    serial_end-Answered (some unknown) o a w h =
        catch_thrown-Answered unknown anything a (some serial) w h

    execute-serial :
        (x : Executor (D lib)) (k : ExecutorKind) (w : World (D lib))
        → k ≡ serial
        → or_catch lib (some k) (execute lib k x w)
          ≡ or_catch lib (some serial) (serial_end lib (run lib x).thrown (run lib x).value w)
    unfolding execute
    execute-serial x k w e = rw e refl

    pub schedule_execute-Answered :
        (pkt : Packet) (a : Answer) (w : World (D lib))
        → w.server.exec_factory ≡ serial
        → answer pkt w ≡ some a
        → (w' : World (D lib)) × (schedule_execute lib pkt w ≡ (ok tt, w'))
          × (w'.responses ≡ w.responses ++ answer_text w.conn.keep_alive a ∷ [])
          × (w'.deleted + w.created ≡ w.deleted + w'.created)
          × (w'.conn ≡ record w.conn { response = answer_text w.conn.keep_alive a })
          × (w'.reactor ≡ registered output_event w.conn.handler w.reactor)
    unfolding answer schedule_execute execute
    schedule_execute-Answered pkt a w kind h = elim (Result-cases (make_executor lib pkt w)) [
      | inl (x, e) ↦
          let h' : answer_thrown (run lib x).thrown (run lib x) ≡ some a = rw e at h in
          let (w', f, p, q, r, c, z) =
            serial_end-Answered (run lib x).thrown (run lib x) a
              (record w { created = suc w.created }) h' in
          (
            w',
            rw e (
                execute-serial x w.server.exec_factory (record w { created = suc w.created }) kind
                ∙ f),
            p,
            omega arith,
            c,
            z,
          )
      | inr (x, e) ↦
          let h' : answer_caught (caught x) ≡ some a = rw e at h in
          let (w', f, p, q, r, c, z) = catch_thrown-Answered x (caught x) a none w h' in
          (w', rw e f, p, omega arith, c, z)
    ]

    -- Where libxml2 writes every document, a server without a pool gives exactly one answer to each request
    -- that has one, the one that `answer` says, and comes back: the answer's text is added to what the
    -- connection is to send, and as many executors are deleted as were made.
    pub schedule_execute-answer :
        (pkt : Packet) (a : Answer) (w : World (D lib))
        → w.server.exec_factory ≡ serial
        → answer pkt w ≡ some a
        → (w' : World (D lib)) × (schedule_execute lib pkt w ≡ (ok tt, w'))
          × (w'.responses ≡ w.responses ++ answer_text w.conn.keep_alive a ∷ [])
          × (w'.deleted + w.created ≡ w.deleted + w'.created)
    schedule_execute-answer pkt a w kind h =
        let (w', f, p, d, c, z) = schedule_execute-Answered pkt a w kind h in (w', f, p, d)
