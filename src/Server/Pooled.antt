-- ===== src/Server/Pooled.antt =====
-- The answer that a thread of the pool gives (`Pool_executor` of libiqxmlrpc/executor.cc).
use libiqxmlrpc.Exceptions.{
  Thrown, http, xml, fault, exception, std_exception, unknown, Caught, error_response, coded,
  standard, anything, undefined, caught,
}
use libiqxmlrpc.Http.Packets.{Packet}
use libiqxmlrpc.Prelude.Bytes.{Bytes, codes}
use libiqxmlrpc.Prelude.Int.{negsuc}
use mathlib.Core.Path.{subst}
use libiqxmlrpc.Prelude.{suc, ◌+◌, List, [], ◌∷◌, ◌++◌, Option, none, some, ok, ◌≡◌, refl, arith}
use libiqxmlrpc.ResponseParser.{Response, fault, result}
use libiqxmlrpc.Server.Answers.{reply, answer_text, Answered, schedule_response-Answered}
use libiqxmlrpc.Server.Execute.{
  D, Ran, run, execute, schedule_execute, make_executor, or_catch, pool_catch, or_pool_catch,
  pool_try, process_actual_execution, schedule_response, pool_round,
}
use libiqxmlrpc.Server.{Library, pooled, ExecutorKind, Executor, World}
use libiqxmlrpc.Value.{Value}
use libiqxmlrpc.XmlBuilder.{Event}

module _ (lib : Library) where
  -- All but a `Fault` is answered by -1.
  abbrev pub pool_reply_caught : Caught → Option (Response (D lib))
  pool_reply_caught (error_response head text) = some (Response.fault (negsuc 0) text)
  pool_reply_caught (coded c text) = some (Response.fault (negsuc 0) text)
  pool_reply_caught (standard text) = some (Response.fault (negsuc 0) text)
  pool_reply_caught anything = some (Response.fault (negsuc 0) (codes "Unknown Error"))
  pool_reply_caught undefined = none

  abbrev pub pool_reply : Option Thrown → Value (D lib) → Option (Response (D lib))
  pool_reply none v = some (result v)
  pool_reply (some (fault c s)) v = some (Response.fault c s)
  pool_reply (some e) v = pool_reply_caught (caught e)

  module _ (write : List Event → Bytes)
      (writes : (es : List Event) → lib.document es ≡ ok (write es)) where
    abbrev Replies : Response (D lib) → World (D lib) → Ran (D lib) → Type 0
    Replies resp w x = Answered lib write writes (reply resp) (some pooled) w x

    says-Replies :
        (r resp : Response (D lib)) (w : World (D lib))
        → ◌≡◌ {A = Option (Response (D lib))} (some r) (some resp)
        → Replies resp w (schedule_response lib r (some pooled) w)
    says-Replies r resp w h =
        let q : r ≡ resp = cc in
        subst (λ z. Replies z w (schedule_response lib r (some pooled) w)) q
          (schedule_response-Answered lib write writes r (some pooled) w)

    pool_catch-Replies :
        (e : Thrown) (c : Caught) (resp : Response (D lib)) (w : World (D lib))
        → pool_reply_caught c ≡ some resp
        → Replies resp w (pool_catch lib e c w)
    pool_catch-Replies e (error_response head text) resp w h = says-Replies _ resp w h
    pool_catch-Replies e (coded c text) resp w h = says-Replies _ resp w h
    pool_catch-Replies e (standard text) resp w h = says-Replies _ resp w h
    pool_catch-Replies e anything resp w h = says-Replies _ resp w h
    pool_catch-Replies e undefined resp w h = cc

    or_pool_catch-Replies :
        (e : Option Thrown) (v : Value (D lib)) (resp : Response (D lib)) (w : World (D lib))
        → pool_reply e v ≡ some resp
        → Replies resp w (or_pool_catch lib (pool_try lib e v w))
    unfolding caught
    or_pool_catch-Replies none v resp w h =
        let (w', f, p, q, r, c, z) = says-Replies (result v) resp w h in
        (w', rw f refl, p, q, r, c, z)
    or_pool_catch-Replies (some (fault c s)) v resp w h = says-Replies _ resp w h
    or_pool_catch-Replies (some (xml e s)) v resp w h =
        pool_catch-Replies (xml e s) (caught (xml e s)) resp w h
    or_pool_catch-Replies (some (http e)) v resp w h =
        pool_catch-Replies (http e) (caught (http e)) resp w h
    or_pool_catch-Replies (some (exception c s)) v resp w h =
        pool_catch-Replies (exception c s) (coded c s) resp w h
    or_pool_catch-Replies (some (std_exception s)) v resp w h =
        pool_catch-Replies (std_exception s) (standard s) resp w h
    or_pool_catch-Replies (some unknown) v resp w h = pool_catch-Replies unknown anything resp w h

    execute-pooled :
        (x : Executor (D lib)) (k : ExecutorKind) (w : World (D lib))
        → k ≡ pooled
        → w.req_queue ≡ []
        → or_catch lib (some k) (execute lib k x w) ≡ (ok tt, record w { req_queue = x ∷ [] })
    unfolding execute
    execute-pooled x k w e empty = rw (e, empty) refl

    -- Where libxml2 writes every document and no other request waits, a server with a pool only puts a
    -- request for which it finds a method into the queue; the round of a thread that takes it from there
    -- comes back and gives exactly one answer: the result, the `Fault` that the method threw, or for all
    -- else -1. As many executors are then deleted as were made.
    pub pool_round-answer :
        (pkt : Packet) (x : Executor (D lib)) (resp : Response (D lib)) (w : World (D lib))
        → w.server.exec_factory ≡ pooled
        → w.req_queue ≡ []
        → make_executor lib pkt w ≡ ok x
        → pool_reply (run lib x).thrown (run lib x).value ≡ some resp
        → (w1 w' : World (D lib)) × (schedule_execute lib pkt w ≡ (ok tt, w1))
          × (w1.responses ≡ w.responses)
          × (pool_round lib w1 ≡ (ok tt, w'))
          × (w'.responses
              ≡ w.responses ++ answer_text lib write writes w.conn.keep_alive (reply resp) ∷ [])
          × (w'.deleted + w.created ≡ w.deleted + w'.created)
    unfolding schedule_execute pool_round process_actual_execution
    pool_round-answer pkt x resp w kind empty made replies =
        let w1 = record w { created = suc w.created; req_queue = x ∷ [] } in
        let (w', f, p, q, r, c, z) =
          or_pool_catch-Replies (run lib x).thrown (run lib x).value resp
            (record w1 { req_queue = [] }) replies in
        (
          w1,
          w',
          rw made (
              execute-pooled x w.server.exec_factory (record w { created = suc w.created }) kind
                empty),
          refl,
          f,
          p,
          omega arith,
        )
