-- ===== src/Client/Session.antt =====
-- A session of a client on a connection (libiqxmlrpc/http_client.cc, client_conn.cc).
use Prim.Native.Nat.{min}
use mathlib.Core.List.{append_assoc, append-nil}
use libiqxmlrpc.Client.{
  Connection, Happening, can_send, gives, read_buf_sz, handle_output, input_loop, handle_input,
  happen, session_loop, do_process_session,
}
use libiqxmlrpc.Exceptions.{Thrown}
use libiqxmlrpc.Http.Packets.{Packet, parse_response_header}
use libiqxmlrpc.Http.Reader.Contents.{read_pieces, keep}
use libiqxmlrpc.Http.Reader.{Reader, Read, read_packet, read_response, ◌then_read◌}
use libiqxmlrpc.Prelude.Bytes.{Bytes}
use libiqxmlrpc.Prelude.{
  ℕ, ◌≤◌, ◌<◌, false, List, [], ◌∷◌, ◌++◌, map, Option, none, some, ok, err, length, length-drop,
  take, drop, ◌==◌, ◌≡◌, refl, sym, ap, All, arith, ◌⊎◌, ◌∙◌, inl, inr,
}
use libiqxmlrpc.Reactor.{Reactor, Handler, Events, count_stopper, forget_stopper}
use libiqxmlrpc.Reactor.Masks.{mask_of}
use libiqxmlrpc.Reactor.Single.{
  only, nobody, only-output, only-state, only-unregister, nobody-register,
}
use libiqxmlrpc.Server.Execute.{registered, input_event, output_event}
use libiqxmlrpc.Server.Handlers.{unregistered}
use libiqxmlrpc.Server.{Library}
use libiqxmlrpc.Server.Sends.{IsRoom}

-- One piece at a time; what `recv` throws where it has no more to give is not met.
abbrev pub arrives : Thrown → Bytes → Happening
arrives blocked s = gives (s ∷ []) blocked

-- A piece that does not fill the buffer.
abbrev pub IsShort : Bytes → Type 0
IsShort s = (0 < length s) × (length s < 65536)

later :
    (y : Option Packet) (x : Read (List Packet)) (p : Packet) (r' : Reader)
    → (x then_read λ ps r2. (ok (keep y ps), r2)) ≡ (ok (p ∷ []), r')
    → (y ≡ some p) ⊎ ((y ≡ none) × (x ≡ (ok (p ∷ []), r')))
later y (err e, r) p r' h = cc
later none (ok ps, r) p r' h = inr (refl, cc)
later (some q) (ok ps, r) p r' h = inl cc

empty_or_not : (s : Bytes) → (s ≡ []) ⊎ ((x : ℕ) × (u : Bytes) × (s ≡ x ∷ u))
empty_or_not [] = inl refl
empty_or_not (x ∷ u) = inr (x, u, refl)

take-drop : (n : ℕ) (s : Bytes) → take n s ++ drop n s ≡ s
take-drop ℕ.zero s = refl
take-drop (ℕ.suc n) [] = refl
take-drop (ℕ.suc n) (x ∷ s) = ap (◌∷◌ x) (take-drop n s)

module _ (lib : Library) (blocked : Thrown) where
  abbrev pub reads : List Bytes → Reader → Read (List Packet)
  reads ss r = read_pieces lib.texts (parse_response_header lib.texts) ss r

  -- What the first call gave, where the calls gave one packet.
  pub first_call :
      (x : Read (Option Packet)) (ss : List Bytes) (p : Packet) (r' : Reader)
      → (x then_read λ y r1. reads ss r1 then_read λ ps r2. (ok (keep y ps), r2))
        ≡ (ok (p ∷ []), r')
      → (y : Option Packet) × (r1 : Reader) × (x ≡ (ok y, r1))
        × ((y ≡ some p) ⊎ ((y ≡ none) × (reads ss r1 ≡ (ok (p ∷ []), r'))))
  first_call (err e, r1) ss p r' h = cc
  first_call (ok y, r1) ss p r' h = (y, r1, refl, later y (reads ss r1) p r' h)

  -- A connection in a session: what it has read, what is to be sent, what was, and its reactor.
  abbrev pub stage : Connection → Reader → Bytes → Bytes → Reactor → Connection
  stage c pre s t r = record c {
    preader = pre;
    out_str = s;
    taken = t;
    resp_packet = none;
    reactor = some r;
  }

  -- The session is over: its text was taken, and the reactor has no handler.
  abbrev pub over : Connection → Reader → Bytes → Packet → ℕ → Connection
  over c pre t p k = record c {
    preader = pre;
    out_str = [];
    taken = t;
    resp_packet = some p;
    reactor = some (nobody k);
  }

  mask_of-only : (h : Handler) (m : Events) (k : ℕ) → mask_of h (some (only h m k)) ≡ m
  unfolding mask_of
  mask_of-only h m k = rw (mask_of, only-state) refl

  abbrev after_piece : Connection → Reader → Bytes → ℕ → Option Packet → Connection
  after_piece c r t k none = stage c r [] t (only c.handler input_event k)
  after_piece c r t k (some p) = over c r t p (forget_stopper c.handler k)

  -- A connection that waits for input reads a piece, and one that waits for output does not.
  happen-arrives :
      (s : Bytes) (c : Connection) (pre r : Reader) (t : Bytes) (k : ℕ) (x : Option Packet)
      → IsShort s
      → read_response lib.texts false s pre ≡ (ok x, r)
      → happen lib (arrives blocked s) (stage c pre [] t (only c.handler input_event k))
        ≡ ok (after_piece c r t k x)
  unfolding happen handle_input input_loop
  happen-arrives [] c pre r t k x short h = absurd (omega arith)
  happen-arrives (y ∷ s) c pre r t k none (lo, hi) h =
      let q : (length (y ∷ s) == read_buf_sz) ≡ false = ground arith in rw (mask_of-only, h, q) refl
  happen-arrives (y ∷ s) c pre r t k (some p) short h = rw (mask_of-only, h, only-unregister) refl

  session_loop-arrives :
      (ss : List Bytes) (c : Connection) (pre : Reader) (t : Bytes) (k : ℕ) (p : Packet)
      (r' : Reader)
      → All IsShort ss
      → reads ss pre ≡ (ok (p ∷ []), r')
      → (r : Reader) × (session_loop lib
            (map (arrives blocked) ss)
            (stage c pre [] t (only c.handler input_event k))
          ≡ some (ok (p, over c r t p (forget_stopper c.handler k))))
  unfolding session_loop read_pieces read_response
  session_loop-arrives [] c pre t k p r' short h =
      let h' : ◌≡◌ {A = Read (List Packet)} (ok [], pre) (ok (p ∷ []), r') = h in cc
  session_loop-arrives (s ∷ ss) c pre t k p r' (short, shorts) h =
      let (y, r1, f, z) =
        first_call (read_packet lib.texts (parse_response_header lib.texts) false s pre) ss p r'
          h in
      let g = happen-arrives s c pre r1 t k y short f in
      elim z [
        | inl e ↦ (r1, rw (g, e) refl)
        | inr (e, m) ↦
            let (r2, g2) = session_loop-arrives ss c r1 t k p r' shorts m in (r2, rw (g, e) g2)
      ]

  -- Where the socket has room but the connection waits for input, nothing happens.
  session_loop-idle :
      (ns : List ℕ) (hs : List Happening) (c : Connection) (pre : Reader) (t : Bytes) (k : ℕ)
      → session_loop lib (map can_send ns ++ hs) (stage c pre [] t (only c.handler input_event k))
        ≡ session_loop lib hs (stage c pre [] t (only c.handler input_event k))
  unfolding session_loop happen
  session_loop-idle [] hs c pre t k = refl
  session_loop-idle (n ∷ ns) hs c pre t k = rw mask_of-only (session_loop-idle ns hs c pre t k)

  -- The stoppers that the reactor counts behind the end of the text.
  abbrev turned : Handler → ℕ → ℕ
  turned h k = count_stopper h (forget_stopper h k)

  abbrev after_room : Connection → Reader → Bytes → ℕ → Bytes → Connection
  after_room c pre t k [] = stage c pre [] t (only c.handler input_event (turned c.handler k))
  after_room c pre t k (x ∷ s) = stage c pre (x ∷ s) t (only c.handler output_event k)

  happen-can_send :
      (n : ℕ) (c : Connection) (pre : Reader) (s t s' : Bytes) (k : ℕ)
      → drop (min n (length s)) s ≡ s'
      → happen lib (can_send n) (stage c pre s t (only c.handler output_event k))
        ≡ ok (after_room c pre (t ++ take (min n (length s)) s) k s')
  unfolding happen handle_output
  happen-can_send n c pre s t [] k h =
      rw (mask_of-only, h, unregistered, only-output, registered, nobody-register) refl
  happen-can_send n c pre s t (x ∷ u) k h = rw (mask_of-only, h) refl

  session_loop-can_send :
      (ns : List ℕ) (hs : List Happening) (c : Connection) (pre : Reader) (s t : Bytes) (k : ℕ)
      → All IsRoom ns
      → 0 < length s
      → length s ≤ length ns
      → session_loop lib (map can_send ns ++ hs) (stage c pre s t (only c.handler output_event k))
        ≡ session_loop lib hs
            (stage c pre [] (t ++ s) (only c.handler input_event (turned c.handler k)))
  unfolding session_loop
  session_loop-can_send [] hs c pre s t k room more le = absurd (omega arith)
  session_loop-can_send (n ∷ ns) hs c pre s t k (pos, room) more le =
      let m : ℕ = min n (length s) in
      let cut = take-drop m s in
      elim (empty_or_not (drop m s)) [
        | inl e ↦
            let whole : take m s ≡ s =
              sym (append-nil (take m s)) ∙ ap (λ u. take m s ++ u) (sym e) ∙ cut in
            rw (happen-can_send n c pre s t [] k e) (
              session_loop-idle ns hs c pre (t ++ take m s) (turned c.handler k)
              ∙ ap
                  (λ u.
                    session_loop lib hs
                      (stage c pre [] (t ++ u) (only c.handler input_event (turned c.handler k))))
                  whole)
        | inr (x, u, e) ↦
            let le' : length (x ∷ u) ≤ length ns = ground (arith, ap length e, length-drop m s) in
            let whole : (t ++ take m s) ++ (x ∷ u) ≡ t ++ s =
              append_assoc t (take m s) (x ∷ u)
              ∙ ap (λ v. t ++ (take m s ++ v)) (sym e)
              ∙ ap (λ v. t ++ v) cut in
            rw (happen-can_send n c pre s t (x ∷ u) k e) (
              session_loop-can_send ns hs c pre (x ∷ u) (t ++ take m s) k room (omega arith) le'
              ∙ ap
                  (λ v.
                    session_loop lib hs
                      (stage c pre [] v (only c.handler input_event (turned c.handler k))))
                  whole)
      ]

  -- A session, with no handler in its reactor and a text to send, gets its turn as often as the text is
  -- long or more often, with room for at least a byte each time, and then the pieces of a message, each
  -- shorter than the buffer and not empty, of which the reader makes one packet and no other. A handler
  -- is only called for what it is registered for. The session comes back with that packet; what the
  -- socket took is the text, once and in order, nothing is left to send, and the reactor has no handler.
  pub do_process_session-packet :
      (text : Bytes) (ns : List ℕ) (ss : List Bytes) (c : Connection) (p : Packet) (r : Reader)
      (k : ℕ)
      → c.reactor ≡ some (nobody k)
      → All IsRoom ns
      → 0 < length text
      → length text ≤ length ns
      → All IsShort ss
      → read_pieces lib.texts (parse_response_header lib.texts) ss c.preader ≡ (ok (p ∷ []), r)
      → (r' : Reader) × (k' : ℕ) × (do_process_session lib text
            (map can_send ns ++ map (arrives blocked) ss)
            c
          ≡ some (ok (p, over c r' (c.taken ++ text) p k')))
  unfolding do_process_session
  do_process_session-packet text ns ss c p r k none_yet room more le short h =
      let k1 = count_stopper c.handler k in
      let k2 = turned c.handler k1 in
      let hs = map (arrives blocked) ss in
      let (r', g) = session_loop-arrives ss c c.preader (c.taken ++ text) k2 p r short h in
      (
        r',
        forget_stopper c.handler k2,
        ap
              (λ x.
                session_loop lib (map can_send ns ++ hs)
                  (record c { out_str = text; resp_packet = none; reactor = x }))
              (ap (registered output_event c.handler) none_yet
                ∙ nobody-register c.handler k output_event)
            ∙ session_loop-can_send ns hs c c.preader text c.taken k1 room more le
            ∙ g,
      )
