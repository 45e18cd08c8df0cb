-- ===== src/Server/Sends.antt =====
-- How a response is sent in parts (`handle_output` of libiqxmlrpc/http_server.cc).
use Prim.Native.Nat.{min}
use libiqxmlrpc.Prelude.Bytes.{Bytes}
use libiqxmlrpc.Prelude.{
  ℕ, zero, suc, ◌≤◌, ◌<◌, true, List, [], ◌∷◌, ◌++◌, Option, none, some, ok, length, length-drop,
  take, drop, ◌==◌, if◌then◌else◌, ◌≡◌, refl, ap, arith, All, Bool-cases, inl, inr,
}
use libiqxmlrpc.Server.Execute.{D}
use libiqxmlrpc.Server.Handlers.{Handled, handle_output, all_sent}
use libiqxmlrpc.Server.{Library, World}

abbrev pub IsRoom : ℕ → Type 0
IsRoom n = 0 < n

module _ (lib : Library) where
  -- The calls of `handle_output` until one has sent all, where the socket has room for these numbers of
  -- bytes: what was sent, how the last call ended if it did, and the state.
  unfoldable pub send_all : List ℕ → World (D lib) → Bytes × Option (Handled lib) × World (D lib)
  send_all [] w = ([], none, w)
  send_all (n ∷ ns) w =
      let s : Bytes = w.conn.response in
      let sz : ℕ = min n (length s) in
      let h : Handled lib = handle_output lib (ok sz) w in
      let rest : Bytes × Option (Handled lib) × World (D lib) = send_all ns h.1 in
      if sz == length s then (take sz s, some h, h.1) else (take sz s ++ rest.0, rest.1, rest.2)

  ==_refl : (n : ℕ) → (n == n) ≡ true
  ==_refl n = ground arith

  take-drop : (n : ℕ) (s : Bytes) → take n s ++ drop n s ≡ s
  take-drop zero s = refl
  take-drop (suc n) [] = refl
  take-drop (suc n) (c ∷ s) = ap (◌∷◌ c) (take-drop n s)

  take-length : (s : Bytes) → take (length s) s ≡ s
  take-length [] = refl
  take-length (c ∷ s) = ap (◌∷◌ c) (take-length s)

  -- A response is sent completely, byte for byte and in order, once the socket has been ready as often
  -- as the response is long, and had room for at least a byte each time. The last call terminates the
  -- connection where it is not kept alive; else the connection waits for input again, and for output
  -- no longer.
  pub send_all-response :
      (ns : List ℕ) (w : World (D lib))
      → All IsRoom ns
      → length w.conn.response ≤ length ns
      → 0 < length w.conn.response
      → (w' : World (D lib)) × (send_all ns w ≡ (
        w.conn.response,
        some (all_sent lib w.conn.keep_alive w'),
        (all_sent lib w.conn.keep_alive w').1,
      ))
        × (w'.reactor ≡ w.reactor)
        × (w'.conn.handler ≡ w.conn.handler)
        × (w'.responses ≡ w.responses)
  unfolding send_all handle_output
  send_all-response [] w room le pos = absurd (omega arith)
  send_all-response (n ∷ ns) w (r, room) le pos =
      let s = w.conn.response in
      elim (Bool-cases (min n (length s) == length s)) [
        | inl e ↦
            let q : min n (length s) ≡ length s = ground (arith, e) in
            (w, rw (q, ==_refl (length s), take-length s), refl, refl, refl)
        | inr e ↦
            let w1 = record w { conn = record w.conn { response = drop (min n (length s)) s } } in
            let le' : length (drop (min n (length s)) s) ≤ length ns =
              ground (arith, length-drop (min n (length s)) s) in
            let pos' : 0 < length (drop (min n (length s)) s) =
              ground (arith, e, length-drop (min n (length s)) s) in
            let (w', f, p, q, t) = send_all-response ns w1 room le' pos' in
            (w', rw (e, f, take-drop (min n (length s)) s), p, q, t)
      ]
