-- ===== src/Tls/Clients/Busy.antt =====
-- Whether the reactor of a client has a handler left (libiqxmlrpc/reactor_impl.h).
use libiqxmlrpc.Prelude.{
  ℕ, suc, false, List, [], ◌∷◌, ◌++◌, Option, none, some, length, ◌==◌, ◌≡◌, ◌≢◌, refl, inl, inr,
  arith, Option-cases,
}
use libiqxmlrpc.Reactor.{
  Reactor, Handler, Events, register_handler, find_handler, find_handler_state, fake_event, map_key,
}
use libiqxmlrpc.Reactor.Table.{lookup}
use libiqxmlrpc.Server.Execute.{registered}
use libiqxmlrpc.Client.{is_idle}
use libiqxmlrpc.Tls.Servers.{faked}

suc_is_not_zero : (n : ℕ) → (suc n == 0) ≡ false
suc_is_not_zero n = ground arith

append-busy : (xs : List (ℕ × Handler)) (x : ℕ × Handler) → (length (xs ++ x ∷ []) == 0) ≡ false
append-busy [] x = refl
append-busy (y ∷ xs) x = suc_is_not_zero (length (xs ++ x ∷ []))

-- A reactor with a handler, or one that has used the end of a list.
abbrev pub IsBusy : Option Reactor → Type 0
IsBusy x = is_idle x ≡ false

found_rows :
    (fd : ℕ) (hs : List (ℕ × Handler)) → lookup map_key fd hs ≢ none → (length hs == 0) ≡ false
unfolding lookup
found_rows fd [] h = absurd (h refl)
found_rows fd (x ∷ hs) h = suc_is_not_zero (length hs)

found_handlers :
    (fd : ℕ) (k : Handler) (r : Reactor)
    → find_handler r fd ≡ some k
    → (length r.handlers == 0) ≡ false
unfolding find_handler
found_handlers fd k r h = found_rows fd r.handlers (ground (arith, h))

pub registered-IsBusy : (m : Events) (h : Handler) (x : Option Reactor) → IsBusy (registered m h x)
unfolding register_handler
registered-IsBusy m h none = refl
registered-IsBusy m h (some r) = elim (Option-cases (find_handler r h.fd)) [
  | inl e ↦ rw (registered, register_handler, e) (append-busy r.handlers (h.fd, h))
  | inr (k, e) ↦ elim (Option-cases (find_handler_state r h)) [
    | inl q ↦ rw (registered, register_handler, e, q) refl
    | inr (s, q) ↦ rw (registered, register_handler, e, q) (found_handlers h.fd k r e)
  ]
]

pub faked-IsBusy : (m : Events) (h : Handler) (x : Option Reactor) → IsBusy x → IsBusy (faked m h x)
unfolding fake_event
faked-IsBusy m h none b = refl
faked-IsBusy m h (some r) b = b
