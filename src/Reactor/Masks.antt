-- ===== src/Reactor/Masks.antt =====
-- What the reactor asks the system for, and what is left of it when a handler is unregistered and
-- registered again (libiqxmlrpc/reactor_impl.h, reactor_poll_impl.cc).
use libiqxmlrpc.Prelude.{
  ℕ, false, List, [], ◌∷◌, Option, none, some, Option-cases, ◌==◌, ◌≡◌, refl, sym, ap, ◌∙◌, inl,
  inr, Bool-cases,
}
use mathlib.Core.Path.{subst}
use libiqxmlrpc.Reactor.Consistent.{
  IsConsistent, IsWaiting, register_handler-absent, find_handler-none,
}
use libiqxmlrpc.Reactor.Removal.{unregister_events-IsConsistent}
use libiqxmlrpc.Reactor.Table.{
  AreDistinct, member, update, member-lookup, keys-update, lookup, lookup-update,
}
use libiqxmlrpc.Reactor.{
  Reactor, Handler, HandlerState, Events, no_events, is_none, state_key, find_handler,
  find_handler_state, fake_event, add_revents,
}
use libiqxmlrpc.Server.Execute.{registered}
use libiqxmlrpc.Server.Handlers.{unregistered}
use libiqxmlrpc.Tls.Servers.{faked}

-- The events of a handler that the reactor waits for.
unfoldable pub mask_of : Handler → Option Reactor → Events
mask_of h none = no_events
mask_of h (some r) = elim (find_handler_state r h) [ none ↦ no_events | some s ↦ s.mask ]

-- Consistent tables, in which a handler waits for these events and no other.
abbrev pub Waits : Events → Handler → Option Reactor → Type 0
Waits m h x = (r : Reactor) × (x ≡ some r) × IsConsistent r × (mask_of h (some r) ≡ m)

state-none :
    (r : Reactor) (h : Handler)
    → IsConsistent r
    → find_handler r h.fd ≡ none
    → find_handler_state r h ≡ none
unfolding find_handler_state
state-none r h c e =
    member-lookup state_key h.fd r.handlers_states
      (ap (member h.fd) (sym c.0) ∙ find_handler-none r h.fd e)

pub unregistered-Waits :
    (m m' : Events) (h : Handler) (x : Option Reactor)
    → Waits m h x
    → is_none m' ≡ false
    → Waits no_events h (unregistered m' h x)
unfolding mask_of
unregistered-Waits m m' h x (r, e, c, w) q =
    let (c', f) = unregister_events-IsConsistent r h m' c q in
    (_, ap (unregistered m' h) e, c', rw (mask_of, state-none _ h c' f) refl)

pub registered-Waits :
    (m m' m0 : Events) (h : Handler) (x : Option Reactor)
    → Waits m0 h x
    → is_none m' ≡ false
    → is_none m ≡ false
    → Waits m h (registered m h (unregistered m' h x))
unfolding mask_of
registered-Waits m m' m0 h x (r, e, c, w) q q' =
    let (c', f) = unregister_events-IsConsistent r h m' c q in
    let (r', run, c2, s) = register_handler-absent _ h m c' q' f in
    (r', ap (λ y. registered m h (unregistered m' h y)) e ∙ run, c2, rw (mask_of, s) refl)

IsWaiting-faked :
    (k : ℕ) (m : Events) (ss : List HandlerState)
    → IsWaiting ss
    → IsWaiting (update state_key k (add_revents m) ss)
unfolding update
IsWaiting-faked k m [] w = tt
IsWaiting-faked k m (s ∷ ss) w = elim (Bool-cases (s.fd == k)) [
  | inl e ↦ rw e w
  | inr e ↦ rw e (w.0, IsWaiting-faked k m ss w.1)
]

lookup-faked_none :
    (k : ℕ) (m : Events) (ss : List HandlerState)
    → lookup state_key k ss ≡ none
    → lookup state_key k (update state_key k (add_revents m) ss) ≡ none
unfolding lookup update
lookup-faked_none k m [] e = refl
lookup-faked_none k m (s ∷ ss) e = elim (Bool-cases (s.fd == k)) [
  | inl q ↦ let e' = rw q at e in cc
  | inr q ↦ let e' = rw q at e in rw (q, q) (lookup-faked_none k m ss e')
]

mask_of-faked :
    (h : Handler) (m : Events) (r : Reactor)
    → mask_of h (some (fake_event r h m)) ≡ mask_of h (some r)
unfolding mask_of find_handler_state fake_event
mask_of-faked h m r = elim (Option-cases (lookup state_key h.fd r.handlers_states)) [
  | inl e ↦ rw (mask_of, find_handler_state, lookup-faked_none h.fd m r.handlers_states e, e) refl
  | inr (s, e) ↦
      rw
        (
          mask_of,
          find_handler_state,
          lookup-update state_key h.fd (add_revents m) s r.handlers_states (λ x. refl) e,
          e,
        )
        refl
]

-- A faked event changes nothing of what a handler waits for.
pub faked-Waits :
    (m m' : Events) (h : Handler) (x : Option Reactor) → Waits m h x → Waits m h (faked m' h x)
unfolding fake_event
faked-Waits m m' h x (r, e, c, w) =
    let same = keys-update state_key h.fd (add_revents m') r.handlers_states (λ x. refl) in
    (
      fake_event r h m',
      ap (faked m' h) e,
      (
        c.0 ∙ sym same,
        subst AreDistinct (sym same) c.1,
        IsWaiting-faked h.fd m' r.handlers_states c.2,
      ),
      mask_of-faked h m' r ∙ w,
    )
