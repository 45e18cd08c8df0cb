-- ===== src/Reactor/Removal.antt =====
-- Unregistering handlers (libiqxmlrpc/reactor_impl.h): what is removed, and that the tables stay
-- consistent.
use libiqxmlrpc.Reactor.Consistent.{
  IsConsistent, IsWaiting-erase, is_none-meet, find_handler_state-some,
}
use mathlib.Core.Path.{subst}
use libiqxmlrpc.Prelude.{ℕ, false, none, some, Option-cases, ◌≡◌, refl, sym, ap, ◌∙◌, inl, inr}
use libiqxmlrpc.Reactor.Table.{
  erase, keys, member, AreDistinct, remove, lookup-none, keys-erase, remove-AreDistinct,
  member-remove, member-lookup,
}
use libiqxmlrpc.Reactor.{
  Handler, Events, is_none, HandlerState, Reactor, map_key, state_key, find_handler,
  find_handler_state, unregister_events, unregister_handler, forget_stopper,
}

-- A reactor without the socket of a handler.
abbrev without : Reactor → Handler → ℕ → Reactor
without r h n = record {
  handlers = erase map_key h.fd r.handlers;
  handlers_states = erase state_key h.fd r.handlers_states;
  num_stoppers = n;
}

without-IsConsistent :
    (r : Reactor) (h : Handler) (n : ℕ) → IsConsistent r → IsConsistent (without r h n)
without-IsConsistent r h n c = (
  keys-erase map_key h.fd r.handlers
      ∙ ap (remove h.fd) c.0
      ∙ sym (keys-erase state_key h.fd r.handlers_states),
  subst AreDistinct (sym (keys-erase state_key h.fd r.handlers_states))
      (remove-AreDistinct h.fd (keys state_key r.handlers_states) c.1),
  IsWaiting-erase h.fd r.handlers_states c.2,
)

find_handler-without :
    (r : Reactor) (h : Handler) (n : ℕ) → IsConsistent r → find_handler (without r h n) h.fd ≡ none
unfolding find_handler
find_handler-without r h n c =
    let gone = member-lookup map_key h.fd (erase map_key h.fd r.handlers) (
      ap (member h.fd) (keys-erase map_key h.fd r.handlers)
      ∙ member-remove h.fd (keys map_key r.handlers) (subst AreDistinct (sym c.0) c.1)) in
    rw (find_handler, gone) refl

-- What unregistering ends in.
abbrev pub Unregisters : Reactor → Handler → Type 0
Unregisters r h =
    (r' : Reactor) × (unregister_handler r h ≡ some r')
    × IsConsistent r'
    × (find_handler r' h.fd ≡ none)

unregister_handler-known :
    (r : Reactor) (h g : Handler) (s : HandlerState)
    → find_handler r h.fd ≡ some g
    → find_handler_state r h ≡ some s
    → (n : ℕ) × (unregister_handler r h ≡ some (without r h n))
unfolding unregister_handler
unregister_handler-known r h g s e es =
    (forget_stopper h r.num_stoppers, rw (unregister_handler, e, es) refl)

unregister_handler-none :
    (r : Reactor) (h : Handler) → find_handler r h.fd ≡ none → unregister_handler r h ≡ some r
unfolding unregister_handler
unregister_handler-none r h e = rw (unregister_handler, e) refl

-- Unregistering a handler, in consistent tables, never runs over the end of the list, leaves the
-- tables consistent, and the socket has no handler any more.
pub unregister_handler-IsConsistent : (r : Reactor) (h : Handler) → IsConsistent r → Unregisters r h
unregister_handler-IsConsistent r h c = elim (Option-cases (find_handler r h.fd)) [
  | inl e ↦ (r, unregister_handler-none r h e, c, e)
  | inr (g, e) ↦
      let (s, es) = find_handler_state-some r h g c e in
      let (n, run) = unregister_handler-known r h g s e es in
      (_, run, without-IsConsistent r h n c, find_handler-without r h n c)
]

unregister_events-known :
    (r : Reactor) (h : Handler) (s : HandlerState) (m : Events)
    → is_none m ≡ false
    → find_handler_state r h ≡ some s
    → (n : ℕ) × (unregister_events r h m ≡ without r h n)
unfolding unregister_events
unregister_events-known r h s m hm es =
    (forget_stopper h r.num_stoppers, rw (unregister_events, es, is_none-meet s.mask m hm) refl)

unregister_events-none :
    (r : Reactor) (h : Handler) (m : Events)
    → find_handler_state r h ≡ none
    → unregister_events r h m ≡ r
unfolding unregister_events
unregister_events-none r h m e = rw (unregister_events, e) refl

find_handler-no_state :
    (r : Reactor) (h : Handler)
    → IsConsistent r
    → find_handler_state r h ≡ none
    → find_handler r h.fd ≡ none
unfolding find_handler find_handler_state
find_handler-no_state r h c e =
    let absent =
      member-lookup map_key h.fd r.handlers
        (ap (member h.fd) c.0 ∙ lookup-none state_key h.fd r.handlers_states e) in
    rw (find_handler, absent) refl

-- Unregistering any event of a handler, in consistent tables, removes its socket whatever other
-- events it waits for, and leaves the tables consistent.
pub unregister_events-IsConsistent :
    (r : Reactor) (h : Handler) (m : Events)
    → IsConsistent r
    → is_none m ≡ false
    → IsConsistent (unregister_events r h m) × (find_handler (unregister_events r h m) h.fd ≡ none)
unregister_events-IsConsistent r h m c hm = elim (Option-cases (find_handler_state r h)) [
  | inl e ↦
      let same : unregister_events r h m ≡ r = unregister_events-none r h m e in
      rw same (c, find_handler-no_state r h c e)
  | inr (s, e) ↦
      let (n, run) = unregister_events-known r h s m hm e in
      rw run (without-IsConsistent r h n c, find_handler-without r h n c)
]
