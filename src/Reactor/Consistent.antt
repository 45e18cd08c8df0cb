-- ===== src/Reactor/Consistent.antt =====
-- The two tables of the reactor (libiqxmlrpc/reactor_impl.h) speak of the same sockets, through every
-- operation.
use mathlib.Core.Path.{subst}
use libiqxmlrpc.Prelude.{
  ◌==◌, ℕ, true, false, List, [], ◌∷◌, ◌++◌, none, some, Option-cases, ◌≡◌, refl, sym, ap, ◌∙◌,
  arith, ==_iff, inl, inr, Bool-cases,
}
use libiqxmlrpc.Reactor.Table.{
  lookup, erase, update, keys, member, AreDistinct, lookup-none, lookup-some, keys-append,
  keys-update, append-AreDistinct, member-lookup, lookup-member, lookup-update, lookup-append,
}
use libiqxmlrpc.Reactor.{
  Handler, Events, no_events, is_none, join, meet, logical_not, HandlerState, Reactor, map_key,
  state_key, find_handler, find_handler_state, register_handler, add_mask, count_stopper,
}

-- The handlers' sockets are those of the states, each once, and every state waits for some event.
abbrev pub IsWaiting : List HandlerState → Type 0
IsWaiting [] = Unit
IsWaiting (s ∷ ss) = (is_none s.mask ≡ false) × IsWaiting ss

abbrev pub IsConsistent : Reactor → Type 0
IsConsistent r =
    (keys map_key r.handlers ≡ keys state_key r.handlers_states)
    × AreDistinct (keys state_key r.handlers_states)
    × IsWaiting r.handlers_states

IsWaiting-append :
    (s : HandlerState) (ss : List HandlerState)
    → is_none s.mask ≡ false
    → IsWaiting ss
    → IsWaiting (ss ++ s ∷ [])
IsWaiting-append s [] h w = (h, tt)
IsWaiting-append s (t ∷ ss) h w = (w.0, IsWaiting-append s ss h w.1)

pub IsWaiting-erase :
    (k : ℕ) (ss : List HandlerState) → IsWaiting ss → IsWaiting (erase state_key k ss)
unfolding erase
IsWaiting-erase k [] w = tt
IsWaiting-erase k (s ∷ ss) w = elim (Bool-cases (s.fd == k)) [
  | inl e ↦ rw e w.1
  | inr e ↦ rw e (w.0, IsWaiting-erase k ss w.1)
]

is_none-join : (m n : Events) → is_none m ≡ false → is_none (join m n) ≡ false
is_none-join m n h = ground arith

pub is_none-meet : (m n : Events) → is_none n ≡ false → is_none (meet m (logical_not n)) ≡ true
is_none-meet m n h = ground arith

IsWaiting-update :
    (k : ℕ) (m : Events) (ss : List HandlerState)
    → IsWaiting ss
    → IsWaiting (update state_key k (add_mask m) ss)
unfolding update
IsWaiting-update k m [] w = tt
IsWaiting-update k m (s ∷ ss) w = elim (Bool-cases (s.fd == k)) [
  | inl e ↦ rw e (is_none-join s.mask m w.0, w.1)
  | inr e ↦ rw e (w.0, IsWaiting-update k m ss w.1)
]

-- A socket is in both tables or in neither.
pub find_handler-none :
    (r : Reactor) (fd : ℕ) → find_handler r fd ≡ none → member fd (keys map_key r.handlers) ≡ false
unfolding find_handler
find_handler-none r fd h = elim (Option-cases (lookup map_key fd r.handlers)) [
  | inl e ↦ lookup-none map_key fd r.handlers e
  | inr (x, e) ↦ absurd (ground (arith, h))
]

pub find_handler-some :
    (r : Reactor) (fd : ℕ) (h : Handler)
    → find_handler r fd ≡ some h
    → member fd (keys map_key r.handlers) ≡ true
unfolding find_handler
find_handler-some r fd h e = elim (Option-cases (lookup map_key fd r.handlers)) [
  | inl e' ↦ absurd (ground (arith, e))
  | inr (x, e') ↦ lookup-some map_key fd x r.handlers e'
]

pub find_handler_state-some :
    (r : Reactor) (h g : Handler)
    → IsConsistent r
    → find_handler r h.fd ≡ some g
    → (s : HandlerState) × (find_handler_state r h ≡ some s)
unfolding find_handler_state
find_handler_state-some r h g c e =
    lookup-member state_key h.fd r.handlers_states
      (ap (member h.fd) (sym c.0) ∙ find_handler-some r h.fd g e)

abbrev pub Includes : Events → Events → Type 0
Includes m n = join m n ≡ m

join-Includes : (m n : Events) → Includes (join m n) n
join-Includes m n = ground arith

abbrev pub new_state : Handler → Events → HandlerState
new_state h m = record { fd = h.fd; mask = m; revents = no_events }

register_new :
    (r : Reactor) (h : Handler) (m : Events)
    → find_handler r h.fd ≡ none
    → (n : ℕ) × (register_handler r h m
        ≡ some (record {
          handlers = r.handlers ++ (h.fd, h) ∷ [];
          handlers_states = r.handlers_states ++ new_state h m ∷ [];
          num_stoppers = n;
        }))
unfolding register_handler
register_new r h m e = (count_stopper h r.num_stoppers, rw (register_handler, e) refl)

register_known :
    (r : Reactor) (h g : Handler) (s : HandlerState) (m : Events)
    → find_handler r h.fd ≡ some g
    → find_handler_state r h ≡ some s
    → (n : ℕ) × (register_handler r h m
        ≡ some (record {
          handlers = r.handlers;
          handlers_states = update state_key h.fd (add_mask m) r.handlers_states;
          num_stoppers = n;
        }))
unfolding register_handler
register_known r h g s m e es = (count_stopper h r.num_stoppers, rw (register_handler, e, es) refl)

new_state-lookup :
    (h : Handler) (m : Events) (ss : List HandlerState)
    → lookup state_key h.fd ss ≡ none
    → lookup state_key h.fd (ss ++ new_state h m ∷ []) ≡ some (new_state h m)
new_state-lookup h m ss e =
    lookup-append state_key h.fd (new_state h m) ss e ∙ ground (arith, ==_iff h.fd h.fd)

-- A handler that is not registered waits for what it is registered for, and nothing else.
pub register_handler-absent :
    (r : Reactor) (h : Handler) (m : Events)
    → IsConsistent r
    → is_none m ≡ false
    → find_handler r h.fd ≡ none
    → (r' : Reactor) × (register_handler r h m ≡ some r')
      × IsConsistent r'
      × (find_handler_state r' h ≡ some (new_state h m))
unfolding find_handler_state
register_handler-absent r h m c hm e =
    let (n, run) = register_new r h m e in
    let absent : member h.fd (keys state_key r.handlers_states) ≡ false =
      ap (member h.fd) (sym c.0) ∙ find_handler-none r h.fd e in
    (
      _,
      run,
      (
        keys-append map_key (h.fd, h) r.handlers
            ∙ ap (λ ks. ks ++ h.fd ∷ []) c.0
            ∙ sym (keys-append state_key (new_state h m) r.handlers_states),
        subst AreDistinct (sym (keys-append state_key (new_state h m) r.handlers_states))
            (append-AreDistinct h.fd (keys state_key r.handlers_states) c.1 absent),
        IsWaiting-append (new_state h m) r.handlers_states hm c.2,
      ),
      new_state-lookup h m r.handlers_states
          (member-lookup state_key h.fd r.handlers_states absent),
    )

-- What a registration ends in.
abbrev pub Registers : Reactor → Handler → Events → Type 0
Registers r h m =
    (r' : Reactor) × (s : HandlerState) × (register_handler r h m ≡ some r')
    × IsConsistent r'
    × (find_handler_state r' h ≡ some s)
    × Includes s.mask m

-- Registering a handler for some event, in consistent tables, never runs over the end of the list
-- and leaves the tables consistent, with all these events in the mask of its socket.
pub register_handler-IsConsistent :
    (r : Reactor) (h : Handler) (m : Events) → IsConsistent r → is_none m ≡ false → Registers r h m
unfolding find_handler_state
register_handler-IsConsistent r h m c hm = elim (Option-cases (find_handler r h.fd)) [
  | inl e ↦
      let (r', run, c', es) = register_handler-absent r h m c hm e in
      (r', new_state h m, run, c', es, ground arith)
  | inr (g, e) ↦
      let (s, es) = find_handler_state-some r h g c e in
      let (n, run) = register_known r h g s m e es in
      let same = keys-update state_key h.fd (add_mask m) r.handlers_states (λ x. refl) in
      (
        _,
        add_mask m s,
        run,
        (
          c.0 ∙ sym same,
          subst AreDistinct (sym same) c.1,
          IsWaiting-update h.fd m r.handlers_states c.2,
        ),
        lookup-update state_key h.fd (add_mask m) s r.handlers_states (λ x. refl) es,
        join-Includes s.mask m,
      )
]
