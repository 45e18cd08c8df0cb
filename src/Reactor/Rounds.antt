-- ===== src/Reactor/Rounds.antt =====
-- The rounds of the reactor (libiqxmlrpc/reactor_impl.h): faked events are taken once each, and the
-- tables stay consistent through the calls of handlers that keep them so.
use mathlib.Core.Path.{subst}
use libiqxmlrpc.Prelude.{
  Bool, true, false, if◌then◌else◌, ◌==◌, List, [], ◌∷◌, Option, none, some, Option-cases, ◌≡◌, ◌≢◌,
  refl, sym, ◌∙◌, arith, inl, inr, Bool-cases, Result, ok, err, ◌>>=◌, length,
}
use libiqxmlrpc.Reactor.Consistent.{IsWaiting, IsConsistent}
use libiqxmlrpc.Reactor.Removal.{unregister_handler-IsConsistent}
use libiqxmlrpc.Reactor.Table.{keys, AreDistinct}
use libiqxmlrpc.Reactor.{
  Handler, is_none, join, HandlerState, Reactor, state_key, find_handler, collect_faked,
  ReactorError, bad_iterator, Outcome, returned, thrown, Calls, invoke_clients_handler, catch_all,
  after_poll, poll_states, invoke_servers_handler, end_invoke, invoke_event_handler, invoke_all,
  handle_user_events, handle_system_events, only_stoppers, handle_events,
}

-- The states with an event, in their order.
unfoldable pub pending : List HandlerState → List HandlerState
pending [] = []
pending (s ∷ ss) =
    let rest : List HandlerState = pending ss in if is_none s.revents then rest else s ∷ rest

collect_faked-called : (ss : List HandlerState) → (collect_faked ss).0 ≡ pending ss
unfolding collect_faked pending
collect_faked-called [] = refl
collect_faked-called (s ∷ ss) = ground (arith, collect_faked-called ss)

collect_faked-left : (ss : List HandlerState) → IsWaiting ss → pending (collect_faked ss).1 ≡ []
unfolding collect_faked pending
collect_faked-left [] w = refl
collect_faked-left (s ∷ ss) w = ground (arith, collect_faked-left ss w.1, w.0)

-- Taking the faked events gives the states that have one, in their order, and, where every state
-- waits for some event, leaves no event to be taken a second time.
pub collect_faked-pending :
    (ss : List HandlerState)
    → IsWaiting ss
    → ((collect_faked ss).0 ≡ pending ss) × (pending (collect_faked ss).1 ≡ [])
collect_faked-pending ss w = (collect_faked-called ss, collect_faked-left ss w)

keys-collect_faked :
    (ss : List HandlerState) → keys state_key (collect_faked ss).1 ≡ keys state_key ss
unfolding collect_faked keys
keys-collect_faked [] = refl
keys-collect_faked (s ∷ ss) = ground (arith, keys-collect_faked ss)

IsWaiting-collect_faked : (ss : List HandlerState) → IsWaiting ss → IsWaiting (collect_faked ss).1
unfolding collect_faked
IsWaiting-collect_faked [] w = tt
IsWaiting-collect_faked (s ∷ ss) w = elim (Bool-cases (is_none s.revents)) [
  | inl e ↦ rw e (w.0, IsWaiting-collect_faked ss w.1)
  | inr e ↦
      let some_event : is_none (join s.mask s.revents) ≡ false = ground arith in
      rw (e, some_event) (w.0, IsWaiting-collect_faked ss w.1)
]

module _ {W : Type 0} where
  abbrev pub Keeps : Outcome (W × Reactor) → Type 0
  Keeps (returned w t) = IsConsistent w.1
  Keeps (thrown w) = IsConsistent w.1

  -- Handlers and a system that keep the tables consistent, as they do when they change them by the
  -- operations of the reactor only.
  pub record KeepsConsistent (c : Calls W) : Type 0 where
    pub input_law :
        (h : Handler) (w : (W × Reactor)) → IsConsistent w.1 → Keeps (c.handle_input h w)
    pub output_law :
        (h : Handler) (w : (W × Reactor)) → IsConsistent w.1 → Keeps (c.handle_output h w)
    pub log_law :
        (h : Handler) (w : (W × Reactor)) → IsConsistent w.1 → IsConsistent (c.log_exception h w).1
    pub finish_law :
        (h : Handler) (w : (W × Reactor)) → IsConsistent w.1 → IsConsistent (c.finish h w).1
    pub poll_law :
        (ss : List HandlerState) (w : (W × Reactor))
        → IsConsistent w.1
        → IsConsistent (c.poll ss w).0.1

  -- A result that is no use of the end of a list, in consistent tables where there is no exception.
  abbrev pub IsSafe : Result ReactorError (W × Reactor) → Type 0
  IsSafe (ok w) = IsConsistent w.1
  IsSafe (err e) = e ≢ bad_iterator

  abbrev pub IsSafeRound : Result ReactorError ((W × Reactor) × Bool) → Type 0
  IsSafeRound (ok w) = IsConsistent w.0.1
  IsSafeRound (err e) = e ≢ bad_iterator

  module _ (c : Calls W) (k : KeepsConsistent c) where
    invoke_clients_handler-Keeps :
        (h : Handler) (hs : HandlerState) (w : (W × Reactor))
        → IsConsistent w.1
        → Keeps (invoke_clients_handler c h hs w)
    unfolding invoke_clients_handler
    invoke_clients_handler-Keeps h hs w i = elim (Bool-cases hs.revents.input) [
      | inl e ↦ rw e (k.input_law h w i)
      | inr e ↦ elim (Bool-cases hs.revents.output) [
        | inl e' ↦ rw (e, e') (k.output_law h w i)
        | inr e' ↦ rw (e, e') i
      ]
    ]

    catch_all-Keeps : (h : Handler) (o : Outcome (W × Reactor)) → Keeps o → Keeps (catch_all c h o)
    catch_all-Keeps h (returned w t) i = i
    catch_all-Keeps h (thrown w) i = k.log_law h w i

    invoke_servers_handler-Keeps :
        (h : Handler) (hs : HandlerState) (w : (W × Reactor))
        → IsConsistent w.1
        → Keeps (invoke_servers_handler c h hs w)
    unfolding invoke_servers_handler
    invoke_servers_handler-Keeps h hs w i =
        catch_all-Keeps h (invoke_clients_handler c h hs w) (invoke_clients_handler-Keeps h hs w i)

    either-Keeps :
        (b : Bool) (o p : Outcome (W × Reactor)) → Keeps o → Keeps p → Keeps (if b then o else p)
    either-Keeps true o p i j = i
    either-Keeps false o p i j = j

    end_invoke-IsSafe :
        (h : Handler) (o : Outcome (W × Reactor)) → Keeps o → IsSafe (end_invoke c h o)
    unfolding end_invoke
    end_invoke-IsSafe h (thrown w) i = λ e. cc
    end_invoke-IsSafe h (returned w false) i = i
    end_invoke-IsSafe h (returned w true) i =
        let (r, run, kept, gone) = unregister_handler-IsConsistent w.1 h i in
        rw (IsSafe, end_invoke, run) (k.finish_law h (w.0, r) kept)

    invoke_event_handler-IsSafe :
        (hs : HandlerState) (w : (W × Reactor))
        → IsConsistent w.1
        → IsSafe (invoke_event_handler c hs w)
    unfolding invoke_event_handler
    invoke_event_handler-IsSafe hs w i = elim (Option-cases (find_handler w.1 hs.fd)) [
      | inl e ↦ rw (IsSafe, invoke_event_handler, e) (λ e'. cc)
      | inr (h, e) ↦
          rw (IsSafe, invoke_event_handler, e)
            (end_invoke-IsSafe h _ (
              either-Keeps h.catch_in_reactor _ _ (invoke_servers_handler-Keeps h hs w i)
                (invoke_clients_handler-Keeps h hs w i)))
    ]

    -- The rest of a chain, after a safe part.
    IsSafe-bind :
        (m : Result ReactorError (W × Reactor))
        (f : (W × Reactor) → Result ReactorError (W × Reactor))
        → IsSafe m
        → ((w : (W × Reactor)) → IsConsistent w.1 → IsSafe (f w))
        → IsSafe (m >>= f)
    IsSafe-bind (ok w) f i g = g w i
    IsSafe-bind (err e) f i g = i

    invoke_all-IsSafe :
        (ss : List HandlerState) (w : (W × Reactor)) → IsConsistent w.1 → IsSafe (invoke_all c ss w)
    unfolding invoke_all
    invoke_all-IsSafe [] w i = i
    invoke_all-IsSafe (s ∷ ss) w i =
        IsSafe-bind (invoke_event_handler c s w) (invoke_all c ss)
          (invoke_event_handler-IsSafe s w i) (invoke_all-IsSafe ss)

    handle_user_events-IsSafe :
        (w : (W × Reactor)) → IsConsistent w.1 → IsSafe (handle_user_events c w)
    unfolding handle_user_events
    handle_user_events-IsSafe w i = invoke_all-IsSafe _ _ (
      i.0 ∙ sym (keys-collect_faked w.1.handlers_states),
      subst AreDistinct (sym (keys-collect_faked w.1.handlers_states)) i.1,
      IsWaiting-collect_faked w.1.handlers_states i.2,
    )

    IsSafeRound-ok :
        (m : Result ReactorError (W × Reactor)) → IsSafe m → IsSafeRound (m >>= λ w. ok (w, true))
    IsSafeRound-ok (ok w) i = i
    IsSafeRound-ok (err e) i = i

    IsSafeRound-bind :
        (m : Result ReactorError (W × Reactor))
        (f : (W × Reactor) → Result ReactorError ((W × Reactor) × Bool))
        → IsSafe m
        → ((w : (W × Reactor)) → IsConsistent w.1 → IsSafeRound (f w))
        → IsSafeRound (m >>= f)
    IsSafeRound-bind (ok w) f i g = g w i
    IsSafeRound-bind (err e) f i g = i

    after_poll-IsSafeRound :
        (w : (W × Reactor)) (polled : Option (List HandlerState))
        → IsConsistent w.1
        → IsSafeRound (after_poll c w polled)
    after_poll-IsSafeRound w none i = i
    after_poll-IsSafeRound w (some ret) i =
        IsSafeRound-ok (invoke_all c ret w) (invoke_all-IsSafe ret w i)

    poll_states-IsSafeRound :
        (ss : List HandlerState) (w : (W × Reactor))
        → IsConsistent w.1
        → IsSafeRound (poll_states c ss w)
    poll_states-IsSafeRound [] w i = i
    poll_states-IsSafeRound (s ∷ ss) w i =
        after_poll-IsSafeRound _ (c.poll (s ∷ ss) w).1 (k.poll_law (s ∷ ss) w i)

    handle_system_events-IsSafeRound :
        (w : (W × Reactor)) → IsConsistent w.1 → IsSafeRound (handle_system_events c w)
    unfolding handle_system_events
    handle_system_events-IsSafeRound w i = poll_states-IsSafeRound w.1.handlers_states w i

  -- A round of the reactor over handlers that keep the tables consistent never runs over the end of
  -- a list, and ends in consistent tables where it ends without an exception.
  pub handle_events-IsSafeRound :
      (c : Calls W)
      → KeepsConsistent c
      → (w : (W × Reactor)) → IsConsistent w.1
      → IsSafeRound (handle_events c w)
  unfolding handle_events
  handle_events-IsSafeRound c k w i = elim (Bool-cases (length w.1.handlers == 0)) [
    | inl e ↦ rw e i
    | inr e ↦ elim (Bool-cases (only_stoppers w.1)) [
      | inl e' ↦ rw (e, e') (λ e''. cc)
      | inr e' ↦
          rw (e, e')
            (IsSafeRound-bind c k (handle_user_events c w) (handle_system_events c)
              (handle_user_events-IsSafe c k w i) (handle_system_events-IsSafeRound c k))
    ]
  ]
