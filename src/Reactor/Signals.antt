-- ===== src/Reactor/Signals.antt =====
-- What the reactor makes of a call that a signal interrupts (libiqxmlrpc/reactor_poll_impl.cc,
-- reactor_select_impl.cc).
use libiqxmlrpc.Prelude.{
  ℕ, Bool, true, false, if◌then◌else◌, ◌||◌, ==_iff, List, [], ◌∷◌, map, some, ok, ◌≡◌, refl, ap,
  arith, All,
}
use libiqxmlrpc.Reactor.Table.{member}
use libiqxmlrpc.Reactor.{HandlerState, is_none, state_key}
use libiqxmlrpc.Reactor.Polls.{
  poll, select, interrupted, Sets, happened, poll_collect, poll_reset, select_collect, select_reset,
}

poll_reset-quiet : (ss : List HandlerState) → poll_collect (poll_reset ss) ≡ []
unfolding poll_collect poll_reset
poll_reset-quiet [] = refl
poll_reset-quiet (s ∷ ss) = poll_reset-quiet ss

abbrev pub IsOutput : HandlerState → Type 0
IsOutput s = s.revents.output ≡ true

or_true : (b : Bool) → (b || true) ≡ true
or_true true = refl
or_true false = refl

loud_entry :
    (i o : Bool) (fd : ℕ) (rest : List HandlerState)
    → o ≡ true
    → (if is_none (record { input = i; output = o })
        then rest
        else happened fd (record { input = i; output = o }) ∷ rest)
      ≡ happened fd (record { input = i; output = true }) ∷ rest
loud_entry true o fd rest e = rw e refl
loud_entry false o fd rest e = rw e refl

-- Where the exceptions have all the sockets of a list, every one of them is reported.
select_collect-loud :
    (x : Sets) (ss : List HandlerState)
    → All (λ s. member s.fd x.err_set ≡ true) ss
    → (map state_key (select_collect x ss) ≡ map state_key ss) × All IsOutput (select_collect x ss)
unfolding select_collect
select_collect-loud x [] h = (refl, tt)
select_collect-loud x (s ∷ ss) (h, hs) =
    let (e, f) = select_collect-loud x ss hs in
    let o : (member s.fd x.write_set || member s.fd x.err_set) ≡ true =
      rw h (or_true (member s.fd x.write_set)) in
    rw
      (loud_entry (member s.fd x.read_set) (member s.fd x.write_set || member s.fd x.err_set) s.fd
        (select_collect x ss) o)
      (ap (◌∷◌ s.fd) e, (refl, f))

member-more : (n k : ℕ) (xs : List ℕ) → member n xs ≡ true → member n (k ∷ xs) ≡ true
unfolding member
member-more n k xs h = ground (arith, h)

All-more :
    (k : ℕ) (xs : List ℕ) (ss : List HandlerState)
    → All (λ s. member s.fd xs ≡ true) ss
    → All (λ s. member s.fd (k ∷ xs) ≡ true) ss
All-more k xs [] h = tt
All-more k xs (s ∷ ss) (h, hs) = (member-more s.fd k xs h, All-more k xs ss hs)

member-first : (n : ℕ) (xs : List ℕ) → member n (n ∷ xs) ≡ true
unfolding member
member-first n xs = ground (arith, ==_iff n n)

select_reset-All :
    (ss : List HandlerState) → All (λ s. member s.fd (select_reset ss).err_set ≡ true) ss
unfolding select_reset
select_reset-All [] = tt
select_reset-All (s ∷ ss) =
    (member-first s.fd _, All-more s.fd (select_reset ss).err_set ss (select_reset-All ss))

-- A call that a signal interrupts is not made again. With `::poll` the reactor gets no state, and takes
-- that for a success; with `::select` it gets every one of its sockets, each as ready for output.
pub poll-select_interrupted :
    (ss : List HandlerState)
    → (poll ss interrupted ≡ ok (some []))
      × ((rs : List HandlerState) × (select ss interrupted ≡ ok (some rs))
          × (map state_key rs ≡ map state_key ss)
          × All IsOutput rs)
unfolding poll select
poll-select_interrupted ss =
    let (e, f) = select_collect-loud (select_reset ss) ss (select_reset-All ss) in
    (ap (λ r. ok (some r)) (poll_reset-quiet ss), (select_collect (select_reset ss) ss, refl, e, f))
