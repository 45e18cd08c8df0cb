-- ===== src/Pool/Awake.antt =====
-- That the pool does not sleep over its queue (libiqxmlrpc/executor.cc).
use libiqxmlrpc.Pool.{
  Thread, ready, waiting, woken, returned, running, Pool, replace, new_threads, new_pool,
  add_threads, take_front, leave, resume, set_thread, push_executor, wake, destruction_started,
  is_waiting, any_waiting, Step, goes_on, wakes, notifies, registers, destroys, Reachable, starts,
  steps,
}
use libiqxmlrpc.Prelude.{
  ℕ, zero, suc, ◌<◌, Bool, true, false, List, [], ◌∷◌, ◌++◌, some, get_elem?, length, ◌≡◌, ◌≢◌,
  refl, sym, ap, ◌∙◌, Bool-cases, inl, inr, ◌⊎◌, if◌then◌else◌, All, arith,
}

true-ne-false : true ≢ false
true-ne-false e = cc

module _ {E : Type 0} where
  abbrev pub is_awake : Thread E → Bool
  is_awake waiting = false
  is_awake returned = false
  is_awake _ = true

  abbrev any_awake : List (Thread E) → Bool
  any_awake [] = false
  any_awake (t ∷ ts) = if is_awake t then true else any_awake ts

  abbrev IsThere : Thread E → Type 0
  IsThere t = t ≢ returned

  -- No thread is gone, there is a thread, and one is awake where the queue is not empty.
  record Serves (p : Pool E) : Type 0 where
    there : All IsThere p.threads
    some_thread : 0 < length p.threads
    awake : (p.req_queue ≡ []) ⊎ (any_awake p.threads ≡ true)

  replace-All :
      (i : ℕ) (t : Thread E) (ts : List (Thread E))
      → IsThere t
      → All IsThere ts
      → All IsThere (replace i t ts)
  replace-All i t [] h hs = hs
  replace-All zero t (u ∷ ts) h (x, hs) = (h, hs)
  replace-All (suc i) t (u ∷ ts) h (x, hs) = (x, replace-All i t ts h hs)

  length-replace :
      (i : ℕ) (t : Thread E) (ts : List (Thread E)) → length (replace i t ts) ≡ length ts
  length-replace i t [] = refl
  length-replace zero t (u ∷ ts) = refl
  length-replace (suc i) t (u ∷ ts) = ap suc (length-replace i t ts)

  any_awake-replace :
      (i : ℕ) (t u : Thread E) (ts : List (Thread E))
      → get_elem? ts i ≡ some u
      → is_awake t ≡ true
      → any_awake (replace i t ts) ≡ true
  any_awake-replace i t u [] e h = cc
  any_awake-replace zero t u (x ∷ ts) e h = rw h
  any_awake-replace (suc i) t u (x ∷ ts) e h = ground (arith, any_awake-replace i t u ts e h)

  at-IsThere :
      (i : ℕ) (t : Thread E) (ts : List (Thread E))
      → get_elem? ts i ≡ some t
      → All IsThere ts
      → IsThere t
  at-IsThere i t [] e h = cc
  at-IsThere zero t (u ∷ ts) e (x, h) = λ g. x (cc (e, g))
  at-IsThere (suc i) t (u ∷ ts) e (x, h) = at-IsThere i t ts e h

  -- A thread is replaced by one that is there, where it is awake or the queue is empty.
  set_thread-Serves :
      (i : ℕ) (u t : Thread E) (p q : Pool E)
      → get_elem? p.threads i ≡ some u
      → Serves p
      → q.threads ≡ p.threads
      → IsThere t
      → (q.req_queue ≡ []) ⊎ (is_awake t ≡ true)
      → Serves (set_thread i (t, q))
  unfolding set_thread
  set_thread-Serves i u t p q at s e h n = record {
    there = rw e (replace-All i t p.threads h s.there);
    some_thread = rw (e, length-replace i t p.threads) s.some_thread;
    awake = elim n [ inl x ↦ inl x | inr x ↦ inr (rw e (any_awake-replace i t u p.threads at x)) ];
  }

  take_front-Serves :
      (i : ℕ) (u th : Thread E) (es : List E) (p : Pool E)
      → get_elem? p.threads i ≡ some u
      → Serves p
      → IsThere th
      → p.req_queue ≡ es
      → Serves (set_thread i (take_front th es p))
  take_front-Serves i u th [] p at s h e = set_thread-Serves i u th p p at s refl h (inl e)
  take_front-Serves i u th (x ∷ es) p at s h e =
      set_thread-Serves i u (running x) p (record p { req_queue = es; taken = p.taken ++ x ∷ [] })
        at s refl (λ g. cc) (inr refl)

  leave-Serves :
      (i : ℕ) (b : Bool) (p : Pool E)
      → get_elem? p.threads i ≡ some woken
      → b ≡ false
      → Serves p
      → Serves (set_thread i (leave b p))
  leave-Serves i true p at e s = cc
  leave-Serves i false p at e s = take_front-Serves i woken ready p.req_queue p at s (λ g. cc) refl

  resume-Serves :
      (i : ℕ) (th : Thread E) (p : Pool E)
      → get_elem? p.threads i ≡ some th
      → is_waiting th ≡ false
      → p.in_destructor ≡ false
      → Serves p
      → Serves (set_thread i (resume th p))
  unfolding resume
  resume-Serves i ready p at go alive s =
      take_front-Serves i ready waiting p.req_queue p at s (λ g. cc) refl
  resume-Serves i waiting p at go alive s = cc
  resume-Serves i returned p at go alive s =
      absurd (at-IsThere i returned p.threads at s.there refl)
  resume-Serves i (running e) p at go alive s =
      set_thread-Serves i (running e) ready p p at s refl (λ g. cc) (inr refl)
  resume-Serves i woken p at go alive s = leave-Serves i p.in_destructor p at alive s

  none_waiting-awake :
      (ts : List (Thread E))
      → any_waiting ts ≡ false
      → All IsThere ts
      → 0 < length ts
      → any_awake ts ≡ true
  none_waiting-awake [] n h l = absurd (omega arith)
  none_waiting-awake (ready ∷ ts) n h l = refl
  none_waiting-awake (waiting ∷ ts) n h l = cc
  none_waiting-awake (woken ∷ ts) n h l = refl
  none_waiting-awake (returned ∷ ts) n (x, h) l = absurd (x refl)
  none_waiting-awake (running e ∷ ts) n h l = refl

  wake-Serves :
      (i : ℕ) (u : Thread E) (p q : Pool E)
      → get_elem? p.threads i ≡ some u
      → Serves p
      → q.threads ≡ p.threads
      → Serves (wake i q)
  unfolding wake set_thread
  wake-Serves i u p q at s e = set_thread-Serves i u woken p q at s e (λ g. cc) (inr refl)

  Step-Serves :
      {p q : Pool E}
      → Step p q
      → p.in_destructor ≡ false
      → Serves p
      → (q.in_destructor ≡ true) ⊎ Serves q
  unfolding push_executor destruction_started
  Step-Serves (goes_on {p} i th at go) alive s = inr (resume-Serves i th p at go alive s)
  Step-Serves (wakes {p} i at) alive s = inr (wake-Serves i waiting p p at s refl)
  Step-Serves (notifies {p} e i at) alive s =
      inr (wake-Serves i waiting p (push_executor e p) at s refl)
  Step-Serves (registers {p} e none_waits) alive s = inr (record {
    there = s.there;
    some_thread = s.some_thread;
    awake = inr (none_waiting-awake p.threads none_waits s.there s.some_thread);
  })
  Step-Serves destroys alive s = inl refl

  take_front-destructor :
      (th : Thread E) (es : List E) (p : Pool E)
      → (take_front th es p).1.in_destructor ≡ p.in_destructor
  take_front-destructor th [] p = refl
  take_front-destructor th (x ∷ es) p = refl

  leave-destructor : (b : Bool) (p : Pool E) → (leave b p).1.in_destructor ≡ p.in_destructor
  leave-destructor true p = refl
  leave-destructor false p = take_front-destructor ready p.req_queue p

  resume-destructor : (th : Thread E) (p : Pool E) → (resume th p).1.in_destructor ≡ p.in_destructor
  unfolding resume
  resume-destructor ready p = take_front-destructor waiting p.req_queue p
  resume-destructor waiting p = refl
  resume-destructor returned p = refl
  resume-destructor (running e) p = refl
  resume-destructor woken p = leave-destructor p.in_destructor p

  Step-destructor : {p q : Pool E} → Step p q → p.in_destructor ≡ true → q.in_destructor ≡ true
  unfolding set_thread wake push_executor destruction_started
  Step-destructor (goes_on {p} i th at go) d = resume-destructor th p ∙ d
  Step-destructor (wakes i at) d = d
  Step-destructor (notifies e i at) d = d
  Step-destructor (registers e none_waits) d = d
  Step-destructor destroys d = refl

  new_threads-IsThere : (n : ℕ) (ts : List (Thread E)) → ts ≡ new_threads n → All IsThere ts
  new_threads-IsThere n [] e = tt
  new_threads-IsThere zero (t ∷ ts) e = cc
  new_threads-IsThere (suc n) (t ∷ ts) e = (λ g. cc, new_threads-IsThere n ts cc)

  Reachable-Serves :
      (n : ℕ) (p : Pool E) → Reachable (suc n) p → (p.in_destructor ≡ true) ⊎ Serves p
  unfolding new_pool add_threads
  Reachable-Serves n p starts = inr (record {
    there = new_threads-IsThere (suc n) (new_threads (suc n)) refl;
    some_thread = omega arith;
    awake = inl refl;
  })
  Reachable-Serves n q (steps {p} r s) = elim (Reachable-Serves n p r) [
    | inl d ↦ inl (Step-destructor s d)
    | inr h ↦ elim (Bool-cases p.in_destructor) [
      | inl d ↦ inl (Step-destructor s d)
      | inr d ↦ Step-Serves s d h
    ]
  ]

  awake-at :
      (ts : List (Thread E))
      → any_awake ts ≡ true
      → (i : ℕ) × (th : Thread E) × (get_elem? ts i ≡ some th) × (is_awake th ≡ true)
  awake-at [] h = cc
  awake-at (t ∷ ts) h = elim (Bool-cases (is_awake t)) [
    | inl e ↦ (0, t, refl, e)
    | inr e ↦ let (i, th, f, g) = awake-at ts (rw e at h) in (suc i, th, f, g)
  ]

  -- In every state that a pool of at least one thread comes to before its destruction, where the queue is
  -- not empty there is a thread that is awake: it does not need a notification to go on, and no
  -- notification is lost.
  pub Reachable-awake :
      (n : ℕ) (p : Pool E)
      → Reachable (suc n) p
      → p.in_destructor ≡ false
      → p.req_queue ≢ []
      → (i : ℕ) × (th : Thread E) × (get_elem? p.threads i ≡ some th) × (is_awake th ≡ true)
  Reachable-awake n p r alive queued = elim (Reachable-Serves n p r) [
    | inl d ↦ absurd (true-ne-false (sym d ∙ alive))
    | inr s ↦ elim s.awake [ inl e ↦ absurd (queued e) | inr a ↦ awake-at p.threads a ]
  ]
