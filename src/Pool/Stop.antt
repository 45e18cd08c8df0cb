-- ===== src/Pool/Stop.antt =====
-- The destruction of the pool (`~Pool_executor_factory` and `Pool_thread` of libiqxmlrpc/executor.cc).
use libiqxmlrpc.Pool.{
  Thread, ready, waiting, woken, returned, running, Pool, replace, take_front, leave, resume,
  set_thread, is_waiting, goes_on, Reachable, steps,
}
use mathlib.Core.Path.{subst}
use libiqxmlrpc.Prelude.{
  ℕ, zero, suc, Bool, true, false, List, [], ◌∷◌, some, get_elem?, ◌≡◌, refl, ap, ◌∙◌,
}

module _ {E : Type 0} where
  -- A thread that has an executor when the destruction starts.
  replace-at :
      (i : ℕ) (t u : Thread E) (ts : List (Thread E))
      → get_elem? ts i ≡ some u
      → get_elem? (replace i t ts) i ≡ some t
  replace-at i t u [] e = cc
  replace-at zero t u (x ∷ ts) e = refl
  replace-at (suc i) t u (x ∷ ts) e = replace-at i t u ts e

  -- The steps of the pool alone: nothing is registered, and no thread wakes by itself.
  pub data Alone : Pool E → Pool E → Type 0 where
    alone_goes_on :
        {p : Pool E} (i : ℕ) (th : Thread E)
        → get_elem? p.threads i ≡ some th
        → is_waiting th ≡ false
        → Alone p (set_thread i (resume th p))

  pub data AloneSteps : Pool E → Pool E → Type 0 where
    at_once : {p : Pool E} → AloneSteps p p
    then_alone : {p q r : Pool E} → AloneSteps p q → Alone q r → AloneSteps p r

  other-waiting :
      (i j : ℕ) (t u : Thread E) (ts : List (Thread E))
      → get_elem? ts i ≡ some waiting
      → get_elem? ts j ≡ some u
      → is_waiting u ≡ false
      → get_elem? (replace j t ts) i ≡ some waiting
  other-waiting i j t u [] e f g = cc
  other-waiting zero zero t u (x ∷ ts) e f g =
      let q : waiting ≡ u = cc in let b : true ≡ false = ap is_waiting q ∙ g in cc
  other-waiting zero (suc j) t u (x ∷ ts) e f g = e
  other-waiting (suc i) zero t u (x ∷ ts) e f g = e
  other-waiting (suc i) (suc j) t u (x ∷ ts) e f g = other-waiting i j t u ts e f g

  take_front-threads :
      (th : Thread E) (es : List E) (p : Pool E) → (take_front th es p).1.threads ≡ p.threads
  take_front-threads th [] p = refl
  take_front-threads th (x ∷ es) p = refl

  leave-threads : (b : Bool) (p : Pool E) → (leave b p).1.threads ≡ p.threads
  leave-threads true p = refl
  leave-threads false p = take_front-threads ready p.req_queue p

  resume-threads : (th : Thread E) (p : Pool E) → (resume th p).1.threads ≡ p.threads
  unfolding resume
  resume-threads ready p = take_front-threads waiting p.req_queue p
  resume-threads waiting p = refl
  resume-threads returned p = refl
  resume-threads (running e) p = refl
  resume-threads woken p = leave-threads p.in_destructor p

  Alone-waiting :
      (i : ℕ) {p q : Pool E}
      → Alone p q
      → get_elem? p.threads i ≡ some waiting
      → get_elem? q.threads i ≡ some waiting
  unfolding set_thread
  Alone-waiting i (alone_goes_on {p} j th at go) e =
      other-waiting i j (resume th p).0 th (resume th p).1.threads (rw (resume-threads th p) e)
        (rw (resume-threads th p) at) go

  AloneSteps-waiting :
      (i : ℕ) {p q : Pool E}
      → AloneSteps p q
      → get_elem? p.threads i ≡ some waiting
      → get_elem? q.threads i ≡ some waiting
  AloneSteps-waiting i at_once e = e
  AloneSteps-waiting i (then_alone r s) e = Alone-waiting i s (AloneSteps-waiting i r e)

  -- The thread has ended its work, and then waits.
  unfoldable pub asleep : ℕ → Pool E → Pool E
  asleep i p = set_thread i (waiting, set_thread i (ready, p))

  asleep-eq :
      (i : ℕ) (e : E) (p : Pool E)
      → get_elem? p.threads i ≡ some (running e)
      → p.req_queue ≡ []
      → set_thread i (resume ready (set_thread i (resume (running e) p))) ≡ asleep i p
  unfolding asleep resume set_thread
  asleep-eq i e p at empty = rw empty refl

  -- Where a thread still executes when the destruction has started, and the queue is empty, it may come to
  -- wait for the condition, which was notified before; and however the threads of the pool go on,
  -- where nothing is registered any more and no thread wakes without being notified, it waits, so that
  -- the destructor, which joins it, does not come back.
  pub asleep-waits :
      (n : ℕ) (p r : Pool E) (i : ℕ) (e : E)
      → Reachable n p
      → p.in_destructor ≡ true
      → get_elem? p.threads i ≡ some (running e)
      → p.req_queue ≡ []
      → AloneSteps (asleep i p) r
      → Reachable n (asleep i p)
        × ((asleep i p).in_destructor ≡ true)
        × (get_elem? r.threads i ≡ some waiting)
  unfolding asleep resume set_thread
  asleep-waits n p r i e reach d at empty alone =
      let p1 = set_thread i (ready, p) in
      let at1 : get_elem? p1.threads i ≡ some ready = replace-at i ready (running e) p.threads at in
      (
        subst (Reachable n) (asleep-eq i e p at empty)
            (steps (steps reach (goes_on i (running e) at refl)) (goes_on i ready at1 refl)),
        d,
        AloneSteps-waiting i alone (replace-at i waiting ready p1.threads at1),
      )
