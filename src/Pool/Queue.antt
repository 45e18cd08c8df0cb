-- ===== src/Pool/Queue.antt =====
-- The order of the queue (libiqxmlrpc/executor.cc).
use libiqxmlrpc.Pool.{
  Thread, ready, waiting, woken, returned, running, Pool, new_pool, take_front, leave, resume,
  set_thread, push_executor, wake, destruction_started, Step, goes_on, wakes, notifies, registers,
  destroys, Reachable, starts, steps,
}
use libiqxmlrpc.Prelude.{ℕ, Bool, true, false, List, [], ◌∷◌, ◌++◌, ◌≡◌, refl, sym, ap, ◌∙◌}
use mathlib.Core.List.{append_assoc}

module _ {E : Type 0} where
  -- What was taken, and then what waits, is what was registered.
  unfoldable pub IsFair : Pool E → Type 0
  IsFair p = p.taken ++ p.req_queue ≡ p.registered

  take_front-IsFair :
      (th : Thread E) (es : List E) (p : Pool E)
      → p.req_queue ≡ es
      → IsFair p
      → IsFair (take_front th es p).1
  unfolding IsFair
  take_front-IsFair th [] p e f = f
  take_front-IsFair th (x ∷ es) p e f =
      append_assoc p.taken (x ∷ []) es ∙ ap (λ q. p.taken ++ q) (sym e) ∙ f

  leave-IsFair : (b : Bool) (p : Pool E) → IsFair p → IsFair (leave b p).1
  leave-IsFair true p f = f
  leave-IsFair false p f = take_front-IsFair ready p.req_queue p refl f

  push_executor-IsFair : (e : E) (p : Pool E) → IsFair p → IsFair (push_executor e p)
  unfolding IsFair push_executor
  push_executor-IsFair e p f =
      sym (append_assoc p.taken p.req_queue (e ∷ [])) ∙ ap (λ q. q ++ e ∷ []) f

  resume-IsFair : (th : Thread E) (p : Pool E) → IsFair p → IsFair (resume th p).1
  unfolding resume
  resume-IsFair ready p f = take_front-IsFair waiting p.req_queue p refl f
  resume-IsFair waiting p f = f
  resume-IsFair returned p f = f
  resume-IsFair (running e) p f = f
  resume-IsFair woken p f = leave-IsFair p.in_destructor p f

  Step-IsFair : {p q : Pool E} → Step p q → IsFair p → IsFair q
  unfolding IsFair set_thread wake push_executor destruction_started
  Step-IsFair (goes_on {p} i th at go) f = resume-IsFair th p f
  Step-IsFair (wakes i at) f = f
  Step-IsFair (notifies {p} e i at) f = push_executor-IsFair e p f
  Step-IsFair (registers {p} e none_waits) f = push_executor-IsFair e p f
  Step-IsFair destroys f = f

  -- In every state that a pool comes to, whatever its threads and its users do in any order, the
  -- executors that were taken from the queue, in the order in which they were taken, and behind them
  -- those in the queue, are those that were registered, in that order: none is lost, none is taken
  -- twice, and none overtakes another.
  pub Reachable-IsFair :
      (n : ℕ) (p : Pool E) → Reachable n p → p.taken ++ p.req_queue ≡ p.registered
  unfolding IsFair new_pool
  Reachable-IsFair n p starts = refl
  Reachable-IsFair n q (steps {p} r s) = Step-IsFair s (Reachable-IsFair n p r)
