-- ===== src/Pool.antt =====
-- The pool of threads (`Pool_executor_factory` and `Pool_thread` of libiqxmlrpc/executor.cc, executor.h):
-- the queue, the threads, and the steps that they take. A step is what is done under a lock, or the
-- execution of an executor, of which the type `E` is a parameter. A thread that waits for the condition
-- may wake without being notified.
pub mod Queue
pub mod Awake
pub mod Stop
use libiqxmlrpc.Prelude.{
  ℕ, zero, suc, Bool, true, false, List, [], ◌∷◌, ◌++◌, Option, none, some, get_elem?, ◌≡◌,
  if◌then◌else◌,
}

-- Where a thread is: at the head of its loop, in `wait`, behind it, executing, or gone.
pub data Thread (E : Type 0) : Type 0 where
  ready waiting woken returned : Thread E
  running : E → Thread E

-- `Pool_executor_factory`; the history: what was registered, and what was taken from the queue.
pub record Pool (E : Type 0) : Type 0 where
  pub req_queue : List E
  pub in_destructor : Bool
  pub threads : List (Thread E)
  pub registered : List E
  pub taken : List E

module _ {E : Type 0} where
  abbrev pub replace : ℕ → Thread E → List (Thread E) → List (Thread E)
  replace i th [] = []
  replace zero th (t ∷ ts) = th ∷ ts
  replace (suc i) th (t ∷ ts) = t ∷ replace i th ts

  -- The constructor, with `add_threads`.
  abbrev pub new_threads : ℕ → List (Thread E)
  new_threads zero = []
  new_threads (suc n) = ready ∷ new_threads n

  unfoldable pub add_threads : ℕ → Pool E → Pool E
  add_threads n p = record p { threads = p.threads ++ new_threads n }

  unfoldable pub new_pool : ℕ → Pool E
  unfolding add_threads
  new_pool numthreads =
      add_threads numthreads (record {
        req_queue = [];
        in_destructor = false;
        threads = [];
        registered = [];
        taken = [];
      })

  -- `pop_front`, and what to do where the queue is empty.
  abbrev pub take_front : Thread E → List E → Pool E → Thread E × Pool E
  take_front th [] p = (th, p)
  take_front th (e ∷ es) p = (running e, record p { req_queue = es; taken = p.taken ++ e ∷ [] })

  -- Behind `wait`, by `is_being_destructed`.
  abbrev pub leave : Bool → Pool E → Thread E × Pool E
  leave true p = (returned, p)
  leave false p = take_front ready p.req_queue p

  -- What a thread does next: from its lock to `wait` or to the unlocking, from `wait` on, or the
  -- execution.
  unfoldable pub resume : Thread E → Pool E → Thread E × Pool E
  resume ready p = take_front waiting p.req_queue p
  resume woken p = leave p.in_destructor p
  resume (running e) p = (ready, p)
  resume waiting p = (waiting, p)
  resume returned p = (returned, p)

  unfoldable pub set_thread : ℕ → Thread E × Pool E → Pool E
  set_thread i (th, p) = record p { threads = replace i th p.threads }

  -- `register_executor`, without the notification.
  unfoldable pub push_executor : E → Pool E → Pool E
  push_executor e p = record p {
    req_queue = p.req_queue ++ e ∷ [];
    registered = p.registered ++ e ∷ [];
  }

  unfoldable pub wake : ℕ → Pool E → Pool E
  wake i p = record p { threads = replace i woken p.threads }

  -- `destruction_started`, with `notify_all`: one step, though it takes its two locks one after the
  -- other, and holds both to the end
  abbrev pub wake_all : List (Thread E) → List (Thread E)
  wake_all [] = []
  wake_all (waiting ∷ ts) = woken ∷ wake_all ts
  wake_all (t ∷ ts) = t ∷ wake_all ts

  unfoldable pub destruction_started : Pool E → Pool E
  destruction_started p = record p { in_destructor = true; threads = wake_all p.threads }

  abbrev pub is_waiting : Thread E → Bool
  is_waiting waiting = true
  is_waiting _ = false

  abbrev pub any_waiting : List (Thread E) → Bool
  any_waiting [] = false
  any_waiting (t ∷ ts) = if is_waiting t then true else any_waiting ts

  -- The steps: a thread goes on; a thread wakes by itself; an executor is registered, and one of the
  -- threads that wait, if there is any, is notified; the destruction starts.
  pub data Step : Pool E → Pool E → Type 0 where
    goes_on :
        {p : Pool E} (i : ℕ) (th : Thread E)
        → get_elem? p.threads i ≡ some th
        → is_waiting th ≡ false
        → Step p (set_thread i (resume th p))
    wakes : {p : Pool E} (i : ℕ) → get_elem? p.threads i ≡ some waiting → Step p (wake i p)
    notifies :
        {p : Pool E} (e : E) (i : ℕ)
        → get_elem? p.threads i ≡ some waiting
        → Step p (wake i (push_executor e p))
    registers : {p : Pool E} (e : E) → any_waiting p.threads ≡ false → Step p (push_executor e p)
    destroys : {p : Pool E} → Step p (destruction_started p)

  pub data Reachable (n : ℕ) : Pool E → Type 0 where
    starts : Reachable n (new_pool n)
    steps : {p q : Pool E} → Reachable n p → Step p q → Reachable n q
