-- ===== src/Tests/Pools.antt =====
-- Concrete runs of the pool of threads.
use libiqxmlrpc.Pool.Awake.{is_awake, Reachable-awake}
use libiqxmlrpc.Pool.Queue.{Reachable-IsFair}
use libiqxmlrpc.Pool.Stop.{at_once, asleep, asleep-waits}
use libiqxmlrpc.Pool.{
  Thread, ready, waiting, running, Pool, new_pool, add_threads, push_executor, resume, set_thread,
  destruction_started, Reachable, starts, steps, registers, goes_on, destroys,
}
use libiqxmlrpc.Prelude.{ℕ, true, false, [], ◌∷◌, ◌++◌, some, get_elem?, ◌≡◌, ◌≢◌, refl}

-- Two executors are registered, a thread takes the first, and the destruction starts.
abbrev with_two : Pool ℕ
with_two = record {
  req_queue = 7 ∷ 8 ∷ [];
  in_destructor = false;
  threads = ready ∷ [];
  registered = 7 ∷ 8 ∷ [];
  taken = [];
}

abbrev with_one : Pool ℕ
with_one = record with_two { req_queue = 8 ∷ []; taken = 7 ∷ []; threads = running 7 ∷ [] }

with_two-Reachable : Reachable 1 with_two
unfolding new_pool add_threads push_executor
with_two-Reachable = steps (steps starts (registers 7 refl)) (registers 8 refl)

with_one-Reachable : Reachable 1 with_one
unfolding resume set_thread
with_one-Reachable = steps with_two-Reachable (goes_on 0 ready refl refl)

Reachable-IsFair_example : with_one.taken ++ with_one.req_queue ≡ with_one.registered
Reachable-IsFair_example = Reachable-IsFair 1 with_one with_one-Reachable

queued : with_one.req_queue ≢ []
queued e = cc

Reachable-awake_example :
    (i : ℕ) × (th : Thread ℕ) × (get_elem? with_one.threads i ≡ some th) × (is_awake th ≡ true)
Reachable-awake_example = Reachable-awake 0 with_one with_one-Reachable refl queued

abbrev busy : Pool ℕ
busy = record {
  req_queue = [];
  in_destructor = true;
  threads = running 7 ∷ [];
  registered = 7 ∷ [];
  taken = 7 ∷ [];
}

busy-Reachable : Reachable 1 busy
unfolding new_pool add_threads push_executor resume set_thread destruction_started
busy-Reachable =
    steps (steps (steps starts (registers 7 refl)) (goes_on 0 ready refl refl)) destroys

asleep-waits_example :
    Reachable 1 (asleep 0 busy)
    × ((asleep 0 busy).in_destructor ≡ true)
    × (get_elem? (asleep 0 busy).threads 0 ≡ some waiting)
asleep-waits_example = asleep-waits 1 busy (asleep 0 busy) 0 7 busy-Reachable refl refl refl at_once
