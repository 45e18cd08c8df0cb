-- ===== src/Client/Cache.antt =====
-- The connection that a client keeps (`Client_base` and `Auto_conn` of libiqxmlrpc/client.cc). A
-- connection is of a type `C`. Making one may throw, as the connector does, and a session on it, which
-- gets the options, may too; either way it leaves the connection changed.
use libiqxmlrpc.Client.{Options}
use libiqxmlrpc.Exceptions.{Thrown}
use libiqxmlrpc.Prelude.{
  ℕ, suc, ◌+◌, Bool, true, false, List, [], ◌∷◌, Option, none, some, Result, ok, err, length, ◌≡◌,
  refl, sym, ap, ◌∙◌, arith, Bool-cases, Result-cases, inl, inr,
}

-- `Client_base::Impl`; the history: how often a connection was to be made.
pub record Client (C : Type 0) : Type 0 where
  pub opts : Options
  pub conn_cache : Option C
  pub attempts : ℕ

-- What `execute` runs on a connection.
abbrev pub Session : Type 0 → Type 0 → Type 0
Session C A = Options → C → Result Thrown A × C

module _ {C : Type 0} where
  abbrev dropped : Bool → Option C → Option C
  dropped true c = c
  dropped false c = none

  -- `Client_base::set_keep_alive`
  unfoldable pub set_keep_alive : Bool → Client C → Client C
  set_keep_alive k cl = record cl {
    opts = record cl.opts { keep_alive = k };
    conn_cache = dropped k cl.conn_cache;
  }

  -- The connection that is kept, which is the one that a session was on, as the session left it.
  abbrev pub changed : C → Option C → Option C
  changed c none = none
  changed c (some _) = some c

  -- The destructor of `Auto_conn`.
  abbrev pub release : Bool → C → Client C → Client C
  release true c cl = record cl { conn_cache = changed c cl.conn_cache }
  release false c cl = record cl { conn_cache = none }

module _ {C : Type 0} (get_connection : ℕ → Result Thrown C) where
  -- The constructor of `Auto_conn`: an exception of `create_connection` leaves the cache as it is.
  abbrev made_one : Client C → Result Thrown C × Client C
  made_one cl = (get_connection cl.attempts, record cl { attempts = suc cl.attempts })

  abbrev keep_first : Result Thrown C × Client C → Result Thrown C × Client C
  keep_first (ok c, cl) = (ok c, record cl { conn_cache = some c })
  keep_first (err e, cl) = (err e, cl)

  abbrev cached : Option C → Client C → Result Thrown C × Client C
  cached (some c) cl = (ok c, cl)
  cached none cl = keep_first (made_one cl)

  abbrev pub acquire : Bool → Client C → Result Thrown C × Client C
  acquire true cl = cached cl.conn_cache cl
  acquire false cl = made_one cl

module _ {C A : Type 0} (get_connection : ℕ → Result Thrown C) where
  -- `Client_base::execute`; where the constructor throws, the destructor is not called.
  abbrev pub on_connection : Session C A → Result Thrown C × Client C → Result Thrown A × Client C
  on_connection s (err e, cl) = (err e, cl)
  on_connection s (ok c, cl) = ((s cl.opts c).0, release cl.opts.keep_alive (s cl.opts c).1 cl)

  unfoldable pub execute : Session C A → Client C → Result Thrown A × Client C
  execute s cl = on_connection s (acquire get_connection cl.opts.keep_alive cl)

  -- Calls of `execute`, one after another.
  unfoldable pub calls : List (Session C A) → Client C → List (Result Thrown A) × Client C
  calls [] cl = ([], cl)
  calls (s ∷ ss) cl =
      let (a, cl1) = execute s cl in let (results, cl2) = calls ss cl1 in (a ∷ results, cl2)

  -- The sessions on one connection, each where the one before left it.
  abbrev pub on_one : Options → List (Session C A) → C → List (Result Thrown A)
  on_one o [] c = []
  on_one o (s ∷ ss) c = (s o c).0 ∷ on_one o ss (s o c).1

  abbrev pub session_on : Options → Session C A → Result Thrown C → Result Thrown A
  session_on o s (ok c) = (s o c).0
  session_on o s (err e) = err e

  -- Each session on a new connection, or the exception of making it.
  abbrev pub on_new : Options → List (Session C A) → ℕ → List (Result Thrown A)
  on_new o [] n = []
  on_new o (s ∷ ss) n = session_on o s (get_connection n) ∷ on_new o ss (suc n)

  abbrev pub or_first :
      Options
      → List (Session C A)
      → ℕ
      → Result Thrown C
      → List (Result Thrown A) × ℕ
      → List (Result Thrown A) × ℕ
  or_first o ss n (ok c) next = (on_one o ss c, suc n)
  or_first o ss n (err e) next = (err e ∷ next.0, next.1)

  -- Exceptions of making a connection, until one is made, on which all that is left runs; with how many
  -- connections were to be made.
  abbrev pub on_first : Options → List (Session C A) → ℕ → List (Result Thrown A) × ℕ
  on_first o [] n = ([], n)
  on_first o (s ∷ ss) n = or_first o (s ∷ ss) n (get_connection n) (on_first o ss (suc n))

  abbrev pub results_of : Bool → Options → List (Session C A) → ℕ → List (Result Thrown A) × ℕ
  results_of true o ss n = on_first o ss n
  results_of false o ss n = (on_new o ss n, n + length ss)

  abbrev Gives : List (Session C A) → Client C → List (Result Thrown A) × ℕ → Type 0
  Gives ss cl x = ((calls ss cl).0 ≡ x.0) × ((calls ss cl).1.attempts ≡ x.1)

  -- One call, and those behind it.
  calls-Gives :
      (s : Session C A) (ss : List (Session C A)) (cl cl1 : Client C) (a : Result Thrown A)
      (x : List (Result Thrown A) × ℕ)
      → execute s cl ≡ (a, cl1)
      → Gives ss cl1 x
      → Gives (s ∷ ss) cl (a ∷ x.0, x.1)
  unfolding calls
  calls-Gives s ss cl cl1 a x e (f, g) = rw e (ap (◌∷◌ a) f, g)

  calls-cached :
      (ss : List (Session C A)) (cl : Client C) (c : C)
      → cl.opts.keep_alive ≡ true
      → cl.conn_cache ≡ some c
      → Gives ss cl (on_one cl.opts ss c, cl.attempts)
  unfolding calls execute
  calls-cached [] cl c k e = (refl, refl)
  calls-cached (s ∷ ss) cl c k e =
      let cl1 = record cl { conn_cache = some (s cl.opts c).1 } in
      calls-Gives s ss cl cl1 (s cl.opts c).0 (on_one cl.opts ss (s cl.opts c).1, cl.attempts)
        (rw (k, e) refl) (calls-cached ss cl1 (s cl.opts c).1 k refl)

  calls-first :
      (ss : List (Session C A)) (cl : Client C)
      → cl.opts.keep_alive ≡ true
      → cl.conn_cache ≡ none
      → Gives ss cl (on_first cl.opts ss cl.attempts)
  unfolding calls execute
  calls-first [] cl k e = (refl, refl)
  calls-first (s ∷ ss) cl k e = elim (Result-cases (get_connection cl.attempts)) [
    | inl (c, h) ↦
        let c1 = (s cl.opts c).1 in
        let cl1 = record cl { attempts = suc cl.attempts; conn_cache = some c1 } in
        rw (on_first, h)
          (calls-Gives s ss cl cl1 (s cl.opts c).0 (on_one cl.opts ss c1, suc cl.attempts)
            (rw (k, e, h) refl) (calls-cached ss cl1 c1 k refl))
    | inr (x, h) ↦
        let cl1 = record cl { attempts = suc cl.attempts } in
        rw (on_first, h)
          (calls-Gives s ss cl cl1 (err x) (on_first cl.opts ss (suc cl.attempts))
            (rw (k, e, h) refl) (calls-first ss cl1 k e))
  ]

  calls-new :
      (ss : List (Session C A)) (cl : Client C)
      → cl.opts.keep_alive ≡ false
      → cl.conn_cache ≡ none
      → Gives ss cl (on_new cl.opts ss cl.attempts, cl.attempts + length ss)
  unfolding calls execute
  calls-new [] cl k e = (refl, omega arith)
  calls-new (s ∷ ss) cl k e =
      let cl1 = record cl { attempts = suc cl.attempts } in
      let (f, g) = calls-new ss cl1 k e in
      let g' : (calls ss cl1).1.attempts ≡ cl.attempts + length (s ∷ ss) = omega (arith, g) in
      elim (Result-cases (get_connection cl.attempts)) [
        | inl (c, h) ↦
            rw (on_new, h)
              (calls-Gives s ss cl cl1 (s cl.opts c).0
                (on_new cl.opts ss (suc cl.attempts), cl.attempts + length (s ∷ ss))
                (rw (k, h, e) refl) (f, g'))
        | inr (x, h) ↦
            rw (on_new, h)
              (calls-Gives s ss cl cl1 (err x)
                (on_new cl.opts ss (suc cl.attempts), cl.attempts + length (s ∷ ss))
                (rw (k, h) refl) (f, g'))
      ]

  -- The calls of a client that keeps no connection yet, whatever the sessions give and however they
  -- fail. Where the client is to keep it alive, each call tries to make a connection, and throws what
  -- that throws, until one is made; no other is made then, and each session goes on where the one
  -- before left it. Else each call makes a connection of its own, and throws where that throws.
  pub calls-connections :
      (ss : List (Session C A)) (cl : Client C)
      → cl.conn_cache ≡ none
      → ((calls ss cl).0, (calls ss cl).1.attempts)
        ≡ results_of cl.opts.keep_alive cl.opts ss cl.attempts
  calls-connections ss cl e = elim (Bool-cases cl.opts.keep_alive) [
    | inl k ↦
        let (f, g) = calls-first ss cl k e in
        (λ i. (f i, g i)) ∙ sym (ap (λ b. results_of b cl.opts ss cl.attempts) k)
    | inr k ↦
        let (f, g) = calls-new ss cl k e in
        (λ i. (f i, g i)) ∙ sym (ap (λ b. results_of b cl.opts ss cl.attempts) k)
  ]
