-- ===== src/Pool/Lending.antt =====
-- acquireClient of src/ConnectionPool.cpp: whom a client is lent to.
use voltdb_client_cpp.Prelude.{
  ℕ, ◌+◌, ◌≤◌, ◌≡◌, subst, inl, inr, true, false, Option, none, some, List, [], ◌∷◌, ◌++◌, ◌==◌,
  if◌then◌else◌, arith, Bool-cases, Option-cases,
}
use voltdb_client_cpp.Action.{Outcome, done, fail, state_of}
use voltdb_client_cpp.Buffer.{eqb_bytes}
use voltdb_client_cpp.Pool.{
  ClientStuff, Pool, Clients, Popped, nothing, good, threw, stack_of, eqb, find_borrowed, pop, lend,
  keep, make, take_popped, acquire_client,
}
use voltdb_client_cpp.Pool.Holders.{
  one, occurs, held, occurs-append, held-lend, held-keep, one-same, stack_of-set_stack,
}

-- What a turn of the loop leaves of the clients.
abbrev occurs_popped : ℕ → Popped → ℕ
occurs_popped x nothing = 0
occurs_popped x (good c cs) = one x c + occurs x cs
occurs_popped x (threw c cs) = occurs x cs

pop-occurs :
    (env : Clients) (x : ℕ) (cs : List ClientStuff) → occurs_popped x (pop env cs) ≤ occurs x cs
unfolding pop
pop-occurs env x [] = omega arith
pop-occurs env x (c ∷ cs) = elim (Option-cases (env.run_once c.client)) [
  | inl e ↦ rw (occurs_popped, e) (omega arith)
  | inr (true, e) ↦ rw (occurs_popped, e) (omega (arith, pop-occurs env x cs))
  | inr (false, e) ↦ rw (occurs_popped, e) (omega arith)
]

find_borrowed-occurs :
    (id : List ℕ) (cs : List ClientStuff) (c : ℕ) → find_borrowed id cs ≡ some c → 1 ≤ occurs c cs
unfolding find_borrowed
find_borrowed-occurs id [] c e = cc
find_borrowed-occurs id (d ∷ cs) c e = elim (Bool-cases (eqb_bytes d.identifier id)) [
  | inl b ↦
      let same : d.client ≡ c = cc in
      subst (λ y. 1 ≤ occurs y (d ∷ cs)) same (omega (arith, one-same d))
  | inr b ↦
      let later : find_borrowed id cs ≡ some c = cc in
      omega (arith, find_borrowed-occurs id cs c later)
]

abbrev pub Has : ℕ → Outcome Pool ℕ → Type 0
Has thread (done c p) = 1 ≤ occurs c (stack_of eqb thread p.borrowed)
Has thread (fail e p) = Unit {0}

-- The client that `create` makes.
abbrev created : ℕ → Option ℕ → ℕ
created x none = 0
created x (some c) = if c == x then 1 else 0

occurs-lent :
    (x thread : ℕ) (c : ClientStuff) (p : Pool)
    → occurs x (stack_of eqb thread (lend thread c p).borrowed)
      ≡ one x c + occurs x (stack_of eqb thread p.borrowed)
occurs-lent x thread c p =
    rw (stack_of-set_stack thread (stack_of eqb thread p.borrowed ++ c ∷ []) p.borrowed)
      (occurs-append x (stack_of eqb thread p.borrowed) c)

make-held :
    (o : Option ℕ) (x thread : ℕ) (id : List ℕ) (l : Option ℕ) (p : Pool)
    → held x (state_of (make o thread id l p)) ≤ held x p + created x o
make-held none x thread id l p = omega arith
make-held (some c) x thread id l p =
    omega (arith, held-lend x thread (record { identifier = id; client = c; listener = l }) p)

make-Has :
    (o : Option ℕ) (thread : ℕ) (id : List ℕ) (l : Option ℕ) (p : Pool)
    → Has thread (make o thread id l p)
make-Has none thread id l p = tt
make-Has (some c) thread id l p =
    let stuff : ClientStuff = record { identifier = id; client = c; listener = l } in
    omega (arith, occurs-lent c thread stuff p, one-same stuff)

take_popped-held :
    (env : Clients) (q : Popped) (x thread : ℕ) (id : List ℕ) (l : Option ℕ) (p : Pool)
    → occurs_popped x q ≤ occurs x (stack_of eqb_bytes id p.clients)
    → held x (state_of (take_popped env q thread id l p)) ≤ held x p + created x env.create
take_popped-held env nothing x thread id l p h =
    omega (arith, held-keep x id [] p, make-held env.create x thread id l (keep id [] p))
take_popped-held env (threw c cs) x thread id l p h = omega (arith, held-keep x id cs p)
take_popped-held env (good c cs) x thread id l p h =
    omega
      (arith, held-keep x id cs p, held-lend x thread (record c { listener = l }) (keep id cs p))

take_popped-Has :
    (env : Clients) (q : Popped) (thread : ℕ) (id : List ℕ) (l : Option ℕ) (p : Pool)
    → Has thread (take_popped env q thread id l p)
take_popped-Has env nothing thread id l p = make-Has env.create thread id l (keep id [] p)
take_popped-Has env (threw c cs) thread id l p = tt
take_popped-Has env (good c cs) thread id l p =
    omega
      (arith, occurs-lent c.client thread (record c { listener = l }) (keep id cs p), one-same c)

-- No client is held twice.
abbrev pub IsSingle : Pool → Type 0
IsSingle p = (x : ℕ) → held x p ≤ 1

-- No client is held twice, and one that would be made is held by nobody.
abbrev pub IsFresh : Option ℕ → Pool → Type 0
IsFresh o p = (x : ℕ) → created x o + held x p ≤ 1

pub record Lent (thread : ℕ) (o : Outcome Pool ℕ) : Type 0 where
  single : IsSingle (state_of o)
  has : Has thread o

-- Where no client of the pool and its threads is held twice and the client that would be made is held
-- by nobody, acquiring a client keeps this so, also where the call throws, and a client that it returns
-- is then one that the thread holds.
pub acquire_client-Lent :
    (env : Clients) (thread : ℕ) (id : List ℕ) (listener : Option ℕ) (p : Pool)
    → IsFresh env.create p
    → Lent thread (acquire_client env thread id listener p)
unfolding acquire_client
acquire_client-Lent env thread id listener p fresh =
    elim (Option-cases (find_borrowed id (stack_of eqb thread p.borrowed))) [
      | inl e ↦
          let stack : List ClientStuff = stack_of eqb_bytes id p.clients in
          rw (acquire_client, e)
            (record {
              single = λ x. omega (
                arith,
                take_popped-held env (pop env stack) x thread id listener p
                    (pop-occurs env x stack),
                fresh x,
              );
              has = take_popped-Has env (pop env stack) thread id listener p;
            })
      | inr (c, e) ↦
          rw (acquire_client, e)
            (record {
              single = λ x. omega (arith, fresh x);
              has = find_borrowed-occurs id (stack_of eqb thread p.borrowed) c e;
            })
    ]
