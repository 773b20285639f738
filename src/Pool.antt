-- ===== src/Pool.antt =====
-- src/ConnectionPool.cpp and include/ConnectionPool.h: clients that are lent to threads. A call holds
-- the lock of the pool from its begin to its end, so calls follow one another.
pub mod Holders
pub mod Returns
pub mod Cleanup
pub mod Lending
use voltdb_client_cpp.Prelude.{
  ℕ, ◌+◌, Bool, true, false, Option, none, some, List, [], ◌∷◌, ◌++◌, ◌==◌, if◌then◌else◌, length,
}
use voltdb_client_cpp.Action.{Action, Outcome, done, fail, undefined, connect, misplaced_client}
use voltdb_client_cpp.Buffer.{Void, eqb_bytes}

-- `ClientStuff` and its delegating listener. A client is named by a number; copies of a `Client` share
-- one implementation and compare equal.
pub record ClientStuff : Type 0 where
  pub identifier : List ℕ
  pub client : ℕ
  pub listener : Option ℕ

-- A `std::map` to vectors, `operator[]` read and written. The vectors of `m_clients` are stacks, whose
-- back is the head of the list; those of the threads stand from their begin.
module _ {K : Type 0} (eq : K → K → Bool) where
  unfoldable pub stack_of : K → List (K × List ClientStuff) → List ClientStuff
  stack_of k [] = []
  stack_of k ((j, v) ∷ m) = let rest = stack_of k m in if eq j k then v else rest

  unfoldable pub set_stack :
      K → List ClientStuff → List (K × List ClientStuff) → List (K × List ClientStuff)
  set_stack k v [] = (k, v) ∷ []
  set_stack k v ((j, w) ∷ m) =
      let rest = set_stack k v m in if eq j k then (j, v) ∷ m else (j, w) ∷ rest

abbrev pub eqb : ℕ → ℕ → Bool
eqb a b = a == b

-- `m_clients`, and the clients that each thread has borrowed.
pub record Pool : Type 0 where
  pub clients : List (List ℕ × List ClientStuff)
  pub borrowed : List (ℕ × List ClientStuff)

-- The clients as the pool calls them. `run_once` tells whether the connection was lost, or that it
-- throws; `create` makes a client and connects it, or throws.
pub record Clients : Type 0 where
  pub run_once : ℕ → Option Bool
  pub create : Option ℕ

unfoldable pub find_borrowed : List ℕ → List ClientStuff → Option ℕ
find_borrowed id [] = none
find_borrowed id (c ∷ cs) =
    let rest = find_borrowed id cs in if eqb_bytes c.identifier id then some c.client else rest

-- What the loop over the clients of the pool comes to: none is left, one is good, or one throws.
pub data Popped : Type 0 where
  nothing : Popped
  good threw : ClientStuff → List ClientStuff → Popped

-- A client is taken from the back; one that lost its connection is dropped.
unfoldable pub pop : Clients → List ClientStuff → Popped
pop env [] = nothing
pop env (c ∷ cs) = elim (env.run_once c.client) [
  | none ↦ threw c cs
  | some true ↦ pop env cs
  | some false ↦ good c cs
]

abbrev pub lend : ℕ → ClientStuff → Pool → Pool
lend thread c p = record p {
  borrowed = set_stack eqb thread (stack_of eqb thread p.borrowed ++ c ∷ []) p.borrowed;
}

abbrev pub keep : List ℕ → List ClientStuff → Pool → Pool
keep id cs p = record p { clients = set_stack eqb_bytes id cs p.clients }

abbrev pub make : Option ℕ → ℕ → List ℕ → Option ℕ → Action Pool ℕ
make none thread id listener p = fail connect p
make (some c) thread id listener p =
    done c (lend thread (record { identifier = id; client = c; listener = listener }) p)

abbrev pub take_popped : Clients → Popped → ℕ → List ℕ → Option ℕ → Action Pool ℕ
take_popped env nothing thread id listener p = make env.create thread id listener (keep id [] p)
take_popped env (threw c cs) thread id listener p = fail undefined (keep id cs p)
take_popped env (good c cs) thread id listener p =
    done c.client (lend thread (record c { listener = listener }) (keep id cs p))

-- `acquireClient`, for the identifier of host, port, user and password.
unfoldable pub acquire_client : Clients → ℕ → List ℕ → Option ℕ → Action Pool ℕ
acquire_client env thread id listener p = elim (find_borrowed id (stack_of eqb thread p.borrowed)) [
  | some c ↦ done c p
  | none ↦ take_popped env (pop env (stack_of eqb_bytes id p.clients)) thread id listener p
]

abbrev with_client :
    ClientStuff → Option (ClientStuff × List ClientStuff) → Option (ClientStuff × List ClientStuff)
with_client c none = none
with_client c (some (d, ds)) = some (d, c ∷ ds)

-- The first borrowed client that equals the one given back, and the others.
unfoldable pub take_out : ℕ → List ClientStuff → Option (ClientStuff × List ClientStuff)
take_out client [] = none
take_out client (c ∷ cs) =
    let rest = take_out client cs in if c.client == client then some (c, cs) else with_client c rest

abbrev pub give_back : ClientStuff → Pool → Pool
give_back c p = record p {
  clients =
      set_stack eqb_bytes c.identifier
        (record c { listener = none } ∷ stack_of eqb_bytes c.identifier p.clients) p.clients;
}

-- `returnClient`
unfoldable pub return_client : ℕ → ℕ → Action Pool Void
return_client thread client p = elim (take_out client (stack_of eqb thread p.borrowed)) [
  | none ↦ fail misplaced_client p
  | some (c, cs) ↦
      done tt (give_back c (record p { borrowed = set_stack eqb thread cs p.borrowed }))
]

-- `numClientsBorrowed`
unfoldable pub num_clients_borrowed : ℕ → Pool → ℕ
num_clients_borrowed thread p = length (stack_of eqb thread p.borrowed)

abbrev give_back_all : List ClientStuff → Pool → Pool
give_back_all [] p = p
give_back_all (c ∷ cs) p = give_back_all cs (give_back c p)

-- `cleanupOnScriptEnd`: all that the thread has goes back to the pool.
unfoldable pub cleanup_on_script_end : ℕ → Pool → Pool
cleanup_on_script_end thread p =
    give_back_all (stack_of eqb thread p.borrowed)
      (record p { borrowed = set_stack eqb thread [] p.borrowed })
