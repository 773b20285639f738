-- ===== src/Tests/Pools.antt =====
-- src/ConnectionPool.cpp at concrete inputs.
use voltdb_client_cpp.Prelude.{◌≡◌, refl, [], ◌∷◌, some, none, ℕ, ◌==◌, arith}
use voltdb_client_cpp.Action.{state_of}
use voltdb_client_cpp.Buffer.{eqb_bytes}
use voltdb_client_cpp.Pool.{
  ClientStuff, Pool, Clients, stack_of, set_stack, find_borrowed, pop, acquire_client,
  return_client, cleanup_on_script_end, num_clients_borrowed,
}
use voltdb_client_cpp.Pool.Holders.{held}
use voltdb_client_cpp.Pool.Returns.{held-return_client}
use voltdb_client_cpp.Pool.Cleanup.{Cleaned, cleanup_on_script_end-Cleaned}
use voltdb_client_cpp.Pool.Lending.{IsFresh, Lent, acquire_client-Lent}

-- Client 5 has lost its connection, and 9 would be made. One thread has 7, the pool has 6 and on top 5.
abbrev env : Clients
env = record { run_once = λ c. some (c == 5); create = some 9 }

abbrev stuff : ℕ → ClientStuff
stuff c = record { identifier = 1 ∷ []; client = c; listener = none }

abbrev pool : Pool
pool = record { clients = (1 ∷ [], stuff 5 ∷ stuff 6 ∷ []) ∷ []; borrowed = (2, stuff 7 ∷ []) ∷ [] }

-- The dropped client is not lent, nor is one made.
acquired : num_clients_borrowed 3 (state_of (acquire_client env 3 (1 ∷ []) none pool)) ≡ 1
unfolding num_clients_borrowed acquire_client stack_of find_borrowed pop eqb_bytes set_stack
acquired = refl

pool-IsFresh : IsFresh env.create pool
pool-IsFresh x = ground arith

acquire_client-Lent_example : Lent 3 (acquire_client env 3 (1 ∷ []) none pool)
acquire_client-Lent_example = acquire_client-Lent env 3 (1 ∷ []) none pool pool-IsFresh

held-return_client_example : held 7 (state_of (return_client 2 7 pool)) ≡ held 7 pool
held-return_client_example = held-return_client 7 2 7 pool

cleanup_on_script_end-Cleaned_example : Cleaned 2 pool (cleanup_on_script_end 2 pool)
cleanup_on_script_end-Cleaned_example = cleanup_on_script_end-Cleaned 2 pool
