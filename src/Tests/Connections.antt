-- ===== src/Tests/Connections.antt =====
-- The connections of src/ClientImpl.cpp at concrete inputs.
use voltdb_client_cpp.Prelude.{
  ◌≡◌, ◌-◌, ◌^◌, refl, List, [], ◌∷◌, some, none, true, false, ℕ, arith, zero, suc, get_elem?,
}
use voltdb_client_cpp.Prelude.Int.{pos, negsuc}
use voltdb_client_cpp.Action.{done, state_of, skip}
use voltdb_client_cpp.Hashinator.{Murmur}
use voltdb_client_cpp.Procedure.{Procedure}
use voltdb_client_cpp.Procedure
use voltdb_client_cpp.Auth.{sha1, success, read_response, read_login, get_login}
use voltdb_client_cpp.Wire.{to_int, from_bytes}
use voltdb_client_cpp.Buffer.{get_int, get_word, get_string, get, check_get_put_index}
use voltdb_client_cpp.Client.{Client, Handlers, init, magic, set_callbacks, put_callback, has}
use voltdb_client_cpp.Client.Invoke.{Network, invoke}
use voltdb_client_cpp.Client.Connections.{
  Peer, new_pending, finalize_authentication, check_instance, join, add_connection, put_host,
  erase_pending, is_pending, lose_connection,
}
use voltdb_client_cpp.Client.Authentication.{
  next_answer, replace_pending, authentication_read_callback,
}
use voltdb_client_cpp.Client.Read.Stream.{before_length}
use voltdb_client_cpp.Client.Linked.{IsLinked, Post, returned}
use voltdb_client_cpp.Client.Stuck.{IsStuck, StillTurns, choose-Stuck}
use voltdb_client_cpp.Client.Linked.Choice.{Behaves}
use voltdb_client_cpp.Client.Linked.Invoke.{Requested, invoke-Requested}
use voltdb_client_cpp.Client.Linked.Reach.{
  World, IsFair, here, next, logs_in, invokes, loses, reached-IsLinked,
}

-- The network takes every byte, and its event loop ends at once.
abbrev network : Network
network = record {
  accepts = λ b bs. true;
  long = λ b bs. false;
  dispatch = λ s. done true s;
  poll = λ s. done true s;
  dispatch_for = λ c s. done (true, none) s;
  backpressure = none;
  abandon = λ c. skip;
}

abbrev murmur : Murmur
murmur = record { of_int = λ v. v; of_text = λ s. pos 0 }

abbrev handlers : Handlers
handlers = record {
  callback = λ c r s. done true s;
  uncaught = none;
  connection_lost = none;
  connection_active = none;
}

abbrev world : World
world = record {
  murmur = murmur;
  network = network;
  handlers = handlers;
  connector = record { initiate = λ pc. skip; dispatch = λ pc s. done (true, pc) s };
  identity = record { username = []; password_hash = []; scheme = sha1 };
  fuel = 2;
}

network_behaves : Behaves network
network_behaves = record {
  dispatch = record { keeps = λ s l. returned l tt };
  poll = record { keeps = λ s l. returned l tt };
  dispatch_for = λ c. record { keeps = λ s l. returned l tt };
  backpressure = λ b e. cc;
  abandon = λ c. record { keeps = λ s l. returned l tt };
}

world-IsFair : IsFair world
world-IsFair = record {
  network = network_behaves;
  handlers = record {
    callback = λ c r. record { keeps = λ s l. returned l tt };
    uncaught = λ u e c r. cc;
    lost = λ f e b. cc;
    active = λ f e b. cc;
  };
  connector = record {
    initiate = λ pc. record { keeps = λ s l. returned l tt };
    dispatch = λ pc. record { keeps = λ s l. returned l tt };
  };
}

-- The answer of a server that lets the client in, for host 1.
abbrev answer : List ℕ
answer =
    0 ∷ 0 ∷ 0 ∷ 30 ∷ 0 ∷ 0 ∷ 0 ∷ 0 ∷ 0 ∷ 1 ∷ 0 ∷ 0 ∷ 0 ∷ 0 ∷ 0 ∷ 0 ∷ 0 ∷ 0 ∷ 0 ∷ 0 ∷ 0 ∷ 0 ∷ 0 ∷ 0
    ∷ 0 ∷ 0 ∷ 0 ∷ 0 ∷ 0 ∷ 0 ∷ 0 ∷ 0 ∷ 0 ∷ 0 ∷ []

abbrev new_client : Client
new_client = init (pos 3000)

abbrev logged_in : Client
logged_in = state_of (
    authentication_read_callback murmur network 2 handlers (pos 0) 8 answer (new_pending 1 [] 21212)
      new_client)

one_connection : logged_in.bevs ≡ 8 ∷ []
unfolding authentication_read_callback init next_answer to_int from_bytes read_response read_login
    get_login get_int get_word get_string get check_get_put_index success finalize_authentication
    check_instance join add_connection put_host set_callbacks put_callback erase_pending is_pending
    replace_pending
one_connection = refl

abbrev procedure : Procedure
procedure = Procedure.init (112 ∷ []) []

abbrev invoked : Client
invoked = state_of (invoke murmur network 2 procedure 5 logged_in)

abbrev peer : Peer
peer = record { name = []; port = 21212; next = 2; now = pos 9 }

abbrev lost : Client
lost =
    state_of (lose_connection murmur network 2 handlers peer (before_length (pos 4)) [] 8 invoked)

reached-IsLinked_example : IsLinked lost
unfolding init
reached-IsLinked_example = reached-IsLinked world world-IsFair (pos 3000) (
    next
      (next (next here (logs_in (pos 0) 8 answer (new_pending 1 [] 21212) refl refl))
        (invokes procedure 5 refl))
      (loses peer (before_length (pos 4)) [] 8 refl))

-- A client with two connections.
abbrev client : Client
client = record new_client {
  bevs = 3 ∷ 8 ∷ [];
  callbacks = (3, (magic, 0) ∷ []) ∷ (8, (magic, 0) ∷ (pos 5, 2) ∷ []) ∷ [];
  outstanding_requests = pos 1;
}

client-IsLinked : IsLinked client
unfolding init
client-IsLinked = record {
  linked = λ b. omega arith;
  single = λ b. ground arith;
  held = λ b. omega arith;
}

invoke-Requested_example :
    Post (Requested (negsuc (2 ^ 63 - 1)) 5) (invoke murmur network 2 procedure 5 client)
unfolding init
invoke-Requested_example =
    invoke-Requested murmur network network_behaves 2 procedure 5 client client-IsLinked refl

-- The same with both under backpressure.
abbrev busy_client : Client
busy_client = record client { backpressured_bevs = 3 ∷ 8 ∷ [] }

busy_client-IsStuck : IsStuck busy_client
unfolding init has
busy_client-IsStuck = record {
  connections = omega arith;
  busy = all_busy;
  room = refl;
  heeded = refl;
  unbroken = refl;
}
  where
    all_busy : (i bev : ℕ) → get_elem? (3 ∷ 8 ∷ []) i ≡ some bev → has bev (3 ∷ 8 ∷ []) ≡ true
    all_busy zero bev e = ground arith
    all_busy (suc zero) bev e = ground arith
    all_busy (suc (suc i)) bev e = cc

choose-Stuck_example : StillTurns 7 network busy_client
choose-Stuck_example =
    choose-Stuck 7 network busy_client (record { alone = refl; dispatched = λ s v. (s, refl, v) })
      busy_client-IsStuck
