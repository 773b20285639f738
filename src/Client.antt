-- ===== src/Client.antt =====
-- src/ClientImpl.cpp and include/ClientImpl.h: the connections of the client, the callbacks that wait
-- on them, and the count of the requests that are outstanding.
pub mod Invoke
pub mod Choose
pub mod Affinity
pub mod Connections
pub mod Authentication
pub mod Run
pub mod Outstanding
pub mod Handling
pub mod Read
pub mod Lost
pub mod Linked
pub mod Stuck
pub mod Maps
pub mod Book
pub mod Routed
use voltdb_client_cpp.Prelude.{
  ℕ, zero, suc, ◌+◌, ◌-◌, ◌%◌, ◌^◌, Bool, true, false, ◌&&◌, ◌||◌, not, Option, none, some, List,
  [], ◌∷◌, ◌++◌, ltb, ◌==◌, if◌then◌else◌, length, get_elem?,
}
use voltdb_client_cpp.Prelude.Int.{ℤ, pos, negsuc, ◌+ℤ◌, ◌-ℤ◌, eqb_ℤ, ltb_ℤ}
use voltdb_client_cpp.Action.{
  Action, Outcome, done, fail, pure, throw, gets, modify, skip, throw_if, ◌>>=◌, ◌>>◌, undefined,
  cluster_instance_mismatch, connect,
}
use voltdb_client_cpp.Buffer.{Void}
use voltdb_client_cpp.Auth.{Login}
use voltdb_client_cpp.Distributer.{Distributer}
use voltdb_client_cpp.Distributer
use voltdb_client_cpp.Response.{InvocationResponse, connection_lost}

-- `PendingConnection`: a connection that logs in, named by a number as an object is by its address.
pub record Pending : Type 0 where
  pub number : ℕ
  pub hostname : List ℕ
  pub port : ℕ
  pub response_length : ℤ
  pub response : Option Login
  pub status : Bool
  pub completed : Bool
  pub start_pending : ℤ

-- A connection is named by its `bufferevent`, and a callback by a number; 0 is the callback for
-- notifications of the topology that the client registers itself.
pub record Client : Type 0 where
  pub bevs : List ℕ
  pub next_connection_index : ℕ
  pub next_request_id : ℤ
  pub callbacks : List (ℕ × List (ℤ × ℕ))
  pub outstanding_requests : ℤ
  pub max_outstanding_requests : ℤ
  pub backpressured_bevs : List ℕ
  pub host_id_to_event : List (ℤ × ℕ)
  pub invocation_blocked_on_backpressure : Bool
  pub loop_break_requested : Bool
  pub is_draining : Bool
  pub ignore_backpressure : Bool
  pub use_client_affinity : Bool
  pub instance_id : Option (ℤ × ℤ)
  pub pending : List Pending
  pub distributer : Distributer

-- A client as the constructor makes it, with the bound on requests of its configuration.
unfoldable pub init : ℤ → Client
init max = record {
  bevs = [];
  next_connection_index = 0;
  next_request_id = negsuc (2 ^ 63 - 1);
  callbacks = [];
  outstanding_requests = pos 0;
  max_outstanding_requests = max;
  backpressured_bevs = [];
  host_id_to_event = [];
  invocation_blocked_on_backpressure = false;
  loop_break_requested = false;
  is_draining = false;
  ignore_backpressure = false;
  use_client_affinity = false;
  instance_id = none;
  pending = [];
  distributer = Distributer.init;
}

-- VOLT_NOTIFICATION_MAGIC_NUMBER
abbrev pub magic : ℤ
magic = pos (2 ^ 63 - 2)

-- `std::map` of the callbacks of a connection: `find`, `operator[]` and `erase`.
unfoldable pub find_callback : ℤ → List (ℤ × ℕ) → Option ℕ
find_callback id [] = none
find_callback id ((k, c) ∷ m) = let rest = find_callback id m in if eqb_ℤ k id then some c else rest

unfoldable pub put_callback : ℤ → ℕ → List (ℤ × ℕ) → List (ℤ × ℕ)
put_callback id c [] = (id, c) ∷ []
put_callback id c ((k, d) ∷ m) =
    let rest = put_callback id c m in if eqb_ℤ k id then (k, c) ∷ m else (k, d) ∷ rest

unfoldable pub erase_callback : ℤ → List (ℤ × ℕ) → List (ℤ × ℕ)
erase_callback id [] = []
erase_callback id ((k, d) ∷ m) =
    let rest = erase_callback id m in if eqb_ℤ k id then m else (k, d) ∷ rest

-- `m_callbacks`: the map of a connection, a new map for it, and the map changed or gone.
unfoldable pub callbacks_of : ℕ → List (ℕ × List (ℤ × ℕ)) → Option (List (ℤ × ℕ))
callbacks_of bev [] = none
callbacks_of bev ((k, m) ∷ ms) = let rest = callbacks_of bev ms in if k == bev then some m else rest

unfoldable pub set_callbacks : ℕ → List (ℤ × ℕ) → List (ℕ × List (ℤ × ℕ)) → List (ℕ × List (ℤ × ℕ))
set_callbacks bev m [] = (bev, m) ∷ []
set_callbacks bev m ((k, n) ∷ ms) =
    let rest = set_callbacks bev m ms in if k == bev then (k, m) ∷ ms else (k, n) ∷ rest

unfoldable pub erase_callbacks : ℕ → List (ℕ × List (ℤ × ℕ)) → List (ℕ × List (ℤ × ℕ))
erase_callbacks bev [] = []
erase_callbacks bev ((k, n) ∷ ms) =
    let rest = erase_callbacks bev ms in if k == bev then ms else (k, n) ∷ rest

unfoldable pub has : ℕ → List ℕ → Bool
has x [] = false
has x (y ∷ ys) = let rest = has x ys in if y == x then true else rest

-- The first element that equals `x` is taken out.
unfoldable pub remove : ℕ → List ℕ → List ℕ
remove x [] = []
remove x (y ∷ ys) = let rest = remove x ys in if y == x then ys else y ∷ rest

abbrev pub insert : ℕ → List ℕ → List ℕ
insert x xs = if has x xs then xs else x ∷ xs

-- `(*m_callbacks[bev])[clientData] = callback`, on the map that is there.
abbrev pub with_callback : ℕ → ℤ → ℕ → Option (List (ℤ × ℕ)) → Action Client Void
with_callback bev id c none = throw undefined
with_callback bev id c (some m) =
    modify (λ s. record s { callbacks = set_callbacks bev (put_callback id c m) s.callbacks })

-- The end of both `invoke` methods, once the message has been given to the connection: the request is
-- counted and its callback kept.
unfoldable pub register : ℕ → ℤ → ℕ → Action Client Void
register bev id c =
    modify (λ s. record s { outstanding_requests = s.outstanding_requests +ℤ pos 1 }) >> λ s.
    with_callback bev id c (callbacks_of bev s.callbacks) s

-- `int64_t clientData = m_nextRequestId++;`
unfoldable pub take_id : Action Client ℤ
take_id s = done s.next_request_id (record s { next_request_id = s.next_request_id +ℤ pos 1 })

-- `evbuffer_get_length(evbuf) > 262144` is told by `long`.
unfoldable pub note_backpressure : ℕ → Bool → Action Client Void
note_backpressure bev false = skip
note_backpressure bev true =
    modify (λ s. record s { backpressured_bevs = insert bev s.backpressured_bevs })

-- A user's callback, or that of the topology, as it runs: it may call the client again. Its result
-- asks for the event loop to be left.
pub record Handlers : Type 0 where
  pub callback : ℕ → InvocationResponse → Action Client Bool
  -- `uncaughtException` of the listener, and whether there is a listener.
  pub uncaught : Option (ℕ → InvocationResponse → Action Client Bool)
  pub connection_lost : Option (ℕ → Action Client Bool)
  pub connection_active : Option (ℕ → Action Client Bool)

abbrev pub ignoring : Bool → Action Client Void
ignoring b = modify (λ s. record s { ignore_backpressure = b })

-- Run with backpressure ignored; the flag is put back only where nothing is thrown.
abbrev pub ignoring_backpressure : Action Client Bool → Action Client Bool
ignoring_backpressure m = ignoring true >> (m >>= λ b. ignoring false >> pure b)

-- `try { ... } catch (std::exception &e) { ... }`
abbrev pub or_on_error : Outcome Client Bool → Action Client Bool → Outcome Client Bool
or_on_error (done b s) handler = done b s
or_on_error (fail e s) handler = handler s

abbrev pub report :
    Option (ℕ → InvocationResponse → Action Client Bool)
    → ℕ
    → InvocationResponse
    → Action Client Bool
report none c r s = done false s
report (some uncaught) c r s = or_on_error (ignoring_backpressure (uncaught c r) s) (pure false)

abbrev pub call : Handlers → ℕ → InvocationResponse → Action Client Bool
call h c r s = or_on_error (ignoring_backpressure (h.callback c r) s) (report h.uncaught c r)

abbrev pub without_callback : ℕ → ℤ → Option (List (ℤ × ℕ)) → Action Client Void
without_callback bev id none = throw undefined
without_callback bev id (some m) = modify (λ s. record s {
  callbacks = set_callbacks bev (erase_callback id m) s.callbacks;
  outstanding_requests = s.outstanding_requests -ℤ pos 1;
})

-- Behind the callback: the notification's stays, any other is erased and its request counted off.
unfoldable pub finish : ℕ → ℤ → Action Client Void
finish bev id =
    if eqb_ℤ id magic then skip else λ s. without_callback bev id (callbacks_of bev s.callbacks) s

-- `if (i != callbackMap->end())`
abbrev pub dispatch : Handlers → ℕ → InvocationResponse → Option ℕ → Action Client Bool
dispatch h bev r none = pure false
dispatch h bev r (some c) = call h c r >>= λ b. finish bev r.client_data >> pure b

abbrev pub find_in : ℤ → Option (List (ℤ × ℕ)) → Option (Option ℕ)
find_in id none = none
find_in id (some m) = some (find_callback id m)

abbrev pub dispatch_in : Handlers → ℕ → InvocationResponse → Option (Option ℕ) → Action Client Bool
dispatch_in h bev r none = throw undefined
dispatch_in h bev r (some c) = dispatch h bev r c

-- Whether the loop is to be left behind a response: it has been drained, or a break was asked for and
-- there are not too many requests outstanding.
unfoldable pub wants_break : Client → Bool
wants_break s =
    (s.is_draining && eqb_ℤ s.outstanding_requests (pos 0))
    || (s.loop_break_requested && not (ltb_ℤ s.max_outstanding_requests s.outstanding_requests))

-- `regularReadCallback` on one response; the result asks for the event loop to be left.
unfoldable pub handle_response : Handlers → ℕ → InvocationResponse → Action Client Bool
handle_response h bev r s =
    (dispatch_in h bev r (find_in r.client_data (callbacks_of bev s.callbacks)) >>= λ b.
    gets (λ t. b || wants_break t))
      s

abbrev pub report_lost :
    Option (ℕ → InvocationResponse → Action Client Bool) → ℕ → Action Client Bool
report_lost none c = pure false
report_lost (some uncaught) c = uncaught c connection_lost

-- The loop of `regularEventCallback` over the callbacks of a lost connection. Every one is counted
-- off, that of the notifications too.
unfoldable pub abandon : Handlers → List (ℤ × ℕ) → Action Client Bool
abandon h [] = pure false
abandon h ((id, c) ∷ m) = do
  b ← λ s. or_on_error (h.callback c connection_lost s) (report_lost h.uncaught c)
  modify (λ s. record s { outstanding_requests = s.outstanding_requests -ℤ pos 1 })
  rest ← abandon h m
  pure (b || rest)
