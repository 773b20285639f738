-- ===== src/Client/Authentication.antt =====
-- The pending connections of src/ClientImpl.cpp: how a connection is made, logs in, and is made again
-- after it was lost.
use voltdb_client_cpp.Prelude.{
  ℕ, Bool, true, false, ◌&&◌, ◌||◌, not, Option, none, some, List, [], ◌∷◌, ltb, ◌==◌, ◌*◌,
  if◌then◌else◌, length, take, drop,
}
use voltdb_client_cpp.Prelude.Int.{ℤ, pos, negsuc, ◌-ℤ◌, ltb_ℤ}
use voltdb_client_cpp.Action.{
  Action, Outcome, done, fail, pure, throw, modify, skip, throw_if, ◌>>=◌, ◌>>◌, undefined,
  libevent, connect,
}
use voltdb_client_cpp.Wire.{from_bytes, to_int}
use voltdb_client_cpp.Buffer.{ByteBuffer, Void, scoped}
use voltdb_client_cpp.Buffer.Frame.{holding}
use voltdb_client_cpp.Auth.{Request, Response, HashScheme, success, read_response}
use voltdb_client_cpp.Auth
use voltdb_client_cpp.Hashinator.{Murmur}
use voltdb_client_cpp.Client.{Client, Pending, Handlers}
use voltdb_client_cpp.Client.Invoke.{Network}
use voltdb_client_cpp.Client.Connections.{
  is_pending, new_pending, reconnect_interval, finalize_authentication,
}

-- What the client logs in with.
pub record Identity : Type 0 where
  pub username : List ℕ
  pub password_hash : List ℕ
  pub scheme : HashScheme

-- What happens to a connection that logs in.
pub data Event : Type 0 where
  connected broken other : Event

-- The pending connection that is on the list changes there too, as it is the same object.
unfoldable pub replace_pending : Pending → List Pending → List Pending
replace_pending pc [] = []
replace_pending pc (p ∷ ps) =
    let rest = replace_pending pc ps in if p.number == pc.number then pc ∷ ps else p ∷ rest

abbrev pub store : Pending → Action Client Void
store pc = modify (λ s. record s { pending = replace_pending pc s.pending })

-- Where a callback leaves a pending connection: as it is, with the bytes left in the input, and
-- whether the event loop is left.
pub record Step : Type 0 where
  pub pending : Pending
  pub rest : List ℕ
  pub leave : Bool

-- A connection made by `createConnection` ends the event loop, another notes the time.
abbrev pub conclude : ℤ → List ℕ → Pending → Action Client Step
conclude now rest pc =
    if ltb_ℤ pc.start_pending (pos 0)
    then pure (record { pending = pc; rest = rest; leave = true })
    else (let noted = record pc { start_pending = now } in
        store noted >> pure (record { pending = noted; rest = rest; leave = false }))

-- "database"
abbrev service : List ℕ
service = 100 ∷ 97 ∷ 116 ∷ 97 ∷ 98 ∷ 97 ∷ 115 ∷ 101 ∷ []

abbrev pub request_of : Identity → Request
request_of i = record {
  username = i.username;
  service = service;
  password_hash = i.password_hash;
  scheme = i.scheme;
}

abbrev pub written : Outcome ByteBuffer Void → Action Client ByteBuffer
written (fail e _) = throw e
written (done _ b) = pure b

abbrev pub message : Request → ℤ → Action Client ByteBuffer
message r (negsuc k) = throw undefined
message r (pos k) = written (Auth.serialize_to r (scoped k))

-- `initiateAuthentication`; `enabled` tells whether `bufferevent_enable` succeeds.
unfoldable pub initiate_authentication : Network → Identity → Bool → ℕ → Action Client Void
initiate_authentication n i enabled bev = do
  throw_if (not enabled) libevent
  b ← message (request_of i) (Auth.get_serialized_size (request_of i))
  throw_if (not (n.accepts bev (take b.limit b.storage))) libevent

-- `authenticationEventCallback`
unfoldable pub authentication_event_callback :
    Network → Identity → Bool → ℤ → ℕ → Event → Pending → Action Client Step
authentication_event_callback n i enabled now bev connected pc =
    initiate_authentication n i enabled bev >> conclude now [] pc
authentication_event_callback n i enabled now bev broken pc =
    (let failed = record pc { status = false } in store failed >> conclude now [] failed)
authentication_event_callback n i enabled now bev other pc = conclude now [] pc

-- The length of the answer, asserted to be positive and below a megabyte.
abbrev pub is_length : ℤ → Bool
is_length z = ltb_ℤ (pos 0) z && ltb_ℤ z (pos (1024 * 1024))

-- What is at the front of the input for a pending connection: its answer, or a part of it.
pub data Answer : Type 0 where
  partial : Pending → List ℕ → Answer
  whole : Pending → List ℕ → List ℕ → Answer
  asserted : Answer

abbrev pub body_of : Pending → List ℕ → Answer
body_of pc bs = elim pc.response_length [
  | negsuc k ↦ asserted
  | pos k ↦ if ltb (length bs) k then asserted else whole pc (take k bs) (drop k bs)
]

abbrev pub sized : Pending → ℤ → List ℕ → Answer
sized pc (negsuc k) bs = asserted
sized pc (pos k) bs =
    let known = record pc { response_length = pos k } in
    if ltb (length bs) k then partial known bs else body_of known bs

unfoldable pub next_answer : Pending → List ℕ → Answer
next_answer pc bs =
    let n = to_int 4 (from_bytes (take 4 bs)) in
    if not (ltb_ℤ pc.response_length (pos 0))
    then body_of pc bs
    else if ltb (length bs) 4 || not (is_length n)
    then asserted
    else sized pc n (drop 4 bs)

abbrev pub parsed : Outcome ByteBuffer Response → Action Client Response
parsed (fail e _) = throw e
parsed (done r _) = pure r

module _ (m : Murmur) (n : Network) (fuel : ℕ) (h : Handlers) (now : ℤ) (bev : ℕ) where
  -- `finalizeAuthentication` takes a listed connection off the list, which owns it alone: what is
  -- read of it behind is read from freed memory.
  abbrev pub let_in : Pending → List ℕ → Action Client Step
  let_in pc rest s =
      (finalize_authentication m n fuel h pc bev
          >> (if is_pending pc.number s.pending then throw undefined else conclude now rest pc))
        s

  abbrev pub refused : Pending → List ℕ → Action Client Step
  refused pc rest =
      let again = record pc { response_length = negsuc 0 } in
      store again >> pure (record { pending = again; rest = rest; leave = false })

  abbrev pub answered : Answer → Action Client Step
  answered asserted = throw undefined
  answered (partial pc rest) =
      store pc >> pure (record { pending = pc; rest = rest; leave = false })
  answered (whole pc bytes rest) = do
    r ← parsed (read_response (holding bytes))
    let done_pc = record pc { response = r.login; completed = true }
    if success r then store done_pc >> let_in done_pc rest else refused pc rest

  -- `authenticationReadCallback`
  unfoldable pub authentication_read_callback : List ℕ → Pending → Action Client Step
  authentication_read_callback input pc = answered (next_answer pc input)

-- What `createConnection` calls outside: `initiateConnection`, which starts to connect, and the event
-- loop, which changes the pending connection as its callbacks do.
pub record Connector : Type 0 where
  pub initiate : Pending → Action Client Void
  pub dispatch : Pending → Action Client (Bool × Pending)

abbrev pub enter : Connector → Pending → Action Client Pending
enter c pc = c.dispatch pc >>= λ (ok, pc'). throw_if (not ok) libevent >> pure pc'

abbrev pub log_in : Connector → Pending → Action Client Void
log_in c pc =
    if pc.status
    then (enter c pc >>= λ pc'. if pc'.completed then skip else throw connect)
    else throw connect

-- `createConnection`
unfoldable pub create_connection : Connector → ℕ → List ℕ → ℕ → Action Client Void
create_connection c number hostname port = do
  c.initiate (new_pending number hostname port)
  pc ← enter c (new_pending number hostname port)
  log_in c pc

-- The loop of `reconnectEventCallback`: those that have waited for longer than the interval.
unfoldable pub reconnect : Connector → ℤ → List Pending → Action Client Void
reconnect c now [] = skip
reconnect c now (pc ∷ pcs) = do
  if ltb_ℤ reconnect_interval (now -ℤ pc.start_pending) then c.initiate pc else skip
  reconnect c now pcs

-- `reconnectEventCallback`; the result is the delay of the next one, if there is to be one.
unfoldable pub reconnect_event_callback : Connector → ℤ → Action Client (Option ℤ)
reconnect_event_callback c now s = elim s.pending [
  | [] ↦ done none s
  | pc ∷ pcs ↦ (reconnect c now (pc ∷ pcs) >> pure (some reconnect_interval)) s
]
