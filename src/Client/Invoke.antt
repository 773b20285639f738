-- ===== src/Client/Invoke.antt =====
-- The asynchronous `invoke` of src/ClientImpl.cpp: what it refuses, the connection it chooses, and the
-- request it leaves behind.
use voltdb_client_cpp.Prelude.{
  ℕ, zero, suc, ◌+◌, ◌%◌, Bool, true, false, ◌&&◌, not, Option, none, some, List, [], ◌∷◌, take,
  if◌then◌else◌, length, get_elem?,
}
use voltdb_client_cpp.Prelude.Int.{ℤ, pos, negsuc, eqb_ℤ, ltb_ℤ}
use voltdb_client_cpp.Action.{
  Action, Outcome, done, fail, pure, throw, gets, modify, throw_if, ◌>>=◌, ◌>>◌, undefined,
  no_connections, elastic_mode_mismatch, libevent,
}
use voltdb_client_cpp.Buffer.{ByteBuffer, Void, scoped}
use voltdb_client_cpp.Response.{InvocationResponse}
use voltdb_client_cpp.Procedure.{Procedure}
use voltdb_client_cpp.Procedure
use voltdb_client_cpp.Hashinator.{Murmur}
use voltdb_client_cpp.Distributer.{
  ProcedureInfo, get_procedure, get_host_id_by_partition_id, get_hashed_partition_for_parameter,
}
use voltdb_client_cpp.Client.{
  Client, has, take_id, register, note_backpressure, callbacks_of, ignoring_backpressure,
  or_on_error,
}

-- What `invoke` calls outside the client: libevent and the application.
pub record Network : Type 0 where
  -- `evbuffer_add` takes the bytes, and the output of the connection is then longer than 262144.
  pub accepts : ℕ → List ℕ → Bool
  pub long : ℕ → List ℕ → Bool
  -- `event_base_dispatch`; `false` stands for -1.
  pub dispatch : Action Client Bool
  -- `event_base_loop` without blocking.
  pub poll : Action Client Bool
  -- `event_base_dispatch` with a synchronous callback of this number waiting: the response it was
  -- given, if it was.
  pub dispatch_for : ℕ → Action Client (Bool × Option InvocationResponse)
  -- `backpressure(true)` of the listener, where there is one.
  pub backpressure : Option (Action Client Bool)
  -- `callback->abandon(TOO_BUSY)`
  pub abandon : ℕ → Action Client Void

abbrev pub connection_at : Option ℕ → Action Client ℕ
connection_at none = throw undefined
connection_at (some bev) = pure bev

-- `m_bevs[++m_nextConnectionIndex % m_bevs.size()]`, without the wrap of the `size_t`.
unfoldable pub next_bev : Action Client ℕ
next_bev = modify (λ s. record s { next_connection_index = s.next_connection_index + 1 }) >> λ s.
    connection_at (get_elem? s.bevs (s.next_connection_index % length s.bevs)) s

-- The first of the next connections that is not under backpressure.
unfoldable pub free_bev : ℕ → Action Client (Option ℕ)
free_bev zero s = done none s
free_bev (suc n) s = elim (next_bev s) [
  | fail e t ↦ fail e t
  | done bev t ↦ elim (has bev t.backpressured_bevs) [
    | true ↦ free_bev n t
    | false ↦ done (some bev) t
  ]
]

-- Whether the event loop is to be run: unless the listener says that the request be queued anyway.
unfoldable pub ask_listener : Option (Action Client Bool) → Action Client Bool
ask_listener none s = done true s
ask_listener (some b) s =
    or_on_error ((ignoring_backpressure b >>= λ queue. pure (not queue)) s) (pure true)

-- The event loop is run until a connection can be written to, or a break was asked for, which gives
-- the next connection.
unfoldable pub wait : Network → Action Client (Option ℕ)
wait n = do
  modify (λ s. record s { invocation_blocked_on_backpressure = true })
  ok ← n.dispatch
  throw_if (not ok) libevent
  broken ← gets (λ s. s.loop_break_requested)
  if broken
      then (modify (λ s. record s {
        loop_break_requested = false;
        invocation_blocked_on_backpressure = false;
      })
          >> (next_bev >>= λ bev. pure (some bev)))
      else pure none

-- The outcome of a turn: a connection, or another turn with what `bev` holds.
pub data Choice : Type 0 where
  chosen : ℕ → Choice
  again : Option ℕ → Choice

abbrev pub choose_next : Action Client Choice
choose_next = next_bev >>= λ bev. pure (chosen bev)

abbrev pub choose_wait : Network → Option ℕ → Action Client Choice
choose_wait n (some bev) = pure (chosen bev)
choose_wait n none = do
  run ← ask_listener n.backpressure
  if run then (wait n >>= λ bev. pure (again bev)) else choose_next

unfoldable pub choose_turn : Network → Option ℕ → Action Client Choice
choose_turn n bev s =
    if s.ignore_backpressure
    then choose_next s
    else if ltb_ℤ s.max_outstanding_requests s.outstanding_requests
    then choose_wait n bev s
    else (free_bev (length s.bevs) >>= choose_wait n) s

-- The loop that chooses a connection, on fuel: it can turn for as long as the event loop returns and
-- every connection stays under backpressure.
unfoldable pub choose : ℕ → Network → Option ℕ → Action Client ℕ
choose zero n bev s = fail undefined s
choose (suc fuel) n bev s = elim (choose_turn n bev s) [
  | fail e t ↦ fail e t
  | done (chosen b) t ↦ done b t
  | done (again b) t ↦ choose fuel n b t
]

abbrev pub host_of : Client → ℤ → ℤ
host_of s p = if ltb_ℤ p (pos 0) then negsuc 0 else get_host_id_by_partition_id s.distributer p

-- MP_INIT_PID
abbrev pub mp_init_pid : ℤ
mp_init_pid = pos 16383

-- `std::map::operator[]` on the hosts gives a null pointer for a host that is not there.
unfoldable pub find_bev : ℤ → List (ℤ × ℕ) → Option ℕ
find_bev h [] = none
find_bev h ((k, b) ∷ hosts) = let rest = find_bev h hosts in if eqb_ℤ k h then some b else rest

abbrev pub bev_of_host : Client → ℤ → Option ℕ
bev_of_host s h = if ltb_ℤ h (pos 0) then none else find_bev h s.host_id_to_event

-- The host of a procedure: that of the partition of its first parameter where it runs in one
-- partition, and else that of the initiator of the multi-partition ones.
abbrev pub route_by : Murmur → Client → ByteBuffer → Option ProcedureInfo → Outcome ByteBuffer ℤ
route_by m s b none = done (get_host_id_by_partition_id s.distributer mp_init_pid) b
route_by m s b (some info) =
    if info.multi_part
    then done (get_host_id_by_partition_id s.distributer mp_init_pid) b
    else (get_hashed_partition_for_parameter m s.distributer info.partition_parameter >>= λ p.
          pure (host_of s p))
        b

-- `routeProcedure`
unfoldable pub route_procedure : Murmur → List ℕ → ByteBuffer → Action Client (Option ℕ)
route_procedure m name b s = elim (route_by m s b (get_procedure s.distributer name)) [
  | fail e _ ↦ fail e s
  | done h _ ↦ done (bev_of_host s h) s
]

abbrev pub is_there : Option (List (ℤ × ℕ)) → Bool
is_there none = false
is_there (some m) = true

abbrev pub keep_known : ℕ → Option ℕ → Client → ℕ
keep_known bev none s = bev
keep_known bev (some routed) s = if is_there (callbacks_of routed s.callbacks) then routed else bev

-- The connection that affinity routes to, if it is still there.
unfoldable pub route : Murmur → List ℕ → ByteBuffer → ℕ → Action Client ℕ
route m name b bev s =
    if s.use_client_affinity && not s.distributer.is_updating
    then (route_procedure m name b >>= λ routed. gets (keep_known bev routed)) s
    else done bev s

-- `evbuffer_add(evbuf, sbb.bytes(), sbb.remaining())` and the request that waits from there on.
unfoldable pub send : Network → ℕ → List ℕ → ℤ → ℕ → Action Client Void
send n bev bytes id c =
    throw_if (not (n.accepts bev bytes)) libevent
    >> (register bev id c >> note_backpressure bev (n.long bev bytes))

abbrev pub message : Outcome (Procedure × ByteBuffer) Void → Action Client (Procedure × ByteBuffer)
message (fail e _) = throw e
message (done _ pb) = pure pb

-- The message in a buffer of its size.
abbrev pub written : Outcome Procedure ℤ → ℤ → Action Client (Procedure × ByteBuffer)
written (fail e _) id = throw e
written (done (negsuc k) p) id = throw undefined
written (done (pos k) p) id = message (Procedure.serialize_to id (p, scoped k))

abbrev pub throw_from : Outcome Procedure ℤ → Action Client Void
throw_from (fail e _) = throw e
throw_from (done _ _) = pure tt

-- The part of `invoke` behind its refusals; it gives the procedure as it leaves it.
unfoldable pub invoke_ready : Murmur → Network → ℕ → Procedure → ℕ → Action Client Procedure
invoke_ready m n fuel p c = do
  throw_from (Procedure.get_serialized_size p)
  id ← take_id
  pb ← written (Procedure.get_serialized_size p) id
  bev ← choose fuel n none
  bev' ← route m p.name pb.1 bev
  send n bev' (take pb.1.limit pb.1.storage) id c
  pure pb.0

abbrev pub is_empty : List ℕ → Bool
is_empty [] = true
is_empty (b ∷ bs) = false

abbrev pub tell_busy : Option (Action Client Bool) → Action Client Bool
tell_busy none s = done true s
tell_busy (some b) s = or_on_error (b s) (pure true)

-- `invoke(Procedure &proc, shared_ptr<ProcedureCallback> callback)`.
unfoldable pub invoke : Murmur → Network → ℕ → Procedure → ℕ → Action Client Procedure
invoke m n fuel p c s =
    if is_empty s.bevs
    then fail no_connections s
    else if not (ltb_ℤ s.outstanding_requests s.max_outstanding_requests)
    then (tell_busy n.backpressure >>= λ _. n.abandon c >> pure p) s
    else if not s.distributer.is_updating && not s.distributer.is_elastic
    then fail elastic_mode_mismatch s
    else invoke_ready m n fuel p c s
