-- ===== src/Client/Connections.antt =====
-- The connections of src/ClientImpl.cpp: a login that is done, a connection that is lost, and a write
-- buffer that has been emptied.
use voltdb_client_cpp.Prelude.{
  ℕ, Bool, true, false, ◌&&◌, ◌||◌, not, Option, none, some, List, [], ◌∷◌, ◌++◌, ◌==◌,
  if◌then◌else◌,
}
use voltdb_client_cpp.Prelude.Int.{ℤ, pos, negsuc, eqb_ℤ, ltb_ℤ}
use voltdb_client_cpp.Action.{
  Action, done, fail, pure, throw, gets, modify, skip, ◌>>=◌, ◌>>◌, undefined,
  cluster_instance_mismatch, connect,
}
use voltdb_client_cpp.Buffer.{Void}
use voltdb_client_cpp.Hashinator.{Murmur}
use voltdb_client_cpp.Auth.{Login}
use voltdb_client_cpp.Client.Read.{Context, regular_read_callback}
use voltdb_client_cpp.Client.Invoke.{Network, is_empty}
use voltdb_client_cpp.Client.Affinity.{update_hashinator, subscribe_to_topology_notifications}
use voltdb_client_cpp.Client.{
  Client, Pending, Handlers, magic, put_callback, callbacks_of, set_callbacks, erase_callbacks,
  remove, abandon, ignoring_backpressure, or_on_error,
}

-- The cluster that the first connection names; the others have to name the same one.
unfoldable pub check_instance : Login → Action Client Void
check_instance l s = elim s.instance_id [
  | none ↦ done tt (record s { instance_id = some (l.cluster_start_time, l.leader_address) })
  | some (start, leader) ↦
      if eqb_ℤ start l.cluster_start_time && eqb_ℤ leader l.leader_address
      then done tt s
      else fail cluster_instance_mismatch s
]

-- `m_hostIdToEvent[hostId] = bev`
unfoldable pub put_host : ℤ → ℕ → List (ℤ × ℕ) → List (ℤ × ℕ)
put_host h bev [] = (h, bev) ∷ []
put_host h bev ((k, b) ∷ hosts) =
    let rest = put_host h bev hosts in if eqb_ℤ k h then (k, bev) ∷ hosts else (k, b) ∷ rest

-- The connection with its map of callbacks, which starts with that of the notifications.
unfoldable pub add_connection : Login → ℕ → Action Client Void
add_connection l bev = modify (λ s. record s {
  host_id_to_event = put_host l.host_id bev s.host_id_to_event;
  bevs = s.bevs ++ bev ∷ [];
  callbacks = set_callbacks bev (put_callback magic 0 []) s.callbacks;
})

-- The first on the list that is the same object goes.
unfoldable pub erase_pending : ℕ → List Pending → List Pending
erase_pending n [] = []
erase_pending n (p ∷ ps) = let rest = erase_pending n ps in if p.number == n then ps else p ∷ rest

unfoldable pub is_pending : ℕ → List Pending → Bool
is_pending n [] = false
is_pending n (p ∷ ps) = let rest = is_pending n ps in if p.number == n then true else rest

abbrev pub listed_no_more : Pending → Action Client Void
listed_no_more pc = modify (λ s. record s { pending = erase_pending pc.number s.pending })

abbrev pub tell_active : Option (ℕ → Action Client Bool) → ℕ → Action Client Bool
tell_active none bev s = done false s
tell_active (some active) bev s = or_on_error (active bev s) (pure false)

abbrev pub tell_lost : Option (ℕ → Action Client Bool) → ℕ → Action Client Bool
tell_lost none bev s = done false s
tell_lost (some lost) bev s = or_on_error (ignoring_backpressure (lost bev) s) (pure false)

abbrev pub abandon_in : Handlers → Option (List (ℤ × ℕ)) → Action Client Bool
abandon_in h none = throw undefined
abandon_in h (some m) = abandon h m

-- RECONNECT_INTERVAL
abbrev pub reconnect_interval : ℤ
reconnect_interval = pos 10

-- `PendingConnection(hostname, port, base, ci)`
abbrev pub new_pending : ℕ → List ℕ → ℕ → Pending
new_pending number hostname port = record {
  number = number;
  hostname = hostname;
  port = port;
  response_length = negsuc 0;
  response = none;
  status = true;
  completed = false;
  start_pending = negsuc 0;
}

-- `createPendingConnection`; the result is the delay of the event that reconnects.
unfoldable pub create_pending_connection : ℕ → List ℕ → ℕ → ℤ → Action Client ℤ
create_pending_connection number hostname port time s =
    done (if ltb_ℤ (pos 0) time then reconnect_interval else pos 0) (record s {
      pending =
          s.pending ++ record (new_pending number hostname port) { start_pending = time } ∷ [];
    })

-- Nothing of the client names the connection any more, but for the hosts.
unfoldable pub forget_callbacks : ℕ → Action Client Void
forget_callbacks bev = modify (λ s. record s {
  callbacks = erase_callbacks bev s.callbacks;
  backpressured_bevs = remove bev s.backpressured_bevs;
})

unfoldable pub forget_bev : ℕ → Action Client Void
forget_bev bev = modify (λ s. record s { bevs = remove bev s.bevs })

unfoldable pub reset_instance : Action Client Void
reset_instance =
    modify (λ s. record s { instance_id = if is_empty s.bevs then none else s.instance_id })

-- What the context of a connection tells of the peer, and the object and the time for the pending
-- connection that is to replace it.
pub record Peer : Type 0 where
  pub name : List ℕ
  pub port : ℕ
  pub next : ℕ
  pub now : ℤ

-- The part of `regularEventCallback` between the callbacks and the end.
unfoldable pub forget : Peer → ℕ → Action Client Void
forget peer bev = do
  forget_callbacks bev
  delay ← create_pending_connection peer.next peer.name peer.port peer.now
  forget_bev bev
  reset_instance

-- A connection that has logged in is one of the client's, and no longer pending.
unfoldable pub join : Login → Pending → ℕ → Action Client Void
join l pc bev = add_connection l bev >> listed_no_more pc

module _ (m : Murmur) (n : Network) (fuel : ℕ) (h : Handlers) where
  abbrev pub with_affinity : Action Client Void
  with_affinity s =
      (if s.use_client_affinity
          then update_hashinator m n fuel >> subscribe_to_topology_notifications m n fuel
          else skip)
        s

  abbrev pub finalize_login : Pending → ℕ → Option Login → Action Client Void
  finalize_login pc bev none = throw undefined
  finalize_login pc bev (some l) =
      check_instance l
      >> (join l pc bev >> (with_affinity >> (tell_active h.connection_active bev >>= λ _. skip)))

  -- `finalizeAuthentication`
  unfoldable pub finalize_authentication : Pending → ℕ → Action Client Void
  finalize_authentication pc bev =
      if pc.completed then finalize_login pc bev pc.response else throw connect

  abbrev pub update_if_any : Bool → Action Client Void
  update_if_any empty s =
      (if s.use_client_affinity && not empty then update_hashinator m n fuel else skip) s

  -- `regularEventCallback` on an error or the end of the stream: the responses that are there are
  -- handled, the listener is told, and each callback that waits is run with the response for a lost
  -- connection. The connection is forgotten and becomes a pending one. The result tells whether the
  -- event loop is left.
  unfoldable pub lose_connection : Peer → Context → List ℕ → ℕ → Action Client Bool
  lose_connection peer context input bev = do
    read ← regular_read_callback h bev context input
    told ← tell_lost h.connection_lost bev
    given ← λ s. abandon_in h (callbacks_of bev s.callbacks) s
    drained ← gets (λ s. s.is_draining && eqb_ℤ s.outstanding_requests (pos 0))
    forget peer bev
    empty ← gets (λ s. is_empty s.bevs)
    update_if_any empty
    pure (read.leave || told || given || drained || empty)

-- `regularWriteCallback`; the result tells whether the event loop is left.
unfoldable pub write_ready : ℕ → Action Client Bool
write_ready bev s = done s.invocation_blocked_on_backpressure (record s {
  backpressured_bevs = remove bev s.backpressured_bevs;
  invocation_blocked_on_backpressure = false;
})
