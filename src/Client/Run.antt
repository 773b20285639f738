-- ===== src/Client/Run.antt =====
-- The event loop as src/ClientImpl.cpp enters it: the synchronous `invoke`, `run`, `runOnce` and `drain`.
use voltdb_client_cpp.Prelude.{
  ℕ, ◌+◌, ◌%◌, Bool, true, false, ◌&&◌, not, Option, none, some, List, [], ◌∷◌, take, length,
  get_elem?, if◌then◌else◌,
}
use voltdb_client_cpp.Prelude.Int.{pos, eqb_ℤ, ltb_ℤ}
use voltdb_client_cpp.Action.{
  Action, fail, pure, gets, modify, throw_if, ◌>>=◌, ◌>>◌, no_connections, libevent,
}
use voltdb_client_cpp.Buffer.{Void}
use voltdb_client_cpp.Procedure.{Procedure}
use voltdb_client_cpp.Procedure
use voltdb_client_cpp.Response.{InvocationResponse, connection_lost}
use voltdb_client_cpp.Client.{Client, Pending, take_id, register}
use voltdb_client_cpp.Client.Invoke.{Network, is_empty, connection_at, written, throw_from}

abbrev no_pending : List Pending → Bool
no_pending [] = true
no_pending (p ∷ ps) = false

-- Neither a connection nor one that is pending: there is nothing to wait for.
abbrev pub is_idle : Client → Bool
is_idle s = is_empty s.bevs && no_pending s.pending

abbrev pub break_served : Action Client Void
break_served = modify (λ s. record s { loop_break_requested = false })

-- The event loop, by the given way to enter it.
abbrev pub loop : Action Client Bool → Action Client Void
loop enter = enter >>= λ ok. throw_if (not ok) libevent >> break_served

abbrev pub unless_idle : Action Client Void → Action Client Void
unless_idle k s = if is_idle s then fail no_connections s else k s

-- `runOnce`
unfoldable pub run_once : Network → Action Client Void
run_once n = unless_idle (loop n.poll)

-- `run`
unfoldable pub run : Network → Action Client Void
run n = unless_idle (loop n.dispatch)

abbrev pub draining : Action Client Void
draining = modify (λ s. record s { is_draining = true })

-- `drain`
unfoldable pub drain : Network → Action Client Bool
drain n s =
    ((if ltb_ℤ (pos 0) s.outstanding_requests then draining >> run n else pure tt)
        >> gets (λ t. eqb_ℤ t.outstanding_requests (pos 0)))
      s

-- `m_bevs[m_nextConnectionIndex++ % m_bevs.size()]`
unfoldable pub this_bev : Action Client ℕ
this_bev s =
    connection_at (get_elem? s.bevs (s.next_connection_index % length s.bevs))
      (record s { next_connection_index = s.next_connection_index + 1 })

-- `InvocationResponse response;`, unless the callback has set it.
abbrev pub response_or_default : Option InvocationResponse → InvocationResponse
response_or_default none = connection_lost
response_or_default (some r) = r

abbrev pub enter_for : Network → ℕ → Action Client InvocationResponse
enter_for n c =
    n.dispatch_for c >>= λ (ok, r). throw_if (not ok) libevent >> pure (response_or_default r)

abbrev pub invoke_and_wait :
    Network → Procedure → ℕ → Action Client (Procedure × InvocationResponse)
invoke_and_wait n p c = do
  throw_from (Procedure.get_serialized_size p)
  id ← take_id
  pb ← written (Procedure.get_serialized_size p) id
  bev ← this_bev
  throw_if (not (n.accepts bev (take pb.1.limit pb.1.storage))) libevent
  register bev id c
  r ← enter_for n c
  break_served
  pure (pb.0, r)

-- `invoke(Procedure &proc)`, whose callback is numbered `c`.
unfoldable pub invoke_sync :
    Network → Procedure → ℕ → Action Client (Procedure × InvocationResponse)
invoke_sync n p c s = if is_empty s.bevs then fail no_connections s else invoke_and_wait n p c s
