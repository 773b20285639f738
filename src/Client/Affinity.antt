-- ===== src/Client/Affinity.antt =====
-- Client affinity in src/ClientImpl.cpp: the requests by which the client asks the server for its
-- procedures and its topology, and the callbacks that take the answers.
use voltdb_client_cpp.Prelude.{ℕ, Bool, true, false, ◌&&◌, not, List, [], ◌∷◌, ◌==◌, if◌then◌else◌}
use voltdb_client_cpp.Prelude.Int.{pos, eqb_ℤ}
use voltdb_client_cpp.Action.{Action, Outcome, done, fail, throw, modify, skip, ◌>>=◌, ◌>>◌}
use voltdb_client_cpp.WireType.{WireType, string, integer}
use voltdb_client_cpp.Buffer.{Void}
use voltdb_client_cpp.Params.{Parameter, ParameterSet, add_string, add_int32}
use voltdb_client_cpp.Procedure.{Procedure, on_params, reset_params}
use voltdb_client_cpp.Procedure
use voltdb_client_cpp.Hashinator.{Murmur}
use voltdb_client_cpp.Response.{InvocationResponse}
use voltdb_client_cpp.Distributer.{Distributer, Json, start_update}
use voltdb_client_cpp.Distributer.Update.{
  update_affinity_topology, handle_topology_notification, update_procedure_partitioning,
}
use voltdb_client_cpp.Client.{Client}
use voltdb_client_cpp.Client.Invoke.{Network, invoke, is_empty}

-- The callbacks of the client's own requests, which stand beside that of the notifications.
abbrev pub proc_callback : ℕ
proc_callback = 1

abbrev pub topo_callback : ℕ
topo_callback = 2

abbrev pub subscribe_callback : ℕ
subscribe_callback = 3

-- "@SystemCatalog", "PROCEDURES", "@Statistics", "TOPO", "@Subscribe" and "TOPOLOGY".
abbrev system_catalog : List ℕ
system_catalog = 64 ∷ 83 ∷ 121 ∷ 115 ∷ 116 ∷ 101 ∷ 109 ∷ 67 ∷ 97 ∷ 116 ∷ 97 ∷ 108 ∷ 111 ∷ 103 ∷ []

abbrev procedures : List ℕ
procedures = 80 ∷ 82 ∷ 79 ∷ 67 ∷ 69 ∷ 68 ∷ 85 ∷ 82 ∷ 69 ∷ 83 ∷ []

abbrev statistics : List ℕ
statistics = 64 ∷ 83 ∷ 116 ∷ 97 ∷ 116 ∷ 105 ∷ 115 ∷ 116 ∷ 105 ∷ 99 ∷ 115 ∷ []

abbrev topo : List ℕ
topo = 84 ∷ 79 ∷ 80 ∷ 79 ∷ []

abbrev subscribe : List ℕ
subscribe = 64 ∷ 83 ∷ 117 ∷ 98 ∷ 115 ∷ 99 ∷ 114 ∷ 105 ∷ 98 ∷ 101 ∷ []

abbrev topology : List ℕ
topology = 84 ∷ 79 ∷ 80 ∷ 79 ∷ 76 ∷ 79 ∷ 71 ∷ 89 ∷ []

abbrev one : WireType → Parameter
one t = record { type = t; is_array = false }

-- A procedure whose parameters have been added.
abbrev with_added : List ℕ → List Parameter → Action ParameterSet Void → Outcome Procedure Void
with_added name types add = (reset_params >> on_params add) (Procedure.init name types)

unfoldable pub system_catalog_proc : Outcome Procedure Void
system_catalog_proc = with_added system_catalog (one string ∷ []) (add_string procedures)

unfoldable pub statistics_proc : Outcome Procedure Void
statistics_proc =
    with_added statistics (one string ∷ one integer ∷ []) (add_string topo >> add_int32 (pos 0))

unfoldable pub subscribe_proc : Outcome Procedure Void
subscribe_proc = with_added subscribe (one string ∷ []) (add_string topology)

module _ (m : Murmur) (n : Network) (fuel : ℕ) where
  abbrev pub ask : Outcome Procedure Void → ℕ → Action Client Void
  ask (fail e _) c = throw e
  ask (done _ p) c = invoke m n fuel p c >>= λ _. skip

  abbrev pub starting : Action Client Void
  starting = modify (λ s. record s { distributer = start_update s.distributer })

  -- `updateHashinator`
  unfoldable pub update_hashinator : Action Client Void
  update_hashinator =
      starting >> (ask system_catalog_proc proc_callback >> ask statistics_proc topo_callback)

  -- `subscribeToTopologyNotifications`
  unfoldable pub subscribe_to_topology_notifications : Action Client Void
  subscribe_to_topology_notifications = ask subscribe_proc subscribe_callback

  abbrev using_affinity : Bool → Action Client Void
  using_affinity b = modify (λ s. record s { use_client_affinity = b })

  -- `setClientAffinity`
  unfoldable pub set_client_affinity : Bool → Action Client Void
  set_client_affinity enable s =
      ((if enable && not s.use_client_affinity && not (is_empty s.bevs)
            then update_hashinator >> subscribe_to_topology_notifications
            else skip)
          >> using_affinity enable)
        s

-- `InvocationResponse::failure`
unfoldable pub failure : InvocationResponse → Bool
failure r = not (eqb_ℤ r.status_code (pos 1))

abbrev pub give_back : Outcome Distributer Void → Action Client Bool
give_back (fail e d) s = fail e (record s { distributer = d })
give_back (done _ d) s = done true (record s { distributer = d })

-- The shape of the client's own callbacks: an answer that is no failure goes to the distributer.
abbrev pub taking :
    (InvocationResponse → Action Distributer Void) → InvocationResponse → Action Client Bool
taking f r s = if failure r then done false s else give_back (f r s.distributer) s

unfoldable pub topology_notified : InvocationResponse → Action Client Bool
topology_notified = taking (λ r. handle_topology_notification r.results)

unfoldable pub topo_updated : InvocationResponse → Action Client Bool
topo_updated = taking (λ r. update_affinity_topology r.results)

unfoldable pub proc_updated : Json → InvocationResponse → Action Client Bool
proc_updated json = taking (λ r. update_procedure_partitioning json r.results)

unfoldable pub subscribed : InvocationResponse → Action Client Bool
subscribed r s = done (not (failure r)) s

-- The callback of each number: the client's own, and the user's behind them.
unfoldable pub own_callback :
    Json
    → (ℕ → InvocationResponse → Action Client Bool)
    → ℕ
    → InvocationResponse
    → Action Client Bool
own_callback json user c r =
    if c == 0
    then topology_notified r
    else if c == proc_callback
    then proc_updated json r
    else if c == topo_callback
    then topo_updated r
    else if c == subscribe_callback
    then subscribed r
    else user c r
