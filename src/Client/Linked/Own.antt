-- ===== src/Client/Linked/Own.antt =====
-- The requests and callbacks of the client's own in src/ClientImpl.cpp keep the places of a connection
-- in agreement.
use voltdb_client_cpp.Prelude.{ℕ, Bool, ◌&&◌, not, ◌==◌}
use voltdb_client_cpp.Action.{Action, Outcome, done, fail, skip, ◌>>◌}
use voltdb_client_cpp.Buffer.{Void}
use voltdb_client_cpp.Procedure.{Procedure}
use voltdb_client_cpp.Hashinator.{Murmur}
use voltdb_client_cpp.Response.{InvocationResponse}
use voltdb_client_cpp.Distributer.{Distributer, Json, start_update}
use voltdb_client_cpp.Distributer.Update.{
  update_affinity_topology, handle_topology_notification, update_procedure_partitioning,
}
use voltdb_client_cpp.Client.{Client}
use voltdb_client_cpp.Client.Invoke.{Network, is_empty}
use voltdb_client_cpp.Client.Affinity.{
  ask, update_hashinator, subscribe_to_topology_notifications, set_client_affinity, failure,
  give_back, taking, topology_notified, topo_updated, proc_updated, subscribed, own_callback,
  system_catalog_proc, statistics_proc, subscribe_proc, proc_callback, topo_callback,
  subscribe_callback,
}
use voltdb_client_cpp.Client.Linked.{
  IsLinked, Post, returned, threw, Any, Keeps, Keeps-bind, Keeps-if, Post-bind,
}
use voltdb_client_cpp.Client.Linked.Choice.{Behaves, Post-test}
use voltdb_client_cpp.Client.Linked.Invoke.{Keeps-invoke}

pub Keeps-skip : Keeps skip
Keeps-skip = record { keeps = λ s l. returned l tt }

module _ (m : Murmur) (n : Network) (v : Behaves n) (fuel : ℕ) where
  Keeps-ask : (o : Outcome Procedure Void) (c : ℕ) → Keeps (ask m n fuel o c)
  Keeps-ask (fail e p) c = record { keeps = λ s l. threw l }
  Keeps-ask (done _ p) c = Keeps-bind (λ _. skip) (Keeps-invoke m n v fuel p c) (λ _. Keeps-skip)

  pub Keeps-update_hashinator : Keeps (update_hashinator m n fuel)
  unfolding update_hashinator
  Keeps-update_hashinator = record {
    keeps = λ s l.
        Post-bind _
          ((Keeps-ask system_catalog_proc proc_callback).keeps
            (record s { distributer = start_update s.distributer }) l)
          (λ _ t k _. (Keeps-ask statistics_proc topo_callback).keeps t k);
  }

  pub Keeps-subscribe : Keeps (subscribe_to_topology_notifications m n fuel)
  unfolding subscribe_to_topology_notifications
  Keeps-subscribe = Keeps-ask subscribe_proc subscribe_callback

  pub Keeps-updates :
      Keeps (update_hashinator m n fuel >> subscribe_to_topology_notifications m n fuel)
  Keeps-updates = Keeps-bind _ Keeps-update_hashinator (λ _. Keeps-subscribe)

  pub Keeps-set_client_affinity : (b : Bool) → Keeps (set_client_affinity m n fuel b)
  unfolding set_client_affinity
  Keeps-set_client_affinity b = record {
    keeps = λ s l.
        Post-bind _
          ((Keeps-if (b && not s.use_client_affinity && not (is_empty s.bevs)) Keeps-updates
              Keeps-skip).keeps
            s l)
          (λ _ t k _. returned k tt);
  }

Keeps-taking :
    (f : InvocationResponse → Action Distributer Void) (r : InvocationResponse) → Keeps (taking f r)
Keeps-taking f r = record {
  keeps = λ s l. Post-test (failure r) (returned l tt) (given (f r s.distributer) s l);
}
  where
    given : (o : Outcome Distributer Void) (s : Client) → IsLinked s → Post Any (give_back o s)
    given (fail e d) s l = threw l
    given (done _ d) s l = returned l tt

Keeps-topology_notified : (r : InvocationResponse) → Keeps (topology_notified r)
unfolding topology_notified
Keeps-topology_notified = Keeps-taking (λ r. handle_topology_notification r.results)

Keeps-topo_updated : (r : InvocationResponse) → Keeps (topo_updated r)
unfolding topo_updated
Keeps-topo_updated = Keeps-taking (λ r. update_affinity_topology r.results)

Keeps-proc_updated : (json : Json) (r : InvocationResponse) → Keeps (proc_updated json r)
unfolding proc_updated
Keeps-proc_updated json = Keeps-taking (λ r. update_procedure_partitioning json r.results)

Keeps-subscribed : (r : InvocationResponse) → Keeps (subscribed r)
unfolding subscribed
Keeps-subscribed r = record { keeps = λ s l. returned l tt }

-- Whatever the user's callbacks do, those of the client keep what they keep.
pub Keeps-own_callback :
    (json : Json) (user : ℕ → InvocationResponse → Action Client Bool)
    → ((c : ℕ) (r : InvocationResponse) → Keeps (user c r))
    → (c : ℕ) (r : InvocationResponse) → Keeps (own_callback json user c r)
unfolding own_callback
Keeps-own_callback json user k c r = Keeps-if (c == 0) (Keeps-topology_notified r) (
    Keeps-if (c == proc_callback) (Keeps-proc_updated json r) (
      Keeps-if (c == topo_callback) (Keeps-topo_updated r)
        (Keeps-if (c == subscribe_callback) (Keeps-subscribed r) (k c r))))
