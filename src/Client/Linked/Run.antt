-- ===== src/Client/Linked/Run.antt =====
-- The synchronous `invoke` and the event loop of src/ClientImpl.cpp keep the places of a connection in
-- agreement.
use voltdb_client_cpp.Prelude.{
  ℕ, ◌%◌, Bool, true, false, not, inl, inr, arith, Option-cases, length, get_elem?, take,
}
use voltdb_client_cpp.Prelude.Int.{pos, ltb_ℤ}
use voltdb_client_cpp.Action.{Action, throw_if, libevent}
use voltdb_client_cpp.Procedure.{Procedure}
use voltdb_client_cpp.Procedure
use voltdb_client_cpp.Client.{Client, take_id}
use voltdb_client_cpp.Client.Invoke.{Network, is_empty}
use voltdb_client_cpp.Client.Run.{
  is_idle, loop, unless_idle, run_once, run, draining, drain, this_bev, enter_for, invoke_and_wait,
  invoke_sync,
}
use voltdb_client_cpp.Client.Linked.{
  IsLinked, Post, returned, threw, Keeps, Keeps-bind, Keeps-if, Post-bind,
}
use voltdb_client_cpp.Client.Linked.Places.{times-get_elem?}
use voltdb_client_cpp.Client.Linked.Choice.{
  Behaves, IsConnected, Keeps-throw_if, Keeps-pure, Post-test,
}
use voltdb_client_cpp.Client.Linked.Invoke.{
  Keeps-written, throw_from-next_request_id, register-WaitsOn,
}

Keeps-loop : (enter : Action Client Bool) → Keeps enter → Keeps (loop enter)
Keeps-loop enter k =
    Keeps-bind _ k
      (λ ok. Keeps-bind _ (Keeps-throw_if (not ok)) (λ _. record { keeps = λ s l. returned l tt }))

Keeps-unless_idle : (enter : Action Client Bool) → Keeps enter → Keeps (unless_idle (loop enter))
Keeps-unless_idle enter k = record {
  keeps = λ s l. Post-test (is_idle s) (threw l) ((Keeps-loop enter k).keeps s l);
}

this_bev-IsConnected : (s : Client) → IsLinked s → Post IsConnected (this_bev s)
unfolding this_bev
this_bev-IsConnected s l =
    elim (Option-cases (get_elem? s.bevs (s.next_connection_index % length s.bevs))) [
      | inl e ↦ rw e (threw l)
      | inr (b, e) ↦ rw e (returned l (omega (arith, l.linked b, times-get_elem? s.bevs _ b e)))
    ]

throw_if-IsConnected :
    (bev : ℕ) (b : Bool) (s : Client)
    → IsLinked s
    → IsConnected bev s
    → Post (λ _. IsConnected bev) (throw_if b libevent s)
throw_if-IsConnected bev true s l q = threw l
throw_if-IsConnected bev false s l q = returned l q

module _ (n : Network) (v : Behaves n) where
  pub Keeps-run_once : Keeps (run_once n)
  unfolding run_once
  Keeps-run_once = Keeps-unless_idle n.poll v.poll

  pub Keeps-run : Keeps (run n)
  unfolding run
  Keeps-run = Keeps-unless_idle n.dispatch v.dispatch

  Keeps-draining : Keeps draining
  Keeps-draining = record { keeps = λ s l. returned l tt }

  pub Keeps-drain : Keeps (drain n)
  unfolding drain
  Keeps-drain = record {
    keeps = λ s l.
        Post-bind _
          ((Keeps-if (ltb_ℤ (pos 0) s.outstanding_requests)
              (Keeps-bind (λ _. run n) Keeps-draining (λ _. Keeps-run)) (Keeps-pure tt)).keeps
            s l)
          (λ _ t k _. returned k tt);
  }

  Keeps-enter_for : (c : ℕ) → Keeps (enter_for n c)
  Keeps-enter_for c =
      Keeps-bind _ (v.dispatch_for c)
        (λ r. Keeps-bind _ (Keeps-throw_if (not r.0)) (λ _. Keeps-pure _))

  Keeps-invoke_and_wait : (p : Procedure) (c : ℕ) → Keeps (invoke_and_wait n p c)
  unfolding take_id
  Keeps-invoke_and_wait p c = record {
    keeps = λ s l.
        let size = Procedure.get_serialized_size p in
        Post-bind _ (throw_from-next_request_id size s l) (λ _ t k _.
          Post-bind _ ((Keeps-written size t.next_request_id).keeps _ k) (λ pb u k1 _.
            Post-bind _ (this_bev-IsConnected u k1) (λ bev w k2 q.
              Post-bind _
                (throw_if-IsConnected bev (not (n.accepts bev (take pb.1.limit pb.1.storage))) w k2
                  q)
                (λ _ x k3 q'.
                  Post-bind _ (register-WaitsOn bev t.next_request_id c x k3 q') (λ _ y k4 _.
                    Post-bind _ ((Keeps-enter_for c).keeps y k4) (λ r z k5 _. returned k5 tt))))));
  }

  pub Keeps-invoke_sync : (p : Procedure) (c : ℕ) → Keeps (invoke_sync n p c)
  unfolding invoke_sync
  Keeps-invoke_sync p c = record {
    keeps = λ s l. Post-test (is_empty s.bevs) (threw l) ((Keeps-invoke_and_wait p c).keeps s l);
  }
