-- ===== src/Client/Linked/Invoke.antt =====
-- The asynchronous `invoke` of src/ClientImpl.cpp against the three places of a connection: what it
-- leaves, and that the request of a call that returns waits on a connection.
use voltdb_client_cpp.Prelude.{
  ℕ, ◌≡◌, refl, subst, Bool, true, false, ◌&&◌, not, List, Option, none, some, inl, inr, arith,
  Option-cases, take,
}
use voltdb_client_cpp.Prelude.Int.{ℤ, pos, negsuc, ltb_ℤ, ◌+ℤ◌}
use voltdb_client_cpp.Action.{Action, Outcome, done, fail, throw_if, gets, continue, ◌>>◌, libevent}
use voltdb_client_cpp.Buffer.{ByteBuffer, Void, scoped}
use voltdb_client_cpp.Procedure.{Procedure}
use voltdb_client_cpp.Procedure
use voltdb_client_cpp.Hashinator.{Murmur}
use voltdb_client_cpp.Distributer.{get_procedure}
use voltdb_client_cpp.Client.{
  Client, put_callback, callbacks_of, register, take_id, note_backpressure,
}
use voltdb_client_cpp.Client.Outstanding.{
  Waits, callbacks_of-set_callbacks, find_callback-put_callback,
}
use voltdb_client_cpp.Client.Invoke.{
  Network, keep_known, route_by, bev_of_host, route_procedure, route, send, message, written,
  throw_from, invoke_ready, is_empty, tell_busy, invoke,
}
use voltdb_client_cpp.Client.Linked.{
  IsLinked, Post, returned, threw, Keeps, Post-bind, Post-Any, Post-weaken,
}
use voltdb_client_cpp.Client.Linked.Places.{
  keys-callbacks_of, callbacks_of-there, AreLinked-set, AreLinked-insert, keys-set_some,
}
use voltdb_client_cpp.Client.Linked.Choice.{
  Behaves, IsConnected, Keeps-pure, Post-test, Post-or, choose-IsConnected,
}

-- The request waits on the connection.
abbrev pub WaitsOn : ℕ → ℤ → ℕ → Void → Client → Type 0
WaitsOn bev id c v t = Waits bev id c t × IsConnected bev t

pub register-WaitsOn :
    (bev : ℕ) (id : ℤ) (c : ℕ) (s : Client)
    → IsLinked s
    → IsConnected bev s
    → Post (WaitsOn bev id c) (register bev id c s)
unfolding register
register-WaitsOn bev id c s l q =
    let (m, e) = callbacks_of-there bev s.callbacks q in
    let m' = put_callback id c m in
    rw e (
      returned (AreLinked-set s.callbacks bev m' q l) (
        record {
          callbacks = m';
          connection = callbacks_of-set_callbacks bev m' s.callbacks;
          found = find_callback-put_callback id c m;
        },
        omega (arith, keys-set_some bev bev m' s.callbacks q),
      ))

note_backpressure-WaitsOn :
    (long : Bool) (bev : ℕ) (id : ℤ) (c : ℕ) (s : Client)
    → IsLinked s
    → WaitsOn bev id c tt s
    → Post (WaitsOn bev id c) (note_backpressure bev long s)
unfolding note_backpressure
note_backpressure-WaitsOn false bev id c s l w = returned l w
note_backpressure-WaitsOn true bev id c s l (w, q) =
    returned (AreLinked-insert bev s.backpressured_bevs q l)
      (record { callbacks = w.callbacks; connection = w.connection; found = w.found }, q)

-- The request waits on some connection.
abbrev pub Requested : {A : Type 0} → ℤ → ℕ → A → Client → Type 0
Requested id c a t = (bev : ℕ) × Waits bev id c t

send-Requested :
    (n : Network) (bev : ℕ) (bytes : List ℕ) (id : ℤ) (c : ℕ) (s : Client)
    → IsLinked s
    → IsConnected bev s
    → Post (Requested id c) (send n bev bytes id c s)
unfolding send
send-Requested n bev bytes id c s l q =
    elim (n.accepts bev bytes)
      as (λ b. Post (Requested id c) (
        (throw_if (not b) libevent
            >> (register bev id c >> note_backpressure bev (n.long bev bytes)))
          s)) [
            | false ↦ threw l
            | true ↦ Post-bind _ (register-WaitsOn bev id c s l q) (λ _ t m w.
                Post-weaken (note_backpressure-WaitsOn (n.long bev bytes) bev id c t m w)
                  (λ _ u x. (bev, x.0)))
          ]

keep_known-IsConnected :
    (bev : ℕ) (routed : Option ℕ) (s : Client)
    → IsConnected bev s
    → IsConnected (keep_known bev routed s) s
keep_known-IsConnected bev none s q = q
keep_known-IsConnected bev (some r) s q = elim (Option-cases (callbacks_of r s.callbacks)) [
  | inl e ↦ rw e q
  | inr (m, e) ↦ rw e (keys-callbacks_of r m s.callbacks e)
]

route-IsConnected :
    (m : Murmur) (name : List ℕ) (b : ByteBuffer) (bev : ℕ) (s : Client)
    → IsLinked s
    → IsConnected bev s
    → Post IsConnected (route m name b bev s)
unfolding route route_procedure
route-IsConnected m name b bev s l q =
    Post-test (s.use_client_affinity && not s.distributer.is_updating)
      (routed (route_by m s b (get_procedure s.distributer name))) (returned l q)
  where
    routed :
        (o : Outcome ByteBuffer ℤ)
        → Post IsConnected (
            continue
              (elim o [ fail e _ ↦ fail e s | done h _ ↦ done (bev_of_host s h) s ])
              (λ r. gets (keep_known bev r)))
    routed (fail e _) = threw l
    routed (done h _) = returned l (keep_known-IsConnected bev (bev_of_host s h) s q)

Keeps-message : (o : Outcome (Procedure × ByteBuffer) Void) → Keeps (message o)
Keeps-message (fail e pb) = record { keeps = λ s l. threw l }
Keeps-message (done v pb) = record { keeps = λ s l. returned l tt }

pub Keeps-written : (o : Outcome Procedure ℤ) (id : ℤ) → Keeps (written o id)
Keeps-written (fail e p) id = record { keeps = λ s l. threw l }
Keeps-written (done (negsuc k) p) id = record { keeps = λ s l. threw l }
Keeps-written (done (pos k) p) id = Keeps-message (Procedure.serialize_to id (p, scoped k))

-- The size is asked for before the request has a number.
pub throw_from-next_request_id :
    (o : Outcome Procedure ℤ) (s : Client)
    → IsLinked s
    → Post (λ _ t. t.next_request_id ≡ s.next_request_id) (throw_from o s)
throw_from-next_request_id (fail e _) s l = threw l
throw_from-next_request_id (done _ _) s l = returned l refl

module _ (m : Murmur) (n : Network) (v : Behaves n) (fuel : ℕ) (p : Procedure) (c : ℕ) where
  invoke_ready-Requested :
      (s : Client) → IsLinked s → Post (Requested s.next_request_id c) (invoke_ready m n fuel p c s)
  unfolding invoke_ready take_id
  invoke_ready-Requested s l =
      let size = Procedure.get_serialized_size p in
      Post-bind _ (throw_from-next_request_id size s l) (λ _ t k e.
        Post-bind _
          ((Keeps-written size t.next_request_id).keeps
            (record t { next_request_id = t.next_request_id +ℤ pos 1 }) k)
          (λ pb u k' _. Post-bind _ (choose-IsConnected n v fuel none u k' tt) (λ bev w k'' q.
            Post-bind _ (route-IsConnected m p.name pb.1 bev w k'' q) (λ bev' x k3 q'.
              Post-bind _
                (send-Requested n bev' (take pb.1.limit pb.1.storage) t.next_request_id c x k3 q')
                (λ _ y k4 r.
                  returned k4 (subst (λ (id : ℤ). Requested {A = Procedure} id c pb.0 y) e r))))))

  -- Where the bevs, callbacks and backpressured connections agree and what is outside keeps them so,
  -- the request of an `invoke` that returns while fewer requests are outstanding than may be waits on a
  -- connection under the next number, and the three agree again, also where the call throws.
  pub invoke-Requested :
      (s : Client)
      → IsLinked s
      → ltb_ℤ s.outstanding_requests s.max_outstanding_requests ≡ true
      → Post (Requested s.next_request_id c) (invoke m n fuel p c s)
  unfolding invoke
  invoke-Requested s l e = rw e (
      Post-test (is_empty s.bevs) (threw l) (
        Post-test (not s.distributer.is_updating && not s.distributer.is_elastic) (threw l)
          (invoke_ready-Requested s l)))

  Keeps-tell_busy : (b : Option (Action Client Bool)) → n.backpressure ≡ b → Keeps (tell_busy b)
  Keeps-tell_busy none e = record { keeps = λ s l. returned l tt }
  Keeps-tell_busy (some b) e = record {
    keeps = λ s l. Post-or n v ((v.backpressure b e).keeps s l) (Keeps-pure true);
  }

  pub Keeps-invoke : Keeps (invoke m n fuel p c)
  unfolding invoke
  Keeps-invoke = record {
    keeps = λ s l. Post-test (is_empty s.bevs) (threw l) (
        Post-test (not (ltb_ℤ s.outstanding_requests s.max_outstanding_requests))
          (Post-bind _ ((Keeps-tell_busy n.backpressure refl).keeps s l)
            (λ _ t k _. Post-bind _ ((v.abandon c).keeps t k) (λ _ u k' _. returned k' tt)))
          (Post-test (not s.distributer.is_updating && not s.distributer.is_elastic) (threw l)
            (Post-Any (invoke_ready-Requested s l))));
  }
