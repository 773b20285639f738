-- ===== src/Client/Linked/Logins.antt =====
-- The logins and the losses of src/ClientImpl.cpp keep the places of a connection in agreement.
use voltdb_client_cpp.Prelude.{
  ℕ, ◌≡◌, refl, Bool, false, ◌&&◌, not, List, [], Option, none, some, if◌then◌else◌,
}
use voltdb_client_cpp.Prelude.Int.{ℤ, eqb_ℤ}
use voltdb_client_cpp.Action.{Action, done, fail, cluster_instance_mismatch}
use voltdb_client_cpp.Hashinator.{Murmur}
use voltdb_client_cpp.Auth.{Login}
use voltdb_client_cpp.Client.{Client, Pending, Handlers, magic, put_callback, callbacks_of}
use voltdb_client_cpp.Client.Invoke.{Network, is_empty}
use voltdb_client_cpp.Client.Read.{Context}
use voltdb_client_cpp.Client.Connections.{
  check_instance, add_connection, tell_active, tell_lost, abandon_in, create_pending_connection,
  forget_callbacks, forget_bev, reset_instance, Peer, forget, join, with_affinity, finalize_login,
  finalize_authentication, update_if_any, lose_connection, write_ready,
}
use voltdb_client_cpp.Client.Linked.{
  keys, IsLinked, Post, returned, threw, Any, Keeps, Keeps-if, Post-bind,
}
use voltdb_client_cpp.Client.Linked.Places.{AreLinked-add, AreLinked-erase, AreLinked-remove}
use voltdb_client_cpp.Client.Linked.Choice.{Behaves, Post-test, Post-if, Keeps-pure}
use voltdb_client_cpp.Client.Linked.Own.{Keeps-skip, Keeps-update_hashinator, Keeps-updates}
use voltdb_client_cpp.Client.Linked.Responses.{
  Answers, Keeps-or, Keeps-ignoring, Keeps-regular_read_callback, Keeps-abandon,
}

-- A connection that the client does not have yet.
abbrev pub IsNew : ℕ → Client → Type 0
IsNew bev s = keys bev s.callbacks ≡ 0

check_instance-IsNew :
    (l : Login) (bev : ℕ) (s : Client)
    → IsLinked s
    → IsNew bev s
    → Post (λ _. IsNew bev) (check_instance l s)
unfolding check_instance
check_instance-IsNew l bev s k e = by_id s.instance_id
  where
    by_id :
        (i : Option (ℤ × ℤ))
        → Post
            (λ _. IsNew bev)
            (elim i [
              | none ↦
                  done tt (record s { instance_id = some (l.cluster_start_time, l.leader_address) })
              | some (start, leader) ↦
                  if eqb_ℤ start l.cluster_start_time && eqb_ℤ leader l.leader_address
                  then done tt s
                  else fail cluster_instance_mismatch s
            ])
    by_id none = returned k e
    by_id (some (start, leader)) =
        Post-test (eqb_ℤ start l.cluster_start_time && eqb_ℤ leader l.leader_address) (returned k e)
          (threw k)

join-Linked :
    (l : Login) (pc : Pending) (bev : ℕ) (s : Client)
    → IsLinked s
    → IsNew bev s
    → Post Any (join l pc bev s)
unfolding join add_connection
join-Linked l pc bev s k e =
    returned (AreLinked-add s.bevs s.callbacks bev (put_callback magic 0 []) e k) tt

Keeps-forget : (peer : Peer) (bev : ℕ) → Keeps (forget peer bev)
unfolding forget forget_callbacks forget_bev reset_instance create_pending_connection
Keeps-forget peer bev = record {
  keeps = λ s l. returned (AreLinked-erase s.bevs s.callbacks s.backpressured_bevs bev l) tt;
}

module _ (m : Murmur) (n : Network) (v : Behaves n) (fuel : ℕ) (h : Handlers) (a : Answers h) where
  Keeps-tell_active :
      (f : Option (ℕ → Action Client Bool))
      → h.connection_active ≡ f
      → (bev : ℕ) → Keeps (tell_active f bev)
  Keeps-tell_active none e bev = record { keeps = λ s l. returned l tt }
  Keeps-tell_active (some f) e bev = record {
    keeps = λ s l. (Keeps-or (a.active f e bev) (Keeps-pure false)).keeps s l;
  }

  Keeps-with_affinity : Keeps (with_affinity m n fuel h)
  Keeps-with_affinity = record {
    keeps = λ s l. (Keeps-if s.use_client_affinity (Keeps-updates m n v fuel) Keeps-skip).keeps s l;
  }

  pub finalize_authentication-Linked :
      (pc : Pending) (bev : ℕ) (s : Client)
      → IsLinked s
      → IsNew bev s
      → Post Any (finalize_authentication m n fuel h pc bev s)
  unfolding finalize_authentication
  finalize_authentication-Linked pc bev s l e =
      Post-if pc.completed s _ _ (with_login pc.response) (threw l)
    where
      with_login : (r : Option Login) → Post Any (finalize_login m n fuel h pc bev r s)
      with_login none = threw l
      with_login (some login) = Post-bind _ (check_instance-IsNew login bev s l e) (λ _ t k e'.
          Post-bind _ (join-Linked login pc bev t k e') (λ _ u k' _.
            Post-bind _ (Keeps-with_affinity.keeps u k') (λ _ w k2 _.
              Post-bind _ ((Keeps-tell_active h.connection_active refl bev).keeps w k2)
                (λ _ x k3 _. returned k3 tt))))

  Keeps-tell_lost :
      (f : Option (ℕ → Action Client Bool))
      → h.connection_lost ≡ f
      → (bev : ℕ) → Keeps (tell_lost f bev)
  Keeps-tell_lost none e bev = record { keeps = λ s l. returned l tt }
  Keeps-tell_lost (some f) e bev = record {
    keeps =
        λ s l. (Keeps-or (Keeps-ignoring (f bev) (a.lost f e bev)) (Keeps-pure false)).keeps s l;
  }

  Keeps-abandon_in : (c : Option (List (ℤ × ℕ))) → Keeps (abandon_in h c)
  Keeps-abandon_in none = record { keeps = λ s l. threw l }
  Keeps-abandon_in (some c) = Keeps-abandon h a c

  Keeps-update_if_any : (empty : Bool) → Keeps (update_if_any m n fuel h empty)
  Keeps-update_if_any empty = record {
    keeps = λ s l.
        (Keeps-if (s.use_client_affinity && not empty) (Keeps-update_hashinator m n v fuel)
            Keeps-skip).keeps
          s l;
  }

  pub Keeps-lose_connection :
      (peer : Peer) (context : Context) (input : List ℕ) (bev : ℕ)
      → Keeps (lose_connection m n fuel h peer context input bev)
  unfolding lose_connection
  Keeps-lose_connection peer context input bev = record {
    keeps = λ s l.
        Post-bind _ ((Keeps-regular_read_callback h a bev context input).keeps s l) (λ read t k _.
          Post-bind _ ((Keeps-tell_lost h.connection_lost refl bev).keeps t k) (λ told u k' _.
            Post-bind _ ((Keeps-abandon_in (callbacks_of bev u.callbacks)).keeps u k')
              (λ given w k2 _. Post-bind _ ((Keeps-forget peer bev).keeps w k2) (λ _ x k3 _.
                Post-bind _ ((Keeps-update_if_any (is_empty x.bevs)).keeps x k3)
                  (λ _ y k4 _. returned k4 tt)))));
  }

pub Keeps-write_ready : (bev : ℕ) → Keeps (write_ready bev)
unfolding write_ready
Keeps-write_ready bev = record {
  keeps = λ s l. returned (AreLinked-remove bev s.backpressured_bevs l) tt;
}
