-- ===== src/Client/Routed.antt =====
-- The connection that src/ClientImpl.cpp routes a procedure to by affinity.
use voltdb_client_cpp.Prelude.{
  ℕ, ◌≡◌, refl, ap, inl, inr, true, false, Option, none, some, List, ◌++◌, Bool-cases, Option-cases,
  some_inj, ◌&&◌, not, if◌then◌else◌,
}
use voltdb_client_cpp.Prelude.Int.{ℤ, pos, ltb_ℤ}
use voltdb_client_cpp.Action.{done, >>=_done, gets}
use voltdb_client_cpp.Buffer.{ByteBuffer}
use voltdb_client_cpp.Buffer.Frame.{framed, holding}
use voltdb_client_cpp.Hashinator.{Token, Murmur}
use voltdb_client_cpp.Params.Values.{Value, encode}
use voltdb_client_cpp.Procedure.{Procedure}
use voltdb_client_cpp.Procedure.Message.{body, IsReady}
use voltdb_client_cpp.Distributer.{
  ProcedureInfo, find_host, get_procedure, get_host_id_by_partition_id,
}
use voltdb_client_cpp.Distributer.Partition.{IsKey, value_partition, get_hashed_partition-body}
use voltdb_client_cpp.Client.{Client}
use voltdb_client_cpp.Client.Invoke.{
  find_bev, host_of, bev_of_host, mp_init_pid, keep_known, route_procedure, route,
}

abbrev at_host : Client → Option ℤ → Option ℕ
at_host s none = none
at_host s (some h) = if ltb_ℤ h (pos 0) then none else find_bev h s.host_id_to_event

-- The connection to the host of a partition.
abbrev pub home : Client → ℤ → Option ℕ
home s q =
    if ltb_ℤ q (pos 0) then none else at_host s (find_host q s.distributer.partition_to_host_id)

-- The partition of a call: that of its first parameter where the procedure is known to run in one
-- partition, and else that of the initiator of the multi-partition ones.
abbrev pub partition_of : Murmur → List Token → Value → Option ProcedureInfo → Option ℤ
partition_of m ring v none = some mp_init_pid
partition_of m ring v (some info) =
    if info.multi_part then some mp_init_pid else value_partition m ring v

bev_of_host-home : (s : Client) (q : ℤ) → bev_of_host s (host_of s q) ≡ home s q
unfolding get_host_id_by_partition_id
bev_of_host-home s q = elim (Bool-cases (ltb_ℤ q (pos 0))) [
  | inl e ↦ rw e refl
  | inr e ↦ elim (Option-cases (find_host q s.distributer.partition_to_host_id)) [
    | inl n ↦ rw (e, n) refl
    | inr (h, n) ↦ rw (e, n) refl
  ]
]

module _ (p : Procedure) (cd : ℤ) (v : Value) (rest : List ℕ) (m : Murmur) (s : Client)
    (ring : List Token) (q : ℤ) (r : IsReady p (encode v ++ rest)) (k : IsKey v)
    (e : s.distributer.hashinator ≡ some ring)
    (first : (info : ProcedureInfo)
      → get_procedure s.distributer p.name ≡ some info
      → info.multi_part ≡ false
      → info.partition_parameter ≡ pos 0)
    (h : partition_of m ring v (get_procedure s.distributer p.name) ≡ some q) where
  abbrev message : ByteBuffer
  message = holding (framed (body p cd (encode v ++ rest)))

  route_procedure-home : route_procedure m p.name message s ≡ done (home s q) s
  unfolding route_procedure
  route_procedure-home = elim (Option-cases (get_procedure s.distributer p.name)) [
    | inl n ↦
        let w : mp_init_pid ≡ q = some_inj (rw n at h) in
        rw (route_procedure, n, bev_of_host-home s mp_init_pid)
          (ap (λ (x : ℤ). done (home s x) s) w)
    | inr (info, n) ↦ elim (Bool-cases info.multi_part) [
      | inl o ↦
          let w : mp_init_pid ≡ q = some_inj (rw (n, o) at h) in
          rw (route_procedure, n, o, bev_of_host-home s mp_init_pid)
            (ap (λ (x : ℤ). done (home s x) s) w)
      | inr o ↦
          let g =
            get_hashed_partition-body p cd v rest m s.distributer ring q r k e (rw (n, o) at h) in
          rw (route_procedure, n, o, first info n o, g, bev_of_host-home s q) refl
    ]
  ]

  -- With affinity, and no update under way, the message of a procedure whose first parameter is `v` goes
  -- to the connection of the host that has its partition, and else, where the partition is none, its host
  -- is not known, or there is no connection to it with callbacks, to the connection `bev` that was chosen
  -- before. A procedure in one partition has to be partitioned by its first parameter, and the ring has
  -- to have an owner of its hash.
  pub route-home :
      (bev : ℕ)
      → s.use_client_affinity ≡ true
      → s.distributer.is_updating ≡ false
      → route m p.name message bev s ≡ done (keep_known bev (home s q) s) s
  unfolding route
  route-home bev a u =
      let c : (s.use_client_affinity && not s.distributer.is_updating) ≡ true = rw (a, u) refl in
      rw c (
        >>=_done (route_procedure m p.name message) (λ x. gets (keep_known bev x))
          route_procedure-home)
