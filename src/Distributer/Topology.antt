-- ===== src/Distributer/Topology.antt =====
-- `updateAffinityTopology` of src/Distributer.cpp on the two tables of the server's answer.
use voltdb_client_cpp.Wire.{to_bytes}
use voltdb_client_cpp.Prelude.{
  length-append, arith, ◌≤◌, ℕ, ◌^◌, ◌≡◌, refl, ap, sym, subst, ◌∙◌, inl, inr, true, false, Option,
  none, some, List, [], ◌∷◌, arith, length, append-nil, map, Bool-cases, if◌then◌else◌,
}
use voltdb_client_cpp.Prelude.Int.{ℤ, pos, ltb_ℤ}
use voltdb_client_cpp.Action.{done, >>=_done}
use voltdb_client_cpp.Buffer.{eqb_bytes}
use voltdb_client_cpp.Buffer.Put.{IsText}
use voltdb_client_cpp.Hashinator.{Token, read_ring}
use voltdb_client_cpp.Hashinator.Ring.{
  token_bytes, length-token_bytes, ring_bytes, AllFit, read_ring-bytes,
}
use voltdb_client_cpp.Row.{Column, Row, get_string, get_varbinary}
use voltdb_client_cpp.Row.Cells.{nullable_bytes, Cell, row_bytes, AllCells, Typed}
use voltdb_client_cpp.Row.Cells.Fetch.{IsRow}
use voltdb_client_cpp.Row.Cells.Getters.{get_string-Got, get_varbinary-Got, bytes_within}
use voltdb_client_cpp.Table.{Table}
use voltdb_client_cpp.Table.Rows.{row_of, next-row}
use voltdb_client_cpp.Table.Parse.{Holds}
use voltdb_client_cpp.Distributer.{
  Distributer, get_host_id_by_partition_id, or_minus_one, find_host,
}
use voltdb_client_cpp.Distributer.Update.{
  hash_entry, elastic, update_ring, update_affinity_topology,
}
use voltdb_client_cpp.Distributer.Hosts.{first_host, insert_all, find_host-insert_all}
use voltdb_client_cpp.Distributer.Places.{
  Place, AllPlaces, host_of, place_rows, fresh-IsRow, with_hosts, for_table-insert_all,
}

-- The row of the second table: the mode, and the ring of tokens where the mode is elastic.
abbrev pub hash_cells : List ℕ → List Token → List Cell
hash_cells mode ring = Cell.string (some mode) ∷ Cell.varbinary (some (ring_bytes ring)) ∷ []

abbrev tokens_of : List ℕ → List ℕ → Option (List ℕ)
tokens_of mode bs = if eqb_bytes mode elastic then some bs else none

size_within : (n : ℕ) (bs : List ℕ) → (bytes_within n bs).out_len ≡ pos (length bs)
size_within n bs = elim (Bool-cases (ltb_ℤ (pos n) (pos (length bs)))) [
  | inl u ↦ rw u refl
  | inr u ↦ rw u refl
]

all_within : (bs : List ℕ) → (bytes_within (length bs) bs).out_value ≡ bs
all_within bs =
    let u : ltb_ℤ (pos (length bs)) (pos (length bs)) ≡ false = ground arith in rw u refl

hash_entry-tokens :
    (mode : List ℕ) (ring : List Token) (r : Row)
    → AllCells (hash_cells mode ring)
    → IsRow (hash_cells mode ring) r
    → (x : Row) × (hash_entry r ≡ done (tokens_of mode (ring_bytes ring)) x)
unfolding hash_entry
hash_entry-tokens mode ring r f v =
    let cs = hash_cells mode ring in
    let bs = ring_bytes ring in
    let g = get_varbinary-Got cs 1 r v 4 bs refl f.1.0 in
    let h = get_string-Got cs 0 g.row g.is_row (some mode) refl f.0 in
    let w = get_varbinary-Got cs 1 h.row h.is_row (length bs) bs refl f.1.0 in
    let front =
      >>=_done (get_varbinary (pos 1) (pos 4) true) _ g.result
      ∙ >>=_done (get_string (pos 0)) _ h.result in
    elim (Bool-cases (eqb_bytes mode elastic)) [
      | inl m ↦ (w.row, front ∙ rw (m, size_within 4 bs, w.result, all_within bs) refl)
      | inr m ↦ (h.row, front ∙ rw m refl)
    ]

-- The ring is replaced where the mode is elastic, and left where it is not.
abbrev pub with_ring : List ℕ → List Token → Distributer → Distributer
with_ring mode ring d = record d {
  hashinator = if eqb_bytes mode elastic then some ring else d.hashinator;
  is_elastic = eqb_bytes mode elastic;
}

-- The answer of the server: the places and the ring, in tables of columns of their types.
pub record IsTopology (places : List Place) (mode : List ℕ) (ring : List Token)
    (topology hashing : Table) : Type 0 where
  pub place_columns : List Column
  pub places_fit : AllPlaces place_columns places
  pub topology_holds : Holds place_columns (place_rows places) topology
  pub hash_columns : List Column
  pub hash_typed : Typed hash_columns (hash_cells mode ring)
  pub hash_cells_fit : AllCells (hash_cells mode ring)
  pub hash_size : IsText (row_bytes (hash_cells mode ring))
  pub hashing_holds : Holds hash_columns (row_bytes (hash_cells mode ring) ∷ []) hashing
  pub tokens_fit : AllFit ring

-- A ring whose row fits is short enough.
few_tokens :
    (mode : List ℕ) (ring : List Token)
    → IsText (row_bytes (hash_cells mode ring))
    → length ring ≤ 2 ^ 29
few_tokens mode ring h = omega (
  arith,
  h,
  length-token_bytes ring,
  length-append (to_bytes 4 (length ring)) (token_bytes ring),
  length-append (to_bytes 4 (length (ring_bytes ring))) (ring_bytes ring),
  length-append (nullable_bytes (some (ring_bytes ring))) [],
  length-append (nullable_bytes (some mode))
      (row_bytes (Cell.varbinary (some (ring_bytes ring)) ∷ [])),
)

update_ring-with_ring :
    (mode : List ℕ) (ring : List Token) (columns : List Column) (t : Table) (d : Distributer)
    → Typed columns (hash_cells mode ring)
    → AllCells (hash_cells mode ring)
    → IsText (row_bytes (hash_cells mode ring))
    → Holds columns (row_bytes (hash_cells mode ring) ∷ []) t
    → AllFit ring
    → update_ring (some t) d ≡ done tt (with_ring mode ring d)
unfolding update_ring
update_ring-with_ring mode ring columns t d y f z h a =
    let r = row_bytes (hash_cells mode ring) in
    let it = h.first in
    let fresh =
      fresh-IsRow (hash_cells mode ring) it.columns it.buffer.expandable
        (subst (λ cols. Typed cols (hash_cells mode ring)) (sym h.first_columns) y) f in
    let (x, k) = hash_entry-tokens mode ring (row_of it.columns it.buffer.expandable r) f fresh in
    let back =
      subst (λ bs. read_ring bs ≡ some ring) (append-nil (ring_bytes ring))
        (read_ring-bytes ring [] a (few_tokens mode ring z)) in
    elim (Bool-cases (eqb_bytes mode elastic)) [
      | inl m ↦ rw (update_ring, h.started, next-row r [] it z h.ready, k, m, back) refl
      | inr m ↦ rw (update_ring, h.started, next-row r [] it z h.ready, k, m) refl
    ]

-- What the distributer knows of an answer it has taken.
pub record Updated (places : List Place) (mode : List ℕ) (ring : List Token)
    (topology hashing : Table) (d : Distributer) : Type 0 where
  pub distributer : Distributer
  pub result : update_affinity_topology (topology ∷ hashing ∷ []) d ≡ done tt distributer
  pub hosts :
      (p : ℤ)
      → get_host_id_by_partition_id distributer p ≡ or_minus_one (first_host p (map host_of places))
  pub hashinator :
      distributer.hashinator ≡ (if eqb_bytes mode elastic then some ring else d.hashinator)
  pub is_elastic : distributer.is_elastic ≡ eqb_bytes mode elastic
  pub is_updating : distributer.is_updating ≡ false
  pub saved : distributer.saved_topo_table ≡ some topology
  pub procedures : distributer.procedure_info ≡ d.procedure_info

abbrev with_places : List Place → Distributer → Distributer
with_places places d = with_hosts (insert_all (map host_of places) []) d

abbrev finished : Table → Distributer → Distributer
finished t d = record d { is_updating = false; saved_topo_table = some t }

module _ (places : List Place) (mode : List ℕ) (ring : List Token) (topology hashing : Table)
    (d : Distributer) (v : IsTopology places mode ring topology hashing) where
  abbrev after_update : Distributer
  after_update = finished topology (with_ring mode ring (with_places places d))

  update_affinity_topology-after :
      update_affinity_topology (topology ∷ hashing ∷ []) d ≡ done tt after_update
  unfolding update_affinity_topology
  update_affinity_topology-after =
      rw
        (
          for_table-insert_all places v.place_columns topology (with_hosts [] d) v.places_fit
              v.topology_holds,
          update_ring-with_ring mode ring v.hash_columns hashing (with_places places d) v.hash_typed
              v.hash_cells_fit v.hash_size v.hashing_holds v.tokens_fit,
        )
        refl

  -- Whatever the distributer knew, an answer whose tables hold the places of the partitions and the
  -- ring gives each partition the host of the first of its rows and no other partition a host, the
  -- ring of the answer where its mode is elastic and the earlier ring where it is not, and ends the
  -- update; the procedures stay.
  pub update_affinity_topology-Updated : Updated places mode ring topology hashing d
  unfolding get_host_id_by_partition_id find_host
  update_affinity_topology-Updated = record {
    distributer = after_update;
    result = update_affinity_topology-after;
    hosts = λ p. ap or_minus_one (find_host-insert_all p (map host_of places) []);
    hashinator = refl;
    is_elastic = refl;
    is_updating = refl;
    saved = refl;
    procedures = refl;
  }
