-- ===== src/Distributer/Places.antt =====
-- The loop of `updateAffinityTopology` of src/Distributer.cpp over the places of the partitions.
use voltdb_client_cpp.Prelude.{
  ℕ, suc, ◌+◌, ◌≤◌, ◌≡◌, refl, ap, sym, subst, ◌∙◌, Bool, Option, some, List, [], ◌∷◌, length, map,
  length-map,
}
use voltdb_client_cpp.Prelude.Int.{ℤ, pos}
use voltdb_client_cpp.Action.{done, >>=_done}
use voltdb_client_cpp.Buffer.Put.{IsText}
use voltdb_client_cpp.Row.{Column, Row, get_string, get_int32, get_varbinary}
use voltdb_client_cpp.Row
use voltdb_client_cpp.Row.Cells.{Cell, row_bytes, AllCells, Typed}
use voltdb_client_cpp.Row.Cells.Fetch.{IsRow}
use voltdb_client_cpp.Row.Cells.Getters.{get_int32-Got, get_string-Got}
use voltdb_client_cpp.Table.{Table, TableIterator}
use voltdb_client_cpp.Table.Rows.{
  IsIterator, row_of, has_next_end, has_next_more, next-row, behind, behind-IsIterator,
}
use voltdb_client_cpp.Table.Parse.{Holds, Stands-all}
use voltdb_client_cpp.Distributer.{Distributer, insert_host, find_host, add_host}
use voltdb_client_cpp.Distributer.Update.{text, atoi, until_colon, host_entry, for_rows, for_table}
use voltdb_client_cpp.Distributer.Hosts.{Hosts, insert_all}

-- A row of the first table: a partition, its sites and its leader, `host:site`.
pub record Place : Type 0 where
  pub partition : ℤ
  pub sites : Option (List ℕ)
  pub leader : Option (List ℕ)

abbrev pub place_cells : Place → List Cell
place_cells p = Cell.integer p.partition ∷ Cell.string p.sites ∷ Cell.string p.leader ∷ []

abbrev pub host_of : Place → ℤ × ℤ
host_of p = (p.partition, atoi (until_colon (text p.leader)))

abbrev pub place_rows : List Place → List (List ℕ)
place_rows ps = map (λ p. row_bytes (place_cells p)) ps

-- The place fits the columns of its table.
pub record IsPlace (columns : List Column) (p : Place) : Type 0 where
  pub typed : Typed columns (place_cells p)
  pub cells : AllCells (place_cells p)
  pub size : IsText (row_bytes (place_cells p))

abbrev pub AllPlaces : List Column → List Place → Type 0
AllPlaces columns [] = 0 ≤ 0
AllPlaces columns (p ∷ ps) = IsPlace columns p × AllPlaces columns ps

pub fresh-IsRow :
    (cs : List Cell) (columns : List Column) (e : Bool)
    → Typed columns cs
    → AllCells cs
    → IsRow cs (row_of columns e (row_bytes cs))
unfolding Row.init
fresh-IsRow cs columns e t f = record {
  columns = t;
  values = Stands-all e (row_bytes cs);
  cells = f;
  known = λ h. cc;
}

host_entry-host_of :
    (p : Place) (r : Row)
    → AllCells (place_cells p)
    → IsRow (place_cells p) r
    → (x : Row) × (host_entry r ≡ done (host_of p) x)
unfolding host_entry
host_entry-host_of p r f v =
    let g = get_int32-Got (place_cells p) 0 r v p.partition refl f.0 in
    let h = get_string-Got (place_cells p) 2 g.row g.is_row p.leader refl f.1.1.0 in
    (h.row, >>=_done (get_int32 (pos 0)) _ g.result ∙ >>=_done (get_string (pos 2)) _ h.result)

abbrev pub with_hosts : Hosts → Distributer → Distributer
with_hosts hs d = record d { partition_to_host_id = hs }

-- The loop over the rows inserts the entry of each.
for_rows-insert_all :
    (ps : List Place) (it : TableIterator) (d : Distributer)
    → AllPlaces it.columns ps
    → IsIterator (place_rows ps) it
    → for_rows host_entry insert_host (suc (length ps)) it d
      ≡ done tt (with_hosts (insert_all (map host_of ps) d.partition_to_host_id) d)
unfolding for_rows insert_host
for_rows-insert_all [] it d a v = rw (for_rows, has_next_end it v) refl
for_rows-insert_all (p ∷ ps) it d a v =
    let r = row_bytes (place_cells p) in
    let rs = place_rows ps in
    let fresh = fresh-IsRow (place_cells p) it.columns it.buffer.expandable a.0.typed a.0.cells in
    let (x, k) = host_entry-host_of p (row_of it.columns it.buffer.expandable r) a.0.cells fresh in
    rw (for_rows, has_next_more r rs it v, next-row r rs it a.0.size v, k)
      (for_rows-insert_all ps (behind (4 + length r) it)
        (with_hosts
          (add_host (find_host p.partition d.partition_to_host_id) (host_of p)
            d.partition_to_host_id)
          d)
        a.1 (behind-IsIterator r rs it v))

pub for_table-insert_all :
    (places : List Place) (columns : List Column) (t : Table) (d : Distributer)
    → AllPlaces columns places
    → Holds columns (place_rows places) t
    → for_table host_entry insert_host (some t) d
      ≡ done tt (with_hosts (insert_all (map host_of places) d.partition_to_host_id) d)
unfolding for_table
for_table-insert_all places columns t d a h =
    let c : t.row_count ≡ pos (length places) =
      h.count ∙ ap pos (length-map places (λ p. row_bytes (place_cells p))) in
    rw (for_table, h.started, c)
      (for_rows-insert_all places h.first d
        (subst (λ cols. AllPlaces cols places) (sym h.first_columns) a) h.ready)
