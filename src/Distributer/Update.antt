-- ===== src/Distributer/Update.antt =====
-- The updates of src/Distributer.cpp: the tables of the server's answers to `@Statistics` and
-- `@SystemCatalog`.
use voltdb_client_cpp.Prelude.{
  ℕ, zero, suc, ◌+◌, ◌-◌, ◌*◌, Bool, true, false, ◌&&◌, ◌||◌, ◌^◌, Option, none, some, List, [],
  ◌∷◌, leb, ◌==◌, if◌then◌else◌, get_elem?,
}
use voltdb_client_cpp.Prelude.Int.{ℤ, pos, negsuc, ◌-ℤ◌, ltb_ℤ, pos_part}
use voltdb_client_cpp.Action.{
  Action, Outcome, done, fail, pure, throw, modify, ◌>>=◌, ◌>>◌, undefined, bad_json,
}
use voltdb_client_cpp.Wire.{cast}
use voltdb_client_cpp.Buffer.{Void, eqb_bytes}
use voltdb_client_cpp.Hashinator.{Token, read_ring}
use voltdb_client_cpp.Row.{Row, get_string, get_int32, get_varbinary}
use voltdb_client_cpp.Table.{Table, TableIterator, iterator, has_next, next, ne_table}
use voltdb_client_cpp.Distributer.{Distributer, ProcedureInfo, Json, insert_host, insert_procedure}

-- A null string is returned empty.
abbrev pub text : Option (List ℕ) → List ℕ
text none = []
text (some s) = s

-- `std::getline(ss, token, ':')`
unfoldable pub until_colon : List ℕ → List ℕ
until_colon [] = []
until_colon (c ∷ cs) = let rest = until_colon cs in if c == 58 then [] else c ∷ rest

abbrev is_digit : ℕ → Bool
is_digit c = leb 48 c && leb c 57

unfoldable pub digits : ℕ → List ℕ → ℕ
digits n [] = n
digits n (c ∷ cs) = let rest = digits (n * 10 + (c - 48)) cs in if is_digit c then rest else n

-- `isspace`
abbrev is_space : ℕ → Bool
is_space c = c == 32 || (leb 9 c && leb c 13)

unfoldable pub skip_spaces : List ℕ → List ℕ
skip_spaces [] = []
skip_spaces (c ∷ cs) = let rest = skip_spaces cs in if is_space c then rest else c ∷ cs

abbrev signed : List ℕ → ℤ
signed [] = pos 0
signed (c ∷ cs) =
    if c == 45
    then pos 0 -ℤ pos (digits 0 cs)
    else if c == 43
    then pos (digits 0 cs)
    else pos (digits 0 (c ∷ cs))

-- The range of a `long` of 64 bits, to which `strtol` holds a number.
abbrev to_long : ℤ → ℤ
to_long z =
    if ltb_ℤ z (negsuc (2 ^ 63 - 1))
    then negsuc (2 ^ 63 - 1)
    else if ltb_ℤ (pos (2 ^ 63 - 1)) z
    then pos (2 ^ 63 - 1)
    else z

-- `atoi`, which is `strtol` and a conversion to `int`. C leaves open what comes of a number that does
-- not fit an `int`; this is what it does where the conversion keeps the low 32 bits.
unfoldable pub atoi : List ℕ → ℤ
atoi s = cast 4 (to_long (signed (skip_spaces s)))

-- The partition and the host of a row of the topology.
unfoldable pub host_entry : Action Row (ℤ × ℤ)
host_entry = do
  partition ← get_int32 (pos 0)
  leader ← get_string (pos 2)
  pure (partition, atoi (until_colon (text leader)))

-- A loop over the rows of a table that gives the entry of each to the distributer, on fuel.
unfoldable pub for_rows :
    {A : Type 0}
    → Action Row A
    → (A → Action Distributer Void)
    → ℕ
    → TableIterator
    → Action Distributer Void
for_rows entry add zero it d = fail undefined d
for_rows entry add (suc fuel) it d = elim (has_next it) [
  | fail e _ ↦ fail e d
  | done false _ ↦ done tt d
  | done true it' ↦ elim (next it') [
    | fail e _ ↦ fail e d
    | done row it'' ↦ elim (entry row) [
      | fail e _ ↦ fail e d
      | done a _ ↦ elim (add a d) [
        | fail e d' ↦ fail e d'
        | done _ d' ↦ for_rows entry add fuel it'' d'
      ]
    ]
  ]
]

-- The iterator of a table of the answer; each turn takes one of the rows that are counted.
unfoldable pub for_table :
    {A : Type 0}
    → Action Row A
    → (A → Action Distributer Void)
    → Option Table
    → Action Distributer Void
for_table entry add none d = fail undefined d
for_table entry add (some t) d = elim (iterator t) [
  | fail e _ ↦ fail e d
  | done it _ ↦ for_rows entry add (suc (pos_part t.row_count)) it d
]

-- "ELASTIC"
abbrev pub elastic : List ℕ
elastic = 69 ∷ 76 ∷ 65 ∷ 83 ∷ 84 ∷ 73 ∷ 67 ∷ []

-- The mode and, where it is elastic, the tokens of the row of the second table.
unfoldable pub hash_entry : Action Row (Option (List ℕ))
hash_entry = do
  head ← get_varbinary (pos 1) (pos 4) true
  mode ← get_string (pos 0)
  if eqb_bytes (text mode) elastic
      then (get_varbinary (pos 1) head.out_len true >>= λ v. pure (some v.out_value))
      else pure none

abbrev new_ring : Option (List Token) → Action Distributer Void
new_ring none = throw undefined
new_ring (some ring) = modify (λ d. record d { hashinator = some ring; is_elastic = true })

abbrev set_ring : Option (List ℕ) → Action Distributer Void
set_ring none = modify (λ d. record d { is_elastic = false })
set_ring (some tokens) = new_ring (read_ring tokens)

abbrev first_row : Option Table → Outcome Void Row
first_row none = fail undefined tt
first_row (some t) = elim (iterator t) [
  | fail e _ ↦ fail e tt
  | done it _ ↦ elim (next it) [ fail e _ ↦ fail e tt | done row _ ↦ done row tt ]
]

unfoldable pub update_ring : Option Table → Action Distributer Void
update_ring t d = elim (first_row t) [
  | fail e _ ↦ fail e d
  | done row _ ↦ elim (hash_entry row) [ fail e _ ↦ fail e d | done h _ ↦ set_ring h d ]
]

abbrev finish_update : Option Table → Action Distributer Void
finish_update t = modify (λ d. record d { is_updating = false; saved_topo_table = t })

-- `updateAffinityTopology`
unfoldable pub update_affinity_topology : List Table → Action Distributer Void
update_affinity_topology topo =
    modify (λ d. record d { partition_to_host_id = [] })
    >> (for_table host_entry insert_host (get_elem? topo 0)
        >> (update_ring (get_elem? topo 1) >> finish_update (get_elem? topo 0)))

abbrev changed : Option Table → Option Table → Outcome Void Bool
changed saved none = fail undefined tt
changed none (some t) = done true tt
changed (some s) (some t) = done (ne_table s t) tt

-- `handleTopologyNotification`
unfoldable pub handle_topology_notification : List Table → Action Distributer Void
handle_topology_notification t d = elim (changed d.saved_topo_table (get_elem? t 0)) [
  | fail e _ ↦ fail e d
  | done false _ ↦ done tt d
  | done true _ ↦ update_affinity_topology t d
]

abbrev parsed : List ℕ → Option ProcedureInfo → Action Row (List ℕ × ProcedureInfo)
parsed name none = throw bad_json
parsed name (some info) = pure (name, info)

unfoldable pub procedure_entry : Json → Action Row (List ℕ × ProcedureInfo)
procedure_entry json = do
  name ← get_string (pos 2)
  remarks ← get_string (pos 6)
  parsed (text name) (json.read (text remarks))

-- `updateProcedurePartitioning`
unfoldable pub update_procedure_partitioning : Json → List Table → Action Distributer Void
update_procedure_partitioning json tables =
    modify (λ d. record d { procedure_info = [] })
    >> for_table (procedure_entry json) insert_procedure (get_elem? tables 0)
