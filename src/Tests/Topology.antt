-- ===== src/Tests/Topology.antt =====
-- `updateAffinityTopology` of src/Distributer.cpp at a concrete answer of the server.
use voltdb_client_cpp.Prelude.{refl, List, [], ◌∷◌, ℕ, some, none, arith, true}
use voltdb_client_cpp.Prelude.Int.{pos, negsuc}
use voltdb_client_cpp.Wire.{to_bytes}
use voltdb_client_cpp.WireType.{WireType, code, of_code}
use voltdb_client_cpp.Hashinator.{Token}
use voltdb_client_cpp.Row.{Column}
use voltdb_client_cpp.Row.Cells.{row_bytes}
use voltdb_client_cpp.Table.{Table}
use voltdb_client_cpp.Table.Columns.{IsTable}
use voltdb_client_cpp.Table.Parse.{parsed_table, parsed_table-Holds}
use voltdb_client_cpp.Distributer
use voltdb_client_cpp.Distributer.Update.{elastic}
use voltdb_client_cpp.Distributer.Places.{Place, AllPlaces, place_rows}
use voltdb_client_cpp.Distributer.Topology.{
  hash_cells, IsTopology, Updated, update_affinity_topology-Updated,
}

abbrev place_columns : List Column
place_columns =
    record { type = WireType.integer; name = 80 ∷ [] }
    ∷ record { type = WireType.string; name = 83 ∷ [] }
    ∷ record { type = WireType.string; name = 76 ∷ [] }
    ∷ []

abbrev hash_columns : List Column
hash_columns =
    record { type = WireType.string; name = 84 ∷ [] }
    ∷ record { type = WireType.varbinary; name = 67 ∷ [] }
    ∷ []

-- Partition 0 is at host 12, twice, and partition 1 at host 3.
abbrev places : List Place
places =
    record { partition = pos 0; sites = none; leader = some (49 ∷ 50 ∷ 58 ∷ 48 ∷ []) }
    ∷ record { partition = pos 1; sites = none; leader = some (51 ∷ 58 ∷ 49 ∷ []) }
    ∷ record { partition = pos 0; sites = none; leader = some (52 ∷ 58 ∷ 49 ∷ []) }
    ∷ []

abbrev ring : List Token
ring =
    record { position = negsuc 99; partition = pos 0 }
    ∷ record { position = pos 5; partition = pos 1 }
    ∷ []

abbrev hash_rows : List (List ℕ)
hash_rows = row_bytes (hash_cells elastic ring) ∷ []

places-IsTable : IsTable (negsuc 127) place_columns (place_rows places)
unfolding code of_code to_bytes
places-IsTable = record {
  some_column = omega arith;
  few_columns = omega arith;
  valid_columns = (
    record { named = refl; fits = omega arith; text = omega arith },
    (
      record { named = refl; fits = omega arith; text = omega arith },
      (record { named = refl; fits = omega arith; text = omega arith }, omega arith),
    ),
  );
  valid_rows = (omega arith, (omega arith, (omega arith, omega arith)));
  size = omega arith;
}

hashing-IsTable : IsTable (negsuc 127) hash_columns hash_rows
unfolding code of_code to_bytes
hashing-IsTable = record {
  some_column = omega arith;
  few_columns = omega arith;
  valid_columns = (
    record { named = refl; fits = omega arith; text = omega arith },
    (record { named = refl; fits = omega arith; text = omega arith }, omega arith),
  );
  valid_rows = (omega arith, omega arith);
  size = omega arith;
}

abbrev topology : Table
topology = parsed_table true (negsuc 127) place_columns (place_rows places) places-IsTable

abbrev hashing : Table
hashing = parsed_table true (negsuc 127) hash_columns hash_rows hashing-IsTable

places-AllPlaces : AllPlaces place_columns places
unfolding to_bytes
places-AllPlaces = (
  record {
    typed = (refl, (refl, (refl, omega arith)));
    cells = (omega arith, (omega arith, (omega arith, omega arith)));
    size = omega arith;
  },
  (
    record {
      typed = (refl, (refl, (refl, omega arith)));
      cells = (omega arith, (omega arith, (omega arith, omega arith)));
      size = omega arith;
    },
    (
      record {
        typed = (refl, (refl, (refl, omega arith)));
        cells = (omega arith, (omega arith, (omega arith, omega arith)));
        size = omega arith;
      },
      omega arith,
    ),
  ),
)

answer-IsTopology : IsTopology places elastic ring topology hashing
unfolding to_bytes
answer-IsTopology = record {
  place_columns = place_columns;
  places_fit = places-AllPlaces;
  topology_holds =
      parsed_table-Holds true (negsuc 127) place_columns (place_rows places) places-IsTable;
  hash_columns = hash_columns;
  hash_typed = (refl, (refl, omega arith));
  hash_cells_fit = (omega arith, (omega arith, omega arith));
  hash_size = omega arith;
  hashing_holds = parsed_table-Holds true (negsuc 127) hash_columns hash_rows hashing-IsTable;
  tokens_fit = (omega arith, omega arith, (omega arith, omega arith, omega arith));
}

update_affinity_topology-Updated_example :
    Updated places elastic ring topology hashing Distributer.init
update_affinity_topology-Updated_example =
    update_affinity_topology-Updated places elastic ring topology hashing Distributer.init
      answer-IsTopology
