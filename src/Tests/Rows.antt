-- ===== src/Tests/Rows.antt =====
-- include/Row.hpp and include/TableIterator.h at concrete inputs.
use voltdb_client_cpp.Prelude.{
  ℕ, ◌≡◌, refl, sym, List, [], ◌∷◌, arith, some, none, map, false, append-nil, length-replicate,
  drop, length, ◌+◌, ◌≤◌, ◌^◌,
}
use voltdb_client_cpp.Prelude.Int.{pos, negsuc}
use voltdb_client_cpp.Buffer.Frame.{holding}
use voltdb_client_cpp.Row.{Row}
use voltdb_client_cpp.Row.Cells.{Cell, row_bytes, column_of, type_of, AllCells, Typed, is_null_cell}
use voltdb_client_cpp.Row.Cells.Fetch.{IsRow, Got, fetch, fetch-Got}
use voltdb_client_cpp.Table.{TableIterator}
use voltdb_client_cpp.Table.Rows.{rows_bytes, IsIterator, Iterated, all_rows-Iterated}
use voltdb_client_cpp.Wire.{to_bytes}
use voltdb_client_cpp.RowBuilder
use voltdb_client_cpp.RowBuilder.Build.{AllBuild, Built, add_cells, add_cells-Built}
use voltdb_client_cpp.Buffer.{scoped}
use voltdb_client_cpp.Buffer.Growth.{IsOpen}
use voltdb_client_cpp.Prelude.{true}
use voltdb_client_cpp.Row.ByName.{AllSearched, getters-AllSearched}

abbrev cells : List Cell
cells =
    Cell.string (some (97 ∷ 98 ∷ []))
    ∷ Cell.smallint (negsuc 4)
    ∷ Cell.varbinary none
    ∷ Cell.bigint (pos 1000)
    ∷ []

abbrev row : Row
row = record {
  bytes = holding (row_bytes cells);
  columns = map column_of cells;
  was_null = false;
  offsets = [];
  has_calculated_offsets = false;
}

fits : AllCells cells
fits = (omega arith, (omega arith, (omega arith, (omega arith, omega arith))))

typed : Typed (map column_of cells) cells
typed = (refl, (refl, (refl, (refl, omega arith))))

row-IsRow : IsRow cells row
row-IsRow = record {
  columns = typed;
  values = record { rest = []; bytes = sym (append-nil (row_bytes cells)); inside = omega arith };
  cells = fits;
  known = λ h. cc;
}

fetch-Got_example :
    Got cells
      (fetch (type_of (Cell.bigint (pos 1000))) (pos 3))
      (Cell.bigint (pos 1000))
      (is_null_cell (Cell.bigint (pos 1000)))
      row
fetch-Got_example = fetch-Got cells 3 (Cell.bigint (pos 1000)) row row-IsRow refl (omega arith)

abbrev rows : List (List ℕ)
rows = (1 ∷ 2 ∷ []) ∷ [] ∷ (3 ∷ []) ∷ []

abbrev iterator : TableIterator
iterator = record {
  buffer = holding (rows_bytes rows);
  columns = map column_of cells;
  row_count = pos 3;
  current_row = pos 0;
}

iterator-IsIterator : IsIterator rows iterator
iterator-IsIterator = record {
  bytes = record { rest = []; bytes = sym (append-nil (rows_bytes rows)); inside = omega arith };
  limit = omega arith;
  place = 0;
  current = refl;
  count = refl;
}

all_rows-Iterated_example : Iterated rows iterator
all_rows-Iterated_example =
    all_rows-Iterated rows iterator (omega arith, (omega arith, (omega arith, omega arith)))
      iterator-IsIterator

-- The second column of a row is the first of its name.
abbrev named_row : Row
named_row = record row {
  columns =
      record { name = 97 ∷ []; type = type_of (Cell.string none) }
      ∷ record { name = 98 ∷ []; type = type_of (Cell.smallint (pos 0)) }
      ∷ record { name = 98 ∷ []; type = type_of (Cell.bigint (pos 0)) }
      ∷ [];
}

getters-AllSearched_example : AllSearched (98 ∷ []) (pos 8) true named_row
getters-AllSearched_example = getters-AllSearched (98 ∷ []) (pos 8) true named_row

builder_IsOpen : IsOpen (RowBuilder.init (map column_of cells)).buffer
unfolding RowBuilder.init scoped
builder_IsOpen = record {
  expandable = refl;
  limit = refl;
  storage = length-replicate {A = ℕ} 8192 0;
  position = omega arith;
  capacity = omega arith;
}

builder_columns :
    drop
      (RowBuilder.init (map column_of cells)).current_column
      (RowBuilder.init (map column_of cells)).columns
    ≡ map column_of cells
unfolding RowBuilder.init
builder_columns = refl

builder_room :
    (RowBuilder.init (map column_of cells)).buffer.position + length (row_bytes cells) ≤ 2 ^ 30
unfolding RowBuilder.init scoped to_bytes
builder_room = omega arith

fitting : AllBuild (map column_of cells) cells
fitting = (
  (omega arith, omega arith, refl),
  (
    (omega arith, omega arith, refl),
    ((omega arith, omega arith, refl), ((omega arith, omega arith, refl), omega arith)),
  ),
)

add_cells-Built_example :
    Built 4
      (row_bytes cells)
      (RowBuilder.init (map column_of cells))
      (add_cells cells (RowBuilder.init (map column_of cells)))
add_cells-Built_example =
    add_cells-Built cells (map column_of cells) (RowBuilder.init (map column_of cells))
      builder_columns fitting builder_IsOpen builder_room
