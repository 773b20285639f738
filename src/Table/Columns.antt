-- ===== src/Table/Columns.antt =====
-- The columns and the bytes of a table of a response, apart from the code of src/Table.cpp.
use voltdb_client_cpp.Prelude.{
  ℕ, ◌^◌, ◌≤◌, ◌<◌, ◌≡◌, subst, List, [], ◌∷◌, ◌++◌, map, arith, length,
}
use voltdb_client_cpp.Prelude.Int.{ℤ, pos}
use voltdb_client_cpp.Action.{pure, ◌>>=◌}
use voltdb_client_cpp.Wire.{int_bytes}
use voltdb_client_cpp.Wire.Laws.{Fits}
use voltdb_client_cpp.WireType.{WireType, code, of_code}
use voltdb_client_cpp.Buffer.Put.{IsText, text_bytes}
use voltdb_client_cpp.Buffer.Get.{
  Reads, Reads-bind, Reads-map, Reads-pure, Reads-get_int, Reads-get_string,
}
use voltdb_client_cpp.Row.{Column}
use voltdb_client_cpp.Table.{read_types, read_columns}
use voltdb_client_cpp.Table.Rows.{rows_bytes, AllTexts}

-- The types of the columns, and their names.
abbrev pub types_bytes : List Column → List ℕ
types_bytes [] = []
types_bytes (c ∷ cs) = int_bytes 1 (code c.type) ++ types_bytes cs

abbrev pub names_bytes : List Column → List ℕ
names_bytes [] = []
names_bytes (c ∷ cs) = text_bytes c.name ++ names_bytes cs

-- A column whose type has a code of one byte.
pub record IsColumn (c : Column) : Type 0 where
  pub named : of_code (code c.type) ≡ c.type
  pub fits : Fits 1 (code c.type)
  pub text : IsText c.name

abbrev pub AllColumns : List Column → Type 0
AllColumns [] = 0 ≤ 0
AllColumns (c ∷ cs) = IsColumn c × AllColumns cs

abbrev pub type_of : Column → WireType
type_of c = c.type

pub Reads-read_types :
    (cs : List Column)
    → AllColumns cs
    → Reads (read_types (length cs)) (types_bytes cs) (map type_of cs)
unfolding read_types
Reads-read_types [] a = Reads-pure []
Reads-read_types (c ∷ cs) a = Reads-bind _ (Reads-get_int 1 (code c.type) (omega arith) a.0.fits) (
    subst
      (λ t.
        Reads (read_types (length cs) >>= λ rest. pure (of_code (code c.type) ∷ rest))
          (types_bytes cs) (t ∷ map type_of cs))
      a.0.named (Reads-map (Reads-read_types cs a.1) (λ rest. of_code (code c.type) ∷ rest)))

pub Reads-read_columns :
    (cs : List Column) → AllColumns cs → Reads (read_columns (map type_of cs)) (names_bytes cs) cs
unfolding read_columns
Reads-read_columns [] a = Reads-pure []
Reads-read_columns (c ∷ cs) a =
    Reads-bind _ (Reads-get_string c.name a.0.text)
      (Reads-map (Reads-read_columns cs a.1) (λ rest. c ∷ rest))

-- What stands behind the status: the count of the columns, their types and their names.
abbrev pub header_bytes : List Column → List ℕ
header_bytes cols = int_bytes 2 (pos (length cols)) ++ (types_bytes cols ++ names_bytes cols)

abbrev pub meta_bytes : ℤ → List Column → List ℕ
meta_bytes status cols = int_bytes 1 status ++ header_bytes cols

-- A table: the metadata behind its length, the count of the rows and the rows.
abbrev pub table_bytes : ℤ → List Column → List (List ℕ) → List ℕ
table_bytes status cols rows =
    int_bytes 4 (pos (length (meta_bytes status cols)))
    ++ (meta_bytes status cols ++ (int_bytes 4 (pos (length rows)) ++ rows_bytes rows))

pub record IsTable (status : ℤ) (cols : List Column) (rows : List (List ℕ)) : Type 0 where
  pub some_column : 0 < length cols
  pub few_columns : length cols < 2 ^ 15
  pub valid_columns : AllColumns cols
  pub valid_rows : AllTexts rows
  pub size : length (table_bytes status cols rows) < 2 ^ 31
