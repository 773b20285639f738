-- ===== src/Row/Cells.antt =====
-- The values of a row of include/Row.hpp on the wire, apart from the code, and how the code finds and
-- reads each.
pub mod Offsets
pub mod Reads
pub mod Fetch
pub mod Getters
use voltdb_client_cpp.Prelude.{
  ℕ, zero, suc, ◌+◌, ◌^◌, ◌≤◌, ◌<◌, ◌≡◌, refl, ap, ◌∙◌, sym, Bool, true, false, Option, none, some,
  List, [], ◌∷◌, ◌++◌, map, arith, length, length-append,
}
use voltdb_client_cpp.Prelude.Int.{ℤ, pos, negsuc}
use voltdb_client_cpp.Action.{Action, done, ◌>>=◌, pure, >>=_done}
use voltdb_client_cpp.Wire.{int_bytes, to_bytes, to_word}
use voltdb_client_cpp.Wire.Laws.{Fits, length-to_bytes}
use voltdb_client_cpp.WireType.{WireType}
use voltdb_client_cpp.Decimal.{Decimal, decimal_bytes, IsWords, is_null}
use voltdb_client_cpp.Buffer.{ByteBuffer, get_int_at}
use voltdb_client_cpp.Buffer.Put.{IsText, text_bytes}
use voltdb_client_cpp.Buffer.At.{ReadsAt, Stands, Stands-left, ReadsAt-get_int_at, counted_at}
use voltdb_client_cpp.Row.{Column, width, text_width, is_least, is_null_double, is_none}

pub data Cell : Type 0 where
  tinyint smallint integer bigint timestamp : ℤ → Cell
  float : ℕ → Cell
  decimal : Decimal → Cell
  string varbinary : Option (List ℕ) → Cell

abbrev pub type_of : Cell → WireType
type_of (tinyint z) = WireType.tinyint
type_of (smallint z) = WireType.smallint
type_of (integer z) = WireType.integer
type_of (bigint z) = WireType.bigint
type_of (timestamp z) = WireType.timestamp
type_of (float w) = WireType.float
type_of (decimal d) = WireType.decimal
type_of (string s) = WireType.string
type_of (varbinary s) = WireType.varbinary

-- A text behind its length, or the length -1.
abbrev pub nullable_bytes : Option (List ℕ) → List ℕ
nullable_bytes none = int_bytes 4 (negsuc 0)
nullable_bytes (some s) = text_bytes s

abbrev pub cell_bytes : Cell → List ℕ
cell_bytes (tinyint z) = int_bytes 1 z
cell_bytes (smallint z) = int_bytes 2 z
cell_bytes (integer z) = int_bytes 4 z
cell_bytes (bigint z) = int_bytes 8 z
cell_bytes (timestamp z) = int_bytes 8 z
cell_bytes (float w) = to_bytes 8 w
cell_bytes (decimal d) = decimal_bytes d
cell_bytes (string s) = nullable_bytes s
cell_bytes (varbinary s) = nullable_bytes s

abbrev pub IsNullableText : Option (List ℕ) → Type 0
IsNullableText none = 0 ≤ 0
IsNullableText (some s) = IsText s

-- The value fits the type of the column.
abbrev pub IsCell : Cell → Type 0
IsCell (tinyint z) = Fits 1 z
IsCell (smallint z) = Fits 2 z
IsCell (integer z) = Fits 4 z
IsCell (bigint z) = Fits 8 z
IsCell (timestamp z) = Fits 8 z
IsCell (float w) = w < 256 ^ 8
IsCell (decimal d) = IsWords d
IsCell (string s) = IsNullableText s
IsCell (varbinary s) = IsNullableText s

-- What stands for SQL null in each type.
abbrev pub is_null_cell : Cell → Bool
is_null_cell (tinyint z) = is_least 1 z
is_null_cell (smallint z) = is_least 2 z
is_null_cell (integer z) = is_least 4 z
is_null_cell (bigint z) = is_least 8 z
is_null_cell (timestamp z) = is_least 8 z
is_null_cell (float w) = is_null_double w
is_null_cell (decimal d) = is_null d
is_null_cell (string s) = is_none s
is_null_cell (varbinary s) = is_none s

abbrev pub row_bytes : List Cell → List ℕ
row_bytes [] = []
row_bytes (c ∷ cs) = cell_bytes c ++ row_bytes cs

abbrev pub AllCells : List Cell → Type 0
AllCells [] = 0 ≤ 0
AllCells (c ∷ cs) = IsCell c × AllCells cs

-- Columns of the types of the values, whatever their names.
abbrev pub Typed : List Column → List Cell → Type 0
Typed [] [] = 0 ≤ 0
Typed [] (c ∷ cs) = 1 ≤ 0
Typed (x ∷ xs) [] = 1 ≤ 0
Typed (x ∷ xs) (c ∷ cs) = (x.type ≡ type_of c) × Typed xs cs

abbrev pub column_of : Cell → Column
column_of c = record { name = []; type = type_of c }

fixed_width :
    (bs : List ℕ) (n : ℕ) → length bs ≡ n → ReadsAt (λ i. pure (pos n)) bs (pos (length bs))
fixed_width bs n e = record { reads = λ i b s. ap (λ k. done (pos k) b) (sym e) }

width-nullable :
    (s : Option (List ℕ))
    → IsNullableText s
    → ReadsAt
        (λ i. get_int_at 4 i >>= text_width)
        (nullable_bytes s)
        (pos (length (nullable_bytes s)))
width-nullable none h = record {
  reads = λ i b s. rw (length-to_bytes 4 (to_word 4 (negsuc 0))) (
      >>=_done (get_int_at 4 (pos i)) text_width
        ((ReadsAt-get_int_at 4 (negsuc 0) (omega arith) (omega arith)).reads i b s));
}
width-nullable (some t) h = record {
  reads = λ i b s.
      >>=_done (get_int_at 4 (pos i)) text_width
        ((counted_at t h).reads i b (Stands-left (to_bytes 4 (length t)) t i b s))
      ∙ ap (λ k. done (pos k) b)
          (omega (arith, length-append (to_bytes 4 (length t)) t, length-to_bytes 4 (length t)));
}

-- Each value is as wide as the code takes it to be.
pub width-cell :
    (c : Cell) → IsCell c → ReadsAt (width (type_of c)) (cell_bytes c) (pos (length (cell_bytes c)))
unfolding width
width-cell (tinyint z) h = fixed_width (int_bytes 1 z) 1 (length-to_bytes 1 (to_word 1 z))
width-cell (smallint z) h = fixed_width (int_bytes 2 z) 2 (length-to_bytes 2 (to_word 2 z))
width-cell (integer z) h = fixed_width (int_bytes 4 z) 4 (length-to_bytes 4 (to_word 4 z))
width-cell (bigint z) h = fixed_width (int_bytes 8 z) 8 (length-to_bytes 8 (to_word 8 z))
width-cell (timestamp z) h = fixed_width (int_bytes 8 z) 8 (length-to_bytes 8 (to_word 8 z))
width-cell (float w) h = fixed_width (to_bytes 8 w) 8 (length-to_bytes 8 w)
width-cell (decimal d) h = fixed_width (decimal_bytes d) 16 (
    omega (
      arith,
      length-append (to_bytes 8 d.high) (to_bytes 8 d.low),
      length-to_bytes 8 d.high,
      length-to_bytes 8 d.low,
    ))
width-cell (string s) h = width-nullable s h
width-cell (varbinary s) h = width-nullable s h
