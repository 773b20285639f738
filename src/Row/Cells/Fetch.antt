-- ===== src/Row/Cells/Fetch.antt =====
-- The getters of include/Row.hpp, each on a column of its type.
use voltdb_client_cpp.Prelude.{
  some_inj, ℕ, zero, suc, ◌≡◌, refl, ap, ◌∙◌, inl, inr, Bool, true, false, none, some, List, [],
  ◌∷◌, arith, get_elem?, Bool-cases, if◌then◌else◌,
}
use voltdb_client_cpp.Prelude.Int.{ℤ, pos}
use voltdb_client_cpp.Action.{Action, done, ◌>>=◌, pure, throw, undefined, >>=_done, >>_done, gets}
use voltdb_client_cpp.WireType.{WireType, eqb_type, code}
use voltdb_client_cpp.Decimal.{is_null}
use voltdb_client_cpp.Buffer.{
  ByteBuffer, BytesOut, get_int_at, get_word_at, get_string_at, get_bytes_at,
}
use voltdb_client_cpp.Buffer.At.{ReadsAt, Stands, ReadsAt-get_int_at, ReadsAt-get_word_at}
use voltdb_client_cpp.Row.{
  Column, Row, accepts, validate_type, ensure_calculated_offsets, offset_at, get_offset, read_value,
  is_least, is_none, is_null_double, get_decimal_at, get_integer, read_int, int_size, get_int64,
  get_int32, get_int16, get_int8, get_timestamp, get_double, get_decimal, get_string, get_varbinary,
}
use voltdb_client_cpp.Row.Cells.{
  Cell, tinyint, smallint, integer, bigint, timestamp, float, decimal, string, varbinary, row_bytes,
  cell_bytes, type_of, AllCells, IsCell, Typed, is_null_cell,
}
use voltdb_client_cpp.Row.Cells.Offsets.{starts, offsets_from-starts, Stands-cell}
use voltdb_client_cpp.Row.Cells.Reads.{
  bufsize, bytes_out, ReadsAt-decimal, ReadsAt-nullable, ReadsAt-get_bytes_at,
}

-- A row that holds values of the types of its columns, whether or not it has been read from.
pub record IsRow (cs : List Cell) (r : Row) : Type 0 where
  pub columns : Typed r.columns cs
  pub values : Stands (row_bytes cs) r.bytes.position r.bytes
  pub cells : AllCells cs
  pub known : r.has_calculated_offsets ≡ true → r.offsets ≡ starts r.bytes.position cs

column-Typed :
    (cs : List Cell) (xs : List Column) (k : ℕ) (c : Cell)
    → Typed xs cs
    → get_elem? cs k ≡ some c
    → (x : Column) × (get_elem? xs k ≡ some x) × (x.type ≡ type_of c)
column-Typed [] xs k c t e = cc
column-Typed (d ∷ cs) [] k c t e = elim t [ ]
column-Typed (d ∷ cs) (x ∷ xs) zero c t e = (x, refl, t.0 ∙ ap type_of (some_inj e))
column-Typed (d ∷ cs) (x ∷ xs) (suc k) c t e = column-Typed cs xs k c t.1 e

accepts-own : (c : Cell) → accepts (type_of c) (type_of c) ≡ some true
unfolding accepts eqb_type code
accepts-own (tinyint x) = refl
accepts-own (smallint x) = refl
accepts-own (integer x) = refl
accepts-own (bigint x) = refl
accepts-own (timestamp x) = refl
accepts-own (float x) = refl
accepts-own (decimal x) = refl
accepts-own (string x) = refl
accepts-own (varbinary x) = refl

validate_type-own :
    (cs : List Cell) (k : ℕ) (c : Cell) (r : Row)
    → IsRow cs r
    → get_elem? cs k ≡ some c
    → validate_type (type_of c) (pos k) r ≡ done (type_of c) r
unfolding validate_type
validate_type-own cs k c r v e =
    let (x, g, t) = column-Typed cs r.columns k c v.columns e in rw (g, t, accepts-own c) refl

-- The offset of a value, and the row once it has its offsets.
record Located (cs : List Cell) (k : ℕ) (c : Cell) (r : Row) : Type 0 where
  offset : ℕ
  row : Row
  result : get_offset (pos k) r ≡ done (pos offset) row
  is_row : IsRow cs row
  stands : Stands (cell_bytes c) offset row.bytes

ready :
    (cs : List Cell) (r : Row)
    → IsRow cs r
    → IsRow cs (record r {
      was_null = false;
      offsets = starts r.bytes.position cs;
      has_calculated_offsets = true;
    })
ready cs r v = record { columns = v.columns; values = v.values; cells = v.cells; known = λ _. refl }

ensure-ready :
    (cs : List Cell) (k : ℕ) (c : Cell) (r : Row)
    → IsRow cs r
    → get_elem? cs k ≡ some c
    → ensure_calculated_offsets (record r { was_null = false })
      ≡ done tt (record r {
        was_null = false;
        offsets = starts r.bytes.position cs;
        has_calculated_offsets = true;
      })
unfolding ensure_calculated_offsets
ensure-ready [] k c r v e = cc
ensure-ready (d ∷ cs) k c r v e = elim (Bool-cases r.has_calculated_offsets) [
  | inl h ↦ rw h (
      ap
        (λ os. done tt (record r { was_null = false; offsets = os; has_calculated_offsets = true }))
        (v.known h))
  | inr h ↦
      rw (h, offsets_from-starts r.bytes.position d cs r.columns r.bytes v.values v.cells v.columns)
        refl
]

locate :
    (cs : List Cell) (k : ℕ) (c : Cell) (r : Row)
    → IsRow cs r
    → get_elem? cs k ≡ some c
    → Located cs k c r
unfolding get_offset
locate cs k c r v e =
    let (o, g, s) = Stands-cell r.bytes.position k cs c r.bytes v.values e in
    record {
      offset = o;
      row = record r {
        was_null = false;
        offsets = starts r.bytes.position cs;
        has_calculated_offsets = true;
      };
      result =
          >>_done ensure_calculated_offsets (gets (λ x. x.offsets) >>= λ os. offset_at (pos k) os)
            (ensure-ready cs k c r v e)
          ∙ rw (offset_at, g) refl;
      is_row = ready cs r v;
      stands = s;
    }

-- A value was read: the row is as before but for its offsets, and knows whether it was null.
pub record Got {A : Type 0} (cs : List Cell) (m : Action Row A) (a : A) (null : Bool) (r : Row)
    : Type 0 where
  pub row : Row
  pub result : m r ≡ done a row
  pub is_row : IsRow cs row
  pub was_null : row.was_null ≡ null

pub read_value-Got :
    {A : Type 0} (cs : List Cell) (k : ℕ) (c : Cell) (r : Row) (m : ℤ → Action ByteBuffer A)
    (null : A → Bool) (a : A)
    → IsRow cs r
    → get_elem? cs k ≡ some c
    → ReadsAt m (cell_bytes c) a
    → Got cs (read_value m null (pos k)) a (null a) r
unfolding read_value
read_value-Got cs k c r m null a v e h =
    let l = locate cs k c r v e in
    record {
      row = record l.row { was_null = null a };
      result = rw (l.result, h.reads l.offset l.row.bytes l.stands) refl;
      is_row = record {
        columns = l.is_row.columns;
        values = l.is_row.values;
        cells = l.is_row.cells;
        known = l.is_row.known;
      };
      was_null = refl;
    }

pub checked-Got :
    {A : Type 0} (cs : List Cell) (k : ℕ) (c : Cell) (r : Row) (f : WireType → Action Row A) (a : A)
    (null : Bool)
    → IsRow cs r
    → get_elem? cs k ≡ some c
    → Got cs (f (type_of c)) a null r
    → Got cs (validate_type (type_of c) (pos k) >>= f) a null r
checked-Got cs k c r f a null v e g = record {
  row = g.row;
  result =
      >>=_done (validate_type (type_of c) (pos k)) f (validate_type-own cs k c r v e) ∙ g.result;
  is_row = g.is_row;
  was_null = g.was_null;
}

-- The value of a column as the getter of its type gives it; `toString` chooses the getters so.
abbrev to_cell : BytesOut → Cell
to_cell v = if v.was_null then varbinary none else varbinary (some v.out_value)

unfoldable pub fetch : WireType → ℤ → Action Row Cell
fetch WireType.tinyint i = get_int8 i >>= λ z. pure (tinyint z)
fetch WireType.smallint i = get_int16 i >>= λ z. pure (smallint z)
fetch WireType.integer i = get_int32 i >>= λ z. pure (integer z)
fetch WireType.bigint i = get_int64 i >>= λ z. pure (bigint z)
fetch WireType.timestamp i = get_timestamp i >>= λ z. pure (timestamp z)
fetch WireType.float i = get_double i >>= λ w. pure (float w)
fetch WireType.decimal i = get_decimal i >>= λ d. pure (decimal d)
fetch WireType.string i = get_string i >>= λ s. pure (string s)
fetch WireType.varbinary i = get_varbinary i bufsize true >>= λ v. pure (to_cell v)
fetch _ i = throw undefined

map-Got :
    {A B : Type 0} (cs : List Cell) (r : Row) (m : Action Row A) (f : A → B) (a : A) (null : Bool)
    → Got cs m a null r
    → Got cs (m >>= λ x. pure (f x)) (f a) null r
map-Got cs r m f a null g = record {
  row = g.row;
  result = >>=_done m (λ x. pure (f x)) g.result;
  is_row = g.is_row;
  was_null = g.was_null;
}

-- From a row that holds values that fit the types of its columns, whatever was read from it before,
-- the getter of a column's type gives the value of the column and tells whether it is null, and leaves
-- a row of the same values.
pub fetch-Got :
    (cs : List Cell) (k : ℕ) (c : Cell) (r : Row)
    → IsRow cs r
    → get_elem? cs k ≡ some c
    → IsCell c
    → Got cs (fetch (type_of c) (pos k)) c (is_null_cell c) r
unfolding fetch get_int8 get_int16 get_int32 get_int64 get_integer get_timestamp get_double
    get_decimal get_string get_varbinary
fetch-Got cs k (tinyint z) r v e h = map-Got cs r (get_int8 (pos k)) tinyint z (is_least 1 z) (
    checked-Got cs k (tinyint z) r (λ x. read_int (int_size x) (pos k)) z (is_least 1 z) v e
      (read_value-Got cs k (tinyint z) r (get_int_at 1) (is_least 1) z v e
        (ReadsAt-get_int_at 1 z (omega arith) h)))
fetch-Got cs k (smallint z) r v e h = map-Got cs r (get_int16 (pos k)) smallint z (is_least 2 z) (
    checked-Got cs k (smallint z) r (λ x. read_int (int_size x) (pos k)) z (is_least 2 z) v e
      (read_value-Got cs k (smallint z) r (get_int_at 2) (is_least 2) z v e
        (ReadsAt-get_int_at 2 z (omega arith) h)))
fetch-Got cs k (integer z) r v e h = map-Got cs r (get_int32 (pos k)) integer z (is_least 4 z) (
    checked-Got cs k (integer z) r (λ x. read_int (int_size x) (pos k)) z (is_least 4 z) v e
      (read_value-Got cs k (integer z) r (get_int_at 4) (is_least 4) z v e
        (ReadsAt-get_int_at 4 z (omega arith) h)))
fetch-Got cs k (bigint z) r v e h = map-Got cs r (get_int64 (pos k)) bigint z (is_least 8 z) (
    checked-Got cs k (bigint z) r (λ x. read_int (int_size x) (pos k)) z (is_least 8 z) v e
      (read_value-Got cs k (bigint z) r (get_int_at 8) (is_least 8) z v e
        (ReadsAt-get_int_at 8 z (omega arith) h)))
fetch-Got cs k (timestamp z) r v e h =
    map-Got cs r (get_timestamp (pos k)) timestamp z (is_least 8 z) (
      checked-Got cs k (timestamp z) r (λ _. read_value (get_int_at 8) (is_least 8) (pos k)) z
        (is_least 8 z) v e
        (read_value-Got cs k (timestamp z) r (get_int_at 8) (is_least 8) z v e
          (ReadsAt-get_int_at 8 z (omega arith) h)))
fetch-Got cs k (float w) r v e h = map-Got cs r (get_double (pos k)) float w (is_null_double w) (
    checked-Got cs k (float w) r (λ _. read_value (get_word_at 8) is_null_double (pos k)) w
      (is_null_double w) v e
      (read_value-Got cs k (float w) r (get_word_at 8) is_null_double w v e
        (ReadsAt-get_word_at 8 w h)))
fetch-Got cs k (decimal d) r v e h = map-Got cs r (get_decimal (pos k)) decimal d (is_null d) (
    checked-Got cs k (decimal d) r (λ _. read_value get_decimal_at is_null (pos k)) d (is_null d) v
      e (read_value-Got cs k (decimal d) r get_decimal_at is_null d v e (ReadsAt-decimal d h)))
fetch-Got cs k (string s) r v e h = map-Got cs r (get_string (pos k)) string s (is_none s) (
    checked-Got cs k (string s) r (λ _. read_value get_string_at is_none (pos k)) s (is_none s) v e
      (read_value-Got cs k (string s) r get_string_at is_none s v e (ReadsAt-nullable s h)))
fetch-Got cs k (varbinary none) r v e h =
    map-Got cs r (get_varbinary (pos k) bufsize true) to_cell (bytes_out none) true (
      checked-Got cs k (varbinary none) r
        (λ _. read_value (λ i. get_bytes_at i bufsize true) (λ x. x.was_null) (pos k))
        (bytes_out none) true v e
        (read_value-Got cs k (varbinary none) r (λ i. get_bytes_at i bufsize true) (λ x. x.was_null)
          (bytes_out none) v e (ReadsAt-get_bytes_at none h)))
fetch-Got cs k (varbinary (some s)) r v e h =
    map-Got cs r (get_varbinary (pos k) bufsize true) to_cell (bytes_out (some s)) false (
      checked-Got cs k (varbinary (some s)) r
        (λ _. read_value (λ i. get_bytes_at i bufsize true) (λ x. x.was_null) (pos k))
        (bytes_out (some s)) false v e
        (read_value-Got cs k (varbinary (some s)) r (λ i. get_bytes_at i bufsize true)
          (λ x. x.was_null) (bytes_out (some s)) v e (ReadsAt-get_bytes_at (some s) h)))
