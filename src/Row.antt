-- ===== src/Row.antt =====
-- include/Row.hpp and include/Column.hpp: a row of a table, its columns found by their offsets.
pub mod Cells
pub mod ByName
use voltdb_client_cpp.Prelude.{
  ℕ, zero, suc, ◌+◌, ◌-◌, ◌*◌, ◌^◌, ◌/◌, Bool, true, false, ◌&&◌, ◌||◌, not, Option, none, some,
  List, [], ◌∷◌, ltb, leb, if◌then◌else◌, get_elem?, take, drop,
}
use voltdb_client_cpp.Prelude.Int.{ℤ, pos, negsuc, ◌+ℤ◌, eqb_ℤ}
use voltdb_client_cpp.Action.{
  Action, Outcome, done, fail, pure, throw, gets, modify, ◌>>=◌, ◌>>◌, invalid_column, undefined,
}
use voltdb_client_cpp.Wire.{from_bytes}
use voltdb_client_cpp.WireType.{
  WireType, tinyint, smallint, integer, bigint, float, string, timestamp, decimal, varbinary,
  eqb_type,
}
use voltdb_client_cpp.Decimal.{Decimal, is_null}
use voltdb_client_cpp.Buffer.{
  ByteBuffer, Void, BytesOut, get_at, get_int_at, get_word_at, get_string_at, get_bytes_at,
  eqb_bytes,
}

pub record Column : Type 0 where
  pub name : List ℕ
  pub type : WireType

pub record Row : Type 0 where
  pub bytes : ByteBuffer
  pub columns : List Column
  pub was_null : Bool
  pub offsets : List ℤ
  pub has_calculated_offsets : Bool

unfoldable pub init : ByteBuffer → List Column → Row
init bytes columns = record {
  bytes = bytes;
  columns = columns;
  was_null = false;
  offsets = [];
  has_calculated_offsets = false;
}

-- A method of `m_data`.
abbrev pub with_data : {A : Type 0} → Outcome ByteBuffer A → Row → Outcome Row A
with_data (done a b) r = done a (record r { bytes = b })
with_data (fail e b) r = fail e (record r { bytes = b })

abbrev pub on_data : {A : Type 0} → Action ByteBuffer A → Action Row A
on_data m r = with_data (m r.bytes) r

-- The types that a column's value can be asked for as; `none` is the failed assert.
unfoldable pub accepts : WireType → WireType → Option Bool
accepts decimal t = some (eqb_type t decimal)
accepts timestamp t = some (eqb_type t timestamp)
accepts bigint t = some (eqb_type t bigint)
accepts integer t = some (eqb_type t bigint || eqb_type t integer)
accepts smallint t = some (eqb_type t bigint || eqb_type t integer || eqb_type t smallint)
accepts tinyint t =
    some (eqb_type t bigint || eqb_type t integer || eqb_type t smallint || eqb_type t tinyint)
accepts float t = some (eqb_type t float)
accepts string t = some (eqb_type t string)
accepts varbinary t = some (eqb_type t varbinary)
accepts _ t = none

abbrev pub accepted : WireType → Option Bool → Action Row WireType
accepted c none = throw undefined
accepted c (some false) = throw invalid_column
accepted c (some true) = pure c

abbrev pub check_column : WireType → Option Column → Action Row WireType
check_column t none = throw invalid_column
check_column t (some c) = accepted c.type (accepts c.type t)

abbrev pub column_at : ℤ → List Column → Option Column
column_at (negsuc i) cs = none
column_at (pos i) cs = get_elem? cs i

-- `validateType(type, index)` returns the type of the column.
unfoldable pub validate_type : WireType → ℤ → Action Row WireType
validate_type t index r = check_column t (column_at index r.columns) r

-- The bytes of a string or of a varbinary, from its length prefix: -1 is null, and any other
-- negative length fails the assert.
abbrev pub text_width : ℤ → Action ByteBuffer ℤ
text_width (pos n) = pure (pos (n + 4))
text_width (negsuc zero) = pure (pos 4)
text_width (negsuc (suc n)) = throw undefined

-- How many bytes the value of a column has that stands at `offset`.
unfoldable pub width : WireType → ℤ → Action ByteBuffer ℤ
width string offset = get_int_at 4 offset >>= text_width
width varbinary offset = get_int_at 4 offset >>= text_width
width decimal offset = pure (pos 16)
width timestamp offset = pure (pos 8)
width bigint offset = pure (pos 8)
width float offset = pure (pos 8)
width integer offset = pure (pos 4)
width smallint offset = pure (pos 2)
width tinyint offset = pure (pos 1)
width _ offset = throw undefined

-- The loop of `ensureCalculatedOffsets`: the value in front of each column is measured.
unfoldable pub offsets_from : ℤ → List Column → Action ByteBuffer (List ℤ)
offsets_from offset [] = throw undefined
offsets_from offset (c ∷ []) = pure (offset ∷ [])
offsets_from offset (c ∷ d ∷ cs) = do
  n ← width c.type offset
  rest ← offsets_from (offset +ℤ n) (d ∷ cs)
  pure (offset ∷ rest)

abbrev keep_offsets : List ℤ → Action Row Void
keep_offsets os = modify (λ r. record r { offsets = os; has_calculated_offsets = true })

unfoldable pub ensure_calculated_offsets : Action Row Void
ensure_calculated_offsets r =
    if r.has_calculated_offsets
    then done tt r
    else (on_data (offsets_from (pos r.bytes.position) r.columns) >>= keep_offsets) r

abbrev pub offset_at : ℤ → List ℤ → Action Row ℤ
offset_at (negsuc i) os = throw undefined
offset_at (pos i) os = elim (get_elem? os i) [ none ↦ throw undefined | some o ↦ pure o ]

unfoldable pub get_offset : ℤ → Action Row ℤ
get_offset index = do
  modify (λ r. record r { was_null = false })
  ensure_calculated_offsets
  os ← gets (λ r. r.offsets)
  offset_at index os

-- The shape of the getters: the value at the column's offset, and whether it stands for null.
unfoldable pub read_value : {A : Type 0} → (ℤ → Action ByteBuffer A) → (A → Bool) → ℤ → Action Row A
read_value m null column = do
  offset ← get_offset column
  v ← on_data (m offset)
  modify (λ r. record r { was_null = null v })
  pure v

-- INT8_MIN to INT64_MIN.
abbrev pub least : ℕ → ℤ
least n = negsuc (256 ^ n / 2 - 1)

abbrev pub is_least : ℕ → ℤ → Bool
is_least n z = eqb_ℤ z (least n)

-- The bytes of an integer column.
abbrev pub int_size : WireType → Option ℕ
int_size bigint = some 8
int_size integer = some 4
int_size smallint = some 2
int_size tinyint = some 1
int_size _ = none

abbrev pub read_int : Option ℕ → ℤ → Action Row ℤ
read_int none column = throw undefined
read_int (some n) column = read_value (get_int_at n) (is_least n) column

-- `getInt64` to `getInt8`, by the type asked for: the width is that of the column.
unfoldable pub get_integer : WireType → ℤ → Action Row ℤ
get_integer t column = validate_type t column >>= λ c. read_int (int_size c) column

unfoldable pub get_int64 : ℤ → Action Row ℤ
get_int64 = get_integer bigint

unfoldable pub get_int32 : ℤ → Action Row ℤ
get_int32 = get_integer integer

unfoldable pub get_int16 : ℤ → Action Row ℤ
get_int16 = get_integer smallint

unfoldable pub get_int8 : ℤ → Action Row ℤ
get_int8 = get_integer tinyint

unfoldable pub get_timestamp : ℤ → Action Row ℤ
get_timestamp column =
    validate_type timestamp column >>= λ _. read_value (get_int_at 8) (is_least 8) column

-- `retval <= -1.7E+308` on the pattern of a double: at least as far below zero, infinity included
-- and what is no number left out.
abbrev pub is_null_double : ℕ → Bool
is_null_double w = leb (2 ^ 63 + 9218378953502702454) w && leb w (2 ^ 63 + 2047 * 2 ^ 52)

unfoldable pub get_double : ℤ → Action Row ℕ
get_double column =
    validate_type float column >>= λ _. read_value (get_word_at 8) is_null_double column

abbrev pub to_decimal : List ℕ → Decimal
to_decimal bs = record { high = from_bytes (take 8 bs); low = from_bytes (drop 8 bs) }

abbrev pub get_decimal_at : ℤ → Action ByteBuffer Decimal
get_decimal_at offset = get_at offset (pos 16) >>= λ bs. pure (to_decimal bs)

unfoldable pub get_decimal : ℤ → Action Row Decimal
get_decimal column = validate_type decimal column >>= λ _. read_value get_decimal_at is_null column

abbrev pub is_none : Option (List ℕ) → Bool
is_none none = true
is_none (some s) = false

-- `getString`: `none` where the code returns the empty string and sets `m_wasNull`.
unfoldable pub get_string : ℤ → Action Row (Option (List ℕ))
get_string column = validate_type string column >>= λ _. read_value get_string_at is_none column

unfoldable pub get_varbinary : ℤ → ℤ → Bool → Action Row BytesOut
get_varbinary column bufsize has_out = validate_type varbinary column >>= λ _.
    read_value (λ o. get_bytes_at o bufsize has_out) (λ v. v.was_null) column

abbrev void : {A : Type 0} → Action Row A → Action Row Void
void m = m >>= λ _. pure tt

-- The switch of `isNull`.
abbrev pub get_any : WireType → ℤ → Action Row Void
get_any decimal column = void (get_decimal column)
get_any timestamp column = void (get_timestamp column)
get_any bigint column = void (get_int64 column)
get_any integer column = void (get_int32 column)
get_any smallint column = void (get_int64 column)
get_any tinyint column = void (get_int8 column)
get_any float column = void (get_double column)
get_any string column = void (get_string column)
get_any varbinary column = void (get_varbinary column (pos 0) false)
get_any _ column = throw undefined

abbrev null_of : Option Column → ℤ → Action Row Bool
null_of none column = throw invalid_column
null_of (some c) column = get_any c.type column >> gets (λ r. r.was_null)

unfoldable pub is_null_at : ℤ → Action Row Bool
is_null_at column r = null_of (column_at column r.columns) column r

-- `getColumnIndexByName`: the first column of that name.
unfoldable pub index_of : List ℕ → List Column → ℕ → Option ℕ
index_of name [] i = none
index_of name (c ∷ cs) i =
    let rest = index_of name cs (i + 1) in if eqb_bytes c.name name then some i else rest

unfoldable pub get_column_index_by_name : List ℕ → Action Row ℤ
get_column_index_by_name name r = elim (index_of name r.columns 0) [
  | none ↦ fail invalid_column r
  | some i ↦ done (pos i) r
]
