-- ===== src/Table.antt =====
-- src/Table.cpp, include/Table.h and include/TableIterator.h: a table of a response and the iteration
-- over its rows.
pub mod Rows
pub mod Columns
pub mod Parse
use voltdb_client_cpp.Prelude.{
  ℕ, zero, suc, ◌+◌, Bool, true, false, not, Option, none, some, List, [], ◌∷◌, if◌then◌else◌,
  length,
}
use voltdb_client_cpp.Prelude.Int.{ℤ, pos, negsuc, ◌+ℤ◌, eqb_ℤ, ltb_ℤ}
use voltdb_client_cpp.Action.{
  Action, Outcome, done, fail, pure, throw, gets, modify, throw_if, ◌>>=◌, ◌>>◌, undefined,
  no_more_rows,
}
use voltdb_client_cpp.WireType.{WireType, of_code}
use voltdb_client_cpp.Buffer.{
  ByteBuffer, Void, set_position, set_limit, get_int, get_int_at, get_string, slice, has_remaining,
  ne_buffer,
}
use voltdb_client_cpp.Row.{Column, Row}
use voltdb_client_cpp.Row

pub record Table : Type 0 where
  pub buffer : ByteBuffer
  pub columns : List Column
  pub row_start : ℤ
  pub row_count : ℤ

unfoldable pub read_types : ℕ → Action ByteBuffer (List WireType)
read_types zero = pure []
read_types (suc n) = do t ← get_int 1; rest ← read_types n; pure (of_code t ∷ rest)

abbrev pub to_column : WireType → Option (List ℕ) → Action ByteBuffer Column
to_column t none = throw undefined
to_column t (some name) = pure (record { name = name; type = t })

unfoldable pub read_columns : List WireType → Action ByteBuffer (List Column)
read_columns [] = pure []
read_columns (t ∷ ts) = do
  name ← get_string
  c ← to_column t name
  rest ← read_columns ts
  pure (c ∷ rest)

-- The count of the columns is asserted to be positive; a negative one, cast to a `size_t`, asks for
-- more memory than there is.
abbrev pub column_count : ℤ → Action ByteBuffer ℕ
column_count (pos (suc n)) = pure (suc n)
column_count _ = throw undefined

abbrev pub to_table : List Column → ℤ → ℤ → ByteBuffer → Table
to_table columns start count b = record {
  buffer = record b { position = b.limit };
  columns = columns;
  row_start = start;
  row_count = count;
}

-- `Table(SharedByteBuffer)`. `buffer` and `m_buffer` share their bytes and their limit; the position
-- is that of `buffer` until the end, where `m_buffer` is put at its limit.
unfoldable pub read_table : Action ByteBuffer Table
read_table = do
  set_position (pos 5)
  count ← get_int 2
  n ← column_count count
  types ← read_types n
  columns ← read_columns types
  size ← get_int_at 4 (pos 0)
  rows ← get_int_at 4 (size +ℤ pos 4)
  gets (to_table columns (size +ℤ pos 4) rows)

abbrev with_buffer : {A : Type 0} → Outcome ByteBuffer A → Table → Outcome Table A
with_buffer (done a b) t = done a (record t { buffer = b })
with_buffer (fail e b) t = fail e (record t { buffer = b })

abbrev pub on_buffer : {A : Type 0} → Action ByteBuffer A → Action Table A
on_buffer m t = with_buffer (m t.buffer) t

unfoldable pub get_status_code : Action Table ℤ
get_status_code = on_buffer (get_int_at 1 (pos 4))

pub record TableIterator : Type 0 where
  pub buffer : ByteBuffer
  pub columns : List Column
  pub row_count : ℤ
  pub current_row : ℤ

abbrev pub over : Table → ByteBuffer → TableIterator
over t b = record { buffer = b; columns = t.columns; row_count = t.row_count; current_row = pos 0 }

-- `iterator`: the rows behind their count.
unfoldable pub iterator : Action Table TableIterator
iterator t = (on_buffer (set_position (t.row_start +ℤ pos 4) >> slice) >>= λ b. pure (over t b)) t

unfoldable pub has_next : Action TableIterator Bool
has_next it =
    if ltb_ℤ it.current_row it.row_count
    then if has_remaining it.buffer then done true it else fail undefined it
    else done false it

abbrev with_rows : {A : Type 0} → Outcome ByteBuffer A → TableIterator → Outcome TableIterator A
with_rows (done a b) it = done a (record it { buffer = b })
with_rows (fail e b) it = fail e (record it { buffer = b })

-- The bytes of the next row: the limit is set behind them for the slice, and put back.
unfoldable pub next_slice : Action ByteBuffer ByteBuffer
next_slice = do
  n ← get_int 4
  limit ← gets (λ b. b.limit)
  place ← gets (λ b. b.position)
  set_limit (pos place +ℤ n)
  row ← slice
  set_limit (pos limit)
  pure row

abbrev take_row : ByteBuffer → Action TableIterator Row
take_row b it = done (Row.init b it.columns) (record it { current_row = it.current_row +ℤ pos 1 })

unfoldable pub next : Action TableIterator Row
next it =
    if ltb_ℤ it.current_row it.row_count
    then ((λ i. with_rows (next_slice i.buffer) i) >>= take_row) it
    else fail no_more_rows it

unfoldable pub ne_table : Table → Table → Bool
ne_table a b = ne_buffer a.buffer b.buffer

-- `while (iter.hasNext()) { Row row = iter.next(); ... }` as the client's loops have it, on fuel.
unfoldable pub all_rows : ℕ → Action TableIterator (List Row)
all_rows zero = throw undefined
all_rows (suc fuel) = do
  more ← has_next
  if more then (do row ← next; rest ← all_rows fuel; pure (row ∷ rest)) else pure []
