-- ===== src/Table/Parse.antt =====
-- A table of a response on the wire, and what src/Table.cpp reads of it.
use voltdb_client_cpp.Prelude.{
  ℕ, ◌+◌, ◌-◌, ◌≤◌, ◌<◌, ◌≡◌, refl, ap, sym, subst, ◌∙◌, Bool, false, List, [], ◌∷◌, ◌++◌, map,
  arith, length, length-append, append-nil, drop, drop-drop, take, drop-append, take-length, ltb,
}
use voltdb_client_cpp.Prelude.Int.{ℤ, pos, ◌+ℤ◌}
use voltdb_client_cpp.Action.{done, pure}
use voltdb_client_cpp.Wire.{int_bytes, to_bytes, to_word}
use voltdb_client_cpp.Wire.Laws.{length-to_bytes}
use voltdb_client_cpp.Buffer.{ByteBuffer, get_int, get_int_at, set_position, slice, check_index}
use voltdb_client_cpp.Buffer.Put.{text_bytes}
use voltdb_client_cpp.Buffer.Get.{Starts, advance, Starts-left, Starts-right, Reads-get_int}
use voltdb_client_cpp.Buffer.At.{Stands, Stands-left, Stands-right, ReadsAt-get_int_at}
use voltdb_client_cpp.Row.{Column}
use voltdb_client_cpp.Table.{
  Table, TableIterator, read_types, read_columns, column_count, to_table, read_table, iterator,
  over,
}
use voltdb_client_cpp.Table.Rows.{rows_bytes, IsIterator, row_buffer, Iterated, all_rows-Iterated}
use voltdb_client_cpp.Table.Columns.{
  types_bytes, names_bytes, type_of, Reads-read_types, Reads-read_columns, header_bytes, meta_bytes,
  table_bytes, IsTable,
}

pub Starts-all : (e : Bool) (bs : List ℕ) → Starts bs (row_buffer e bs)
Starts-all e bs = record { rest = []; bytes = sym (append-nil bs); inside = omega arith }

pub Stands-all : (e : Bool) (bs : List ℕ) → Stands bs 0 (row_buffer e bs)
Stands-all e bs = record { rest = []; bytes = sym (append-nil bs); inside = omega arith }

length-rows_bytes : (rows : List (List ℕ)) → length rows ≤ length (rows_bytes rows)
length-rows_bytes [] = omega arith
length-rows_bytes (r ∷ rs) = omega (
  arith,
  length-rows_bytes rs,
  length-append (text_bytes r) (rows_bytes rs),
  length-append (to_bytes 4 (length r)) r,
  length-to_bytes 4 (length r),
)

pub set_position-to :
    (i : ℕ) (b : ByteBuffer)
    → i ≤ b.limit
    → set_position (pos i) b ≡ done tt (record b { position = i })
unfolding set_position check_index
set_position-to i b h = ground arith

slice-rest :
    (i : ℕ) (bs : List ℕ) (e : Bool) (rest : List ℕ)
    → drop i bs ≡ rest
    → i + length rest ≡ length bs
    → slice (record (row_buffer e bs) { position = i })
      ≡ done (row_buffer e rest) (record (row_buffer e bs) { position = length bs })
unfolding slice
slice-rest i bs e rest d l =
    let k : ltb (length bs) i ≡ false = ground arith in
    let n : length bs - i ≡ length rest = omega (arith, l) in
    let t : take (length rest) rest ≡ rest = take-length rest in rw (k, n, d, t) refl

pub drop-after : {A : Type 0} (n : ℕ) (xs ys : List A) → length xs ≡ n → drop n (xs ++ ys) ≡ ys
drop-after n xs ys h = subst (λ (k : ℕ). drop k (xs ++ ys) ≡ ys) h (drop-append xs ys)

Stands-moved :
    (bs : List ℕ) (i k : ℕ) (b : ByteBuffer)
    → Stands bs i b
    → Stands bs i (record b { position = k })
Stands-moved bs i k b s = record { rest = s.rest; bytes = s.bytes; inside = s.inside }

-- A table has these columns, and an iterator over it takes these rows, each once and in order.
pub record Holds (cols : List Column) (rows : List (List ℕ)) (table : Table) : Type 0 where
  pub columns : table.columns ≡ cols
  pub first : TableIterator
  pub after : Table
  pub started : iterator table ≡ done first after
  pub first_columns : first.columns ≡ cols
  pub ready : IsIterator rows first
  pub count : table.row_count ≡ pos (length rows)
  pub iterated : Iterated rows first

column_count-some :
    (cols : List Column) → 0 < length cols → column_count (pos (length cols)) ≡ pure (length cols)
column_count-some [] h = elim h [ ]
column_count-some (c ∷ cs) h = refl

module _ (e : Bool) (status : ℤ) (cols : List Column) (rows : List (List ℕ)) where
  abbrev size_part : List ℕ
  size_part = int_bytes 4 (pos (length (meta_bytes status cols)))

  abbrev count_part : List ℕ
  count_part = int_bytes 4 (pos (length rows))

  abbrev all_bytes : List ℕ
  all_bytes = table_bytes status cols rows

  abbrev start : ByteBuffer
  start = row_buffer e all_bytes

  -- The count of the rows, and the rows behind it.
  abbrev count_at : ℕ
  count_at = length (meta_bytes status cols) + 4

  pub lengths :
      length all_bytes ≡ 4 + (length (meta_bytes status cols) + (4 + length (rows_bytes rows)))
  lengths = omega (
    arith,
    length-append size_part (meta_bytes status cols ++ (count_part ++ rows_bytes rows)),
    length-append (meta_bytes status cols) (count_part ++ rows_bytes rows),
    length-append count_part (rows_bytes rows),
    length-to_bytes 4 (to_word 4 (pos (length (meta_bytes status cols)))),
    length-to_bytes 4 (to_word 4 (pos (length rows))),
  )

  Starts-header : Starts (header_bytes cols) (record start { position = 5 })
  Starts-header =
      let w4 = length-to_bytes 4 (to_word 4 (pos (length (meta_bytes status cols)))) in
      let w1 = length-to_bytes 1 (to_word 1 status) in
      let behind_size = Starts-right size_part _ start (Starts-all e all_bytes) in
      let meta = Starts-left (meta_bytes status cols) _ _ behind_size in
      let header = Starts-right (int_bytes 1 status) (header_bytes cols) _ meta in
      subst (λ (k : ℕ). Starts (header_bytes cols) (record start { position = k }))
        (omega (arith, w4, w1)) header

  Stands-count : Stands (count_part ++ rows_bytes rows) count_at start
  Stands-count =
      let w4 = length-to_bytes 4 (to_word 4 (pos (length (meta_bytes status cols)))) in
      subst (λ (k : ℕ). Stands (count_part ++ rows_bytes rows) k start) (omega (arith, w4))
        (Stands-right (meta_bytes status cols) _ _ start
          (Stands-right size_part _ 0 start (Stands-all e all_bytes)))

  -- The rows behind the count.
  drop-rows : drop (count_at + 4) all_bytes ≡ rows_bytes rows
  drop-rows =
      let m = length (meta_bytes status cols) in
      let tail = count_part ++ rows_bytes rows in
      let w4 = length-to_bytes 4 (to_word 4 (pos m)) in
      let w = length-to_bytes 4 (to_word 4 (pos (length rows))) in
      ap (λ (k : ℕ). drop k all_bytes) (omega arith)
      ∙ sym (drop-drop (4 + m) 4 all_bytes)
      ∙ ap (drop 4) (
          sym (drop-drop 4 m all_bytes)
          ∙ ap (drop m) (drop-after 4 size_part (meta_bytes status cols ++ tail) w4)
          ∙ drop-append (meta_bytes status cols) tail)
      ∙ drop-after 4 count_part (rows_bytes rows) w

  -- The table was read, and holds what was written.
  pub record Parsed : Type 0 where
    pub table : Table
    pub rest : ByteBuffer
    pub result : read_table start ≡ done table rest
    pub holds : Holds cols rows table

  module _ (v : IsTable status cols rows) where
    abbrev pub at_5 : ByteBuffer
    at_5 = record start { position = 5 }

    abbrev pub at_types : ByteBuffer
    at_types = advance (length (int_bytes 2 (pos (length cols)))) at_5

    abbrev pub at_names : ByteBuffer
    at_names = advance (length (types_bytes cols)) at_types

    abbrev pub at_end : ByteBuffer
    at_end = advance (length (names_bytes cols)) at_names

    at_start : set_position (pos 5) start ≡ done tt at_5
    at_start = set_position-to 5 start (omega (arith, Starts-header.inside))

    count_read : get_int 2 at_5 ≡ done (pos (length cols)) at_types
    count_read =
        (Reads-get_int 2 (pos (length cols)) (omega arith) (omega (arith, v.few_columns))).takes
          at_5 (Starts-left _ (types_bytes cols ++ names_bytes cols) at_5 Starts-header)

    Starts-types : Starts (types_bytes cols ++ names_bytes cols) at_types
    Starts-types = Starts-right (int_bytes 2 (pos (length cols))) _ at_5 Starts-header

    types_read : read_types (length cols) at_types ≡ done (map type_of cols) at_names
    types_read =
        (Reads-read_types cols v.valid_columns).takes at_types
          (Starts-left _ _ at_types Starts-types)

    names_read : read_columns (map type_of cols) at_names ≡ done cols at_end
    names_read =
        (Reads-read_columns cols v.valid_columns).takes at_names
          (Starts-right (types_bytes cols) (names_bytes cols) at_types Starts-types)

    size_read : get_int_at 4 (pos 0) at_end ≡ done (pos (length (meta_bytes status cols))) at_end
    size_read =
        (ReadsAt-get_int_at 4 (pos (length (meta_bytes status cols))) (omega arith)
            (omega (arith, lengths, v.size))).reads
          0 at_end
          (Stands-moved _ 0 at_end.position start
            (Stands-left size_part _ 0 start (Stands-all e all_bytes)))

    rows_read : get_int_at 4 (pos count_at) at_end ≡ done (pos (length rows)) at_end
    rows_read =
        (ReadsAt-get_int_at 4 (pos (length rows)) (omega arith)
            (omega (arith, lengths, v.size, length-rows_bytes rows))).reads
          count_at at_end
          (Stands-moved _ count_at at_end.position start
            (Stands-left count_part (rows_bytes rows) count_at start Stands-count))

    abbrev pub parsed_table : Table
    parsed_table = to_table cols (pos count_at) (pos (length rows)) at_end

    pub table_read : read_table start ≡ done parsed_table at_end
    unfolding read_table
    table_read =
        let four : pos (length (meta_bytes status cols)) +ℤ pos 4 ≡ pos count_at = ground arith in
        rw
          (
            at_start,
            count_read,
            column_count-some cols v.some_column,
            types_read,
            names_read,
            size_read,
            four,
            rows_read,
          )
          refl

    abbrev first_of : TableIterator
    first_of = over parsed_table (row_buffer e (rows_bytes rows))

    abbrev table_after : Table
    table_after = record parsed_table { buffer = record start { position = length all_bytes } }

    iterator_started : iterator parsed_table ≡ done first_of table_after
    unfolding iterator
    iterator_started =
        let place : pos count_at +ℤ pos 4 ≡ pos (count_at + 4) = ground arith in
        let inside : count_at + 4 ≤ length all_bytes = omega (arith, lengths) in
        let there =
          set_position-to (count_at + 4) (record start { position = length all_bytes }) inside in
        let cut =
          slice-rest (count_at + 4) all_bytes e (rows_bytes rows) drop-rows
            (omega (arith, lengths)) in
        rw (place, there, cut) refl

    first_ready : IsIterator rows first_of
    first_ready = record {
      bytes = Starts-all e (rows_bytes rows);
      limit = omega arith;
      place = 0;
      current = refl;
      count = ap pos (omega arith);
    }

    pub parsed_table-Holds : Holds cols rows parsed_table
    parsed_table-Holds = record {
      columns = refl;
      first = first_of;
      after = table_after;
      started = iterator_started;
      first_columns = refl;
      ready = first_ready;
      count = refl;
      iterated = all_rows-Iterated rows first_of v.valid_rows first_ready;
    }

    -- A table of a response, with its columns and rows in their wire form, is read in full: the columns
    -- are those that were written, and an iterator over the table takes its rows, each once and in
    -- order. The table has to have a column, fewer than 2 ^ 15, and to stay within 2 ^ 31 bytes.
    pub read_table-Parsed : Parsed
    read_table-Parsed = record {
      table = parsed_table;
      rest = at_end;
      result = table_read;
      holds = parsed_table-Holds;
    }
