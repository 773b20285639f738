-- ===== src/Table/Rows.antt =====
-- The iteration of include/TableIterator.h over the rows of a table.
use voltdb_client_cpp.Prelude.{
  ℕ, suc, ◌+◌, ◌-◌, ◌≤◌, ◌≡◌, refl, ap, ◌∙◌, sym, subst, Bool, true, false, List, [], ◌∷◌, ◌++◌,
  map, arith, length, length-append, take-append, ltb,
}
use voltdb_client_cpp.Prelude.Int.{pos, ◌+ℤ◌, ltb_ℤ}
use voltdb_client_cpp.Action.{done, >>=_done}
use voltdb_client_cpp.Wire.{to_bytes}
use voltdb_client_cpp.Wire.Laws.{length-to_bytes}
use voltdb_client_cpp.Buffer.{ByteBuffer, get_int, set_limit, slice, has_remaining}
use voltdb_client_cpp.Buffer.Put.{IsText, text_bytes}
use voltdb_client_cpp.Buffer.Get.{Starts, advance, counted, Starts-left, Starts-right}
use voltdb_client_cpp.Row.{Column, Row}
use voltdb_client_cpp.Row
use voltdb_client_cpp.Table.{TableIterator, next_slice, next, has_next, all_rows}

-- The rows on the wire, each behind its length.
abbrev pub rows_bytes : List (List ℕ) → List ℕ
rows_bytes [] = []
rows_bytes (r ∷ rs) = text_bytes r ++ rows_bytes rs

abbrev pub AllTexts : List (List ℕ) → Type 0
AllTexts [] = 0 ≤ 0
AllTexts (r ∷ rs) = IsText r × AllTexts rs

-- The buffer of a row: its bytes and no more.
abbrev pub row_buffer : Bool → List ℕ → ByteBuffer
row_buffer expandable r = record {
  storage = r;
  position = 0;
  capacity = length r;
  limit = length r;
  expandable = expandable;
}

module _ (b : ByteBuffer) (n : ℕ) where
  abbrev pub narrowed : ByteBuffer
  narrowed = record b { position = b.position + 4; limit = b.position + 4 + n }

  abbrev pub passed : ByteBuffer
  passed = record b { position = b.position + 4 + n; limit = b.position + 4 + n }

  pub raised :
      b.position + 4 + n ≤ b.capacity
      → set_limit (pos (b.position + 4) +ℤ pos n) (advance 4 b) ≡ done tt narrowed
  unfolding set_limit
  raised h = ground arith

  pub put_back :
      b.limit ≤ b.capacity
      → set_limit (pos b.limit) passed ≡ done tt (record b { position = b.position + 4 + n })
  unfolding set_limit
  put_back h = ground arith

pub cut :
    (r : List ℕ) (b : ByteBuffer)
    → Starts r (advance 4 b)
    → slice (narrowed b (length r)) ≡ done (row_buffer b.expandable r) (passed b (length r))
unfolding slice
cut r b t =
    let p = b.position + 4 in
    let d : p + length r - p ≡ length r = omega arith in
    let k : ltb (p + length r) p ≡ false = ground arith in
    rw (k, d, t.bytes, take-append r t.rest) refl

next_slice-row :
    (r : List ℕ) (b : ByteBuffer)
    → IsText r
    → Starts (text_bytes r) b
    → b.limit ≤ b.capacity
    → next_slice b ≡ done (row_buffer b.expandable r) (advance (4 + length r) b)
unfolding next_slice
next_slice-row r b h s l =
    let hd = to_bytes 4 (length r) in
    let n = length-to_bytes 4 (length r) in
    let g = (counted r h).takes b (Starts-left hd r b s) in
    let t = subst (λ k. Starts r (advance k b)) n (Starts-right hd r b s) in
    >>=_done (get_int 4) _ (subst (λ k. get_int 4 b ≡ done (pos (length r)) (advance k b)) n g)
    ∙ rw (raised b (length r) (omega (arith, t.inside, l)), cut r b t, put_back b (length r) l)
        (ap (λ k. done (row_buffer b.expandable r) (record b { position = k })) (omega arith))

-- An iterator in front of rows that are all in its buffer, inside the limit.
pub record IsIterator (rows : List (List ℕ)) (it : TableIterator) : Type 0 where
  pub bytes : Starts (rows_bytes rows) it.buffer
  pub limit : it.buffer.limit ≤ it.buffer.capacity
  pub place : ℕ
  pub current : it.current_row ≡ pos place
  pub count : it.row_count ≡ pos (place + length rows)

-- The rows as `Row` objects, none of them read from yet.
abbrev pub row_of : List Column → Bool → List ℕ → Row
row_of columns expandable r = Row.init (row_buffer expandable r) columns

-- The loop over an iterator ended with these rows.
pub record Iterated (rows : List (List ℕ)) (it : TableIterator) : Type 0 where
  pub iterator : TableIterator
  pub result :
      all_rows (suc (length rows)) it
      ≡ done (map (row_of it.columns it.buffer.expandable) rows) iterator
  pub at_end : iterator.current_row ≡ iterator.row_count

pub has_next_end : (it : TableIterator) → IsIterator [] it → has_next it ≡ done false it
unfolding has_next
has_next_end it v = rw (v.current, v.count) (ground arith)

pub has_next_more :
    (r : List ℕ) (rs : List (List ℕ)) (it : TableIterator)
    → IsIterator (r ∷ rs) it
    → has_next it ≡ done true it
unfolding has_next has_remaining
has_next_more r rs it v =
    let n = length-to_bytes 4 (length r) in
    let c : ltb it.buffer.position it.buffer.limit ≡ true = ground (
      arith,
      v.bytes.inside,
      n,
      length-append (text_bytes r) (rows_bytes rs),
      length-append (to_bytes 4 (length r)) r,
    ) in
    let k : ltb_ℤ (pos v.place) (pos (v.place + suc (length rs))) ≡ true = ground arith in
    rw (v.current, v.count, k, c) refl

abbrev pub behind : ℕ → TableIterator → TableIterator
behind n it = record it { buffer = advance n it.buffer; current_row = it.current_row +ℤ pos 1 }

pub next-row :
    (r : List ℕ) (rs : List (List ℕ)) (it : TableIterator)
    → IsText r
    → IsIterator (r ∷ rs) it
    → next it ≡ done (row_of it.columns it.buffer.expandable r) (behind (4 + length r) it)
unfolding next
next-row r rs it a v =
    let k : ltb_ℤ (pos v.place) (pos (v.place + suc (length rs))) ≡ true = ground arith in
    rw
      (
        v.current,
        v.count,
        k,
        next_slice-row r it.buffer a (Starts-left (text_bytes r) (rows_bytes rs) it.buffer v.bytes)
            v.limit,
      )
      refl

pub behind-IsIterator :
    (r : List ℕ) (rs : List (List ℕ)) (it : TableIterator)
    → IsIterator (r ∷ rs) it
    → IsIterator rs (behind (4 + length r) it)
behind-IsIterator r rs it v = record {
  bytes =
      subst (λ k. Starts (rows_bytes rs) (advance k it.buffer))
        (omega (arith, length-append (to_bytes 4 (length r)) r, length-to_bytes 4 (length r)))
        (Starts-right (text_bytes r) (rows_bytes rs) it.buffer v.bytes);
  limit = v.limit;
  place = v.place + 1;
  current = rw v.current (ground arith);
  count = v.count ∙ ap pos (omega arith);
}

-- From an iterator in front of rows that are all in its buffer, as many as are counted, the loop
-- takes each row once and in order, throws nothing, and ends behind the last in one turn more than
-- there are rows.
pub all_rows-Iterated :
    (rows : List (List ℕ)) (it : TableIterator)
    → AllTexts rows
    → IsIterator rows it
    → Iterated rows it
unfolding all_rows
all_rows-Iterated [] it a v = record {
  iterator = it;
  result = rw (has_next_end it v) refl;
  at_end = v.current ∙ ap pos (omega arith) ∙ sym v.count;
}
all_rows-Iterated (r ∷ rs) it a v =
    let rest = all_rows-Iterated rs (behind (4 + length r) it) a.1 (behind-IsIterator r rs it v) in
    record {
      iterator = rest.iterator;
      result = rw (has_next_more r rs it v, next-row r rs it a.0 v, rest.result) refl;
      at_end = rest.at_end;
    }
