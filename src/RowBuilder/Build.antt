-- ===== src/RowBuilder/Build.antt =====
-- The bytes that include/RowBuilder.h writes are those that include/Row.hpp reads.
use native.Mathlib.Numerals.{add-one}
use voltdb_client_cpp.Prelude.{
  ℕ, ◌+◌, ◌^◌, ◌⊎◌, inl, inr, ◌≤◌, ◌<◌, ◌≡◌, refl, ap, ◌∙◌, sym, false, none, some, List, [], ◌∷◌,
  ◌++◌, append-nil, append_assoc, arith, length, length-append, get_elem?, drop, ltb,
}
use voltdb_client_cpp.Prelude.Int.{pos, negsuc, ◌+ℤ◌}
use voltdb_client_cpp.Action.{Action, Outcome, done, ◌>>◌, throw, undefined, >>_done, pure}
use voltdb_client_cpp.Wire.{int_bytes, to_bytes, to_word, cast}
use voltdb_client_cpp.Wire.Laws.{length-to_bytes}
use voltdb_client_cpp.WireType.{WireType, eqb_type_refl}
use voltdb_client_cpp.Buffer.{ByteBuffer, Void, put_int, put_word, put_string, put_bytes}
use voltdb_client_cpp.Buffer.Put.{
  Writes, Writes-put_int, Writes-put_word, Writes-put_string, Writes-put_bytes, IsText, text_bytes,
}
use voltdb_client_cpp.Buffer.Growth.{IsOpen, written}
use voltdb_client_cpp.Buffer.Append.{ensured-Appended}
use voltdb_client_cpp.Params.Elements.{cast_size}
use voltdb_client_cpp.Params.Sequence.{drop-get}
use voltdb_client_cpp.Row.{Column}
use voltdb_client_cpp.Row.Cells.{
  Cell, tinyint, smallint, integer, bigint, timestamp, float, decimal, string, varbinary, type_of,
  cell_bytes, row_bytes, IsCell,
}
use voltdb_client_cpp.RowBuilder.{
  RowBuilder, validate_type, put_value, add_int8, add_int16, add_int32, add_int64, add_double,
  add_string, add_varbinary, add_null,
}

-- The method that adds a value; a decimal and a timestamp have none.
unfoldable pub add : Cell → Action RowBuilder Void
add (tinyint z) = add_int8 z
add (smallint z) = add_int16 z
add (integer z) = add_int32 z
add (bigint z) = add_int64 z
add (float w) = add_double w
add (string (some s)) = add_string s
add (varbinary (some s)) = add_varbinary s
add (string none) = add_null
add (varbinary none) = add_null
add _ = throw undefined

abbrev pub CanBuild : Cell → Type 0
CanBuild (timestamp z) = 1 ≤ 0
CanBuild (decimal d) = 1 ≤ 0
CanBuild c = 0 ≤ 0

-- Behind what had been written stands `bs`, and `n` columns more are done.
pub record Built (n : ℕ) (bs : List ℕ) (r : RowBuilder) (o : Outcome RowBuilder Void) : Type 0 where
  pub builder : RowBuilder
  pub result : o ≡ done tt builder
  pub is_open : IsOpen builder.buffer
  pub text : written builder.buffer ≡ written r.buffer ++ bs
  pub place : builder.buffer.position ≡ r.buffer.position + length bs
  pub columns : builder.columns ≡ r.columns
  pub current : builder.current_column ≡ r.current_column + n

put_value-Built :
    (n : ℕ) (m : Action ByteBuffer Void) (bs : List ℕ) (r : RowBuilder)
    → Writes m bs
    → IsOpen r.buffer
    → length bs ≤ n
    → r.buffer.position + n ≤ 2 ^ 30
    → Built 1 bs r (put_value (pos n) m r)
unfolding put_value
put_value-Built n m bs r w v l h =
    let a = ensured-Appended w n r.buffer v l h in
    record {
      builder = record r { buffer = a.buffer; current_column = r.current_column + 1 };
      result = rw a.result refl;
      is_open = a.is_open;
      text = a.text;
      place = a.place;
      columns = refl;
      current = refl;
    }

validate_type-done :
    (t : WireType) (r : RowBuilder) (q : Column)
    → get_elem? r.columns r.current_column ≡ some q
    → q.type ≡ t
    → validate_type t r ≡ done tt r
unfolding validate_type
validate_type-done t r q g e = rw (g, e, eqb_type_refl t) refl

checked-Built :
    (t : WireType) (q : Column) (n : ℕ) (m : Action ByteBuffer Void) (bs : List ℕ) (r : RowBuilder)
    → Writes m bs
    → get_elem? r.columns r.current_column ≡ some q
    → q.type ≡ t
    → IsOpen r.buffer
    → length bs ≡ n
    → r.buffer.position + length bs ≤ 2 ^ 30
    → Built 1 bs r ((validate_type t >> put_value (pos n) m) r)
checked-Built t q n m bs r w g e v l h =
    let b = put_value-Built n m bs r w v (omega (arith, l)) (omega (arith, l)) in
    record {
      builder = b.builder;
      result =
          >>_done (validate_type t) (put_value (pos n) m) (validate_type-done t r q g e) ∙ b.result;
      is_open = b.is_open;
      text = b.text;
      place = b.place;
      columns = b.columns;
      current = b.current;
    }

null-Built :
    (q : Column) (r : RowBuilder)
    → get_elem? r.columns r.current_column ≡ some q
    → r.current_column < length r.columns
    → IsOpen r.buffer
    → r.buffer.position + 4 ≤ 2 ^ 30
    → (q.type ≡ WireType.string) ⊎ (q.type ≡ WireType.varbinary)
    → Built 1 (int_bytes 4 (negsuc 0)) r (add_null r)
unfolding add_null
null-Built q r g c v h e =
    let l = length-to_bytes 4 (to_word 4 (negsuc 0)) in
    let b =
      put_value-Built 4 (put_int 4 (negsuc 0)) (int_bytes 4 (negsuc 0)) r
        (Writes-put_int 4 (negsuc 0)) v (omega (arith, l)) h in
    let k : ltb (length r.columns) r.current_column ≡ false = ground arith in
    elim e [ inl t ↦ rw (k, g, t) b | inr t ↦ rw (k, g, t) b ]

text_room : (s : List ℕ) → IsText s → length (text_bytes s) ≡ 4 + length s
text_room s h = omega (arith, length-append (to_bytes 4 (length s)) s, length-to_bytes 4 (length s))

sized : (n : ℕ) → n ≤ 2 ^ 30 → pos 4 +ℤ cast 4 (pos n) ≡ pos (4 + n)
sized n h = rw (cast_size n h) (ground arith)

-- A value for the next column, of its type, is appended.
add-Built :
    (c : Cell) (q : Column) (r : RowBuilder)
    → CanBuild c
    → IsCell c
    → get_elem? r.columns r.current_column ≡ some q
    → r.current_column < length r.columns
    → q.type ≡ type_of c
    → IsOpen r.buffer
    → r.buffer.position + length (cell_bytes c) ≤ 2 ^ 30
    → Built 1 (cell_bytes c) r (add c r)
unfolding add add_int8 add_int16 add_int32 add_int64 add_double add_string add_varbinary
add-Built (tinyint z) q r k f g l e v h =
    checked-Built WireType.tinyint q 1 (put_int 1 z) (int_bytes 1 z) r (Writes-put_int 1 z) g e v
      (length-to_bytes 1 (to_word 1 z)) h
add-Built (smallint z) q r k f g l e v h =
    checked-Built WireType.smallint q 2 (put_int 2 z) (int_bytes 2 z) r (Writes-put_int 2 z) g e v
      (length-to_bytes 2 (to_word 2 z)) h
add-Built (integer z) q r k f g l e v h =
    checked-Built WireType.integer q 4 (put_int 4 z) (int_bytes 4 z) r (Writes-put_int 4 z) g e v
      (length-to_bytes 4 (to_word 4 z)) h
add-Built (bigint z) q r k f g l e v h =
    checked-Built WireType.bigint q 8 (put_int 8 z) (int_bytes 8 z) r (Writes-put_int 8 z) g e v
      (length-to_bytes 8 (to_word 8 z)) h
add-Built (float w) q r k f g l e v h =
    checked-Built WireType.float q 8 (put_word 8 w) (to_bytes 8 w) r (Writes-put_word 8 w) g e v
      (length-to_bytes 8 w) h
add-Built (timestamp z) q r k f g l e v h = absurd (omega (arith, k))
add-Built (decimal d) q r k f g l e v h = absurd (omega (arith, k))
add-Built (string (some s)) q r k f g l e v h =
    let n = text_room s f in
    rw (sized (length s) (omega (arith, h, n))) (
      checked-Built WireType.string q (4 + length s) (put_string s) (text_bytes s) r
        (Writes-put_string s f) g e v n h)
add-Built (varbinary (some s)) q r k f g l e v h =
    let n = text_room s f in
    let c = cast_size (length s) (omega (arith, h, n)) in
    rw (sized (length s) (omega (arith, h, n)), c)
      (checked-Built WireType.varbinary q (4 + length s) (put_bytes (pos (length s)) s)
        (text_bytes s) r (Writes-put_bytes s f) g e v n h)
add-Built (string none) q r k f g l e v h =
    null-Built q r g l v (omega (arith, h, length-to_bytes 4 (to_word 4 (negsuc 0)))) (inl e)
add-Built (varbinary none) q r k f g l e v h =
    null-Built q r g l v (omega (arith, h, length-to_bytes 4 (to_word 4 (negsuc 0)))) (inr e)

unfoldable pub add_cells : List Cell → Action RowBuilder Void
add_cells [] = pure tt
add_cells (c ∷ cs) = add c >> add_cells cs

-- The next columns have the types of the values, and each value can be added.
abbrev pub AllBuild : List Column → List Cell → Type 0
AllBuild qs [] = 0 ≤ 0
AllBuild [] (c ∷ cs) = 1 ≤ 0
AllBuild (q ∷ qs) (c ∷ cs) = (CanBuild c × IsCell c × (q.type ≡ type_of c)) × AllBuild qs cs

-- A builder takes a list of values that fit the types of the columns from the next one on, decimals
-- and timestamps left out, nulls of strings and varbinaries included, and holds the bytes that a row
-- of those values has behind what it held, as long as it stays within 2 ^ 30 bytes.
pub add_cells-Built :
    (cs : List Cell) (qs : List Column) (r : RowBuilder)
    → drop r.current_column r.columns ≡ qs
    → AllBuild qs cs
    → IsOpen r.buffer
    → r.buffer.position + length (row_bytes cs) ≤ 2 ^ 30
    → Built (length cs) (row_bytes cs) r (add_cells cs r)
unfolding add_cells
add_cells-Built [] qs r d s v h = record {
  builder = r;
  result = refl;
  is_open = v;
  text = sym (append-nil (written r.buffer));
  place = omega arith;
  columns = refl;
  current = omega arith;
}
add_cells-Built (c ∷ cs) [] r d s v h = absurd (omega (arith, s))
add_cells-Built (c ∷ cs) (q ∷ qs) r d s v h =
    let (g, t, l) = drop-get r.current_column r.columns q qs d in
    let n = length-append (cell_bytes c) (row_bytes cs) in
    let a = add-Built c q r s.0.0 s.0.1 g l s.0.2 v (omega (arith, h, n)) in
    let rest =
      add_cells-Built cs qs a.builder (rw (a.columns, a.current, add-one) t) s.1 a.is_open
        (omega (arith, h, n, a.place)) in
    record {
      builder = rest.builder;
      result = >>_done (add c) (add_cells cs) a.result ∙ rest.result;
      is_open = rest.is_open;
      text =
          rest.text
          ∙ ap (λ x. x ++ row_bytes cs) a.text
          ∙ append_assoc (written r.buffer) (cell_bytes c) (row_bytes cs);
      place = omega (arith, rest.place, a.place, n);
      columns = rest.columns ∙ a.columns;
      current = omega (arith, rest.current, a.current);
    }
