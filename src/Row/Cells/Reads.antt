-- ===== src/Row/Cells/Reads.antt =====
-- What the buffer of a row reads of a decimal, a string and a varbinary that stand in it.
use voltdb_client_cpp.Prelude.{
  ℕ, ◌+◌, ◌-◌, ◌^◌, ◌≡◌, refl, subst, true, false, Option, none, some, List, [], ◌++◌, arith,
  length, length-append, take, drop, take-append, drop-append,
}
use voltdb_client_cpp.Prelude.Int.{ℤ, pos, negsuc, eqb_ℤ, ltb_ℤ}
use voltdb_client_cpp.Action.{done}
use voltdb_client_cpp.Wire.{to_bytes}
use voltdb_client_cpp.Wire.Laws.{length-to_bytes, from_bytes-to_bytes}
use voltdb_client_cpp.Decimal.{Decimal, decimal_bytes, IsWords}
use voltdb_client_cpp.Buffer.{BytesOut, get_at, get_string_at, get_bytes_at}
use voltdb_client_cpp.Buffer.At.{
  ReadsAt, Stands, Stands-left, Stands-right, ReadsAt-get_at, ReadsAt-get_int_at,
  ReadsAt-get_string_at, counted_at, next_index,
}
use voltdb_client_cpp.Row.{get_decimal_at}
use voltdb_client_cpp.Row.Cells.{IsNullableText, nullable_bytes}

-- The size of the buffer that a varbinary is copied to.
abbrev pub bufsize : ℤ
bufsize = pos (2 ^ 31 - 1)

pub ReadsAt-decimal : (d : Decimal) → IsWords d → ReadsAt get_decimal_at (decimal_bytes d) d
ReadsAt-decimal d w = record {
  reads = λ i b st.
      let hi = to_bytes 8 d.high in
      let lo = to_bytes 8 d.low in
      let a = length-to_bytes 8 d.high in
      let n : length (hi ++ lo) ≡ 16 =
        omega (arith, length-append hi lo, a, length-to_bytes 8 d.low) in
      let g =
        subst (λ k. get_at (pos i) (pos k) b ≡ done (hi ++ lo) b) n
          ((ReadsAt-get_at (hi ++ lo)).reads i b st) in
      let t : take 8 (hi ++ lo) ≡ hi = subst (λ k. take k (hi ++ lo) ≡ hi) a (take-append hi lo) in
      let u : drop 8 (hi ++ lo) ≡ lo = subst (λ k. drop k (hi ++ lo) ≡ lo) a (drop-append hi lo) in
      rw (g, t, u, from_bytes-to_bytes 8 d.high w.high, from_bytes-to_bytes 8 d.low w.low) refl;
}

pub ReadsAt-nullable :
    (s : Option (List ℕ)) → IsNullableText s → ReadsAt get_string_at (nullable_bytes s) s
unfolding get_string_at
ReadsAt-nullable (some s) h = ReadsAt-get_string_at s h
ReadsAt-nullable none h = record {
  reads = λ i b st.
      rw ((ReadsAt-get_int_at 4 (negsuc 0) (omega arith) (omega arith)).reads i b st) refl;
}

abbrev pub bytes_out : Option (List ℕ) → BytesOut
bytes_out none = record { fitted = true; was_null = true; out_len = negsuc 0; out_value = [] }
bytes_out (some s) = record {
  fitted = true;
  was_null = false;
  out_len = pos (length s);
  out_value = s;
}

pub ReadsAt-get_bytes_at :
    (s : Option (List ℕ))
    → IsNullableText s
    → ReadsAt (λ i. get_bytes_at i bufsize true) (nullable_bytes s) (bytes_out s)
unfolding get_bytes_at
ReadsAt-get_bytes_at none h = record {
  reads = λ i b st.
      rw ((ReadsAt-get_int_at 4 (negsuc 0) (omega arith) (omega arith)).reads i b st) refl;
}
ReadsAt-get_bytes_at (some s) h = record {
  reads = λ i b st.
      let hd = to_bytes 4 (length s) in
      let n = (counted_at s h).reads i b (Stands-left hd s i b st) in
      let t =
        subst (λ k. Stands s (i + k) b) (length-to_bytes 4 (length s)) (Stands-right hd s i b st) in
      let c : eqb_ℤ (pos (length s)) (negsuc 0) ≡ false = ground arith in
      let u : ltb_ℤ bufsize (pos (length s)) ≡ false = ground arith in
      rw (n, c, u, next_index i, (ReadsAt-get_at s).reads (i + 4) b t) refl;
}
