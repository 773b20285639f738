-- ===== src/Row/Cells/Getters.antt =====
-- The getters of include/Row.hpp that src/Distributer.cpp uses, on a column of their type.
use voltdb_client_cpp.Prelude.{
  ℕ, ◌+◌, ◌≡◌, refl, subst, inl, inr, true, false, Option, some, List, arith, length, get_elem?, [],
  Bool-cases, if◌then◌else◌,
}
use voltdb_client_cpp.Prelude.Int.{ℤ, pos, negsuc, eqb_ℤ, ltb_ℤ}
use voltdb_client_cpp.Wire.{to_bytes}
use voltdb_client_cpp.Wire.Laws.{Fits, length-to_bytes}
use voltdb_client_cpp.Buffer.{BytesOut, found, get_int_at, get_string_at, get_bytes_at}
use voltdb_client_cpp.Buffer.Put.{IsText, text_bytes}
use voltdb_client_cpp.Buffer.At.{
  ReadsAt, Stands, Stands-left, Stands-right, ReadsAt-get_at, ReadsAt-get_int_at, counted_at,
  next_index,
}
use voltdb_client_cpp.Row.{
  Row, read_value, is_least, is_none, read_int, int_size, get_integer, get_int32, get_string,
  get_varbinary,
}
use voltdb_client_cpp.Row.Cells.{Cell, integer, string, varbinary, IsNullableText}
use voltdb_client_cpp.Row.Cells.Reads.{ReadsAt-nullable}
use voltdb_client_cpp.Row.Cells.Fetch.{IsRow, Got, checked-Got, read_value-Got}

-- What is copied of a varbinary to a buffer of `n` bytes: all or nothing.
abbrev pub bytes_within : ℕ → List ℕ → BytesOut
bytes_within n s =
    if ltb_ℤ (pos n) (pos (length s))
    then record { fitted = false; was_null = false; out_len = pos (length s); out_value = [] }
    else found (pos (length s)) s

ReadsAt-bytes_within :
    (n : ℕ) (s : List ℕ)
    → IsText s
    → ReadsAt (λ i. get_bytes_at i (pos n) true) (text_bytes s) (bytes_within n s)
unfolding get_bytes_at
ReadsAt-bytes_within n s h = record {
  reads = λ i b st.
      let hd = to_bytes 4 (length s) in
      let g = (counted_at s h).reads i b (Stands-left hd s i b st) in
      let t =
        subst (λ k. Stands s (i + k) b) (length-to_bytes 4 (length s)) (Stands-right hd s i b st) in
      let c : eqb_ℤ (pos (length s)) (negsuc 0) ≡ false = ground arith in
      elim (Bool-cases (ltb_ℤ (pos n) (pos (length s)))) [
        | inl u ↦ rw (g, c, u) refl
        | inr u ↦ rw (g, c, u, next_index i, (ReadsAt-get_at s).reads (i + 4) b t) refl
      ];
}

module _ (cs : List Cell) (k : ℕ) (r : Row) (v : IsRow cs r) where
  pub get_int32-Got :
      (z : ℤ)
      → get_elem? cs k ≡ some (integer z)
      → Fits 4 z
      → Got cs (get_int32 (pos k)) z (is_least 4 z) r
  unfolding get_int32 get_integer
  get_int32-Got z e h =
      checked-Got cs k (integer z) r (λ x. read_int (int_size x) (pos k)) z (is_least 4 z) v e
        (read_value-Got cs k (integer z) r (get_int_at 4) (is_least 4) z v e
          (ReadsAt-get_int_at 4 z (omega arith) h))

  pub get_string-Got :
      (s : Option (List ℕ))
      → get_elem? cs k ≡ some (string s)
      → IsNullableText s
      → Got cs (get_string (pos k)) s (is_none s) r
  unfolding get_string
  get_string-Got s e h =
      checked-Got cs k (string s) r (λ _. read_value get_string_at is_none (pos k)) s (is_none s) v
        e (read_value-Got cs k (string s) r get_string_at is_none s v e (ReadsAt-nullable s h))

  pub get_varbinary-Got :
      (n : ℕ) (s : List ℕ)
      → get_elem? cs k ≡ some (varbinary (some s))
      → IsText s
      → Got cs (get_varbinary (pos k) (pos n) true) (bytes_within n s) (bytes_within n s).was_null r
  unfolding get_varbinary
  get_varbinary-Got n s e h =
      checked-Got cs k (varbinary (some s)) r
        (λ _. read_value (λ i. get_bytes_at i (pos n) true) (λ x. x.was_null) (pos k))
        (bytes_within n s) (bytes_within n s).was_null v e
        (read_value-Got cs k (varbinary (some s)) r (λ i. get_bytes_at i (pos n) true)
          (λ x. x.was_null) (bytes_within n s) v e (ReadsAt-bytes_within n s h))
