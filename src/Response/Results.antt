-- ===== src/Response/Results.antt =====
-- The tables of a response on the wire, and what include/InvocationResponse.hpp reads of them.
use voltdb_client_cpp.Prelude.{
  ℕ, ◌+◌, ◌≤◌, ◌≡◌, ap, subst, ◌∙◌, Bool, true, false, List, [], ◌∷◌, ◌++◌, arith, length,
  length-append,
}
use voltdb_client_cpp.Prelude.Int.{ℤ, pos, ltb_ℤ}
use voltdb_client_cpp.Action.{Action, done, pure, ◌>>=◌, >>=_done}
use voltdb_client_cpp.Wire.{to_bytes}
use voltdb_client_cpp.Wire.Laws.{length-to_bytes}
use voltdb_client_cpp.Buffer.{ByteBuffer, get_int}
use voltdb_client_cpp.Buffer.Put.{text_bytes}
use voltdb_client_cpp.Buffer.Get.{Starts, Reads, advance, counted, Starts-left, Starts-right}
use voltdb_client_cpp.Row.{Column}
use voltdb_client_cpp.Table.{Table}
use voltdb_client_cpp.Table.Rows.{raised, put_back, cut}
use voltdb_client_cpp.Table.Columns.{table_bytes, IsTable}
use voltdb_client_cpp.Table.Parse.{parsed_table, table_read, lengths}
use voltdb_client_cpp.Response.{read_result, read_results, read_counted}

-- A table as the server has it.
pub record ServerTable : Type 0 where
  pub status : ℤ
  pub columns : List Column
  pub rows : List (List ℕ)
  pub valid : IsTable status columns rows

abbrev pub bytes_of : ServerTable → List ℕ
bytes_of t = table_bytes t.status t.columns t.rows

abbrev pub results_bytes : List ServerTable → List ℕ
results_bytes [] = []
results_bytes (t ∷ ts) = text_bytes (bytes_of t) ++ results_bytes ts

abbrev pub table_of : Bool → ServerTable → Table
table_of e t = parsed_table e t.status t.columns t.rows t.valid

abbrev pub tables_of : Bool → List ServerTable → List Table
tables_of e [] = []
tables_of e (t ∷ ts) = table_of e t ∷ tables_of e ts

long_enough : (t : ServerTable) → ltb_ℤ (pos (length (bytes_of t))) (pos 4) ≡ false
long_enough t = ground (arith, lengths true t.status t.columns t.rows)

read_result-table :
    (t : ServerTable) (b : ByteBuffer)
    → Starts (text_bytes (bytes_of t)) b
    → b.limit ≤ b.capacity
    → read_result b.limit b ≡ done (table_of b.expandable t) (advance (4 + length (bytes_of t)) b)
unfolding read_result
read_result-table t b s l =
    let r = bytes_of t in
    let hd = to_bytes 4 (length r) in
    let n = length-to_bytes 4 (length r) in
    let g = (counted r (omega (arith, t.valid.size))).takes b (Starts-left hd r b s) in
    let u = subst (λ (k : ℕ). Starts r (advance k b)) n (Starts-right hd r b s) in
    >>=_done (get_int 4) _
      (subst (λ (k : ℕ). get_int 4 b ≡ done (pos (length r)) (advance k b)) n g)
    ∙ rw
        (
          long_enough t,
          raised b (length r) (omega (arith, u.inside, l)),
          cut r b u,
          table_read b.expandable t.status t.columns t.rows t.valid,
          put_back b (length r) l,
        )
        (ap (λ (k : ℕ). done (table_of b.expandable t) (record b { position = k })) (omega arith))

-- A method that takes `bs` from the front of the unread bytes of a buffer that may be narrowed, and
-- returns `a`. The tables that it returns are over buffers of the same kind.
pub record Takes {A : Type 0} (e : Bool) (m : Action ByteBuffer A) (bs : List ℕ) (a : A)
    : Type 0 where
  pub takes :
      (b : ByteBuffer)
      → Starts bs b
      → b.limit ≤ b.capacity
      → b.expandable ≡ e
      → m b ≡ done a (advance (length bs) b)

module _ (e : Bool) where
  pub Takes-Reads :
      {A : Type 0} {m : Action ByteBuffer A} {bs : List ℕ} {a : A} → Reads m bs a → Takes e m bs a
  Takes-Reads r = record { takes = λ b s l k. r.takes b s }

  pub Takes-bind :
      {A B : Type 0} {m : Action ByteBuffer A} (f : A → Action ByteBuffer B) {xs ys : List ℕ}
      {a : A} {c : B}
      → Takes e m xs a
      → Takes e (f a) ys c
      → Takes e (m >>= f) (xs ++ ys) c
  Takes-bind {m = m} f {xs = xs} {ys = ys} {c = c} r q = record {
    takes = λ b s l k.
        >>=_done m f (r.takes b (Starts-left xs ys b s) l k)
        ∙ q.takes (advance (length xs) b) (Starts-right xs ys b s) l k
        ∙ ap (λ (i : ℕ). done c (record b { position = i })) (omega (arith, length-append xs ys));
  }

  pub Takes-map :
      {A B : Type 0} {m : Action ByteBuffer A} {xs : List ℕ} {a : A}
      → Takes e m xs a
      → (g : A → B) → Takes e (m >>= λ x. pure (g x)) xs (g a)
  Takes-map {m = m} r g = record {
    takes = λ b s l k. >>=_done m (λ x. pure (g x)) (r.takes b s l k);
  }

  results_read :
      (ts : List ServerTable) (b : ByteBuffer)
      → Starts (results_bytes ts) b
      → b.limit ≤ b.capacity
      → b.expandable ≡ e
      → read_results (length ts) b.limit b
        ≡ done (tables_of e ts) (advance (length (results_bytes ts)) b)
  unfolding read_results
  results_read [] b s l k = ap (λ (i : ℕ). done [] (record b { position = i })) (omega arith)
  results_read (t ∷ ts) b s l k =
      let r = bytes_of t in
      let n : length (text_bytes r) ≡ 4 + length r =
        omega (arith, length-append (to_bytes 4 (length r)) r, length-to_bytes 4 (length r)) in
      let later =
        subst (λ (i : ℕ). Starts (results_bytes ts) (advance i b)) n
          (Starts-right (text_bytes r) (results_bytes ts) b s) in
      let rest = results_read ts (advance (4 + length r) b) later l k in
      let p : b.position + (4 + length r) + length (results_bytes ts)
          ≡ b.position + length (results_bytes (t ∷ ts)) =
        omega (arith, n, length-append (text_bytes r) (results_bytes ts)) in
      rw (read_result-table t b (Starts-left (text_bytes r) (results_bytes ts) b s) l, rest)
        (λ i. done (table_of (k i) t ∷ tables_of e ts) (record b { position = p i }))

  pub Takes-read_counted :
      (ts : List ServerTable)
      → Takes e (read_counted (pos (length ts))) (results_bytes ts) (tables_of e ts)
  Takes-read_counted ts = record { takes = results_read ts }
