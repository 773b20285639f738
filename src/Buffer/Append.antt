-- ===== src/Buffer/Append.antt =====
-- Room first, then the bytes: the pairs of `ensureRemaining` and `put` of include/ParameterSet.hpp
-- and include/RowBuilder.h.
use voltdb_client_cpp.Prelude.{ℕ, ◌+◌, ◌^◌, ◌≤◌, ◌≡◌, refl, ap, ◌∙◌, List, ◌++◌, arith, length}
use voltdb_client_cpp.Prelude.Int.{pos}
use voltdb_client_cpp.Action.{Action, Outcome, done, ◌>>◌, >>_done}
use voltdb_client_cpp.Buffer.Storage.{take-write_at, length-write_at}
use voltdb_client_cpp.Buffer.{ByteBuffer, Void, ensure_remaining}
use voltdb_client_cpp.Buffer.Put.{Writes, wrote}
use voltdb_client_cpp.Buffer.Growth.{IsOpen, written, ensure_remaining_lem}

-- The call returned, and behind what had been written stands `bs`.
pub record Appended (bs : List ℕ) (b : ByteBuffer) (o : Outcome ByteBuffer Void) : Type 0 where
  pub buffer : ByteBuffer
  pub result : o ≡ done tt buffer
  pub is_open : IsOpen buffer
  pub text : written buffer ≡ written b ++ bs
  pub place : buffer.position ≡ b.position + length bs

wrote-IsOpen :
    (bs : List ℕ) (b : ByteBuffer)
    → IsOpen b
    → b.position + length bs ≤ b.limit
    → IsOpen (wrote bs b)
wrote-IsOpen bs b v h = record {
  expandable = v.expandable;
  limit = v.limit;
  storage = length-write_at b.position bs b.storage ∙ v.storage;
  position = omega (arith, v.limit);
  capacity = v.capacity;
}

pub wrote-Appended :
    (bs : List ℕ) (b : ByteBuffer)
    → IsOpen b
    → b.position + length bs ≤ b.limit
    → Appended bs b (done tt (wrote bs b))
wrote-Appended bs b v h = record {
  buffer = wrote bs b;
  result = refl;
  is_open = wrote-IsOpen bs b v h;
  text = take-write_at b.position bs b.storage (omega (arith, v.limit, v.storage));
  place = refl;
}

module _ {m : Action ByteBuffer Void} {bs : List ℕ} (w : Writes m bs) where
  pub Writes-Appended :
      (b : ByteBuffer) → IsOpen b → b.position + length bs ≤ b.limit → Appended bs b (m b)
  Writes-Appended b v h = rw (w.fits b h) (wrote-Appended bs b v h)

  -- Enough room is made before the bytes are written.
  pub ensured-Appended :
      (n : ℕ) (b : ByteBuffer)
      → IsOpen b
      → length bs ≤ n
      → b.position + n ≤ 2 ^ 30
      → Appended bs b ((ensure_remaining (pos n) >> m) b)
  ensured-Appended n b v l h =
      let r = ensure_remaining_lem n b v h in
      let a = Writes-Appended r.buffer r.is_open (omega (arith, r.room)) in
      record {
        buffer = a.buffer;
        result = >>_done (ensure_remaining (pos n)) m r.result ∙ a.result;
        is_open = a.is_open;
        text = a.text ∙ ap (λ t. t ++ bs) r.text;
        place = a.place ∙ ap (λ p. p + length bs) r.place;
      }
