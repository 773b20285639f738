-- ===== src/Buffer/Checks.antt =====
-- The two checks of include/ByteBuffer.hpp that every access makes.
use voltdb_client_cpp.Prelude.{
  ℕ, ◌+◌, ◌≤◌, ◌<◌, ◌≡◌, refl, arith, length, ltb, Bool-cases, inl, inr,
}
use voltdb_client_cpp.Prelude.Int.{ℤ, pos, negsuc}
use voltdb_client_cpp.Action.{Outcome, done, fail}
use voltdb_client_cpp.Buffer.Keeps.{IsValid}
use voltdb_client_cpp.Buffer.{ByteBuffer, check_get_put_index, check_index}

-- What a check says of `n` bytes from `i` on: they stand in front of the limit, or they do not.
abbrev Inside : ByteBuffer → ℤ → ℤ → Type 0
Inside b (pos i) (pos n) = i + n ≤ b.limit
Inside b i n = ⊥

abbrev Outside : ByteBuffer → ℤ → ℤ → Type 0
Outside b (pos i) (pos n) = b.limit < i + n
Outside b i n = Unit {0}

abbrev InStorage : ByteBuffer → ℕ → ℤ → Type 0
InStorage b j (pos n) = j + n ≤ length b.storage
InStorage b j (negsuc n) = ⊥

-- An index is granted as it was asked for, inside the limit and the storage, or the buffer stays.
abbrev pub Checked : ByteBuffer → ℤ → ℤ → Outcome ByteBuffer ℕ → Type 0
Checked b i n (done j b') = (i ≡ pos j) × Inside b i n × InStorage b j n
Checked b i n (fail e b') = (b' ≡ b) × Outside b i n

check_get_put_index-Checked :
    (n : ℤ) (b : ByteBuffer) → IsValid b → Checked b (pos b.position) n (check_get_put_index n b)
unfolding check_get_put_index
check_get_put_index-Checked (negsuc n) b v = (refl, tt)
check_get_put_index-Checked (pos n) b v = elim (Bool-cases (ltb b.limit (b.position + n))) [
  | inl e ↦ rw e (refl, ground arith)
  | inr e ↦ rw e (refl, ground arith, ground (arith, v.limit, v.storage))
]

check_index-Checked : (i n : ℤ) (b : ByteBuffer) → IsValid b → Checked b i n (check_index i n b)
unfolding check_index
check_index-Checked (negsuc i) n b v = (refl, tt)
check_index-Checked (pos i) (negsuc n) b v = (refl, tt)
check_index-Checked (pos i) (pos n) b v = elim (Bool-cases (ltb b.limit (i + n))) [
  | inl e ↦ rw e (refl, ground arith)
  | inr e ↦ rw e (refl, ground arith, ground (arith, v.limit, v.storage))
]

-- In a valid buffer each of the two checks, for itself and whatever index and length are asked for,
-- grants the index that was asked for, the position for the one, just where it and the length are not
-- negative and the bytes stand in front of the limit: they lie inside the storage then, so no granted
-- access leaves the array. Where a check refuses, the buffer is as before.
pub check_index_inside :
    (i n : ℤ) (b : ByteBuffer)
    → IsValid b
    → Checked b (pos b.position) n (check_get_put_index n b) × Checked b i n (check_index i n b)
check_index_inside i n b v = (check_get_put_index-Checked n b v, check_index-Checked i n b v)
