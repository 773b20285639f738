-- ===== src/Buffer/Growth.antt =====
-- `ExpandableByteBuffer` of include/ByteBuffer.hpp: the doubling loop ends, room is made, and what
-- was written stays.
use voltdb_client_cpp.Prelude.{
  ℕ, zero, suc, ◌+◌, ◌-◌, ◌*◌, ◌^◌, ◌≤◌, ◌<◌, ◌≡◌, refl, ap, subst, ◌⊎◌, inl, inr, List, arith,
  length, length-append, take, take-append_take, length-take, length-replicate, replicate, ltb,
  true, some, Bool-cases,
}
use native.Mathlib.Nat.{pow-suc}
use voltdb_client_cpp.Prelude.Int.{pos}
use voltdb_client_cpp.Action.{Outcome, done}
use voltdb_client_cpp.Buffer.{
  ByteBuffer, Void, double_until, reallocate, ensure_capacity, ensure_remaining, remaining,
}

-- From a size that is not 0 the doubling loop ends within the fuel, at the size itself or below twice
-- the target, where the target is at most 2 ^ 30 and at most the size doubled as often as the fuel
-- allows.
pub double_until_ends :
    (fuel size target : ℕ)
    → 0 < size
    → target ≤ 2 ^ 30
    → target ≤ size * 2 ^ fuel
    → (n : ℕ) × (double_until (suc fuel) size target ≡ some n)
      × (target ≤ n)
      × ((n ≡ size) ⊎ (n < target * 2))
unfolding double_until
double_until_ends zero size target hs ht h = (size, ground arith, omega arith, inl refl)
double_until_ends (suc fuel) size target hs ht h = elim (Bool-cases (ltb size target)) [
  | inl more ↦
      let (n, e, l, b) =
        double_until_ends fuel (size * 2) target (omega arith) ht
          (omega (arith, ap (λ (p : ℕ). size * p) (pow-suc 2 fuel))) in
      (n, ground (arith, e), l, inr (ground (arith, b)))
  | inr stop ↦ (size, ground arith, ground arith, inl refl)
]

-- A buffer that is open for writing: its limit is its capacity.
pub record IsOpen (b : ByteBuffer) : Type 0 where
  pub expandable : b.expandable ≡ true
  pub limit : b.limit ≡ b.capacity
  pub storage : length b.storage ≡ b.capacity
  pub position : b.position ≤ b.capacity
  pub capacity : 0 < b.capacity

-- What has been written.
abbrev pub written : ByteBuffer → List ℕ
written b = take b.position b.storage

length-written : (b : ByteBuffer) → IsOpen b → length (written b) ≡ b.position
length-written b v = omega (arith, length-take b.position b.storage)

written-reallocate : (n : ℕ) (b : ByteBuffer) → IsOpen b → written (reallocate n b) ≡ written b
unfolding reallocate
written-reallocate n b v = take-append_take b.position b.storage _ (omega arith)

reallocate-IsOpen : (n : ℕ) (b : ByteBuffer) → IsOpen b → b.capacity ≤ n → IsOpen (reallocate n b)
unfolding reallocate
reallocate-IsOpen n b v h = record {
  expandable = v.expandable;
  limit = refl;
  storage = omega (
    arith,
    length-append (take b.position b.storage) (replicate (n - b.position) 0),
    length-written b v,
    length-replicate {A = ℕ} (n - b.position) 0,
  );
  position = omega arith;
  capacity = omega arith;
}

-- The buffer has room for `n` more bytes, and nothing else changed.
pub record HasRoom (n : ℕ) (b : ByteBuffer) (o : Outcome ByteBuffer Void) : Type 0 where
  pub buffer : ByteBuffer
  pub result : o ≡ done tt buffer
  pub is_open : IsOpen buffer
  pub room : buffer.position + n ≤ buffer.limit
  pub text : written buffer ≡ written b
  pub place : buffer.position ≡ b.position

grown :
    (n size : ℕ) (b : ByteBuffer)
    → IsOpen b
    → b.capacity ≤ size
    → b.position + n ≤ size
    → HasRoom n b (done tt (reallocate size b))
unfolding reallocate
grown n size b v h r = record {
  buffer = reallocate size b;
  result = refl;
  is_open = reallocate-IsOpen size b v h;
  room = r;
  text = written-reallocate size b v;
  place = refl;
}

-- `ensureRemaining(n)` on a buffer open to its capacity returns with room for `n` bytes, what was
-- written and the position unchanged, as long as they end within 2 ^ 30 bytes.
pub ensure_remaining_lem :
    (n : ℕ) (b : ByteBuffer)
    → IsOpen b
    → b.position + n ≤ 2 ^ 30
    → HasRoom n b (ensure_remaining (pos n) b)
unfolding ensure_remaining ensure_capacity remaining
ensure_remaining_lem n b v h = elim (Bool-cases (ltb b.capacity (b.position + n))) [
  | inl small ↦
      let (size, e, l, o) =
        double_until_ends 31 b.capacity (b.position + n) v.capacity h (omega (arith, v.capacity)) in
      subst (HasRoom n b) (ground (arith, e)) (grown n size b v (ground (arith, o)) l)
  | inr large ↦ record {
    buffer = b;
    result = ground arith;
    is_open = v;
    room = ground arith;
    text = refl;
    place = refl;
  }
]
