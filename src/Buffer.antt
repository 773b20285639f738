-- ===== src/Buffer.antt =====
-- include/ByteBuffer.hpp: `ByteBuffer` and its expandable subclasses. Positions, limits and
-- capacities are numbers; lengths, indices and values that a caller passes are integers.
pub mod Bounds
pub mod Checks
pub mod Equal
pub mod Storage
pub mod Keeps
pub mod Invariant
pub mod Put
pub mod Get
pub mod Growth
pub mod Append
pub mod Frame
pub mod At
use voltdb_client_cpp.Prelude.{
  ℕ, zero, suc, ◌+◌, ◌-◌, ◌*◌, ◌^◌, ◌<◌, Bool, true, false, Option, none, some, List, [], ◌∷◌, ◌++◌,
  ltb, ◌==◌, ◌||◌, not, if◌then◌else◌, length, take, replicate,
}
use voltdb_client_cpp.Prelude.Int.{ℤ, pos, negsuc, sub_ℕ, ◌+ℤ◌, ltb_ℤ, eqb_ℤ}
use voltdb_client_cpp.Action.{
  Action, Outcome, done, fail, pure, throw, gets, modify, skip, throw_if, ◌>>=◌, ◌>>◌, undefined,
  overflow_underflow, index_out_of_bounds, non_expandable_buffer,
}
use voltdb_client_cpp.Wire.{to_bytes, from_bytes, to_word, to_int, cast}
use Storage.{read_at, write_at}

-- `storage` is what `m_buffer` points to; `expandable` tells an ExpandableByteBuffer. Storage that
-- `new char[n]` leaves unspecified reads as 0.
pub record ByteBuffer : Type 0 where
  pub storage : List ℕ
  pub position : ℕ
  pub capacity : ℕ
  pub limit : ℕ
  pub expandable : Bool

abbrev pub Void : Type 0
Void = Unit {0}

-- `ScopedByteBuffer(int32_t capacity)`.
unfoldable pub scoped : ℕ → ByteBuffer
scoped n = record {
  storage = replicate n 0;
  position = 0;
  capacity = n;
  limit = n;
  expandable = true;
}

-- `ByteBuffer(char *buffer, int32_t capacity)` over bytes that are there.
unfoldable pub wrap : List ℕ → ByteBuffer
wrap bs = record {
  storage = bs;
  position = 0;
  capacity = length bs;
  limit = length bs;
  expandable = false;
}

-- `checkGetPutIndex`: `m_limit - m_position < length || length < 0`.
unfoldable pub check_get_put_index : ℤ → Action ByteBuffer ℕ
check_get_put_index (negsuc k) b = fail overflow_underflow b
check_get_put_index (pos n) b =
    if ltb b.limit (b.position + n)
    then fail overflow_underflow b
    else done b.position (record b { position = b.position + n })

-- `checkIndex`: `index < 0 || length > m_limit - index || length < 0`.
unfoldable pub check_index : ℤ → ℤ → Action ByteBuffer ℕ
check_index (negsuc i) n b = fail index_out_of_bounds b
check_index (pos i) (negsuc n) b = fail index_out_of_bounds b
check_index (pos i) (pos n) b = if ltb b.limit (i + n) then fail index_out_of_bounds b else done i b

unfoldable pub flip : Action ByteBuffer Void
flip b = done tt (record b { limit = b.position; position = 0 })

unfoldable pub clear : Action ByteBuffer Void
clear b = done tt (record b { limit = b.capacity; position = 0 })

-- The `memcpy`s between the storage and the caller's memory.
abbrev pub copy_out : ℕ → ℕ → Action ByteBuffer (List ℕ)
copy_out i n b = done (read_at i n b.storage) b

abbrev pub copy_in : ℕ → List ℕ → Action ByteBuffer Void
copy_in i bs b = done tt (record b { storage = write_at i bs b.storage })

-- `put(const char *storage, int32_t length)` and its form with an index.
unfoldable pub put : List ℕ → ℤ → Action ByteBuffer Void
put bs (negsuc n) = throw overflow_underflow
put bs (pos n) = do i ← check_get_put_index (pos n); copy_in i (take n bs)

unfoldable pub put_at : ℤ → List ℕ → ℤ → Action ByteBuffer Void
put_at index bs (negsuc n) = throw index_out_of_bounds
put_at index bs (pos n) = do i ← check_index index (pos n); copy_in i (take n bs)

-- `get(char *storage, int32_t length)` and its form with an index.
unfoldable pub get : ℤ → Action ByteBuffer (List ℕ)
get (negsuc n) = throw overflow_underflow
get (pos n) = do i ← check_get_put_index (pos n); copy_out i n

unfoldable pub get_at : ℤ → ℤ → Action ByteBuffer (List ℕ)
get_at index (negsuc n) = throw index_out_of_bounds
get_at index (pos n) = do i ← check_index index (pos n); copy_out i n

-- `putInt8` to `putInt64` write the pattern of an integer in 1, 2, 4 or 8 bytes; `putDouble` writes
-- the pattern of a double, which is given here as its 64-bit word.
unfoldable pub put_word : ℕ → ℕ → Action ByteBuffer Void
put_word n w = do i ← check_get_put_index (pos n); copy_in i (to_bytes n w)

unfoldable pub put_word_at : ℕ → ℤ → ℕ → Action ByteBuffer Void
put_word_at n index w = do i ← check_index index (pos n); copy_in i (to_bytes n w)

unfoldable pub get_word : ℕ → Action ByteBuffer ℕ
get_word n = do i ← check_get_put_index (pos n); bs ← copy_out i n; pure (from_bytes bs)

unfoldable pub get_word_at : ℕ → ℤ → Action ByteBuffer ℕ
get_word_at n index = do i ← check_index index (pos n); bs ← copy_out i n; pure (from_bytes bs)

unfoldable pub put_int : ℕ → ℤ → Action ByteBuffer Void
put_int n z = put_word n (to_word n z)

unfoldable pub put_int_at : ℕ → ℤ → ℤ → Action ByteBuffer Void
put_int_at n index z = put_word_at n index (to_word n z)

unfoldable pub get_int : ℕ → Action ByteBuffer ℤ
get_int n = do w ← get_word n; pure (to_int n w)

unfoldable pub get_int_at : ℕ → ℤ → Action ByteBuffer ℤ
get_int_at n index = do w ← get_word_at n index; pure (to_int n w)

-- `getString(bool &wasNull)`: `none` where the code sets `wasNull` and returns the empty string.
unfoldable pub get_string : Action ByteBuffer (Option (List ℕ))
get_string = do
  n ← get_int 4
  if eqb_ℤ n (negsuc 0) then pure none else get n >>= λ bs. pure (some bs)

unfoldable pub get_string_at : ℤ → Action ByteBuffer (Option (List ℕ))
get_string_at index = do
  n ← get_int_at 4 index
  if eqb_ℤ n (negsuc 0) then pure none else get_at (index +ℤ pos 4) n >>= λ bs. pure (some bs)

-- What `getBytes` reports: its result, `wasNull` where it was set, `*out_len`, and the bytes copied.
pub record BytesOut : Type 0 where
  pub fitted : Bool
  pub was_null : Bool
  pub out_len : ℤ
  pub out_value : List ℕ

abbrev pub found : ℤ → List ℕ → BytesOut
found n bs = record { fitted = true; was_null = false; out_len = n; out_value = bs }

-- `getBytes(index, wasNull, bufsize, out_value, out_len)`; `has_out` tells that `out_value` is set.
unfoldable pub get_bytes_at : ℤ → ℤ → Bool → Action ByteBuffer BytesOut
get_bytes_at index bufsize has_out = do
  n ← get_int_at 4 index
  if eqb_ℤ n (negsuc 0)
      then pure (record { fitted = true; was_null = true; out_len = n; out_value = [] })
      else if not has_out || ltb_ℤ bufsize n
      then pure (record { fitted = false; was_null = false; out_len = n; out_value = [] })
      else get_at (index +ℤ pos 4) n >>= λ bs. pure (found n bs)

unfoldable pub get_bytes : ℤ → Bool → Action ByteBuffer BytesOut
get_bytes bufsize has_out = do
  n ← get_int 4
  if eqb_ℤ n (negsuc 0)
      then pure (record { fitted = true; was_null = true; out_len = n; out_value = [] })
      else if not has_out || ltb_ℤ bufsize n
      then pure (record { fitted = false; was_null = false; out_len = n; out_value = [] })
      else get n >>= λ bs. pure (found n bs)

-- `putBytes(bufsize, in_value)`, for an `in_value` of at least `bufsize` bytes.
unfoldable pub put_bytes : ℤ → List ℕ → Action ByteBuffer Void
put_bytes bufsize bs = put_int 4 bufsize >> put bs bufsize

unfoldable pub put_bytes_at : ℤ → ℤ → List ℕ → Action ByteBuffer Void
put_bytes_at index bufsize bs = put_int_at 4 index bufsize >> put_at (index +ℤ pos 4) bs bufsize

-- `putString`: the size is cast to `int32_t`.
unfoldable pub put_string : List ℕ → Action ByteBuffer Void
put_string s = put_bytes (cast 4 (pos (length s))) s

unfoldable pub put_string_at : ℤ → List ℕ → Action ByteBuffer Void
put_string_at index s = put_bytes_at index (cast 4 (pos (length s))) s

unfoldable pub set_position : ℤ → Action ByteBuffer Void
set_position index = do i ← check_index index (pos 0); modify (λ b. record b { position = i })

unfoldable pub set_limit : ℤ → Action ByteBuffer Void
set_limit (negsuc n) b = fail index_out_of_bounds b
set_limit (pos n) b =
    if ltb b.capacity n then fail index_out_of_bounds b else done tt (record b { limit = n })

unfoldable pub remaining : ByteBuffer → ℤ
remaining b = sub_ℕ b.limit b.position

unfoldable pub has_remaining : ByteBuffer → Bool
has_remaining b = ltb b.position b.limit

-- `put(ByteBuffer *other)`: the other buffer, advanced, is the result.
unfoldable pub put_sized : ℤ → ByteBuffer → Action ByteBuffer ByteBuffer
put_sized size other b = if eqb_ℤ size (pos 0) then done other b else elim (get size other) [
  | fail e _ ↦ fail e b
  | done bs other' ↦ (put bs size >>= λ _. pure other') b
]

unfoldable pub put_buffer : ByteBuffer → Action ByteBuffer ByteBuffer
put_buffer other = put_sized (remaining other) other

-- `slice`: a buffer over the unread bytes. A limit below the position is outside the model.
unfoldable pub slice : Action ByteBuffer ByteBuffer
slice b =
    if ltb b.limit b.position
    then fail undefined b
    else done
        (record {
          storage = read_at b.position (b.limit - b.position) b.storage;
          position = 0;
          capacity = b.limit - b.position;
          limit = b.limit - b.position;
          expandable = b.expandable;
        })
        (record b { position = b.limit })

-- `while (newCapacity < capacity) newCapacity *= 2;` on fuel. `none` tells that the product leaves
-- the `int32_t`, or that the fuel ran out, which it does from 0 only.
unfoldable pub double_until : ℕ → ℕ → ℕ → Option ℕ
double_until zero size target = none
double_until (suc fuel) size target =
    let rest = double_until fuel (size * 2) target in
    if ltb size target then if ltb (size * 2) (2 ^ 31) then rest else none else some size

-- New storage that holds the bytes in front of the position.
unfoldable pub reallocate : ℕ → ByteBuffer → ByteBuffer
reallocate n b = record b {
  storage = take b.position b.storage ++ replicate (n - b.position) 0;
  capacity = n;
  limit = n;
}

abbrev reallocate_to : Option ℕ → Action ByteBuffer Void
reallocate_to none b = fail undefined b
reallocate_to (some n) b = done tt (reallocate n b)

unfoldable pub ensure_capacity : ℤ → Action ByteBuffer Void
ensure_capacity (negsuc n) b = if b.expandable then done tt b else fail non_expandable_buffer b
ensure_capacity (pos n) b =
    if not b.expandable
    then fail non_expandable_buffer b
    else if ltb b.capacity n
    then reallocate_to (double_until 32 b.capacity n) b
    else done tt b

unfoldable pub ensure_capacity_exact : ℤ → Action ByteBuffer Void
ensure_capacity_exact (negsuc n) b =
    if b.expandable then done tt b else fail non_expandable_buffer b
ensure_capacity_exact (pos n) b =
    if not b.expandable
    then fail non_expandable_buffer b
    else if ltb b.capacity n
    then done tt (reallocate n b)
    else done tt b

unfoldable pub ensure_remaining : ℤ → Action ByteBuffer Void
ensure_remaining amount b =
    if not b.expandable
    then fail non_expandable_buffer b
    else if ltb_ℤ (remaining b) amount
    then ensure_capacity (pos b.position +ℤ amount) b
    else done tt b

unfoldable pub ensure_remaining_exact : ℤ → Action ByteBuffer Void
ensure_remaining_exact amount b =
    if not b.expandable
    then fail non_expandable_buffer b
    else if ltb_ℤ (remaining b) amount
    then ensure_capacity_exact (pos b.position +ℤ amount) b
    else done tt b

-- `operator!=`: the capacities, and then the bytes up to the capacity by `memcmp`.
unfoldable pub eqb_bytes : List ℕ → List ℕ → Bool
eqb_bytes [] [] = true
eqb_bytes [] (y ∷ ys) = false
eqb_bytes (x ∷ xs) [] = false
eqb_bytes (x ∷ xs) (y ∷ ys) = if x == y then eqb_bytes xs ys else false

unfoldable pub ne_buffer : ByteBuffer → ByteBuffer → Bool
ne_buffer b c = not (
    if b.capacity == c.capacity
    then eqb_bytes (take b.capacity b.storage) (take b.capacity c.storage)
    else false)
