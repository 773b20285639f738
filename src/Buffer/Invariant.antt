-- ===== src/Buffer/Invariant.antt =====
-- The bounds of a buffer of include/ByteBuffer.hpp, through any sequence of its methods.
use voltdb_client_cpp.Prelude.{
  ℕ, zero, suc, ◌-◌, ◌*◌, ◌≤◌, ◌≡◌, refl, List, [], ◌∷◌, arith, length-append, take, length-take,
  length-replicate, replicate, ltb, if◌then◌else◌, Bool, true, false, Option, none, some, not,
}
use voltdb_client_cpp.Prelude.Int.{ℤ, pos, negsuc, ltb_ℤ, ◌+ℤ◌}
use voltdb_client_cpp.Action.{Outcome, done, state_of}
use voltdb_client_cpp.Buffer.Storage.{length-read_at}
use voltdb_client_cpp.Buffer.Keeps.{
  IsValid, Keeps, Keeps-put, Keeps-put_at, Keeps-get, Keeps-get_at, Keeps-put_int, Keeps-put_int_at,
  Keeps-get_int, Keeps-get_int_at, Keeps-get_string, Keeps-get_string_at, Keeps-get_bytes,
  Keeps-get_bytes_at, Keeps-put_bytes, Keeps-put_bytes_at,
}
use voltdb_client_cpp.Buffer.{
  ByteBuffer, check_index, flip, clear, put, put_at, get, get_at, put_int, put_int_at, get_int,
  get_int_at, get_string, get_string_at, get_bytes, get_bytes_at, put_bytes, put_bytes_at,
  set_position, set_limit, slice, double_until, reallocate, reallocate_to, ensure_capacity,
  ensure_capacity_exact, ensure_remaining, ensure_remaining_exact, remaining,
}

Keeps-set_position : (i : ℤ) → Keeps (set_position i)
unfolding set_position check_index
Keeps-set_position (pos i) = record { at = λ b v. ground (arith, v.limit, v.position, v.storage) }
Keeps-set_position (negsuc i) = record { at = λ b v. v }

Keeps-set_limit : (i : ℤ) → Keeps (set_limit i)
unfolding set_limit
Keeps-set_limit (pos i) = record { at = λ b v. ground (arith, v.limit, v.position, v.storage) }
Keeps-set_limit (negsuc i) = record { at = λ b v. v }

Keeps-slice : Keeps slice
unfolding slice
Keeps-slice = record { at = λ b v. ground (arith, v.limit, v.position, v.storage) }

-- The slice itself is a buffer in bounds.
pub slice-IsValid : (b s b' : ByteBuffer) → IsValid b → slice b ≡ done s b' → IsValid s
unfolding slice
slice-IsValid b s b' v e = ground (
  arith,
  v.limit,
  v.position,
  v.storage,
  length-read_at b.position (b.limit - b.position) b.storage,
)

reallocate-IsValid :
    (n : ℕ) (b : ByteBuffer) → IsValid b → b.capacity ≤ n → IsValid (reallocate n b)
unfolding reallocate
reallocate-IsValid n b v h = record {
  limit = omega arith;
  position = omega (arith, v.position);
  storage = omega (
    arith,
    v.position,
    v.storage,
    length-append (take b.position b.storage) (replicate (n - b.position) 0),
    length-take b.position b.storage,
    length-replicate {A = ℕ} (n - b.position) 0,
  );
}

double_until-ge : (fuel size target n : ℕ) → double_until fuel size target ≡ some n → size ≤ n
unfolding double_until
double_until-ge zero size target n e = cc
double_until-ge (suc fuel) size target n e =
    ground (arith, double_until-ge fuel (size * 2) target n)

reallocate_to-IsValid :
    (o : Option ℕ) (b : ByteBuffer)
    → IsValid b
    → ((n : ℕ) → o ≡ some n → b.capacity ≤ n)
    → IsValid (state_of (reallocate_to o b))
reallocate_to-IsValid none b v h = v
reallocate_to-IsValid (some n) b v h = reallocate-IsValid n b v (h n refl)

state_if :
    {A : Type 0} (t : Bool) (o p : Outcome ByteBuffer A)
    → (t ≡ true → IsValid (state_of o))
    → (t ≡ false → IsValid (state_of p))
    → IsValid (state_of (if t then o else p))
state_if true o p h k = h refl
state_if false o p h k = k refl

Keeps-ensure_capacity : (n : ℤ) → Keeps (ensure_capacity n)
unfolding ensure_capacity
Keeps-ensure_capacity (negsuc n) = record {
  at = λ b v. state_if b.expandable _ _ (λ _. v) (λ _. v);
}
Keeps-ensure_capacity (pos n) = record {
  at = λ b v.
      state_if (not b.expandable) _ _ (λ _. v)
        λ _.
          state_if (ltb b.capacity n) _ _
            (λ _. reallocate_to-IsValid _ b v (λ k e. double_until-ge 32 b.capacity n k e))
            (λ _. v);
}

Keeps-ensure_capacity_exact : (n : ℤ) → Keeps (ensure_capacity_exact n)
unfolding ensure_capacity_exact
Keeps-ensure_capacity_exact (negsuc n) = record {
  at = λ b v. state_if b.expandable _ _ (λ _. v) (λ _. v);
}
Keeps-ensure_capacity_exact (pos n) = record {
  at = λ b v.
      state_if (not b.expandable) _ _ (λ _. v)
        λ _.
          state_if (ltb b.capacity n) _ _ (λ e. reallocate-IsValid n b v (ground arith)) (λ _. v);
}

Keeps-ensure_remaining : (n : ℤ) → Keeps (ensure_remaining n)
unfolding ensure_remaining
Keeps-ensure_remaining n = record {
  at = λ b v.
      state_if (not b.expandable) _ _ (λ _. v)
        λ _.
          state_if (ltb_ℤ (remaining b) n) _ _
            (λ _. (Keeps-ensure_capacity (pos b.position +ℤ n)).at b v) (λ _. v);
}

Keeps-ensure_remaining_exact : (n : ℤ) → Keeps (ensure_remaining_exact n)
unfolding ensure_remaining_exact
Keeps-ensure_remaining_exact n = record {
  at = λ b v.
      state_if (not b.expandable) _ _ (λ _. v)
        λ _.
          state_if (ltb_ℤ (remaining b) n) _ _
            (λ _. (Keeps-ensure_capacity_exact (pos b.position +ℤ n)).at b v) (λ _. v);
}

-- The public methods of the class, with the arguments that C++ passes.
pub data Call : Type 0 where
  flips clears slices : Call
  gets_string : Call
  gets gets_string_at sets_position sets_limit ensures ensures_exact : ℤ → Call
  ensures_remaining ensures_remaining_exact : ℤ → Call
  gets_at : ℤ → ℤ → Call
  puts puts_bytes : List ℕ → ℤ → Call
  puts_at puts_bytes_at : ℤ → List ℕ → ℤ → Call
  gets_int : ℕ → Call
  gets_int_at : ℕ → ℤ → Call
  puts_int : ℕ → ℤ → Call
  puts_int_at : ℕ → ℤ → ℤ → Call
  gets_bytes : ℤ → Bool → Call
  gets_bytes_at : ℤ → ℤ → Bool → Call

unfoldable pub after_call : Call → ByteBuffer → ByteBuffer
after_call flips b = state_of (flip b)
after_call clears b = state_of (clear b)
after_call slices b = state_of (slice b)
after_call gets_string b = state_of (get_string b)
after_call (gets n) b = state_of (get n b)
after_call (gets_string_at i) b = state_of (get_string_at i b)
after_call (sets_position i) b = state_of (set_position i b)
after_call (sets_limit i) b = state_of (set_limit i b)
after_call (ensures n) b = state_of (ensure_capacity n b)
after_call (ensures_exact n) b = state_of (ensure_capacity_exact n b)
after_call (ensures_remaining n) b = state_of (ensure_remaining n b)
after_call (ensures_remaining_exact n) b = state_of (ensure_remaining_exact n b)
after_call (gets_at i n) b = state_of (get_at i n b)
after_call (puts bs n) b = state_of (put bs n b)
after_call (puts_bytes bs n) b = state_of (put_bytes n bs b)
after_call (puts_at i bs n) b = state_of (put_at i bs n b)
after_call (puts_bytes_at i bs n) b = state_of (put_bytes_at i n bs b)
after_call (gets_int k) b = state_of (get_int k b)
after_call (gets_int_at k i) b = state_of (get_int_at k i b)
after_call (puts_int k z) b = state_of (put_int k z b)
after_call (puts_int_at k i z) b = state_of (put_int_at k i z b)
after_call (gets_bytes n out) b = state_of (get_bytes n out b)
after_call (gets_bytes_at i n out) b = state_of (get_bytes_at i n out b)

after_call-IsValid : (c : Call) (b : ByteBuffer) → IsValid b → IsValid (after_call c b)
unfolding after_call flip clear
after_call-IsValid flips b v = record {
  limit = v.position;
  position = omega arith;
  storage = v.storage;
}
after_call-IsValid clears b v = record {
  limit = omega arith;
  position = omega arith;
  storage = v.storage;
}
after_call-IsValid slices b v = Keeps-slice.at b v
after_call-IsValid gets_string b v = Keeps-get_string.at b v
after_call-IsValid (gets n) b v = (Keeps-get n).at b v
after_call-IsValid (gets_string_at i) b v = (Keeps-get_string_at i).at b v
after_call-IsValid (sets_position i) b v = (Keeps-set_position i).at b v
after_call-IsValid (sets_limit i) b v = (Keeps-set_limit i).at b v
after_call-IsValid (ensures n) b v = (Keeps-ensure_capacity n).at b v
after_call-IsValid (ensures_exact n) b v = (Keeps-ensure_capacity_exact n).at b v
after_call-IsValid (ensures_remaining n) b v = (Keeps-ensure_remaining n).at b v
after_call-IsValid (ensures_remaining_exact n) b v = (Keeps-ensure_remaining_exact n).at b v
after_call-IsValid (gets_at i n) b v = (Keeps-get_at i n).at b v
after_call-IsValid (puts bs n) b v = (Keeps-put bs n).at b v
after_call-IsValid (puts_bytes bs n) b v = (Keeps-put_bytes n bs).at b v
after_call-IsValid (puts_at i bs n) b v = (Keeps-put_at i bs n).at b v
after_call-IsValid (puts_bytes_at i bs n) b v = (Keeps-put_bytes_at i n bs).at b v
after_call-IsValid (gets_int k) b v = (Keeps-get_int k).at b v
after_call-IsValid (gets_int_at k i) b v = (Keeps-get_int_at k i).at b v
after_call-IsValid (puts_int k z) b v = (Keeps-put_int k z).at b v
after_call-IsValid (puts_int_at k i z) b v = (Keeps-put_int_at k i z).at b v
after_call-IsValid (gets_bytes n out) b v = (Keeps-get_bytes n out).at b v
after_call-IsValid (gets_bytes_at i n out) b v = (Keeps-get_bytes_at i n out).at b v

unfoldable pub after_calls : List Call → ByteBuffer → ByteBuffer
after_calls [] b = b
after_calls (c ∷ cs) b = after_calls cs (after_call c b)

-- Through any sequence of method calls, returning or throwing, the limit and the position stay
-- within the capacity, and the capacity stays the size of the storage.
pub after_calls-IsValid : (cs : List Call) (b : ByteBuffer) → IsValid b → IsValid (after_calls cs b)
unfolding after_calls
after_calls-IsValid [] b v = v
after_calls-IsValid (c ∷ cs) b v =
    after_calls-IsValid cs (after_call c b) (after_call-IsValid c b v)
