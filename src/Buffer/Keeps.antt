-- ===== src/Buffer/Keeps.antt =====
-- Methods of include/ByteBuffer.hpp that keep a buffer in bounds: the rules, and the methods that
-- read and write.
use voltdb_client_cpp.Prelude.{
  ℕ, ◌≤◌, ◌≡◌, ◌∙◌, List, ◌||◌, arith, length, take, if◌then◌else◌, Bool, true, false, none, some,
  not,
}
use voltdb_client_cpp.Prelude.Int.{ℤ, pos, negsuc, ltb_ℤ, eqb_ℤ, ◌+ℤ◌}
use voltdb_client_cpp.Action.{Action, Outcome, done, fail, ◌>>=◌, ◌>>◌, continue, state_of, pure}
use voltdb_client_cpp.Buffer.Storage.{write_at, length-write_at}
use voltdb_client_cpp.Wire.{to_bytes, from_bytes, to_word, to_int}
use voltdb_client_cpp.Buffer.{
  ByteBuffer, Void, copy_in, copy_out, found, check_get_put_index, check_index, put, put_at, get,
  get_at, put_word, put_word_at, get_word, get_word_at, put_int, put_int_at, get_int, get_int_at,
  get_string, get_string_at, get_bytes, get_bytes_at, put_bytes, put_bytes_at,
}

pub record IsValid (b : ByteBuffer) : Type 0 where
  pub limit : b.limit ≤ b.capacity
  pub position : b.position ≤ b.capacity
  pub storage : length b.storage ≡ b.capacity

-- The method keeps the bounds, whether it returns or throws.
pub record Keeps {A : Type 0} (m : Action ByteBuffer A) : Type 0 where
  pub at : (b : ByteBuffer) → IsValid b → IsValid (state_of (m b))

pub Keeps-check_get_put_index : (n : ℤ) → Keeps (check_get_put_index n)
unfolding check_get_put_index
Keeps-check_get_put_index (pos n) = record {
  at = λ b v. ground (arith, v.limit, v.position, v.storage);
}
Keeps-check_get_put_index (negsuc n) = record { at = λ b v. v }

pub Keeps-check_index : (i n : ℤ) → Keeps (check_index i n)
unfolding check_index
Keeps-check_index (pos i) (pos n) = record {
  at = λ b v. ground (arith, v.limit, v.position, v.storage);
}
Keeps-check_index (pos i) (negsuc n) = record { at = λ b v. v }
Keeps-check_index (negsuc i) n = record { at = λ b v. v }

pub Keeps-pure : {A : Type 0} (a : A) → Keeps (pure a)
Keeps-pure a = record { at = λ b v. v }

pub continue-IsValid :
    {A B : Type 0} (o : Outcome ByteBuffer A) (f : A → Action ByteBuffer B)
    → IsValid (state_of o)
    → ((a : A) → Keeps (f a))
    → IsValid (state_of (continue o f))
continue-IsValid (done a b) f v k = (k a).at b v
continue-IsValid (fail e b) f v k = v

pub Keeps-bind :
    {A B : Type 0} {m : Action ByteBuffer A} (f : A → Action ByteBuffer B)
    → Keeps m
    → ((a : A) → Keeps (f a))
    → Keeps (m >>= f)
Keeps-bind {m = m} f k l = record { at = λ b v. continue-IsValid (m b) f (k.at b v) l }

pub Keeps-seq :
    {B : Type 0} {m : Action ByteBuffer Void} {n : Action ByteBuffer B}
    → Keeps m
    → Keeps n
    → Keeps (m >> n)
Keeps-seq {m = m} {n = n} k l = record {
  at = λ b v. continue-IsValid (m b) (λ _. n) (k.at b v) (λ _. l);
}

pub Keeps-if :
    {A : Type 0} (t : Bool) {m n : Action ByteBuffer A}
    → Keeps m
    → Keeps n
    → Keeps (if t then m else n)
Keeps-if true k l = k
Keeps-if false k l = l

copied_in :
    (i : ℕ) (bs : List ℕ) (b : ByteBuffer)
    → IsValid b
    → IsValid (record b { storage = write_at i bs b.storage })
copied_in i bs b v = record {
  limit = v.limit;
  position = v.position;
  storage = length-write_at i bs b.storage ∙ v.storage;
}

pub Keeps-copy_in : (i : ℕ) (bs : List ℕ) → Keeps (copy_in i bs)
Keeps-copy_in i bs = record {
  at = λ b v. record {
    limit = v.limit;
    position = v.position;
    storage = length-write_at i bs b.storage ∙ v.storage;
  };
}

pub Keeps-copy_out : (i n : ℕ) → Keeps (copy_out i n)
Keeps-copy_out i n = record { at = λ b v. v }

pub Keeps-put : (bs : List ℕ) (n : ℤ) → Keeps (put bs n)
unfolding put
Keeps-put bs (pos n) =
    Keeps-bind _ (Keeps-check_get_put_index (pos n)) (λ i. Keeps-copy_in i (take n bs))
Keeps-put bs (negsuc n) = record { at = λ b v. v }

pub Keeps-put_at : (i : ℤ) (bs : List ℕ) (n : ℤ) → Keeps (put_at i bs n)
unfolding put_at
Keeps-put_at i bs (pos n) =
    Keeps-bind _ (Keeps-check_index i (pos n)) (λ j. Keeps-copy_in j (take n bs))
Keeps-put_at i bs (negsuc n) = record { at = λ b v. v }

pub Keeps-get : (n : ℤ) → Keeps (get n)
unfolding get
Keeps-get (pos n) = Keeps-bind _ (Keeps-check_get_put_index (pos n)) (λ i. Keeps-copy_out i n)
Keeps-get (negsuc n) = record { at = λ b v. v }

pub Keeps-get_at : (i n : ℤ) → Keeps (get_at i n)
unfolding get_at
Keeps-get_at i (pos n) = Keeps-bind _ (Keeps-check_index i (pos n)) (λ j. Keeps-copy_out j n)
Keeps-get_at i (negsuc n) = record { at = λ b v. v }

pub Keeps-put_int : (n : ℕ) (z : ℤ) → Keeps (put_int n z)
unfolding put_int put_word
Keeps-put_int n z =
    Keeps-bind _ (Keeps-check_get_put_index (pos n))
      (λ i. Keeps-copy_in i (to_bytes n (to_word n z)))

pub Keeps-put_int_at : (n : ℕ) (i z : ℤ) → Keeps (put_int_at n i z)
unfolding put_int_at put_word_at
Keeps-put_int_at n i z =
    Keeps-bind _ (Keeps-check_index i (pos n)) (λ j. Keeps-copy_in j (to_bytes n (to_word n z)))

pub Keeps-get_int : (n : ℕ) → Keeps (get_int n)
unfolding get_int get_word
Keeps-get_int n =
    Keeps-bind _
      (Keeps-bind _ (Keeps-check_get_put_index (pos n))
        (λ i. Keeps-bind _ (Keeps-copy_out i n) (λ bs. Keeps-pure (from_bytes bs))))
      (λ w. Keeps-pure (to_int n w))

pub Keeps-get_int_at : (n : ℕ) (i : ℤ) → Keeps (get_int_at n i)
unfolding get_int_at get_word_at
Keeps-get_int_at n i =
    Keeps-bind _
      (Keeps-bind _ (Keeps-check_index i (pos n))
        (λ j. Keeps-bind _ (Keeps-copy_out j n) (λ bs. Keeps-pure (from_bytes bs))))
      (λ w. Keeps-pure (to_int n w))

pub Keeps-get_string : Keeps get_string
unfolding get_string
Keeps-get_string = Keeps-bind _ (Keeps-get_int 4) λ n.
    Keeps-if (eqb_ℤ n (negsuc 0)) (Keeps-pure none)
      (Keeps-bind _ (Keeps-get n) (λ bs. Keeps-pure (some bs)))

pub Keeps-get_string_at : (i : ℤ) → Keeps (get_string_at i)
unfolding get_string_at
Keeps-get_string_at i = Keeps-bind _ (Keeps-get_int_at 4 i) λ n.
    Keeps-if (eqb_ℤ n (negsuc 0)) (Keeps-pure none)
      (Keeps-bind _ (Keeps-get_at (i +ℤ pos 4) n) (λ bs. Keeps-pure (some bs)))

pub Keeps-get_bytes : (size : ℤ) (out : Bool) → Keeps (get_bytes size out)
unfolding get_bytes
Keeps-get_bytes size out = Keeps-bind _ (Keeps-get_int 4) λ n.
    Keeps-if (eqb_ℤ n (negsuc 0)) (Keeps-pure _) (
      Keeps-if (not out || ltb_ℤ size n) (Keeps-pure _)
        (Keeps-bind _ (Keeps-get n) (λ bs. Keeps-pure (found n bs))))

pub Keeps-get_bytes_at : (i size : ℤ) (out : Bool) → Keeps (get_bytes_at i size out)
unfolding get_bytes_at
Keeps-get_bytes_at i size out = Keeps-bind _ (Keeps-get_int_at 4 i) λ n.
    Keeps-if (eqb_ℤ n (negsuc 0)) (Keeps-pure _) (
      Keeps-if (not out || ltb_ℤ size n) (Keeps-pure _)
        (Keeps-bind _ (Keeps-get_at (i +ℤ pos 4) n) (λ bs. Keeps-pure (found n bs))))

pub Keeps-put_bytes : (n : ℤ) (bs : List ℕ) → Keeps (put_bytes n bs)
unfolding put_bytes
Keeps-put_bytes n bs = Keeps-seq (Keeps-put_int 4 n) (Keeps-put bs n)

pub Keeps-put_bytes_at : (i n : ℤ) (bs : List ℕ) → Keeps (put_bytes_at i n bs)
unfolding put_bytes_at
Keeps-put_bytes_at i n bs = Keeps-seq (Keeps-put_int_at 4 i n) (Keeps-put_at (i +ℤ pos 4) bs n)
