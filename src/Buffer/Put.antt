-- ===== src/Buffer/Put.antt =====
-- What the writing methods of include/ByteBuffer.hpp do where there is room, and where there is none.
use voltdb_client_cpp.Prelude.{
  ℕ, ◌+◌, ◌*◌, ◌^◌, ◌≤◌, ◌<◌, ◌≡◌, sym, ap, ◌∙◌, List, [], ◌++◌, arith, length, length-append,
  take-length,
}
use voltdb_client_cpp.Prelude.Int.{ℤ, pos}
use voltdb_client_cpp.Action.{Action, done, skip, ◌>>◌, >>_done}
use voltdb_client_cpp.Wire.{to_bytes, to_word, cast}
use voltdb_client_cpp.Wire.Laws.{length-to_bytes, cast-Fits}
use voltdb_client_cpp.Buffer.Storage.{write_at, write_at-write_at, write_at-nil}
use voltdb_client_cpp.Buffer.{
  ByteBuffer, Void, check_get_put_index, put, put_word, put_int, put_bytes, put_string,
}

-- The buffer after a copy of `bs` to the position.
abbrev pub wrote : List ℕ → ByteBuffer → ByteBuffer
wrote bs b = record b {
  storage = write_at b.position bs b.storage;
  position = b.position + length bs;
}

-- A method that writes `bs` wherever they fit.
pub record Writes (m : Action ByteBuffer Void) (bs : List ℕ) : Type 0 where
  pub fits : (b : ByteBuffer) → b.position + length bs ≤ b.limit → m b ≡ done tt (wrote bs b)

pub wrote-wrote : (xs ys : List ℕ) (b : ByteBuffer) → wrote ys (wrote xs b) ≡ wrote (xs ++ ys) b
wrote-wrote xs ys b =
    let e : b.position + length xs + length ys ≡ b.position + length (xs ++ ys) =
      omega (arith, length-append xs ys) in
    λ i. record b { storage = write_at-write_at b.position xs ys b.storage i; position = e i }

pub Writes-seq :
    {m k : Action ByteBuffer Void} {xs ys : List ℕ}
    → Writes m xs
    → Writes k ys
    → Writes (m >> k) (xs ++ ys)
Writes-seq {m} {k} {xs} {ys} v w = record {
  fits = λ b h.
      >>_done m k (v.fits b (omega (arith, length-append xs ys)))
      ∙ w.fits (wrote xs b) (omega (arith, length-append xs ys))
      ∙ ap (done tt) (wrote-wrote xs ys b);
}

-- Nothing is written.
pub Writes-skip : Writes skip []
Writes-skip = record {
  fits = λ b h. ap (done tt) (λ i. record b {
    storage = sym (write_at-nil b.position b.storage) i;
    position = plus_nil b i;
  });
}
  where
    plus_nil : (b : ByteBuffer) → b.position ≡ b.position + 0
    plus_nil b = omega arith

pub Writes-put_word : (n w : ℕ) → Writes (put_word n w) (to_bytes n w)
unfolding put_word check_get_put_index
Writes-put_word n w = record { fits = λ b h. ground (arith, length-to_bytes n w) }

pub Writes-put_int : (n : ℕ) (z : ℤ) → Writes (put_int n z) (to_bytes n (to_word n z))
unfolding put_int
Writes-put_int n z = Writes-put_word n (to_word n z)

pub Writes-put : (bs : List ℕ) → Writes (put bs (pos (length bs))) bs
unfolding put check_get_put_index
Writes-put bs = record { fits = λ b h. ground (arith, take-length bs) }

-- A text that an `int32_t` can count.
abbrev pub IsText : List ℕ → Type 0
IsText s = length s * 2 < 256 ^ 4

-- The bytes of a text on the wire: its length and its content.
abbrev pub text_bytes : List ℕ → List ℕ
text_bytes s = to_bytes 4 (length s) ++ s

size_cast : (s : List ℕ) → IsText s → cast 4 (pos (length s)) ≡ pos (length s)
size_cast s h = cast-Fits 4 (pos (length s)) (omega arith)

size_word : (s : List ℕ) → IsText s → to_word 4 (pos (length s)) ≡ length s
unfolding to_word
size_word s h = omega arith

pub Writes-put_bytes :
    (s : List ℕ) → IsText s → Writes (put_bytes (pos (length s)) s) (text_bytes s)
unfolding put_bytes
Writes-put_bytes s h =
    rw (size_word s h) at (Writes-seq (Writes-put_int 4 (pos (length s))) (Writes-put s))

pub Writes-put_string : (s : List ℕ) → IsText s → Writes (put_string s) (text_bytes s)
unfolding put_string
Writes-put_string s h = rw (size_cast s h) (Writes-put_bytes s h)
