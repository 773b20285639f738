-- ===== src/Params/Elements.antt =====
-- The loops over the elements of an array parameter, include/ParameterSet.hpp.
use voltdb_client_cpp.Prelude.{
  ℕ, ◌+◌, ◌*◌, ◌^◌, ◌≤◌, ◌≡◌, sym, subst, List, [], ◌∷◌, arith, length, length-append,
}
use voltdb_client_cpp.Prelude.Int.{pos}
use voltdb_client_cpp.Action.{Action}
use voltdb_client_cpp.Wire.{to_bytes, cast}
use voltdb_client_cpp.Wire.Laws.{length-to_bytes, cast-Fits}
use voltdb_client_cpp.Buffer.{ByteBuffer, Void, put_bytes}
use voltdb_client_cpp.Buffer.Put.{Writes, Writes-skip, Writes-seq, Writes-put_bytes, text_bytes}
use voltdb_client_cpp.Params.{for_each, total_size}
use voltdb_client_cpp.Params.Values.{each}

pub Writes-for_each :
    {A : Type 0} (w : A → Action ByteBuffer Void) (f : A → List ℕ) (xs : List A)
    → ((x : A) → Writes (w x) (f x))
    → Writes (for_each w xs) (each f xs)
unfolding for_each
Writes-for_each w f [] h = Writes-skip
Writes-for_each w f (x ∷ xs) h = Writes-seq (h x) (Writes-for_each w f xs h)

pub length-each :
    {A : Type 0} (n : ℕ) (f : A → List ℕ) (xs : List A)
    → ((x : A) → length (f x) ≡ n)
    → length (each f xs) ≡ n * length xs
length-each n f [] h = omega arith
length-each n f (x ∷ xs) h =
    omega (arith, h x, length-append (f x) (each f xs), length-each n f xs h)

-- A size that an `int32_t` holds is cast to itself.
pub cast_size : (n : ℕ) → n ≤ 2 ^ 30 → cast 4 (pos n) ≡ pos n
cast_size n h = cast-Fits 4 (pos n) (omega arith)

abbrev pub put_text : List ℕ → Action ByteBuffer Void
put_text s = put_bytes (cast 4 (pos (length s))) s

pub Writes-put_texts :
    (ss : List (List ℕ))
    → total_size ss ≤ 2 ^ 30
    → Writes (for_each put_text ss) (each text_bytes ss)
unfolding for_each total_size
Writes-put_texts [] h = Writes-skip
Writes-put_texts (s ∷ ss) h =
    Writes-seq
      (subst (λ z. Writes (put_bytes z s) (text_bytes s)) (sym (cast_size (length s) (omega arith)))
        (Writes-put_bytes s (omega arith)))
      (Writes-put_texts ss (omega arith))

pub length-each_text :
    (ss : List (List ℕ)) → length (each text_bytes ss) ≡ total_size ss + 4 * length ss
unfolding total_size
length-each_text [] = omega arith
length-each_text (s ∷ ss) = omega (
  arith,
  length-append (text_bytes s) (each text_bytes ss),
  length-append (to_bytes 4 (length s)) s,
  length-to_bytes 4 (length s),
  length-each_text ss,
)
