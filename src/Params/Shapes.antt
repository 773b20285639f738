-- ===== src/Params/Shapes.antt =====
-- The shapes of the `add` methods of include/ParameterSet.hpp: one value, a text, an array.
use voltdb_client_cpp.Prelude.{
  ℕ, ◌+◌, ◌*◌, ◌^◌, ◌≤◌, ◌≡◌, ap, sym, subst, ◌∙◌, List, ◌++◌, arith, length, length-append, true,
  false, some,
}
use voltdb_client_cpp.Prelude.Int.{ℤ, pos, ◌+ℤ◌}
use voltdb_client_cpp.Action.{Action}
use voltdb_client_cpp.Wire.{int_bytes, to_bytes, to_word, cast}
use voltdb_client_cpp.Wire.Laws.{length-to_bytes}
use voltdb_client_cpp.WireType.{WireType, code}
use voltdb_client_cpp.Buffer.{ByteBuffer, Void, put_int, put_bytes}
use voltdb_client_cpp.Buffer.Put.{Writes, Writes-seq, Writes-put_int, Writes-put_bytes, text_bytes}
use voltdb_client_cpp.Params.{
  ParameterSet, for_each, total_size, count16, add_value, add_array, add_typed_bytes,
  add_typed_byte_array, put_count,
}
use voltdb_client_cpp.Params.Text.{IsFilled, Accepts, Added, widened, add_Added}
use voltdb_client_cpp.Params.Values.{each, type_bytes, array_bytes}
use voltdb_client_cpp.Params.Elements.{
  Writes-for_each, length-each, cast_size, Writes-put_texts, length-each_text, put_text,
}

module _ (p : ParameterSet) (t : WireType) (text : List ℕ) (f : IsFilled p text) where
  pub value_Added :
      (r : ℕ) (w : Action ByteBuffer Void) (bs : List ℕ)
      → Accepts p t false
      → Writes w bs
      → 1 + length bs ≤ r
      → 2 + length text + r ≤ 2 ^ 30
      → Added (widened p t false) 1 (text ++ (type_bytes t ++ bs)) p (add_value t (pos r) w p)
  unfolding add_value
  value_Added r w bs c k l h =
      add_Added p t false text (type_bytes t ++ bs) r _ f c
        (Writes-seq (Writes-put_int 1 (code t)) k)
        (omega (arith, length-append (type_bytes t) bs, length-to_bytes 1 (to_word 1 (code t)))) h

  pub array_Added :
      {A : Type 0} (r : ℕ) (count : Action ByteBuffer Void) (write : A → Action ByteBuffer Void)
      (vals : List A) (cs bs : List ℕ)
      → Accepts p t true
      → Writes count cs
      → Writes (for_each write vals) bs
      → 2 + length cs + length bs ≤ r
      → 2 + length text + r ≤ 2 ^ 30
      → Added
          (widened p t true)
          1
          (text ++ array_bytes t cs bs)
          p
          (add_array t (pos r) count write vals p)
  unfolding add_array
  array_Added r count write vals cs bs c k e l h =
      add_Added p t true text (array_bytes t cs bs) r _ f c
        (Writes-seq (Writes-put_int 1 (code WireType.array))
          (Writes-seq (Writes-put_int 1 (code t)) (Writes-seq k e)))
        (omega (
          arith,
          length-append (type_bytes WireType.array) (type_bytes t ++ (cs ++ bs)),
          length-append (type_bytes t) (cs ++ bs),
          length-append cs bs,
          length-to_bytes 1 (to_word 1 (code WireType.array)),
          length-to_bytes 1 (to_word 1 (code t)),
        ))
        h

  -- Text and binary data: the size is cast to `int32_t` twice.
  pub text_Added :
      (s : List ℕ)
      → Accepts p t false
      → 2 + length text + (5 + length s) ≤ 2 ^ 30
      → Added
          (widened p t false)
          1
          (text ++ (type_bytes t ++ text_bytes s))
          p
          (add_typed_bytes t (cast 4 (pos (length s))) (some s) p)
  unfolding add_typed_bytes
  text_Added s c h =
      subst
        (λ z.
          Added (widened p t false) 1 (text ++ (type_bytes t ++ text_bytes s)) p
            (add_value t (pos 5 +ℤ z) (put_bytes z s) p))
        (sym (cast_size (length s) (omega arith)))
        (subst
          (λ z.
            Added (widened p t false) 1 (text ++ (type_bytes t ++ text_bytes s)) p
              (add_value t z (put_bytes (pos (length s)) s) p))
          (sum_size (length s))
          (value_Added (5 + length s) (put_bytes (pos (length s)) s) (text_bytes s) c
            (Writes-put_bytes s (omega arith))
            (omega (arith, length-append (to_bytes 4 (length s)) s, length-to_bytes 4 (length s)))
            h))
    where
      sum_size : (n : ℕ) → pos (5 + n) ≡ pos 5 +ℤ pos n
      sum_size n = ground arith

  -- An array of elements of `m` bytes, behind a count of `c` bytes.
  pub fixed_Added :
      {A : Type 0} (k m c : ℕ) (z : ℤ) (write : A → Action ByteBuffer Void) (g : A → List ℕ)
      (vals : List A)
      → Accepts p t true
      → 2 + c ≤ k
      → ((x : A) → Writes (write x) (g x))
      → ((x : A) → length (g x) ≡ m)
      → 2 + length text + (k + m * length vals) ≤ 2 ^ 30
      → Added
          (widened p t true)
          1
          (text ++ array_bytes t (int_bytes c z) (each g vals))
          p
          (add_array t (pos k +ℤ cast 4 (pos (m * length vals))) (put_int c z) write vals p)
  fixed_Added k m c z write g vals a kc w l h =
      subst
        (λ r.
          Added (widened p t true) 1 (text ++ array_bytes t (int_bytes c z) (each g vals)) p
            (add_array t r (put_int c z) write vals p))
        room_eq
        (array_Added (k + m * length vals) (put_int c z) write vals (int_bytes c z) (each g vals) a
          (Writes-put_int c z) (Writes-for_each write g vals w)
          (omega (arith, kc, length-to_bytes c (to_word c z), length-each m g vals l)) h)
    where
      sum_size : (i n : ℕ) → pos (i + n) ≡ pos i +ℤ pos n
      sum_size i n = ground arith

      room_eq : pos (k + m * length vals) ≡ pos k +ℤ cast 4 (pos (m * length vals))
      room_eq =
          sum_size k (m * length vals)
          ∙ ap (λ y. pos k +ℤ y) (sym (cast_size (m * length vals) (omega (arith, h))))

  -- An array of texts or of binary data.
  pub texts_Added :
      (ss : List (List ℕ))
      → Accepts p t true
      → 2 + length text + (4 + total_size ss + 4 * length ss) ≤ 2 ^ 30
      → Added
          (widened p t true)
          1
          (text ++ array_bytes t (int_bytes 2 (count16 (length ss))) (each text_bytes ss))
          p
          (add_typed_byte_array t ss p)
  unfolding add_typed_byte_array
  texts_Added ss a h =
      subst
        (λ r.
          Added (widened p t true) 1
            (text ++ array_bytes t (int_bytes 2 (count16 (length ss))) (each text_bytes ss)) p
            (add_array t r (put_count (length ss)) put_text ss p))
        room_eq
        (array_Added (4 + total_size ss + 4 * length ss) (put_count (length ss)) put_text ss
          (int_bytes 2 (count16 (length ss))) (each text_bytes ss) a
          (Writes-put_int 2 (count16 (length ss))) (Writes-put_texts ss (omega arith))
          (omega (arith, length-to_bytes 2 (to_word 2 (count16 (length ss))), length-each_text ss))
          h)
    where
      sum_sizes : (i m n : ℕ) → pos (i + m + n) ≡ pos i +ℤ pos m +ℤ pos n
      sum_sizes i m n = ground arith

      room_eq :
          pos (4 + total_size ss + 4 * length ss)
          ≡ pos 4 +ℤ cast 4 (pos (total_size ss)) +ℤ cast 4 (pos (4 * length ss))
      room_eq =
          rw (cast_size (total_size ss) (omega arith), cast_size (4 * length ss) (omega arith))
            (sum_sizes 4 (total_size ss) (4 * length ss))
