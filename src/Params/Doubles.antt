-- ===== src/Params/Doubles.antt =====
-- `addDouble(const std::vector<double>&)` of include/ParameterSet.hpp makes sure of 2 bytes and the
-- elements, and writes 4 bytes and the elements.
use native.Mathlib.Decide.{dec_le}
use voltdb_client_cpp.Prelude.{
  ℕ, ◌+◌, ◌*◌, ◌^◌, ◌≤◌, ◌<◌, ◌≡◌, refl, ap, sym, subst, ◌∙◌, List, [], ◌∷◌, arith, length, true,
  Bool, get_elem?, some,
}
use voltdb_client_cpp.Prelude.Int.{pos, ◌+ℤ◌}
use voltdb_client_cpp.Action.{Action, Outcome, done, fail, ◌>>◌, >>_done, overflow_underflow}
use voltdb_client_cpp.Wire.{int_bytes, to_bytes, to_word}
use voltdb_client_cpp.Wire.Laws.{length-to_bytes}
use voltdb_client_cpp.WireType.{WireType, code}
use voltdb_client_cpp.Buffer.{
  ByteBuffer, Void, put_word, put_int, check_get_put_index, ensure_remaining, remaining,
}
use voltdb_client_cpp.Buffer.Put.{Writes, wrote, Writes-put_int, Writes-put_word}
use voltdb_client_cpp.Params.{
  ParameterSet, add_doubles, add_array, validate_type, next_param, on_buffer, for_each, put_count,
  count16,
}
use voltdb_client_cpp.Params.Text.{IsFilled, validate_declared_done, length-bytes}
use voltdb_client_cpp.Params.Values.{type_bytes}
use voltdb_client_cpp.Params.Elements.{cast_size}

-- The call threw for want of room.
abbrev pub Overflows : {S : Type 0} → Outcome S Void → Type 0
Overflows {S} o = (s : S) × (o ≡ fail overflow_underflow s)

no_room :
    (w : ℕ) (b : ByteBuffer) → b.limit < b.position + 8 → put_word 8 w b ≡ fail overflow_underflow b
unfolding put_word check_get_put_index
no_room w b h = ground arith

elements_overflow :
    (vals : List ℕ) (b : ByteBuffer)
    → b.position ≤ b.limit
    → b.limit < b.position + 8 * length vals
    → Overflows (for_each (put_word 8) vals b)
unfolding for_each
elements_overflow [] b p h = absurd (omega arith)
elements_overflow (v ∷ vals) b p h = elim (dec_le (b.position + 8) b.limit) [
  | yes fits ↦
      let w = (Writes-put_word 8 v).fits b (omega (arith, length-to_bytes 8 v, fits)) in
      let (s, e) =
        elements_overflow vals (wrote (to_bytes 8 v) b) (omega (arith, length-to_bytes 8 v, fits))
          (omega (arith, length-to_bytes 8 v, h)) in
      (s, rw w e)
  | no full ↦ (b, rw (no_room v b (omega (arith, full))))
]

-- One part of a write that fits, and a rest that overflows.
then_overflow :
    (m k : Action ByteBuffer Void) (xs : List ℕ) (b : ByteBuffer)
    → Writes m xs
    → b.position + length xs ≤ b.limit
    → Overflows (k (wrote xs b))
    → Overflows ((m >> k) b)
then_overflow m k xs b w h (s, e) = (s, >>_done m k (w.fits b h) ∙ e)

abbrev one_byte : (t : WireType) → length (type_bytes t) ≡ 1
one_byte t = length-to_bytes 1 (to_word 1 (code t))

array_overflow :
    (vals : List ℕ) (b : ByteBuffer)
    → b.position + 4 ≤ b.limit
    → b.limit < b.position + 4 + 8 * length vals
    → Overflows (
        (put_int 1 (code WireType.array)
            >> (put_int 1 (code WireType.float)
                >> (put_count (length vals) >> for_each (put_word 8) vals)))
          b)
array_overflow vals b h l =
    let c = count16 (length vals) in
    let n = length-to_bytes 2 (to_word 2 c) in
    let a = one_byte WireType.array in
    let f = one_byte WireType.float in
    then_overflow _ _ (type_bytes WireType.array) b (Writes-put_int 1 (code WireType.array))
      (omega (arith, a, h))
      (then_overflow _ _ (type_bytes WireType.float) _ (Writes-put_int 1 (code WireType.float))
        (omega (arith, a, f, h))
        (then_overflow _ _ (int_bytes 2 c) _ (Writes-put_int 2 c) (omega (arith, a, f, n, h))
          (elements_overflow vals _ (omega (arith, a, f, n, h)) (omega (arith, a, f, n, l)))))

enough :
    (n : ℕ) (b : ByteBuffer)
    → b.expandable ≡ true
    → b.position + n ≤ b.limit
    → ensure_remaining (pos n) b ≡ done tt b
unfolding ensure_remaining remaining
enough n b e h = ground arith

-- The shape of an `add`, where the bytes overflow.
add_overflow :
    (p : ParameterSet) (t : WireType) (a : Bool) (n : ℕ) (w : Action ByteBuffer Void)
    → get_elem? p.parameters p.current_param ≡ some (record { type = t; is_array = a })
    → p.buffer.expandable ≡ true
    → p.buffer.position + n ≤ p.buffer.limit
    → Overflows (w p.buffer)
    → Overflows ((validate_type t a >> on_buffer (ensure_remaining (pos n) >> w) >> next_param) p)
add_overflow p t a n w e x r (s, o) =
    (record p { buffer = s }, rw (validate_declared_done p t a e, enough n p.buffer x r, o) refl)

-- Where the bytes up to the limit are enough for the elements and 2 more, but not for the elements
-- and 4 more, an array of doubles for a declared parameter throws for want of room, though the
-- buffer could grow.
pub add_doubles_overflow :
    (vals : List ℕ) (p : ParameterSet) (text : List ℕ)
    → IsFilled p text
    → get_elem? p.parameters p.current_param
      ≡ some (record { type = WireType.float; is_array = true })
    → 0 < length vals
    → 2 + length text + (2 + 8 * length vals) ≤ p.buffer.limit
    → p.buffer.limit < 2 + length text + (4 + 8 * length vals)
    → 8 * length vals ≤ 2 ^ 30
    → Overflows (add_doubles vals p)
unfolding add_doubles add_array
add_doubles_overflow vals p text f e n h l s =
    subst
      (λ z. Overflows (
        (validate_type WireType.float true
            >> on_buffer (
                ensure_remaining z
                >> (put_int 1 (code WireType.array)
                    >> (put_int 1 (code WireType.float)
                        >> (put_count (length vals) >> for_each (put_word 8) vals))))
            >> next_param)
          p))
      (sum_size (8 * length vals) ∙ ap (λ z. pos 2 +ℤ z) (sym (cast_size (8 * length vals) s)))
      (add_overflow p WireType.float true (2 + 8 * length vals) _ e f.is_open.expandable
        (omega (arith, place, h))
        (array_overflow vals p.buffer (omega (arith, place, h, n)) (omega (arith, place, l))))
  where
    place : p.buffer.position ≡ 2 + length text
    place = length-bytes p text f

    sum_size : (m : ℕ) → pos (2 + m) ≡ pos 2 +ℤ pos m
    sum_size m = ground arith
