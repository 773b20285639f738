-- ===== src/Params/Encoding.antt =====
-- Every `add` method of include/ParameterSet.hpp puts the wire form of its value behind the bytes
-- that are there.
use voltdb_client_cpp.Prelude.{
  ℕ, ◌+◌, ◌^◌, ◌≤◌, ◌<◌, ◌≡◌, sym, subst, List, [], ◌∷◌, ◌++◌, arith, length, length-append,
}
use voltdb_client_cpp.Prelude.Int.{ℤ, pos}
use voltdb_client_cpp.Action.{Action, ◌>>◌, skip}
use voltdb_client_cpp.Wire.{int_bytes, to_bytes, to_word, cast}
use voltdb_client_cpp.Wire.Laws.{length-to_bytes}
use voltdb_client_cpp.WireType.{WireType, code}
use voltdb_client_cpp.Decimal.{Decimal, decimal_bytes, Writes-serialize_to}
use voltdb_client_cpp.Buffer.{Void, ensure_remaining, put_int, put_word}
use voltdb_client_cpp.Buffer.Put.{Writes-put_int, Writes-put_word}
use voltdb_client_cpp.Params.{
  Parameter, ParameterSet, count16, add_null, add_int8, add_int16, add_int32, add_int64,
  add_timestamp, add_double, add_decimal, add_string, add_bytes, add_int8s, add_int16s, add_int32s,
  add_int64s, add_timestamps, add_decimals, on_buffer, next_param,
}
use voltdb_client_cpp.Params.Text.{IsFilled, Accepts, Added, widened, buffer_Added}
use voltdb_client_cpp.Params.Values.{Value, add, encode, room, type_of, is_array, each, array_bytes}
use voltdb_client_cpp.Params.Shapes.{value_Added, fixed_Added, text_Added, texts_Added}
use voltdb_client_cpp.Params.Elements.{cast_size}

-- The parameter at the next place takes the value. Null goes to any place.
abbrev pub Takes : ParameterSet → Value → Type 0
Takes p Value.null = p.current_param < length p.parameters
Takes p v = Accepts p (type_of v) (is_array v)

-- The parameters once the value has been added.
abbrev pub with_value : ParameterSet → Value → List Parameter
with_value p Value.null = p.parameters
with_value p v = widened p (type_of v) (is_array v)

length-decimal : (d : Decimal) → length (decimal_bytes d) ≡ 16
length-decimal d = omega (
  arith,
  length-append (to_bytes 8 d.high) (to_bytes 8 d.low),
  length-to_bytes 8 d.high,
  length-to_bytes 8 d.low,
)

ints_length : (n : ℕ) (z : ℤ) → length (int_bytes n z) ≡ n
ints_length n z = length-to_bytes n (to_word n z)

add_null_shape :
    (p : ParameterSet)
    → p.current_param < length p.parameters
    → add_null p
      ≡ (on_buffer (ensure_remaining (pos 1) >> put_int 1 (code WireType.null)) >> next_param) p
unfolding add_null
add_null_shape p h = ground arith

-- One `add`: behind the bytes that are there stands the value's form on the wire.
pub add-Added :
    (v : Value) (p : ParameterSet) (text : List ℕ)
    → IsFilled p text
    → Takes p v
    → 2 + length text + room v ≤ 2 ^ 30
    → Added (with_value p v) 1 (text ++ encode v) p (add v p)
unfolding add
add-Added Value.null p text f c h =
    subst (Added p.parameters 1 (text ++ encode Value.null) p) (sym (add_null_shape p c)) (
      buffer_Added p text (encode Value.null) 1 _ f (Writes-put_int 1 (code WireType.null))
        (omega (arith, ints_length 1 (code WireType.null))) h)
add-Added (Value.int8 z) p text f c h =
    unfold add_int8 in
    value_Added p WireType.tinyint text f 2 (put_int 1 z) _ c (Writes-put_int 1 z)
      (omega (arith, ints_length 1 z)) h
add-Added (Value.int16 z) p text f c h =
    unfold add_int16 in
    value_Added p WireType.smallint text f 3 (put_int 2 z) _ c (Writes-put_int 2 z)
      (omega (arith, ints_length 2 z)) h
add-Added (Value.int32 z) p text f c h =
    unfold add_int32 in
    value_Added p WireType.integer text f 5 (put_int 4 z) _ c (Writes-put_int 4 z)
      (omega (arith, ints_length 4 z)) h
add-Added (Value.int64 z) p text f c h =
    unfold add_int64 in
    value_Added p WireType.bigint text f 9 (put_int 8 z) _ c (Writes-put_int 8 z)
      (omega (arith, ints_length 8 z)) h
add-Added (Value.timestamp z) p text f c h =
    unfold add_timestamp in
    value_Added p WireType.timestamp text f 9 (put_int 8 z) _ c (Writes-put_int 8 z)
      (omega (arith, ints_length 8 z)) h
add-Added (Value.double w) p text f c h =
    unfold add_double in
    value_Added p WireType.float text f 9 (put_word 8 w) _ c (Writes-put_word 8 w)
      (omega (arith, length-to_bytes 8 w)) h
add-Added (Value.decimal d) p text f c h =
    unfold add_decimal in
    value_Added p WireType.decimal text f 17 _ (decimal_bytes d) c (Writes-serialize_to d)
      (omega (arith, length-decimal d)) h
add-Added (Value.string s) p text f c h =
    unfold add_string in text_Added p WireType.string text f s c h
add-Added (Value.varbinary s) p text f c h =
    unfold add_bytes in text_Added p WireType.varbinary text f s c h
add-Added (Value.int8s zs) p text f c h =
    subst
      (λ z.
        Added (with_value p (Value.int8s zs)) 1
          (text ++ array_bytes WireType.tinyint (int_bytes 4 z) (each (int_bytes 1) zs)) p
          (add_int8s zs p))
      (cast_size (length zs) (omega arith))
      (unfold add_int8s in
        fixed_Added p WireType.tinyint text f 6 1 4 (cast 4 (pos (length zs))) (put_int 1)
          (int_bytes 1) zs c (omega arith) (Writes-put_int 1) (ints_length 1) h)
add-Added (Value.int16s zs) p text f c h =
    unfold add_int16s in
    fixed_Added p WireType.smallint text f 4 2 2 (count16 (length zs)) (put_int 2) (int_bytes 2) zs
      c (omega arith) (Writes-put_int 2) (ints_length 2) h
add-Added (Value.int32s zs) p text f c h =
    unfold add_int32s in
    fixed_Added p WireType.integer text f 4 4 2 (count16 (length zs)) (put_int 4) (int_bytes 4) zs c
      (omega arith) (Writes-put_int 4) (ints_length 4) h
add-Added (Value.int64s zs) p text f c h =
    unfold add_int64s in
    fixed_Added p WireType.bigint text f 4 8 2 (count16 (length zs)) (put_int 8) (int_bytes 8) zs c
      (omega arith) (Writes-put_int 8) (ints_length 8) h
add-Added (Value.timestamps zs) p text f c h =
    unfold add_timestamps in
    fixed_Added p WireType.timestamp text f 4 8 2 (count16 (length zs)) (put_int 8) (int_bytes 8) zs
      c (omega arith) (Writes-put_int 8) (ints_length 8) h
add-Added (Value.decimals ds) p text f c h =
    unfold add_decimals in
    fixed_Added p WireType.decimal text f 4 16 2 (count16 (length ds)) _ decimal_bytes ds c
      (omega arith) Writes-serialize_to length-decimal h
add-Added (Value.strings ss) p text f c h = texts_Added p WireType.string text f ss c h
add-Added (Value.varbinaries ss) p text f c h = texts_Added p WireType.varbinary text f ss c h

-- The values one after the other.
unfoldable pub add_all : List Value → Action ParameterSet Void
add_all [] = skip
add_all (v ∷ vs) = add v >> add_all vs
