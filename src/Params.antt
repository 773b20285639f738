-- ===== src/Params.antt =====
-- include/ParameterSet.hpp and include/Parameter.hpp: the parameters of a stored procedure, written
-- one at a time behind their count.
pub mod Text
pub mod Values
pub mod Elements
pub mod Shapes
pub mod Encoding
pub mod Serialize
pub mod Dynamic
pub mod Refused
pub mod Doubles
pub mod Sequence
use voltdb_client_cpp.Prelude.{
  ℕ, zero, suc, ◌+◌, ◌*◌, Bool, true, false, ◌||◌, ◌&&◌, not, Option, none, some, List, [], ◌∷◌,
  ◌++◌, ltb, leb, ◌==◌, if◌then◌else◌, length, get_elem?,
}
use voltdb_client_cpp.Prelude.Int.{ℤ, pos, negsuc, ◌+ℤ◌}
use voltdb_client_cpp.Action.{
  Action, Outcome, done, fail, pure, throw, gets, modify, skip, state_of, throw_if, ◌>>=◌, ◌>>◌,
  param_mismatch, uninitialized_params,
}
use voltdb_client_cpp.Wire.{cast}
use voltdb_client_cpp.WireType.{
  WireType, array, null, tinyint, smallint, integer, bigint, float, string, timestamp, decimal,
  varbinary, code, eqb_type,
}
use voltdb_client_cpp.Decimal.{Decimal}
use voltdb_client_cpp.Decimal
use voltdb_client_cpp.Buffer.{
  ByteBuffer, Void, scoped, clear, flip, put_int, put_int_at, put_word, put_bytes, put_buffer,
  ensure_remaining,
}

pub record Parameter : Type 0 where
  pub type : WireType
  pub is_array : Bool

pub record ParameterSet : Type 0 where
  pub parameters : List Parameter
  pub buffer : ByteBuffer
  pub current_param : ℕ
  pub dynamic_count : Bool

-- A method of `m_buffer`.
abbrev pub with_buffer : {A : Type 0} → Outcome ByteBuffer A → ParameterSet → Outcome ParameterSet A
with_buffer (done a b) p = done a (record p { buffer = b })
with_buffer (fail e b) p = fail e (record p { buffer = b })

abbrev pub on_buffer : {A : Type 0} → Action ByteBuffer A → Action ParameterSet A
on_buffer m p = with_buffer (m p.buffer) p

abbrev pub same : Bool → Bool → Bool
same true b = b
same false b = not b

-- The count of the parameters as the wire has it.
abbrev pub count16 : ℕ → ℤ
count16 n = cast 2 (pos n)

-- `validateType`: a set that grows takes the type of a parameter behind its last one.
unfoldable pub extend : WireType → Bool → Action ParameterSet Void
extend t a p =
    if ltb (length p.parameters) (p.current_param + 1) && p.dynamic_count
    then (let grown = p.parameters ++ record { type = t; is_array = a } ∷ [] in
        on_buffer (put_int_at 2 (pos 0) (count16 (length grown))) (record p { parameters = grown }))
    else done tt p

unfoldable pub check_type : WireType → Bool → Action ParameterSet Void
check_type t a p = elim (get_elem? p.parameters p.current_param) [
  | none ↦ fail param_mismatch p
  | some q ↦ if eqb_type q.type t && same q.is_array a then done tt p else fail param_mismatch p
]

unfoldable pub validate_type : WireType → Bool → Action ParameterSet Void
validate_type t a = extend t a >> check_type t a

unfoldable pub next_param : Action ParameterSet Void
next_param = modify (λ p. record p { current_param = p.current_param + 1 })

-- `addNull`: the count is tested by `>`, and the type of the parameter is not looked at.
unfoldable pub add_null : Action ParameterSet Void
add_null p =
    if ltb (length p.parameters) p.current_param
    then fail param_mismatch p
    else (on_buffer (ensure_remaining (pos 1) >> put_int 1 (code null)) >> next_param) p

-- The shape of each `add` of one value: `room` bytes are made sure of, then the type and the value
-- are written.
unfoldable pub add_value : WireType → ℤ → Action ByteBuffer Void → Action ParameterSet Void
add_value t room write =
    validate_type t false
    >> on_buffer (ensure_remaining room >> (put_int 1 (code t) >> write))
    >> next_param

unfoldable pub add_int64 : ℤ → Action ParameterSet Void
add_int64 val = add_value bigint (pos 9) (put_int 8 val)

unfoldable pub add_int32 : ℤ → Action ParameterSet Void
add_int32 val = add_value integer (pos 5) (put_int 4 val)

unfoldable pub add_int16 : ℤ → Action ParameterSet Void
add_int16 val = add_value smallint (pos 3) (put_int 2 val)

unfoldable pub add_int8 : ℤ → Action ParameterSet Void
add_int8 val = add_value tinyint (pos 2) (put_int 1 val)

unfoldable pub add_timestamp : ℤ → Action ParameterSet Void
add_timestamp val = add_value timestamp (pos 9) (put_int 8 val)

unfoldable pub add_double : ℕ → Action ParameterSet Void
add_double val = add_value float (pos 9) (put_word 8 val)

unfoldable pub add_decimal : Decimal → Action ParameterSet Void
add_decimal val = add_value decimal (pos 17) (Decimal.serialize_to val)

-- `addTypedBytes<T>(size, value)`: a null pointer adds null once the type has been validated.
unfoldable pub add_typed_bytes : WireType → ℤ → Option (List ℕ) → Action ParameterSet Void
add_typed_bytes t size none = validate_type t false >> add_null
add_typed_bytes t size (some value) = add_value t (pos 5 +ℤ size) (put_bytes size value)

unfoldable pub add_bytes : List ℕ → Action ParameterSet Void
add_bytes value = add_typed_bytes varbinary (cast 4 (pos (length value))) (some value)

unfoldable pub add_string : List ℕ → Action ParameterSet Void
add_string value = add_typed_bytes string (cast 4 (pos (length value))) (some value)

unfoldable pub for_each :
    {A : Type 0} → (A → Action ByteBuffer Void) → List A → Action ByteBuffer Void
for_each write [] = skip
for_each write (x ∷ xs) = write x >> for_each write xs

-- The shape of each `add` of an array: `room` bytes are made sure of, then the array type, the
-- element type, the count and the elements are written.
unfoldable pub add_array :
    {A : Type 0}
    → WireType
    → ℤ
    → Action ByteBuffer Void
    → (A → Action ByteBuffer Void)
    → List A
    → Action ParameterSet Void
add_array t room count write vals =
    validate_type t true
    >> on_buffer (
        ensure_remaining room
        >> (put_int 1 (code array) >> (put_int 1 (code t) >> (count >> for_each write vals))))
    >> next_param

-- `static_cast<int32_t>(sizeof(T) * vals.size())`
abbrev pub bytes_of : ℕ → ℕ → ℤ
bytes_of size n = cast 4 (pos (size * n))

abbrev pub put_count : ℕ → Action ByteBuffer Void
put_count n = put_int 2 (count16 n)

unfoldable pub add_int64s : List ℤ → Action ParameterSet Void
add_int64s vals =
    let n = length vals in add_array bigint (pos 4 +ℤ bytes_of 8 n) (put_count n) (put_int 8) vals

unfoldable pub add_int32s : List ℤ → Action ParameterSet Void
add_int32s vals =
    let n = length vals in add_array integer (pos 4 +ℤ bytes_of 4 n) (put_count n) (put_int 4) vals

unfoldable pub add_int16s : List ℤ → Action ParameterSet Void
add_int16s vals =
    let n = length vals in add_array smallint (pos 4 +ℤ bytes_of 2 n) (put_count n) (put_int 2) vals

-- The count of an array of `int8_t` has four bytes.
unfoldable pub add_int8s : List ℤ → Action ParameterSet Void
add_int8s vals =
    let n = length vals in
    add_array tinyint (pos 6 +ℤ bytes_of 1 n) (put_int 4 (cast 4 (pos n))) (put_int 1) vals

unfoldable pub add_timestamps : List ℤ → Action ParameterSet Void
add_timestamps vals =
    let n = length vals in
    add_array timestamp (pos 4 +ℤ bytes_of 8 n) (put_count n) (put_int 8) vals

-- Two bytes less are made sure of than the four of the header and the elements take.
unfoldable pub add_doubles : List ℕ → Action ParameterSet Void
add_doubles vals =
    let n = length vals in add_array float (pos 2 +ℤ bytes_of 8 n) (put_count n) (put_word 8) vals

unfoldable pub add_decimals : List Decimal → Action ParameterSet Void
add_decimals vals =
    let n = length vals in
    add_array decimal (pos 4 +ℤ bytes_of 16 n) (put_count n) Decimal.serialize_to vals

unfoldable pub total_size : List (List ℕ) → ℕ
total_size [] = 0
total_size (v ∷ vs) = length v + total_size vs

-- `addTypedByteArray<T>`: `putBytes(i->size(), i->data())` for each element.
unfoldable pub add_typed_byte_array : WireType → List (List ℕ) → Action ParameterSet Void
add_typed_byte_array t vals =
    let n = length vals in
    add_array t (pos 4 +ℤ cast 4 (pos (total_size vals)) +ℤ cast 4 (pos (4 * n))) (put_count n)
      (λ v. put_bytes (cast 4 (pos (length v))) v) vals

-- `reset`: the count is written anew.
unfoldable pub reset : Action ParameterSet Void
reset =
    on_buffer clear
    >> (modify (λ p. record p { current_param = 0 })
        >> (λ p. on_buffer (put_int 2 (count16 (length p.parameters))) p))

-- `ParameterSet(std::vector<Parameter>)` and `ParameterSet()`.
unfoldable pub init : List Parameter → ParameterSet
init parameters = state_of (
    on_buffer (put_int 2 (count16 (length parameters))) (record {
      parameters = parameters;
      buffer = scoped 8192;
      current_param = 0;
      dynamic_count = false;
    }))

unfoldable pub init_dynamic : ParameterSet
init_dynamic = record {
  parameters = [];
  buffer = scoped 8192;
  current_param = 0;
  dynamic_count = true;
}

unfoldable pub get_serialized_size : Action ParameterSet ℕ
get_serialized_size p =
    if p.current_param == length p.parameters
    then done p.buffer.position p
    else fail uninitialized_params p

-- `serializeTo(ByteBuffer *buffer)`; the state is the set beside the buffer that it writes to.
unfoldable pub serialize_to : Action (ParameterSet × ByteBuffer) Void
serialize_to (p, out) =
    if p.current_param == length p.parameters
    then elim (flip p.buffer) [
      | fail e b ↦ fail e (record p { buffer = b }, out)
      | done _ b ↦ elim (put_buffer b out) [
        | fail e out' ↦ fail e (record p { buffer = b }, out')
        | done b' out' ↦ elim (reset (record p { buffer = b' })) [
          | fail e p' ↦ fail e (p', out')
          | done _ p' ↦ done tt (record p' { dynamic_count = false }, out')
        ]
      ]
    ]
    else fail uninitialized_params (p, out)
