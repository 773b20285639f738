-- ===== src/Params/Values.antt =====
-- The values that the `add` methods of include/ParameterSet.hpp take, and their bytes on the wire.
-- An array of doubles is left to `Doubles`: its method makes too little room.
use voltdb_client_cpp.Prelude.{ℕ, ◌+◌, ◌*◌, List, [], ◌∷◌, ◌++◌, length, Bool, true, false}
use voltdb_client_cpp.Prelude.Int.{ℤ, pos}
use voltdb_client_cpp.Action.{Action}
use voltdb_client_cpp.Wire.{int_bytes, to_bytes}
use voltdb_client_cpp.WireType.{WireType, code}
use voltdb_client_cpp.Decimal.{Decimal, decimal_bytes}
use voltdb_client_cpp.Buffer.{Void}
use voltdb_client_cpp.Buffer.Put.{text_bytes}
use voltdb_client_cpp.Params.{
  ParameterSet, total_size, count16, add_null, add_int8, add_int16, add_int32, add_int64,
  add_timestamp, add_double, add_decimal, add_string, add_bytes, add_int8s, add_int16s, add_int32s,
  add_int64s, add_timestamps, add_decimals, add_typed_byte_array,
}

pub data Value : Type 0 where
  null : Value
  int8 int16 int32 int64 timestamp : ℤ → Value
  double : ℕ → Value
  decimal : Decimal → Value
  string varbinary : List ℕ → Value
  int8s int16s int32s int64s timestamps : List ℤ → Value
  decimals : List Decimal → Value
  strings varbinaries : List (List ℕ) → Value

unfoldable pub add : Value → Action ParameterSet Void
add null = add_null
add (int8 z) = add_int8 z
add (int16 z) = add_int16 z
add (int32 z) = add_int32 z
add (int64 z) = add_int64 z
add (timestamp z) = add_timestamp z
add (double w) = add_double w
add (decimal d) = add_decimal d
add (string s) = add_string s
add (varbinary s) = add_bytes s
add (int8s zs) = add_int8s zs
add (int16s zs) = add_int16s zs
add (int32s zs) = add_int32s zs
add (int64s zs) = add_int64s zs
add (timestamps zs) = add_timestamps zs
add (decimals ds) = add_decimals ds
add (strings ss) = add_typed_byte_array WireType.string ss
add (varbinaries ss) = add_typed_byte_array WireType.varbinary ss

-- The bytes of a list, element by element.
abbrev pub each : {A : Type 0} → (A → List ℕ) → List A → List ℕ
each f [] = []
each f (x ∷ xs) = f x ++ each f xs

abbrev pub type_bytes : WireType → List ℕ
type_bytes t = int_bytes 1 (code t)

-- An array: its type, the type of the elements, their count and the elements.
abbrev pub array_bytes : WireType → List ℕ → List ℕ → List ℕ
array_bytes t count elements = type_bytes WireType.array ++ (type_bytes t ++ (count ++ elements))

-- What the server is to read: the specification of the wire format.
abbrev pub encode : Value → List ℕ
encode null = type_bytes WireType.null
encode (int8 z) = type_bytes WireType.tinyint ++ int_bytes 1 z
encode (int16 z) = type_bytes WireType.smallint ++ int_bytes 2 z
encode (int32 z) = type_bytes WireType.integer ++ int_bytes 4 z
encode (int64 z) = type_bytes WireType.bigint ++ int_bytes 8 z
encode (timestamp z) = type_bytes WireType.timestamp ++ int_bytes 8 z
encode (double w) = type_bytes WireType.float ++ to_bytes 8 w
encode (decimal d) = type_bytes WireType.decimal ++ decimal_bytes d
encode (string s) = type_bytes WireType.string ++ text_bytes s
encode (varbinary s) = type_bytes WireType.varbinary ++ text_bytes s
encode (int8s zs) =
    array_bytes WireType.tinyint (int_bytes 4 (pos (length zs))) (each (int_bytes 1) zs)
encode (int16s zs) =
    array_bytes WireType.smallint (int_bytes 2 (count16 (length zs))) (each (int_bytes 2) zs)
encode (int32s zs) =
    array_bytes WireType.integer (int_bytes 2 (count16 (length zs))) (each (int_bytes 4) zs)
encode (int64s zs) =
    array_bytes WireType.bigint (int_bytes 2 (count16 (length zs))) (each (int_bytes 8) zs)
encode (timestamps zs) =
    array_bytes WireType.timestamp (int_bytes 2 (count16 (length zs))) (each (int_bytes 8) zs)
encode (decimals ds) =
    array_bytes WireType.decimal (int_bytes 2 (count16 (length ds))) (each decimal_bytes ds)
encode (strings ss) =
    array_bytes WireType.string (int_bytes 2 (count16 (length ss))) (each text_bytes ss)
encode (varbinaries ss) =
    array_bytes WireType.varbinary (int_bytes 2 (count16 (length ss))) (each text_bytes ss)

-- The room that the method makes sure of.
abbrev pub room : Value → ℕ
room null = 1
room (int8 z) = 2
room (int16 z) = 3
room (int32 z) = 5
room (int64 z) = 9
room (timestamp z) = 9
room (double w) = 9
room (decimal d) = 17
room (string s) = 5 + length s
room (varbinary s) = 5 + length s
room (int8s zs) = 6 + 1 * length zs
room (int16s zs) = 4 + 2 * length zs
room (int32s zs) = 4 + 4 * length zs
room (int64s zs) = 4 + 8 * length zs
room (timestamps zs) = 4 + 8 * length zs
room (decimals ds) = 4 + 16 * length ds
room (strings ss) = 4 + total_size ss + 4 * length ss
room (varbinaries ss) = 4 + total_size ss + 4 * length ss

-- The type of the parameter that takes the value, and whether it is an array. Null has none.
abbrev pub type_of : Value → WireType
type_of null = WireType.null
type_of (int8 z) = WireType.tinyint
type_of (int16 z) = WireType.smallint
type_of (int32 z) = WireType.integer
type_of (int64 z) = WireType.bigint
type_of (timestamp z) = WireType.timestamp
type_of (double w) = WireType.float
type_of (decimal d) = WireType.decimal
type_of (string s) = WireType.string
type_of (varbinary s) = WireType.varbinary
type_of (int8s zs) = WireType.tinyint
type_of (int16s zs) = WireType.smallint
type_of (int32s zs) = WireType.integer
type_of (int64s zs) = WireType.bigint
type_of (timestamps zs) = WireType.timestamp
type_of (decimals ds) = WireType.decimal
type_of (strings ss) = WireType.string
type_of (varbinaries ss) = WireType.varbinary

abbrev pub is_array : Value → Bool
is_array (int8s zs) = true
is_array (int16s zs) = true
is_array (int32s zs) = true
is_array (int64s zs) = true
is_array (timestamps zs) = true
is_array (decimals ds) = true
is_array (strings ss) = true
is_array (varbinaries ss) = true
is_array _ = false
