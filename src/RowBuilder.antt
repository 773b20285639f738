-- ===== src/RowBuilder.antt =====
-- include/RowBuilder.h and src/RowBuilder.cpp: the bytes of a row, written value by value.
pub mod Build
use voltdb_client_cpp.Prelude.{
  ℕ, ◌+◌, ◌-◌, ◌*◌, ◌^◌, Bool, true, false, Option, none, some, List, [], ◌∷◌, ltb, if◌then◌else◌,
  length, get_elem?,
}
use voltdb_client_cpp.Prelude.Int.{ℤ, pos, negsuc, ◌+ℤ◌}
use voltdb_client_cpp.Action.{
  Action, Outcome, done, fail, pure, throw, modify, ◌>>=◌, ◌>>◌, column_mismatch, undefined,
}
use voltdb_client_cpp.Wire.{cast}
use voltdb_client_cpp.WireType.{
  WireType, tinyint, smallint, integer, bigint, float, string, varbinary, eqb_type,
}
use voltdb_client_cpp.Buffer.{
  ByteBuffer, Void, scoped, clear, put_int, put_word, put_bytes, put_string, ensure_remaining,
}
use voltdb_client_cpp.Row.{Column, least}

pub record RowBuilder : Type 0 where
  pub columns : List Column
  pub buffer : ByteBuffer
  pub current_column : ℕ

-- `RowBuilder(Table *table)`, for the columns of the table.
unfoldable pub init : List Column → RowBuilder
init columns = record { columns = columns; buffer = scoped 8192; current_column = 0 }

abbrev with_buffer : {A : Type 0} → Outcome ByteBuffer A → RowBuilder → Outcome RowBuilder A
with_buffer (done a b) r = done a (record r { buffer = b })
with_buffer (fail e b) r = fail e (record r { buffer = b })

abbrev pub on_buffer : {A : Type 0} → Action ByteBuffer A → Action RowBuilder A
on_buffer m r = with_buffer (m r.buffer) r

-- The type of the next column is read before its index is tested.
abbrev pub check_type : WireType → Option Column → Action RowBuilder Void
check_type t none = throw undefined
check_type t (some c) = if eqb_type c.type t then pure tt else throw column_mismatch

unfoldable pub validate_type : WireType → Action RowBuilder Void
validate_type t r = check_type t (get_elem? r.columns r.current_column) r

-- The room is made sure of, the bytes are written, and the next column is up.
unfoldable pub put_value : ℤ → Action ByteBuffer Void → Action RowBuilder Void
put_value room write =
    on_buffer (ensure_remaining room >> write)
    >> modify (λ r. record r { current_column = r.current_column + 1 })

unfoldable pub add_int64 : ℤ → Action RowBuilder Void
add_int64 val = validate_type bigint >> put_value (pos 8) (put_int 8 val)

unfoldable pub add_int32 : ℤ → Action RowBuilder Void
add_int32 val = validate_type integer >> put_value (pos 4) (put_int 4 val)

unfoldable pub add_int16 : ℤ → Action RowBuilder Void
add_int16 val = validate_type smallint >> put_value (pos 2) (put_int 2 val)

unfoldable pub add_int8 : ℤ → Action RowBuilder Void
add_int8 val = validate_type tinyint >> put_value (pos 1) (put_int 1 val)

unfoldable pub add_double : ℕ → Action RowBuilder Void
add_double val = validate_type float >> put_value (pos 8) (put_word 8 val)

unfoldable pub add_string : List ℕ → Action RowBuilder Void
add_string val =
    validate_type string >> put_value (pos 4 +ℤ cast 4 (pos (length val))) (put_string val)

unfoldable pub add_varbinary : List ℕ → Action RowBuilder Void
add_varbinary val =
    let n = cast 4 (pos (length val)) in
    validate_type varbinary >> put_value (pos 4 +ℤ n) (put_bytes n val)

-- The pattern of -1.7976931348623157E+308.
abbrev pub null_double : ℕ
null_double = 2 ^ 63 + 2047 * 2 ^ 52 - 1

-- The switch of `addNull`.
abbrev pub null_of : WireType → Action RowBuilder Void
null_of bigint = add_int64 (least 8)
null_of integer = add_int32 (least 4)
null_of smallint = add_int16 (least 2)
null_of tinyint = add_int8 (least 1)
null_of float = add_double null_double
null_of string = put_value (pos 4) (put_int 4 (negsuc 0))
null_of varbinary = put_value (pos 4) (put_int 4 (negsuc 0))
null_of _ = throw undefined

abbrev pub null_in : Option Column → Action RowBuilder Void
null_in none = throw undefined
null_in (some c) = null_of c.type

unfoldable pub add_null : Action RowBuilder Void
add_null r =
    if ltb (length r.columns) r.current_column
    then fail column_mismatch r
    else null_in (get_elem? r.columns r.current_column) r

unfoldable pub reset : Action RowBuilder Void
reset = on_buffer clear >> modify (λ r. record r { current_column = 0 })
