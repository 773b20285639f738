-- ===== src/Decimal.antt =====
-- include/Decimal.hpp: a decimal as its two 64-bit words, `table[1]` and `table[0]` of the big
-- integer, and its form on the wire.
use voltdb_client_cpp.Prelude.{ℕ, ◌^◌, ◌<◌, Bool, ◌&&◌, List, ◌++◌, ◌==◌}
use voltdb_client_cpp.Action.{Action, pure, ◌>>=◌, ◌>>◌}
use voltdb_client_cpp.Wire.{to_bytes}
use voltdb_client_cpp.Buffer.{ByteBuffer, Void, put_word, get_word}
use voltdb_client_cpp.Buffer.Put.{Writes, Writes-seq, Writes-put_word}
use voltdb_client_cpp.Buffer.Get.{Reads, Reads-bind, Reads-map, Reads-get_word}

pub record Decimal : Type 0 where
  pub high : ℕ
  pub low : ℕ

-- `serializeTo`: the high word first.
unfoldable pub serialize_to : Decimal → Action ByteBuffer Void
serialize_to d = put_word 8 d.high >> put_word 8 d.low

-- `Decimal(char data[16])`.
unfoldable pub of_wire : Action ByteBuffer Decimal
of_wire = do high ← get_word 8; low ← get_word 8; pure (record { high = high; low = low })

-- `isNull`: the least number of the two words.
unfoldable pub is_null : Decimal → Bool
is_null d = d.high == 2 ^ 63 && d.low == 0

abbrev pub decimal_bytes : Decimal → List ℕ
decimal_bytes d = to_bytes 8 d.high ++ to_bytes 8 d.low

pub Writes-serialize_to : (d : Decimal) → Writes (serialize_to d) (decimal_bytes d)
unfolding serialize_to
Writes-serialize_to d = Writes-seq (Writes-put_word 8 d.high) (Writes-put_word 8 d.low)

pub record IsWords (d : Decimal) : Type 0 where
  pub high : d.high < 256 ^ 8
  pub low : d.low < 256 ^ 8

-- A decimal is read back from the bytes that it was written to.
pub Reads-of_wire : (d : Decimal) → IsWords d → Reads of_wire (decimal_bytes d) d
unfolding of_wire
Reads-of_wire d w =
    Reads-bind _ (Reads-get_word 8 d.high w.high)
      (Reads-map (Reads-get_word 8 d.low w.low) (λ l. record { high = d.high; low = l }))
