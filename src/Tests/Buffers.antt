-- ===== src/Tests/Buffers.antt =====
-- include/ByteBuffer.hpp at concrete inputs.
use voltdb_client_cpp.Prelude.{ℕ, ◌+◌, ◌≤◌, ◌<◌, ◌≡◌, ◌⊎◌, refl, [], ◌∷◌, ltb, arith, some, true}
use voltdb_client_cpp.Prelude.Int.{pos, negsuc}
use voltdb_client_cpp.Action.{done, fail, overflow_underflow}
use voltdb_client_cpp.Wire.{to_bytes, from_bytes, from_bytes_acc, to_word, to_int}
use voltdb_client_cpp.Buffer.Storage.{write_at}
use voltdb_client_cpp.Buffer.{
  ByteBuffer, wrap, check_get_put_index, check_index, put_int, put_word, get_int, get_word,
  put_bytes, put, get, get_string, double_until, ensure_remaining,
}
use voltdb_client_cpp.Buffer.Keeps.{IsValid}
use voltdb_client_cpp.Buffer.Invariant.{
  puts_int, flips, gets_int, sets_limit, after_calls, after_calls-IsValid,
}
use voltdb_client_cpp.Buffer.Checks.{Checked, check_index_inside}
use voltdb_client_cpp.Buffer.Bounds.{InRange, get_int-InRange}
use voltdb_client_cpp.Buffer.Growth.{IsOpen, HasRoom, double_until_ends, ensure_remaining_lem}

abbrev small : ByteBuffer
small = record {
  storage = 1 ∷ 2 ∷ 3 ∷ 4 ∷ 5 ∷ [];
  position = 1;
  capacity = 5;
  limit = 5;
  expandable = true;
}

small-IsValid : IsValid small
small-IsValid = omega arith

small-IsOpen : IsOpen small
small-IsOpen = record {
  expandable = refl;
  limit = refl;
  storage = refl;
  position = omega arith;
  capacity = omega arith;
}

-- putInt16(-2) leaves 255 and 254 behind the position.
put_int16 :
    put_int 2 (negsuc 1) small
    ≡ done tt (record small { storage = 1 ∷ 255 ∷ 254 ∷ 4 ∷ 5 ∷ []; position = 3 })
unfolding put_int put_word check_get_put_index write_at to_bytes to_word
put_int16 = refl

-- A length of 7 does not fit: the prefix has been written when the text is refused.
put_string_fails :
    put_bytes (pos 7) [] small
    ≡ fail overflow_underflow (record small { storage = 1 ∷ 0 ∷ 0 ∷ 0 ∷ 7 ∷ []; position = 5 })
unfolding put_bytes put put_int put_word check_get_put_index write_at to_bytes to_word
put_string_fails = refl

read_text :
    get_string (wrap (0 ∷ 0 ∷ 0 ∷ 2 ∷ 104 ∷ 105 ∷ 9 ∷ []))
    ≡ done
        (some (104 ∷ 105 ∷ []))
        (record (wrap (0 ∷ 0 ∷ 0 ∷ 2 ∷ 104 ∷ 105 ∷ 9 ∷ [])) { position = 6 })
unfolding get_string get get_int get_word check_get_put_index from_bytes from_bytes_acc to_int wrap
read_text = refl

after_calls-IsValid_example :
    IsValid (after_calls (puts_int 2 (pos 7) ∷ flips ∷ sets_limit (pos 9) ∷ gets_int 4 ∷ []) small)
after_calls-IsValid_example = after_calls-IsValid _ small small-IsValid

check_index_inside_example :
    Checked small (pos 1) (pos 2) (check_get_put_index (pos 2) small)
    × Checked small (pos 3) (pos 2) (check_index (pos 3) (pos 2) small)
check_index_inside_example = check_index_inside (pos 3) (pos 2) small small-IsValid

double_until_ends_example :
    (n : ℕ) × (double_until 32 5 21 ≡ some n) × (21 ≤ n) × ((n ≡ 5) ⊎ (n < 42))
double_until_ends_example = double_until_ends 31 5 21 (omega arith) (omega arith) (omega arith)

ensure_remaining_lem_example : HasRoom 20 small (ensure_remaining (pos 20) small)
ensure_remaining_lem_example = ensure_remaining_lem 20 small small-IsOpen (omega arith)

get_int-InRange_example : InRange 4 small (ltb small.limit (small.position + 4)) (get_int 4 small)
get_int-InRange_example =
    get_int-InRange 4 small small-IsValid
      (omega arith, (omega arith, (omega arith, (omega arith, (omega arith, omega arith)))))
