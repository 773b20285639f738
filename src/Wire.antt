-- ===== src/Wire.antt =====
-- The byte order of the wire: what `htons`, `htonl` and `htonll` and their inverses do together
-- with the copies from and to memory in include/ByteBuffer.hpp. A byte is a number below 256.
pub mod Laws
use voltdb_client_cpp.Prelude.{
  ℕ, zero, suc, ◌+◌, ◌-◌, ◌*◌, ◌/◌, ◌%◌, ◌^◌, ◌<◌, List, [], ◌∷◌, ◌++◌, ltb, if◌then◌else◌,
}
use voltdb_client_cpp.Prelude.Int.{ℤ, pos, negsuc, pos_part, neg_part}

-- The low `n` bytes of a word, the highest first.
unfoldable pub to_bytes : ℕ → ℕ → List ℕ
to_bytes zero w = []
to_bytes (suc n) w = to_bytes n (w / 256) ++ (w % 256) ∷ []

unfoldable pub from_bytes_acc : ℕ → List ℕ → ℕ
from_bytes_acc acc [] = acc
from_bytes_acc acc (b ∷ bs) = from_bytes_acc (acc * 256 + b) bs

unfoldable pub from_bytes : List ℕ → ℕ
unfolding from_bytes_acc
from_bytes bs = from_bytes_acc 0 bs

-- Two's complement in `n` bytes: the pattern of an integer, and the integer of a pattern.
unfoldable pub to_word : ℕ → ℤ → ℕ
to_word n (pos k) = k % 256 ^ n
to_word n (negsuc k) = 256 ^ n - 1 - k % 256 ^ n

unfoldable pub to_int : ℕ → ℕ → ℤ
to_int n w = if ltb (w * 2) (256 ^ n) then pos w else negsuc (256 ^ n - 1 - w)

-- `static_cast<int32_t>` and the like on an integer.
unfoldable pub cast : ℕ → ℤ → ℤ
unfolding to_word to_int
cast n z = to_int n (to_word n z)

-- The two's complement of an integer in `n` bytes.
abbrev pub int_bytes : ℕ → ℤ → List ℕ
int_bytes n z = to_bytes n (to_word n z)
