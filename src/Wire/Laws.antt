-- ===== src/Wire/Laws.antt =====
-- Round trips of words, bytes and integers.
use voltdb_client_cpp.Prelude.{
  ℕ, zero, suc, ◌+◌, ◌*◌, ◌/◌, ◌%◌, ◌^◌, ◌≤◌, ◌<◌, ◌≡◌, refl, ◌∙◌, List, [], ◌∷◌, ◌++◌, arith,
  length, length-append,
}
use native.Mathlib.Nat.{mod-eq_of_lt, pow-suc}
use voltdb_client_cpp.Prelude.Int.{ℤ, pos, negsuc, pos_part, neg_part}
use voltdb_client_cpp.Wire.{to_bytes, from_bytes_acc, from_bytes, to_word, to_int, cast}

pub length-to_bytes : (n w : ℕ) → length (to_bytes n w) ≡ n
unfolding to_bytes
length-to_bytes zero w = refl
length-to_bytes (suc n) w =
    omega
      (arith, length-append (to_bytes n (w / 256)) ((w % 256) ∷ []), length-to_bytes n (w / 256))

from_bytes_acc-append :
    (acc : ℕ) (xs : List ℕ) (b : ℕ)
    → from_bytes_acc acc (xs ++ b ∷ []) ≡ from_bytes_acc acc xs * 256 + b
unfolding from_bytes_acc
from_bytes_acc-append acc [] b = refl
from_bytes_acc-append acc (x ∷ xs) b = from_bytes_acc-append (acc * 256 + x) xs b

pow_step : (n w : ℕ) → w < 256 ^ suc n → w / 256 < 256 ^ n
pow_step n w h = omega (arith, pow-suc 256 n)

-- A word that fits `n` bytes is read back from them.
pub from_bytes-to_bytes : (n w : ℕ) → w < 256 ^ n → from_bytes (to_bytes n w) ≡ w
unfolding to_bytes from_bytes
from_bytes-to_bytes zero w h = omega arith
from_bytes-to_bytes (suc n) w h =
    from_bytes_acc-append 0 (to_bytes n (w / 256)) (w % 256)
    ∙ omega (arith, from_bytes-to_bytes n (w / 256) (pow_step n w h))

pub to_word-lt : (n : ℕ) (z : ℤ) → 0 < 256 ^ n → to_word n z < 256 ^ n
unfolding to_word
to_word-lt n (pos k) h = omega arith
to_word-lt n (negsuc k) h = omega arith

-- The range of the signed integers of `n` bytes.
pub record Fits (n : ℕ) (z : ℤ) : Type 0 where
  pub above : neg_part z * 2 ≤ 256 ^ n
  pub below : pos_part z * 2 < 256 ^ n

pub to_int-to_word : (n : ℕ) (z : ℤ) → Fits n z → to_int n (to_word n z) ≡ z
unfolding to_word to_int
to_int-to_word n (pos k) h = ground (arith, mod-eq_of_lt {n = k} {m = 256 ^ n})
to_int-to_word n (negsuc k) h = ground (arith, mod-eq_of_lt {n = k} {m = 256 ^ n})

pub cast-Fits : (n : ℕ) (z : ℤ) → Fits n z → cast n z ≡ z
unfolding cast
cast-Fits n z h = to_int-to_word n z h
