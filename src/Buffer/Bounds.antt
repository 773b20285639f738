-- ===== src/Buffer/Bounds.antt =====
-- The range of the integers that include/ByteBuffer.hpp reads.
use native.Mathlib.Nat.{mul-le-mul_right, mul_assoc, mul_comm, pow-suc}
use voltdb_client_cpp.Prelude.{
  ℕ, zero, suc, ◌+◌, ◌*◌, ◌^◌, ◌≤◌, ◌<◌, ◌≡◌, refl, ap, subst, sym, ◌∙◌, List, [], ◌∷◌, arith,
  length, take, drop, ltb, Bool, true, false, Bool-cases, inl, inr,
}
use voltdb_client_cpp.Prelude.Int.{ℤ}
use voltdb_client_cpp.Action.{Outcome, done, fail, overflow_underflow}
use voltdb_client_cpp.Wire.{from_bytes, from_bytes_acc, to_int}
use voltdb_client_cpp.Wire.Laws.{Fits}
use voltdb_client_cpp.Buffer.{ByteBuffer, get_int, get_word, check_get_put_index}
use voltdb_client_cpp.Buffer.Storage.{read_at, length-read_at}
use voltdb_client_cpp.Buffer.Keeps.{IsValid}

abbrev pub AllBytes : List ℕ → Type 0
AllBytes [] = 0 ≤ 0
AllBytes (b ∷ bs) = (b < 256) × AllBytes bs

AllBytes-take : (n : ℕ) (bs : List ℕ) → AllBytes bs → AllBytes (take n bs)
AllBytes-take zero bs a = omega arith
AllBytes-take (suc n) [] a = a
AllBytes-take (suc n) (b ∷ bs) a = (a.0, AllBytes-take n bs a.1)

AllBytes-drop : (n : ℕ) (bs : List ℕ) → AllBytes bs → AllBytes (drop n bs)
AllBytes-drop zero bs a = a
AllBytes-drop (suc n) [] a = a
AllBytes-drop (suc n) (b ∷ bs) a = AllBytes-drop n bs a.1

from_bytes_acc-lt :
    (bs : List ℕ) (acc : ℕ) → AllBytes bs → suc (from_bytes_acc acc bs) ≤ suc acc * 256 ^ length bs
unfolding from_bytes_acc
from_bytes_acc-lt [] acc a = omega arith
from_bytes_acc-lt (b ∷ bs) acc a =
    let p = 256 ^ length bs in
    let m = from_bytes_acc-lt bs (acc * 256 + b) a.1 in
    let h : suc (acc * 256 + b) ≤ suc acc * 256 = omega (arith, a.0) in
    let e : suc acc * 256 * p ≡ suc acc * 256 ^ suc (length bs) =
      mul_assoc (suc acc) 256 p
      ∙ ap (λ (k : ℕ). suc acc * k) (mul_comm 256 p ∙ sym (pow-suc 256 (length bs))) in
    omega (arith, m, mul-le-mul_right p h, e)

to_int-Fits : (n w : ℕ) → w < 256 ^ n → Fits n (to_int n w)
unfolding to_int
to_int-Fits n w h = elim (Bool-cases (ltb (w * 2) (256 ^ n))) [
  | inl e ↦ rw e (record { above = omega arith; below = ground arith })
  | inr e ↦ rw e (record { above = ground arith; below = ground arith })
]

-- What an integer of `n` bytes may come to: in range where the bytes are there, and else the exception.
abbrev pub InRange : ℕ → ByteBuffer → Bool → Outcome ByteBuffer ℤ → Type 0
InRange n b true o = o ≡ fail overflow_underflow b
InRange n b false o = (z : ℤ) × (o ≡ done z (record b { position = b.position + n })) × Fits n z

-- From a buffer in bounds whose storage holds bytes, an integer of any width is read just where its
-- bytes stand in front of the limit: it is in the range of the signed integers of its width, and the
-- position moves behind it; where they do not, the method throws and the buffer is as before.
pub get_int-InRange :
    (n : ℕ) (b : ByteBuffer)
    → IsValid b
    → AllBytes b.storage
    → InRange n b (ltb b.limit (b.position + n)) (get_int n b)
unfolding get_int get_word check_get_put_index from_bytes
get_int-InRange n b v a = elim (Bool-cases (ltb b.limit (b.position + n))) [
  | inl e ↦ rw e refl
  | inr e ↦
      let inside : b.position + n ≤ length b.storage = ground (arith, v.limit, v.storage) in
      let bs = read_at b.position n b.storage in
      let l : length bs ≡ n = length-read_at b.position n b.storage inside in
      let w =
        from_bytes_acc-lt bs 0
          (AllBytes-take n (drop b.position b.storage) (AllBytes-drop b.position b.storage a)) in
      let h : from_bytes bs < 256 ^ n =
        subst (λ (k : ℕ). from_bytes bs < 256 ^ k) l (omega (arith, w)) in
      rw e (_, refl, to_int-Fits n (from_bytes bs) h)
]
