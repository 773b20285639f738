-- ===== src/Buffer/Storage.antt =====
-- The bytes behind a buffer: `memcpy` into and out of them.
use Prim.Native.Nat.add
use voltdb_client_cpp.Prelude.{
  ℕ, zero, suc, ◌+◌, ◌≤◌, ◌≡◌, refl, ap, List, [], ◌∷◌, ◌++◌, arith, length, take, drop,
  length-take, length-drop,
}

-- Copy a list of bytes to position `i`. What would lie behind the storage is not written.
unfoldable pub write_at : ℕ → List ℕ → List ℕ → List ℕ
write_at i new [] = []
write_at zero [] (x ∷ old) = x ∷ old
write_at zero (v ∷ new) (x ∷ old) = v ∷ write_at zero new old
write_at (suc i) new (x ∷ old) = x ∷ write_at i new old

-- The `n` bytes at position `i`.
abbrev pub read_at : ℕ → ℕ → List ℕ → List ℕ
read_at i n old = take n (drop i old)

pub length-write_at : (i : ℕ) (new old : List ℕ) → length (write_at i new old) ≡ length old
unfolding write_at
length-write_at i new [] = refl
length-write_at zero [] (x ∷ old) = refl
length-write_at zero (v ∷ new) (x ∷ old) = ap suc (length-write_at zero new old)
length-write_at (suc i) new (x ∷ old) = ap suc (length-write_at i new old)

pub length-read_at : (i n : ℕ) (old : List ℕ) → i + n ≤ length old → length (read_at i n old) ≡ n
length-read_at i n old h = omega (arith, length-take n (drop i old), length-drop i old)

pub write_at-nil : (i : ℕ) (old : List ℕ) → write_at i [] old ≡ old
unfolding write_at
write_at-nil i [] = refl
write_at-nil zero (x ∷ old) = refl
write_at-nil (suc i) (x ∷ old) = ap (◌∷◌ x) (write_at-nil i old)

-- Two copies, one behind the other, are one copy.
pub write_at-write_at :
    (i : ℕ) (xs ys old : List ℕ)
    → write_at (i + length xs) ys (write_at i xs old) ≡ write_at i (xs ++ ys) old
unfolding write_at
write_at-write_at i xs ys [] = refl
write_at-write_at zero [] ys (x ∷ old) = refl
write_at-write_at zero (v ∷ xs) ys (x ∷ old) =
    rw add.zero (ap (◌∷◌ v) (rw add.zero at (write_at-write_at zero xs ys old)))
write_at-write_at (suc i) xs ys (x ∷ old) = rw add.suc (ap (◌∷◌ x) (write_at-write_at i xs ys old))

-- What was copied is read back.
pub read_at-write_at :
    (i : ℕ) (xs old : List ℕ)
    → i + length xs ≤ length old
    → read_at i (length xs) (write_at i xs old) ≡ xs
unfolding write_at
read_at-write_at zero [] [] h = refl
read_at-write_at zero [] (x ∷ old) h = refl
read_at-write_at zero (v ∷ xs) [] h = absurd (omega arith)
read_at-write_at zero (v ∷ xs) (x ∷ old) h = ap (◌∷◌ v) (read_at-write_at zero xs old (omega arith))
read_at-write_at (suc i) xs [] h = absurd (omega arith)
read_at-write_at (suc i) xs (x ∷ old) h = read_at-write_at i xs old (omega arith)

-- Bytes in front of the copy stay.
pub read_at-write_at_below :
    (j n i : ℕ) (xs old : List ℕ) → j + n ≤ i → read_at j n (write_at i xs old) ≡ read_at j n old
unfolding write_at
read_at-write_at_below j n i xs [] h = refl
read_at-write_at_below j zero zero xs (x ∷ old) h = refl
read_at-write_at_below j (suc n) zero xs (x ∷ old) h = absurd (omega arith)
read_at-write_at_below zero zero (suc i) xs (x ∷ old) h = refl
read_at-write_at_below zero (suc n) (suc i) xs (x ∷ old) h =
    ap (◌∷◌ x) (read_at-write_at_below zero n i xs old (omega arith))
read_at-write_at_below (suc j) n (suc i) xs (x ∷ old) h =
    read_at-write_at_below j n i xs old (omega arith)

-- Bytes behind the copy stay.
pub read_at-write_at_above :
    (j n i : ℕ) (xs old : List ℕ)
    → i + length xs ≤ j
    → read_at j n (write_at i xs old) ≡ read_at j n old
unfolding write_at
read_at-write_at_above j n i xs [] h = refl
read_at-write_at_above j n zero [] (x ∷ old) h = refl
read_at-write_at_above zero n zero (v ∷ xs) (x ∷ old) h = absurd (omega arith)
read_at-write_at_above (suc j) n zero (v ∷ xs) (x ∷ old) h =
    read_at-write_at_above j n zero xs old (omega arith)
read_at-write_at_above zero n (suc i) xs (x ∷ old) h = absurd (omega arith)
read_at-write_at_above (suc j) n (suc i) xs (x ∷ old) h =
    read_at-write_at_above j n i xs old (omega arith)

-- A copy keeps what stood in front and gives a longer filled part.
pub take-write_at :
    (i : ℕ) (xs old : List ℕ)
    → i + length xs ≤ length old
    → take (i + length xs) (write_at i xs old) ≡ take i old ++ xs
unfolding write_at
take-write_at zero [] [] h = refl
take-write_at zero [] (x ∷ old) h = refl
take-write_at zero (v ∷ xs) [] h = absurd (omega arith)
take-write_at zero (v ∷ xs) (x ∷ old) h =
    rw add.zero (ap (◌∷◌ v) (rw add.zero at (take-write_at zero xs old (omega arith))))
take-write_at (suc i) xs [] h = absurd (omega arith)
take-write_at (suc i) xs (x ∷ old) h =
    rw add.suc (ap (◌∷◌ x) (take-write_at i xs old (omega arith)))

-- A copy to the front, seen from behind it.
pub take-write_at_front :
    (n : ℕ) (xs old ys zs : List ℕ)
    → take n old ≡ ys ++ zs
    → length xs ≡ length ys
    → n ≤ length old
    → take n (write_at zero xs old) ≡ xs ++ zs
unfolding write_at
take-write_at_front n [] old [] zs e l h = rw (write_at-nil zero old) e
take-write_at_front n [] old (y ∷ ys) zs e l h = absurd (omega arith)
take-write_at_front n (x ∷ xs) old [] zs e l h = absurd (omega arith)
take-write_at_front zero (x ∷ xs) old (y ∷ ys) zs e l h = cc
take-write_at_front (suc n) (x ∷ xs) [] (y ∷ ys) zs e l h = absurd (omega arith)
take-write_at_front (suc n) (x ∷ xs) (o ∷ old) (y ∷ ys) zs e l h =
    ap (◌∷◌ x) (take-write_at_front n xs old ys zs (cc) (omega arith) (omega arith))
