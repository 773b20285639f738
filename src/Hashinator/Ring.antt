-- ===== src/Hashinator/Ring.antt =====
-- The ring of include/ElasticHashinator.h: its bytes.
use native.Mathlib.Nat.{mod-eq_of_lt}
use voltdb_client_cpp.Prelude.{
  ℕ, suc, ◌^◌, ◌≤◌, ◌<◌, ◌≡◌, refl, sym, ap, subst, ◌∙◌, ◌+◌, ◌*◌, leb, length-drop, some, List, [],
  ◌∷◌, ◌++◌, arith, length, take, drop, length-append, take-append, drop-append, append_assoc, ltb,
  drop-drop, false,
}
use voltdb_client_cpp.Prelude.Int.{ℤ}
use voltdb_client_cpp.Wire.{to_bytes, from_bytes, to_word, to_int}
use voltdb_client_cpp.Wire.Laws.{
  Fits, length-to_bytes, from_bytes-to_bytes, to_int-to_word, to_word-lt,
}
use voltdb_client_cpp.Hashinator.{Token, read_token, token_offset, read_tokens, read_ring}

abbrev int_bytes : ℤ → List ℕ
int_bytes z = to_bytes 4 (to_word 4 z)

abbrev pub token_bytes : List Token → List ℕ
token_bytes [] = []
token_bytes (t ∷ ts) = int_bytes t.position ++ (int_bytes t.partition ++ token_bytes ts)

-- The description of a ring on the wire: the count of the tokens, then each position and partition.
abbrev pub ring_bytes : List Token → List ℕ
ring_bytes ts = to_bytes 4 (length ts) ++ token_bytes ts

abbrev pub AllFit : List Token → Type 0
AllFit [] = 0 ≤ 0
AllFit (t ∷ ts) = Fits 4 t.position × Fits 4 t.partition × AllFit ts

four : (z : ℤ) → length (int_bytes z) ≡ 4
four z = length-to_bytes 4 (to_word 4 z)

read-int : (z : ℤ) → Fits 4 z → to_int 4 (from_bytes (int_bytes z)) ≡ z
read-int z h =
    ap (to_int 4) (from_bytes-to_bytes 4 (to_word 4 z) (to_word-lt 4 z (omega arith)))
    ∙ to_int-to_word 4 z h

take-four : (z : ℤ) (rest : List ℕ) → take 4 (int_bytes z ++ rest) ≡ int_bytes z
take-four z rest =
    subst (λ n. take n (int_bytes z ++ rest) ≡ int_bytes z) (four z)
      (take-append (int_bytes z) rest)

drop-four : (z : ℤ) (rest : List ℕ) → drop 4 (int_bytes z ++ rest) ≡ rest
drop-four z rest =
    subst (λ n. drop n (int_bytes z ++ rest) ≡ rest) (four z) (drop-append (int_bytes z) rest)

read_token-bytes :
    (t : Token) (tail : List ℕ)
    → Fits 4 t.position
    → Fits 4 t.partition
    → read_token (int_bytes t.position ++ (int_bytes t.partition ++ tail)) ≡ t
read_token-bytes t tail p q =
    rw
      (
        take-four t.position (int_bytes t.partition ++ tail),
        drop-four t.position (int_bytes t.partition ++ tail),
        take-four t.partition tail,
        read-int t.position p,
        read-int t.partition q,
      )
      refl

pub length-token_bytes : (ts : List Token) → length (token_bytes ts) ≡ 8 * length ts
length-token_bytes [] = refl
length-token_bytes (t ∷ ts) = omega (
  arith,
  length-append (int_bytes t.position) (int_bytes t.partition ++ token_bytes ts),
  length-append (int_bytes t.partition) (token_bytes ts),
  four t.position,
  four t.partition,
  length-token_bytes ts,
)

token_assoc :
    (t : Token) (ts : List Token) (rest : List ℕ)
    → token_bytes (t ∷ ts) ++ rest
      ≡ int_bytes t.position ++ (int_bytes t.partition ++ (token_bytes ts ++ rest))
token_assoc t ts rest =
    append_assoc (int_bytes t.position) (int_bytes t.partition ++ token_bytes ts) rest
    ∙ ap (◌++◌ (int_bytes t.position)) (append_assoc (int_bytes t.partition) (token_bytes ts) rest)

-- Behind a token stand the others.
drop-token :
    (t : Token) (tail : List ℕ)
    → drop 8 (int_bytes t.position ++ (int_bytes t.partition ++ tail)) ≡ tail
drop-token t tail =
    sym (drop-drop 4 4 (int_bytes t.position ++ (int_bytes t.partition ++ tail)))
    ∙ ap (drop 4) (drop-four t.position (int_bytes t.partition ++ tail))
    ∙ drop-four t.partition tail

offset-small : (i : ℕ) → i < 2 ^ 29 → token_offset i ≡ 4 + i * 8
offset-small i h = ground (arith, mod-eq_of_lt {n = i * 8} {m = 2 ^ 32})

-- From the `i`th token on, whose offset has not wrapped.
read_tokens-bytes :
    (ts : List Token) (i : ℕ) (bs rest : List ℕ)
    → AllFit ts
    → drop (4 + i * 8) bs ≡ token_bytes ts ++ rest
    → i + length ts ≤ 2 ^ 29
    → read_tokens (length ts) i bs ≡ some ts
unfolding read_tokens
read_tokens-bytes [] i bs rest f d h = refl
read_tokens-bytes (t ∷ ts) i bs rest (p, q, f) d h =
    let tail = token_bytes ts ++ rest in
    let o = offset-small i (omega (arith, h)) in
    let e = d ∙ token_assoc t ts rest in
    let l : ltb (length bs) (4 + i * 8 + 8) ≡ false = ground (
      arith,
      length-drop (4 + i * 8) bs,
      ap (λ (xs : List ℕ). length xs) d,
      length-append (token_bytes (t ∷ ts)) rest,
      length-token_bytes (t ∷ ts),
    ) in
    let next : drop (4 + suc i * 8) bs ≡ tail =
      ap (λ (k : ℕ). drop k bs) (omega arith)
      ∙ sym (drop-drop (4 + i * 8) 8 bs)
      ∙ ap (drop 8) e
      ∙ drop-token t tail in
    let later = read_tokens-bytes ts (suc i) bs rest f next (omega (arith, h)) in
    rw (o, l, e, read_token-bytes t tail p q, later) refl

pub read_ring-bytes :
    (ts : List Token) (rest : List ℕ)
    → AllFit ts
    → length ts ≤ 2 ^ 29
    → read_ring (ring_bytes ts ++ rest) ≡ some ts
unfolding read_ring
read_ring-bytes ts rest f h =
    let hd = to_bytes 4 (length ts) in
    let n = length-to_bytes 4 (length ts) in
    let a = append_assoc hd (token_bytes ts) rest in
    let tail = token_bytes ts ++ rest in
    let bs = hd ++ tail in
    let l : ltb (length bs) 4 ≡ false = ground (arith, n, length-append hd tail) in
    let t : take 4 bs ≡ hd = subst (λ k. take k bs ≡ hd) n (take-append hd tail) in
    let d : drop 4 bs ≡ tail = subst (λ k. drop k bs ≡ tail) n (drop-append hd tail) in
    let small : leb (2 ^ 31) (length ts) ≡ false = ground arith in
    let w : length ts < 256 ^ 4 = omega (arith, h) in
    rw (a, l, t, from_bytes-to_bytes 4 (length ts) w, small)
      (read_tokens-bytes ts 0 bs rest f d (omega (arith, h)))
