-- ===== src/Hashinator/Floor.antt =====
-- What include/ElasticHashinator.h looks for on its ring, found by a walk along it.
use voltdb_client_cpp.Prelude.{
  some_inj, ℕ, zero, suc, ◌+◌, ◌≤◌, ◌<◌, ◌≡◌, inl, inr, Option, none, some, List, [], ◌∷◌,
  if◌then◌else◌, arith, length, get_elem?, Bool-cases, subst, ltb→lt,
}
use voltdb_client_cpp.Prelude.Int.{ℤ, pos_part, neg_part, ltb_ℤ, ◌≤ℤ◌}
use voltdb_client_cpp.Hashinator.{Token}

-- `a` is below `b`, as a statement on natural numbers.
abbrev pub Below : ℤ → ℤ → Type 0
Below a b = pos_part a + neg_part b < pos_part b + neg_part a

abbrev pub AllAbove : ℤ → List Token → Type 0
AllAbove a [] = 0 ≤ 0
AllAbove a (t ∷ ts) = Below a t.position × AllAbove a ts

-- The positions grow along the ring.
abbrev pub IsSorted : List Token → Type 0
IsSorted [] = 0 ≤ 0
IsSorted (t ∷ ts) = AllAbove t.position ts × IsSorted ts

abbrev pub or_else : Option ℤ → ℤ → Option ℤ
or_else none d = some d
or_else (some p) d = some p

-- The partition of the last token that is not above the hash.
unfoldable pub floor : List Token → ℤ → Option ℤ
floor [] hash = none
floor (t ∷ ts) hash = if ltb_ℤ hash t.position then none else or_else (floor ts hash) t.partition

-- How many tokens are not above the hash.
unfoldable pub count_up_to : List Token → ℤ → ℕ
count_up_to [] hash = 0
count_up_to (t ∷ ts) hash = if ltb_ℤ hash t.position then 0 else suc (count_up_to ts hash)

pub count_up_to-le : (ring : List Token) (hash : ℤ) → count_up_to ring hash ≤ length ring
unfolding count_up_to
count_up_to-le [] hash = omega arith
count_up_to-le (t ∷ ts) hash = elim (Bool-cases (ltb_ℤ hash t.position)) [
  | inl h ↦ rw h (omega arith)
  | inr h ↦ rw h (omega (arith, count_up_to-le ts hash))
]

-- Every token that is counted is at or below the hash, and every other one is above.
pub count_up_to-below :
    (ring : List Token) (hash : ℤ) (i : ℕ) (t : Token)
    → get_elem? ring i ≡ some t
    → i < count_up_to ring hash
    → t.position ≤ℤ hash
unfolding count_up_to
count_up_to-below [] hash i t e h = elim h [ ]
count_up_to-below (s ∷ ts) hash zero t e h =
    subst (λ (x : Token). x.position ≤ℤ hash) (some_inj e) (ground arith)
count_up_to-below (s ∷ ts) hash (suc i) t e h = elim (Bool-cases (ltb_ℤ hash s.position)) [
  | inl b ↦ ground arith
  | inr b ↦ count_up_to-below ts hash i t e (ground arith)
]

pub above-get :
    (a : ℤ) (ts : List Token) (i : ℕ) (t : Token)
    → AllAbove a ts
    → get_elem? ts i ≡ some t
    → Below a t.position
above-get a [] i t s e = cc
above-get a (x ∷ ts) zero t s e = subst (λ (y : Token). Below a y.position) (some_inj e) s.0
above-get a (x ∷ ts) (suc i) t s e = above-get a ts i t s.1 e

pub count_up_to-above :
    (ring : List Token) (hash : ℤ) (i : ℕ) (t : Token)
    → IsSorted ring
    → get_elem? ring i ≡ some t
    → count_up_to ring hash ≤ i
    → Below hash t.position
unfolding count_up_to
count_up_to-above [] hash i t s e h = cc
count_up_to-above (x ∷ ts) hash i t s e h = elim (Bool-cases (ltb_ℤ hash x.position)) [
  | inl b ↦
      elim i as (λ i. get_elem? (x ∷ ts) i ≡ some t → Below hash t.position) [
        | zero ↦ λ e. subst (λ (y : Token). Below hash y.position) (some_inj e) (ground arith)
        | suc i ↦ λ e. omega (arith, above-get x.position ts i t s.0 e, ltb→lt _ _ b)
      ]
        e
  | inr b ↦
      elim i
          as (λ i.
            get_elem? (x ∷ ts) i ≡ some t → count_up_to (x ∷ ts) hash ≤ i → Below hash t.position) [
              | zero ↦ λ e h. ground arith
              | suc i ↦ λ e h. count_up_to-above ts hash i t s.1 e (ground arith)
            ]
        e h
]
