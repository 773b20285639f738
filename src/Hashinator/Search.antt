-- ===== src/Hashinator/Search.antt =====
-- `partitionForToken` of include/ElasticHashinator.h: the binary search against a walk along the ring.
use voltdb_client_cpp.Prelude.{
  some_inj, ℕ, zero, suc, ◌+◌, ◌-◌, ◌/◌, ◌≤◌, ◌<◌, ◌≡◌, refl, ap, ◌∙◌, inl, inr, Option, some, List,
  [], ◌∷◌, subst, arith, length, get_elem?, Bool-cases, ltb, ltb→lt,
}
use voltdb_client_cpp.Prelude.Int.{ℤ, ltb_ℤ, ◌≤ℤ◌}
use voltdb_client_cpp.Hashinator.{
  Token, before, Turn, found, go, compare_mid, turn, search, partition_for_token,
}
use voltdb_client_cpp.Hashinator.Floor.{
  Below, IsSorted, floor, or_else, count_up_to, count_up_to-le, count_up_to-below,
  count_up_to-above, above-get,
}

get_elem?-lt : (ts : List Token) (i : ℕ) → i < length ts → (t : Token) × (get_elem? ts i ≡ some t)
get_elem?-lt [] i h = elim h [ ]
get_elem?-lt (t ∷ ts) zero h = (t, refl)
get_elem?-lt (t ∷ ts) (suc i) h = get_elem?-lt ts i (omega arith)

or_else-some : (o : Option ℤ) (p q : ℤ) → o ≡ some p → or_else o q ≡ some p
or_else-some o p q e = rw e refl

-- The token in front of the first one above the hash is the one that the walk finds.
before-count :
    (ring : List Token) (hash : ℤ) → before ring (count_up_to ring hash) ≡ floor ring hash
unfolding count_up_to floor
before-count [] hash = refl
before-count (t ∷ ts) hash = elim (Bool-cases (ltb_ℤ hash t.position)) [
  | inl h ↦ rw h refl
  | inr h ↦ rw h (
      found t ts (count_up_to ts hash) (floor ts hash) (count_up_to-le ts hash)
        (before-count ts hash))
]
  where
    found :
        (t : Token) (ts : List Token) (k : ℕ) (f : Option ℤ)
        → k ≤ length ts
        → before ts k ≡ f
        → before (t ∷ ts) (suc k) ≡ or_else f t.partition
    found t ts zero f l e = rw (← e) refl
    found t ts (suc k) f l e = let (x, g) = get_elem?-lt ts k (omega arith) in rw (← e, g) refl

sorted-lt :
    (ring : List Token) (i j : ℕ) (s t : Token)
    → IsSorted ring
    → get_elem? ring i ≡ some s
    → get_elem? ring j ≡ some t
    → i < j
    → Below s.position t.position
sorted-lt [] i j s t h e f l = cc
sorted-lt (x ∷ ts) i zero s t h e f l = elim l [ ]
sorted-lt (x ∷ ts) zero (suc j) s t h e f l =
    subst (λ (y : Token). Below y.position t.position) (some_inj e)
      (above-get x.position ts j t h.0 f)
sorted-lt (x ∷ ts) (suc i) (suc j) s t h e f l = sorted-lt ts i j s t h.1 e f (omega arith)

-- The boundary between the tokens up to the hash and those above it stays in the range, and the
-- range shrinks, or what is returned is in front of the boundary.
abbrev pub Advances : List Token → ℤ → ℕ → ℕ → Turn → Type 0
Advances ring hash min end (found p) = p ≡ before ring (count_up_to ring hash)
Advances ring hash min end (go min' end') =
    (min' ≤ count_up_to ring hash)
    × (count_up_to ring hash ≤ end')
    × (end' ≤ end)
    × (end' + min < end + min')

count-gt :
    (ring : List Token) (hash : ℤ) (mid : ℕ) (t : Token)
    → IsSorted ring
    → get_elem? ring mid ≡ some t
    → t.position ≤ℤ hash
    → mid < count_up_to ring hash
count-gt ring hash mid t s g h = elim (Bool-cases (ltb mid (count_up_to ring hash))) [
  | inl b ↦ ltb→lt _ _ b
  | inr b ↦ absurd (omega (arith, count_up_to-above ring hash mid t s g (ground arith)))
]

count-le :
    (ring : List Token) (hash : ℤ) (mid : ℕ) (t : Token)
    → get_elem? ring mid ≡ some t
    → Below hash t.position
    → count_up_to ring hash ≤ mid
count-le ring hash mid t g h = elim (Bool-cases (ltb mid (count_up_to ring hash))) [
  | inl b ↦ absurd (omega (arith, count_up_to-below ring hash mid t g (ltb→lt _ _ b)))
  | inr b ↦ ground arith
]

count-next :
    (ring : List Token) (hash : ℤ) (mid : ℕ) (t : Token)
    → IsSorted ring
    → get_elem? ring mid ≡ some t
    → hash ≤ℤ t.position
    → count_up_to ring hash ≤ suc mid
count-next ring hash mid t s g h = elim (Bool-cases (ltb (suc mid) (count_up_to ring hash))) [
  | inl b ↦
      let (x, e) =
        get_elem?-lt ring (suc mid) (omega (arith, ltb→lt _ _ b, count_up_to-le ring hash)) in
      absurd (
        omega (
          arith,
          count_up_to-below ring hash (suc mid) x e (ltb→lt _ _ b),
          sorted-lt ring mid (suc mid) t x s g e (omega arith),
        ))
  | inr b ↦ ground arith
]

compare_mid-Advances :
    (ring : List Token) (hash : ℤ) (min mid end : ℕ) (t : Token)
    → IsSorted ring
    → get_elem? ring mid ≡ some t
    → min ≤ count_up_to ring hash
    → count_up_to ring hash ≤ end
    → min ≤ mid
    → mid < end
    → Advances ring hash min end (compare_mid hash min mid end (some t))
unfolding compare_mid
compare_mid-Advances ring hash min mid end t s g lo hi a b =
    elim (Bool-cases (ltb_ℤ t.position hash)) [
      | inl x ↦ rw x (
        (omega (arith, count-gt ring hash mid t s g (ground arith))),
        hi,
        omega arith,
        omega arith,
      )
      | inr x ↦ elim (Bool-cases (ltb_ℤ hash t.position)) [
        | inl y ↦
            rw (x, y) (lo, count-le ring hash mid t g (ltb→lt _ _ y), omega arith, omega arith)
        | inr y ↦
            (let c : count_up_to ring hash ≡ suc mid = omega (
              arith,
              count-gt ring hash mid t s g (ground arith),
              count-next ring hash mid t s g (ground arith),
            ) in
              rw (x, y, c, g) refl)
      ]
    ]

turn-Advances :
    (ring : List Token) (hash : ℤ) (min end : ℕ)
    → IsSorted ring
    → min ≤ count_up_to ring hash
    → count_up_to ring hash ≤ end
    → end ≤ length ring
    → Advances ring hash min end (turn ring hash min end)
unfolding turn
turn-Advances ring hash min end s lo hi l = elim (Bool-cases (ltb min end)) [
  | inr stop ↦ rw stop (ap (before ring) (ground arith))
  | inl more ↦
      let mid = (min + (end - 1)) / 2 in
      let (t, g) = get_elem?-lt ring mid (omega (arith, ltb→lt _ _ more)) in
      rw (more, g)
        (compare_mid-Advances ring hash min mid end t s g lo hi (omega (arith, ltb→lt _ _ more))
          (omega (arith, ltb→lt _ _ more)))
]

-- Whatever the range, as long as the boundary lies in it and the fuel exceeds its length.
search-before :
    (fuel : ℕ) (ring : List Token) (hash : ℤ) (min end : ℕ)
    → IsSorted ring
    → min ≤ count_up_to ring hash
    → count_up_to ring hash ≤ end
    → end ≤ length ring
    → end < min + fuel
    → search fuel ring hash min end ≡ before ring (count_up_to ring hash)
unfolding search
search-before zero ring hash min end s lo hi l f = absurd (omega arith)
search-before (suc fuel) ring hash min end s lo hi l f =
    go_on (λ a b x y z w. search-before fuel ring hash a b s x y z w) (turn ring hash min end)
      (turn-Advances ring hash min end s lo hi l)
  where
    go_on :
        ((a b : ℕ)
          → a ≤ count_up_to ring hash
          → count_up_to ring hash ≤ b
          → b ≤ length ring
          → b < a + fuel
          → search fuel ring hash a b ≡ before ring (count_up_to ring hash))
        → (t : Turn) → Advances ring hash min end t
        → elim t [ found p ↦ p | go min' end' ↦ search fuel ring hash min' end' ]
          ≡ before ring (count_up_to ring hash)
    go_on r (found p) a = a
    go_on r (go min' end') (a, b, c, d) = r min' end' a b (omega arith) (omega arith)

-- On a ring whose positions grow, the binary search ends and returns the partition of the last token
-- that is not above the hash, and reads in front of the ring where there is none.
pub partition_for_token-floor :
    (ring : List Token) (hash : ℤ) → IsSorted ring → partition_for_token ring hash ≡ floor ring hash
unfolding partition_for_token
partition_for_token-floor ring hash s =
    search-before (suc (length ring)) ring hash 0 (length ring) s (omega arith)
      (count_up_to-le ring hash) (omega arith) (omega arith)
    ∙ before-count ring hash
