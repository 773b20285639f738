-- ===== src/Hashinator.antt =====
-- include/ElasticHashinator.h: the ring of tokens that maps a hash to a partition. The hash is that
-- of src/MurmurHash3.cpp, a copy of another library, and stands as a parameter.
pub mod Floor
pub mod Search
pub mod Ring
use voltdb_client_cpp.Prelude.{
  ℕ, zero, suc, ◌+◌, ◌-◌, ◌*◌, ◌/◌, ◌%◌, ◌^◌, Bool, true, false, Option, none, some, List, [], ◌∷◌,
  ltb, leb, if◌then◌else◌, length, get_elem?, take, drop,
}
use voltdb_client_cpp.Prelude.Int.{ℤ, pos, negsuc, ltb_ℤ, eqb_ℤ}
use voltdb_client_cpp.Wire.{from_bytes, to_int}

-- `m_tokens[2 * i]` and `m_tokens[2 * i + 1]`.
pub record Token : Type 0 where
  pub position : ℤ
  pub partition : ℤ

-- `MurmurHash3_x64_128` of an `int64_t` and of a string with the seed 0, as the `int32_t` it gives.
pub record Murmur : Type 0 where
  pub of_int : ℤ → ℤ
  pub of_text : List ℕ → ℤ

abbrev pub with_token : Token → Option (List Token) → Option (List Token)
with_token t none = none
with_token t (some ts) = some (t ∷ ts)

abbrev pub read_token : List ℕ → Token
read_token bs = record {
  position = to_int 4 (from_bytes (take 4 bs));
  partition = to_int 4 (from_bytes (take 4 (drop 4 bs)));
}

-- `ii*8 + tokenCountsOffset`: the product is one of `uint32_t`, the sum with the pointer is not.
abbrev pub token_offset : ℕ → ℕ
token_offset i = i * 8 % 2 ^ 32 + 4

-- The loop of the constructor, from `ii` on; `none` where it would read behind the bytes.
unfoldable pub read_tokens : ℕ → ℕ → List ℕ → Option (List Token)
read_tokens zero i bs = some []
read_tokens (suc n) i bs =
    let rest = read_tokens n (suc i) bs in
    if ltb (length bs) (token_offset i + 8)
    then none
    else with_token (read_token (drop (token_offset i) bs)) rest

-- `2*m_tokenCount` wraps from 2 ^ 31 tokens on, and the array is then too short for the loop.
abbrev pub tokens_of_count : ℕ → List ℕ → Option (List Token)
tokens_of_count n bs = if leb (2 ^ 31) n then none else read_tokens n 0 bs

-- `ElasticHashinator(const char *tokens)`: the count, then the tokens.
unfoldable pub read_ring : List ℕ → Option (List Token)
read_ring bs = if ltb (length bs) 4 then none else tokens_of_count (from_bytes (take 4 bs)) bs

abbrev pub partition_of : Option Token → Option ℤ
partition_of none = none
partition_of (some t) = some t.partition

-- `m_tokens[(min - 1) * 2 + 1]`; `none` where that is in front of the array.
abbrev pub before : List Token → ℕ → Option ℤ
before ring zero = none
before ring (suc i) = partition_of (get_elem? ring i)

-- What the body of the loop comes to: a return, or another turn with a smaller range.
pub data Turn : Type 0 where
  found : Option ℤ → Turn
  go : ℕ → ℕ → Turn

-- The tests `midval < hash` and `midval > hash` at `mid`.
unfoldable pub compare_mid : ℤ → ℕ → ℕ → ℕ → Option Token → Turn
compare_mid hash min mid end none = found none
compare_mid hash min mid end (some t) =
    if ltb_ℤ t.position hash
    then go (mid + 1) end
    else if ltb_ℤ hash t.position
    then go min mid
    else found (some t.partition)

-- The condition and the body of the loop. `end` is `max + 1`, so that an empty range needs no
-- negative number; `mid` is `(min + max) >> 1`.
unfoldable pub turn : List Token → ℤ → ℕ → ℕ → Turn
turn ring hash min end =
    let mid = (min + (end - 1)) / 2 in
    if ltb min end
    then compare_mid hash min mid end (get_elem? ring mid)
    else found (before ring min)

-- The loop of `partitionForToken`, on fuel.
unfoldable pub search : ℕ → List Token → ℤ → ℕ → ℕ → Option ℤ
search zero ring hash min end = none
search (suc fuel) ring hash min end = elim (turn ring hash min end) [
  | found p ↦ p
  | go min' end' ↦ search fuel ring hash min' end'
]

unfoldable pub partition_for_token : List Token → ℤ → Option ℤ
partition_for_token ring hash = search (suc (length ring)) ring hash 0 (length ring)

-- INT64_MIN.
abbrev pub int64_min : ℤ
int64_min = negsuc (2 ^ 63 - 1)

unfoldable pub hashinate_int : Murmur → List Token → ℤ → Option ℤ
hashinate_int m ring value =
    if eqb_ℤ value int64_min then some (pos 0) else partition_for_token ring (m.of_int value)

unfoldable pub hashinate_text : Murmur → List Token → List ℕ → Option ℤ
hashinate_text m ring text = partition_for_token ring (m.of_text text)
