-- ===== src/Buffer/At.antt =====
-- What the reading methods of include/ByteBuffer.hpp that take an index return, wherever the position
-- is.
use voltdb_client_cpp.Prelude.{
  ℕ, ◌+◌, ◌^◌, ◌≤◌, ◌<◌, ◌≡◌, sym, ap, subst, ◌∙◌, List, ◌++◌, arith, length, length-append,
  append_assoc, drop, take-append, drop-append, false, some, refl, drop-drop,
}
use voltdb_client_cpp.Prelude.Int.{ℤ, pos, negsuc, eqb_ℤ, ◌+ℤ◌}
use voltdb_client_cpp.Action.{Action, done, pure, >>=_done}
use voltdb_client_cpp.Wire.{to_bytes, to_word, to_int}
use voltdb_client_cpp.Wire.Laws.{
  Fits, length-to_bytes, from_bytes-to_bytes, to_int-to_word, to_word-lt,
}
use voltdb_client_cpp.Buffer.Put.{IsText, text_bytes}
use voltdb_client_cpp.Buffer.{
  ByteBuffer, check_index, get_at, get_word_at, get_int_at, get_string_at,
}

-- `bs` stands at `i` in the storage, inside the limit.
pub record Stands (bs : List ℕ) (i : ℕ) (b : ByteBuffer) : Type 0 where
  pub rest : List ℕ
  pub bytes : drop i b.storage ≡ bs ++ rest
  pub inside : i + length bs ≤ b.limit

-- A method that returns `a` for an index at which `bs` stands, and changes nothing.
pub record ReadsAt {A : Type 0} (m : ℤ → Action ByteBuffer A) (bs : List ℕ) (a : A) : Type 0 where
  pub reads : (i : ℕ) (b : ByteBuffer) → Stands bs i b → m (pos i) b ≡ done a b

pub Stands-left : (xs ys : List ℕ) (i : ℕ) (b : ByteBuffer) → Stands (xs ++ ys) i b → Stands xs i b
Stands-left xs ys i b s = record {
  rest = ys ++ s.rest;
  bytes = s.bytes ∙ append_assoc xs ys s.rest;
  inside = omega (arith, s.inside, length-append xs ys);
}

pub Stands-right :
    (xs ys : List ℕ) (i : ℕ) (b : ByteBuffer) → Stands (xs ++ ys) i b → Stands ys (i + length xs) b
Stands-right xs ys i b s = record {
  rest = s.rest;
  bytes =
      sym (drop-drop i (length xs) b.storage)
      ∙ ap (drop (length xs)) (s.bytes ∙ append_assoc xs ys s.rest)
      ∙ drop-append xs (ys ++ s.rest);
  inside = omega (arith, s.inside, length-append xs ys);
}

pub ReadsAt-get_at : (bs : List ℕ) → ReadsAt (λ i. get_at i (pos (length bs))) bs bs
unfolding get_at check_index
ReadsAt-get_at bs = record {
  reads = λ i b s. ground (arith, s.inside, s.bytes, take-append bs s.rest);
}

pub ReadsAt-get_word_at : (n w : ℕ) → w < 256 ^ n → ReadsAt (get_word_at n) (to_bytes n w) w
unfolding get_word_at check_index
ReadsAt-get_word_at n w h = record {
  reads = λ i b s. ground (
    arith,
    s.inside,
    s.bytes,
    take-append (to_bytes n w) s.rest,
    length-to_bytes n w,
    from_bytes-to_bytes n w h,
  );
}

pub ReadsAt-get_int_at :
    (n : ℕ) (z : ℤ) → 0 < 256 ^ n → Fits n z → ReadsAt (get_int_at n) (to_bytes n (to_word n z)) z
unfolding get_int_at
ReadsAt-get_int_at n z p h = record {
  reads = λ i b s.
      >>=_done (get_word_at n (pos i)) (λ w. pure (to_int n w))
        ((ReadsAt-get_word_at n (to_word n z) (to_word-lt n z p)).reads i b s)
      ∙ ap (λ x. done x b) (to_int-to_word n z h);
}

pub counted_at :
    (s : List ℕ) → IsText s → ReadsAt (get_int_at 4) (to_bytes 4 (length s)) (pos (length s))
unfolding to_word
counted_at s h =
    subst (λ w. ReadsAt (get_int_at 4) (to_bytes 4 w) (pos (length s))) (omega arith)
      (ReadsAt-get_int_at 4 (pos (length s)) (omega arith) (omega arith))

pub next_index : (i : ℕ) → pos i +ℤ pos 4 ≡ pos (i + 4)
next_index i = ground arith

-- `getString(index)` gives the text that stands there behind its length.
pub ReadsAt-get_string_at : (s : List ℕ) → IsText s → ReadsAt get_string_at (text_bytes s) (some s)
unfolding get_string_at
ReadsAt-get_string_at s h = record {
  reads = λ i b st.
      let hd = to_bytes 4 (length s) in
      let l = length-to_bytes 4 (length s) in
      let n = (counted_at s h).reads i b (Stands-left hd s i b st) in
      let t = subst (λ k. Stands s (i + k) b) l (Stands-right hd s i b st) in
      let g = (ReadsAt-get_at s).reads (i + 4) b t in
      let c : eqb_ℤ (pos (length s)) (negsuc 0) ≡ false = ground arith in
      rw (n, c, next_index i, g) refl;
}
