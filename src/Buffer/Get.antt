-- ===== src/Buffer/Get.antt =====
-- What the reading methods of include/ByteBuffer.hpp return on bytes that the writing methods left.
use voltdb_client_cpp.Prelude.{
  ℕ, ◌+◌, ◌^◌, ◌≤◌, ◌<◌, ◌≡◌, sym, ap, subst, ◌∙◌, List, [], ◌++◌, arith, length, length-append,
  append_assoc, append-nil, drop, take-append, drop-append, drop-drop, if◌then◌else◌, Bool, true,
  false, none, some,
}
use voltdb_client_cpp.Prelude.Int.{ℤ, pos, negsuc, eqb_ℤ}
use voltdb_client_cpp.Action.{Action, done, ◌>>=◌, pure, >>=_done}
use voltdb_client_cpp.Wire.{to_bytes, to_word, to_int}
use voltdb_client_cpp.Wire.Laws.{
  Fits, length-to_bytes, from_bytes-to_bytes, to_int-to_word, to_word-lt,
}
use voltdb_client_cpp.Buffer.Put.{IsText, text_bytes}
use voltdb_client_cpp.Buffer.{ByteBuffer, check_get_put_index, get, get_word, get_int, get_string}

-- The buffer behind `n` bytes.
abbrev pub advance : ℕ → ByteBuffer → ByteBuffer
advance n b = record b { position = b.position + n }

-- The unread bytes begin with `bs`, inside the limit.
pub record Starts (bs : List ℕ) (b : ByteBuffer) : Type 0 where
  pub rest : List ℕ
  pub bytes : drop b.position b.storage ≡ bs ++ rest
  pub inside : b.position + length bs ≤ b.limit

-- A method that takes `bs` from the front of the unread bytes and returns `a`.
pub record Reads {A : Type 0} (m : Action ByteBuffer A) (bs : List ℕ) (a : A) : Type 0 where
  pub takes : (b : ByteBuffer) → Starts bs b → m b ≡ done a (advance (length bs) b)

pub Starts-left : (xs ys : List ℕ) (b : ByteBuffer) → Starts (xs ++ ys) b → Starts xs b
Starts-left xs ys b s = record {
  rest = ys ++ s.rest;
  bytes = s.bytes ∙ append_assoc xs ys s.rest;
  inside = omega (arith, s.inside, length-append xs ys);
}

pub Starts-right :
    (xs ys : List ℕ) (b : ByteBuffer) → Starts (xs ++ ys) b → Starts ys (advance (length xs) b)
Starts-right xs ys b s = record {
  rest = s.rest;
  bytes =
      sym (drop-drop b.position (length xs) b.storage)
      ∙ ap (drop (length xs)) (s.bytes ∙ append_assoc xs ys s.rest)
      ∙ drop-append xs (ys ++ s.rest);
  inside = omega (arith, s.inside, length-append xs ys);
}

pub Reads-bind :
    {A B : Type 0} {m : Action ByteBuffer A} (f : A → Action ByteBuffer B) {xs ys : List ℕ} {a : A}
    {c : B}
    → Reads m xs a
    → Reads (f a) ys c
    → Reads (m >>= f) (xs ++ ys) c
Reads-bind {m = m} f {xs = xs} {ys = ys} {c = c} r q = record {
  takes = λ b s.
      >>=_done m f (r.takes b (Starts-left xs ys b s))
      ∙ q.takes (advance (length xs) b) (Starts-right xs ys b s)
      ∙ ap (done c) (advanced b);
}
  where
    advanced :
        (b : ByteBuffer)
        → advance (length ys) (advance (length xs) b) ≡ advance (length (xs ++ ys)) b
    advanced b =
        let e : b.position + length xs + length ys ≡ b.position + length (xs ++ ys) =
          omega (arith, length-append xs ys) in
        λ i. record b { position = e i }

-- A last step that only computes.
pub Reads-map :
    {A B : Type 0} {m : Action ByteBuffer A} {xs : List ℕ} {a : A}
    → Reads m xs a
    → (g : A → B) → Reads (m >>= λ x. pure (g x)) xs (g a)
Reads-map {m = m} r g = record { takes = λ b s. >>=_done m (λ x. pure (g x)) (r.takes b s) }

pub Reads-get : (bs : List ℕ) → Reads (get (pos (length bs))) bs bs
unfolding get check_get_put_index
Reads-get bs = record { takes = λ b s. ground (arith, s.inside, s.bytes, take-append bs s.rest) }

pub Reads-get_word : (n w : ℕ) → w < 256 ^ n → Reads (get_word n) (to_bytes n w) w
unfolding get_word check_get_put_index
Reads-get_word n w h = record {
  takes = λ b s. ground (
    arith,
    s.inside,
    s.bytes,
    take-append (to_bytes n w) s.rest,
    length-to_bytes n w,
    from_bytes-to_bytes n w h,
  );
}

pub Reads-get_int :
    (n : ℕ) (z : ℤ) → 0 < 256 ^ n → Fits n z → Reads (get_int n) (to_bytes n (to_word n z)) z
unfolding get_int
Reads-get_int n z p h =
    subst (Reads (get_int n) (to_bytes n (to_word n z))) (to_int-to_word n z h)
      (Reads-map (Reads-get_word n (to_word n z) (to_word-lt n z p)) (to_int n))

-- A length prefix that is not -1, and its content.
pub counted : (s : List ℕ) → IsText s → Reads (get_int 4) (to_bytes 4 (length s)) (pos (length s))
unfolding to_word
counted s h =
    subst (λ w. Reads (get_int 4) (to_bytes 4 w) (pos (length s))) word
      (Reads-get_int 4 (pos (length s)) (omega arith) (omega arith))
  where
    word : to_word 4 (pos (length s)) ≡ length s
    word = omega arith

-- A test whose value is known.
pub Reads-else :
    {A : Type 0} (t : Bool) (m : Action ByteBuffer A) {n : Action ByteBuffer A} {xs : List ℕ}
    {a : A}
    → t ≡ false
    → Reads n xs a
    → Reads (if t then m else n) xs a
Reads-else t m {n} {xs} {a} e r = rw e r

pub Reads-then :
    {A : Type 0} (t : Bool) {m : Action ByteBuffer A} (n : Action ByteBuffer A) {xs : List ℕ}
    {a : A}
    → t ≡ true
    → Reads m xs a
    → Reads (if t then m else n) xs a
Reads-then t {m} n {xs} {a} e r = rw e r

pub Reads-pure : {A : Type 0} (a : A) → Reads (pure a) [] a
Reads-pure a = record { takes = λ b s. ap (done a) (λ i. record b { position = plus_nil b i }) }
  where
    plus_nil : (b : ByteBuffer) → b.position ≡ b.position + 0
    plus_nil b = omega arith

-- `getString` takes back what `putString` wrote.
pub Reads-get_string : (s : List ℕ) → IsText s → Reads get_string (text_bytes s) (some s)
unfolding get_string
Reads-get_string s h = Reads-bind _ (counted s h) (
    Reads-else (eqb_ℤ (pos (length s)) (negsuc 0)) (pure none) (ground arith)
      (Reads-map (Reads-get s) some))

-- The length prefix -1 stands for SQL null.
pub Reads-get_string_null : Reads get_string (to_bytes 4 (to_word 4 (negsuc 0))) none
unfolding get_string
Reads-get_string_null =
    subst (λ xs. Reads get_string xs none) (append-nil _)
      (Reads-bind _ (Reads-get_int 4 (negsuc 0) (omega arith) (omega arith)) (Reads-pure none))
