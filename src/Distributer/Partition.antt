-- ===== src/Distributer/Partition.antt =====
-- `getHashedPartitionForParameter` of src/Distributer.cpp on the message that include/Procedure.hpp
-- writes.
use voltdb_client_cpp.Prelude.{
  ℕ, ◌+◌, ◌^◌, ◌≤◌, ◌<◌, ◌≡◌, refl, sym, ap, subst, ◌∙◌, Bool, true, false, Option, some, List, [],
  ◌++◌, append-nil, arith, length, if◌then◌else◌,
}
use voltdb_client_cpp.Prelude.Int.{ℤ, pos, negsuc, eqb_ℤ, ◌+ℤ◌}
use voltdb_client_cpp.Action.{Action, done, ◌>>=◌, pure, >>=_done}
use voltdb_client_cpp.Wire.{int_bytes, to_bytes, to_word, to_int}
use voltdb_client_cpp.Wire.Laws.{Fits, length-to_bytes, to_word-lt}
use voltdb_client_cpp.WireType.{WireType, code, of_code}
use voltdb_client_cpp.Buffer.{ByteBuffer, get_int_at, get_string_at}
use voltdb_client_cpp.Buffer.Put.{IsText, text_bytes}
use voltdb_client_cpp.Buffer.Frame.{framed, holding}
use voltdb_client_cpp.Buffer.At.{
  Stands, ReadsAt, Stands-left, Stands-right, ReadsAt-get_int_at, ReadsAt-get_string_at,
  ReadsAt-get_word_at,
}
use voltdb_client_cpp.Params.Serialize.{set_bytes}
use voltdb_client_cpp.Params.{count16}
use voltdb_client_cpp.Decimal.{decimal_bytes}
use voltdb_client_cpp.Params.Values.{
  Value, null, int8, int16, int32, int64, timestamp, double, string, array_bytes, each, decimal,
  varbinary, int8s, int16s, int32s, int64s, timestamps, decimals, strings, varbinaries, encode,
  type_bytes,
}
use voltdb_client_cpp.Params.Text.{count_bytes}
use voltdb_client_cpp.Procedure.{Procedure}
use voltdb_client_cpp.Procedure.Message.{body, header_bytes, IsReady, is_text, length-header}
use voltdb_client_cpp.Hashinator.{Token, Murmur, hashinate_int, hashinate_text, int64_min}
use voltdb_client_cpp.Distributer.{
  Distributer, known, hash_int, hash_text, parse_value, parse_parameter,
  get_hashed_partition_for_parameter,
}

-- The partition of an integer; there is none, -1, for the null of `int64_t`.
abbrev pub int_partition : Murmur → List Token → ℤ → Option ℤ
int_partition m ring z = if eqb_ℤ z int64_min then some (negsuc 0) else hashinate_int m ring z

-- The partition of a first parameter; there is none, -1, for what is not an integer, a double or a
-- string.
abbrev pub value_partition : Murmur → List Token → Value → Option ℤ
value_partition m ring (int8 z) = int_partition m ring z
value_partition m ring (int16 z) = int_partition m ring z
value_partition m ring (int32 z) = int_partition m ring z
value_partition m ring (int64 z) = int_partition m ring z
value_partition m ring (timestamp z) = int_partition m ring z
value_partition m ring (double w) = int_partition m ring (to_int 8 w)
value_partition m ring (string s) = hashinate_text m ring s
value_partition m ring _ = some (negsuc 0)

abbrev pub IsKey : Value → Type 0
IsKey (int8 z) = Fits 1 z
IsKey (int16 z) = Fits 2 z
IsKey (int32 z) = Fits 4 z
IsKey (int64 z) = Fits 8 z
IsKey (timestamp z) = Fits 8 z
IsKey (double w) = w < 256 ^ 8
IsKey (string s) = IsText s
IsKey _ = 0 ≤ 0

if_known :
    (t : Bool) (a : ℤ) (o : Option ℤ) (b : ByteBuffer)
    → (if t then pure a else known o) b ≡ known (if t then some a else o) b
if_known true a o b = refl
if_known false a o b = refl

known_done : (o : Option ℤ) (q : ℤ) (b : ByteBuffer) → o ≡ some q → known o b ≡ done q b
known_done o q b e = rw e refl

module _ (m : Murmur) (ring : List Token) (q : ℤ) where
  ReadsAt-then :
      {A : Type 0} (r : ℤ → Action ByteBuffer A) (f : A → Action ByteBuffer ℤ) (bs : List ℕ) (a : A)
      → ReadsAt r bs a
      → ((b : ByteBuffer) → f a b ≡ done q b)
      → ReadsAt (λ i. r i >>= f) bs q
  ReadsAt-then r f bs a h k = record {
    reads = λ i b s. >>=_done (r (pos i)) f (h.reads i b s) ∙ k b;
  }

  int_key :
      (n : ℕ) (z : ℤ)
      → 0 < 256 ^ n
      → Fits n z
      → int_partition m ring z ≡ some q
      → ReadsAt (λ i. get_int_at n i >>= hash_int m (some ring)) (int_bytes n z) q
  int_key n z p f e =
      ReadsAt-then (get_int_at n) (hash_int m (some ring)) (int_bytes n z) z
        (ReadsAt-get_int_at n z p f)
        (λ b.
          if_known (eqb_ℤ z int64_min) (negsuc 0) (hashinate_int m ring z) b
          ∙ known_done (int_partition m ring z) q b e)

  double_key :
      (w : ℕ)
      → w < 256 ^ 8
      → int_partition m ring (to_int 8 w) ≡ some q
      → ReadsAt (λ i. get_int_at 8 i >>= hash_int m (some ring)) (to_bytes 8 w) q
  unfolding get_int_at
  double_key w f e = record {
    reads = λ i b s. rw ((ReadsAt-get_word_at 8 w f).reads i b s) (
        if_known (eqb_ℤ (to_int 8 w) int64_min) (negsuc 0) (hashinate_int m ring (to_int 8 w)) b
        ∙ known_done (int_partition m ring (to_int 8 w)) q b e);
  }

  text_key :
      (s : List ℕ)
      → IsText s
      → hashinate_text m ring s ≡ some q
      → ReadsAt (λ i. get_string_at i >>= hash_text m (some ring)) (text_bytes s) q
  text_key s f e =
      ReadsAt-then get_string_at (hash_text m (some ring)) (text_bytes s) (some s)
        (ReadsAt-get_string_at s f) (λ b. known_done (hashinate_text m ring s) q b e)

  typed_key :
      (t : WireType) (bs : List ℕ)
      → Fits 1 (code t)
      → of_code (code t) ≡ t
      → ReadsAt (parse_value m (some ring) t) bs q
      → ReadsAt (parse_parameter m (some ring)) (type_bytes t ++ bs) q
  unfolding parse_parameter
  typed_key t bs f e h = record {
    reads = λ i b s.
        let l = length-to_bytes 1 (to_word 1 (code t)) in
        let r =
          (ReadsAt-get_int_at 1 (code t) (omega arith) f).reads i b
            (Stands-left (type_bytes t) bs i b s) in
        let after = subst (λ k. Stands bs (i + k) b) l (Stands-right (type_bytes t) bs i b s) in
        let n : pos i +ℤ pos 1 ≡ pos (i + 1) = ground arith in
        rw (r, e, n) (h.reads (i + 1) b after);
  }

  no_key : (bs : List ℕ) → some (negsuc 0) ≡ some q → ReadsAt (λ i. pure (negsuc 0)) bs q
  no_key bs e = record { reads = λ i b s. ap (λ o. known o b) e }

  array_key :
      (t : WireType) (count elements : List ℕ)
      → some (negsuc 0) ≡ some q
      → ReadsAt (parse_parameter m (some ring)) (array_bytes t count elements) q
  unfolding parse_value code of_code
  array_key t count elements e =
      typed_key WireType.array (type_bytes t ++ (count ++ elements)) (omega arith) refl (no_key _ e)

  -- The first parameter is read where its type stands.
  parse_parameter-encode :
      (v : Value)
      → IsKey v
      → value_partition m ring v ≡ some q
      → ReadsAt (parse_parameter m (some ring)) (encode v) q
  unfolding parse_value code of_code
  parse_parameter-encode (int8 z) k e =
      typed_key WireType.tinyint (int_bytes 1 z) (omega arith) refl (int_key 1 z (omega arith) k e)
  parse_parameter-encode (int16 z) k e =
      typed_key WireType.smallint (int_bytes 2 z) (omega arith) refl (int_key 2 z (omega arith) k e)
  parse_parameter-encode (int32 z) k e =
      typed_key WireType.integer (int_bytes 4 z) (omega arith) refl (int_key 4 z (omega arith) k e)
  parse_parameter-encode (int64 z) k e =
      typed_key WireType.bigint (int_bytes 8 z) (omega arith) refl (int_key 8 z (omega arith) k e)
  parse_parameter-encode (timestamp z) k e =
      typed_key WireType.timestamp (int_bytes 8 z) (omega arith) refl
        (int_key 8 z (omega arith) k e)
  parse_parameter-encode (double w) k e =
      typed_key WireType.float (to_bytes 8 w) (omega arith) refl (double_key w k e)
  parse_parameter-encode (string s) k e =
      typed_key WireType.string (text_bytes s) (omega arith) refl (text_key s k e)
  parse_parameter-encode null k e =
      subst (λ bs. ReadsAt (parse_parameter m (some ring)) bs q)
        (append-nil (type_bytes WireType.null))
        (typed_key WireType.null [] (omega arith) refl (no_key [] e))
  parse_parameter-encode (decimal d) k e =
      typed_key WireType.decimal (decimal_bytes d) (omega arith) refl (no_key _ e)
  parse_parameter-encode (varbinary s) k e =
      typed_key WireType.varbinary (text_bytes s) (omega arith) refl (no_key _ e)
  parse_parameter-encode (int8s xs) k e =
      array_key WireType.tinyint (int_bytes 4 (pos (length xs))) (each (int_bytes 1) xs) e
  parse_parameter-encode (int16s xs) k e =
      array_key WireType.smallint (int_bytes 2 (count16 (length xs))) (each (int_bytes 2) xs) e
  parse_parameter-encode (int32s xs) k e =
      array_key WireType.integer (int_bytes 2 (count16 (length xs))) (each (int_bytes 4) xs) e
  parse_parameter-encode (int64s xs) k e =
      array_key WireType.bigint (int_bytes 2 (count16 (length xs))) (each (int_bytes 8) xs) e
  parse_parameter-encode (timestamps xs) k e =
      array_key WireType.timestamp (int_bytes 2 (count16 (length xs))) (each (int_bytes 8) xs) e
  parse_parameter-encode (decimals xs) k e =
      array_key WireType.decimal (int_bytes 2 (count16 (length xs))) (each decimal_bytes xs) e
  parse_parameter-encode (strings xs) k e =
      array_key WireType.string (int_bytes 2 (count16 (length xs))) (each text_bytes xs) e
  parse_parameter-encode (varbinaries xs) k e =
      array_key WireType.varbinary (int_bytes 2 (count16 (length xs))) (each text_bytes xs) e

module _ (p : Procedure) (cd : ℤ) (text : List ℕ) where
  abbrev message : List ℕ
  message = framed (body p cd text)

  Stands-message : Stands message 0 (holding message)
  Stands-message = record { rest = []; bytes = sym (append-nil message); inside = omega arith }

  abbrev hdr : List ℕ
  hdr = header_bytes p.name cd

  abbrev tail : List ℕ
  tail = text_bytes p.name ++ int_bytes 8 cd

  Stands-body : Stands (hdr ++ set_bytes p.params text) 4 (holding message)
  Stands-body =
      subst (λ k. Stands (body p cd text) (0 + k) (holding message))
        (length-to_bytes 4 (length (body p cd text)))
        (Stands-right (to_bytes 4 (length (body p cd text))) (body p cd text) 0 (holding message)
          Stands-message)

  -- Behind the length and the version stands the name.
  Stands-name : Stands (text_bytes p.name) 5 (holding message)
  Stands-name = Stands-left (text_bytes p.name) (int_bytes 8 cd) 5 (holding message) (
      subst (λ k. Stands tail (4 + k) (holding message)) (length-to_bytes 1 (to_word 1 (pos 0)))
        (Stands-right (int_bytes 1 (pos 0)) tail 4 (holding message)
          (Stands-left hdr (set_bytes p.params text) 4 (holding message) Stands-body)))

  place : 4 + length hdr ≡ 5 + (4 + length p.name + 8)
  place = omega (arith, length-header p.name cd)

  -- Behind the name and the client data stand the count and the parameters.
  Stands-set : Stands (set_bytes p.params text) (5 + (4 + length p.name + 8)) (holding message)
  Stands-set =
      subst (λ k. Stands (set_bytes p.params text) k (holding message)) place
        (Stands-right hdr (set_bytes p.params text) 4 (holding message) Stands-body)

  Stands-text : Stands text (5 + (4 + length p.name + 8) + 2) (holding message)
  Stands-text =
      subst (λ k. Stands text (5 + (4 + length p.name + 8) + k) (holding message))
        (length-to_bytes 2 (to_word 2 (count16 (length p.params.parameters))))
        (Stands-right (count_bytes (length p.params.parameters)) text (5 + (4 + length p.name + 8))
          (holding message) Stands-set)

  read_count :
      (z : ℤ) × (get_int_at 2 (pos (5 + (4 + length p.name + 8))) (holding message)
        ≡ done z (holding message))
  unfolding get_int_at
  read_count = (
    to_int 2 (to_word 2 (count16 (length p.params.parameters))),
    rw
        ((ReadsAt-get_word_at 2 (to_word 2 (count16 (length p.params.parameters)))
            (to_word-lt 2 (count16 (length p.params.parameters)) (omega arith))).reads
          (5 + (4 + length p.name + 8)) (holding message)
          (Stands-left (count_bytes (length p.params.parameters)) text (5 + (4 + length p.name + 8))
            (holding message) Stands-set))
        refl,
  )

-- In the message of a procedure whose first parameter is `v`, the distributer finds the name, skips
-- it, and returns the partition that the hash of `v` has on its ring, or -1 where `v` is no integer,
-- double or string, or an integer that is INT64_MIN; the buffer stays as it is.
pub get_hashed_partition-body :
    (p : Procedure) (cd : ℤ) (v : Value) (rest : List ℕ) (m : Murmur) (d : Distributer)
    (ring : List Token) (q : ℤ)
    → IsReady p (encode v ++ rest)
    → IsKey v
    → d.hashinator ≡ some ring
    → value_partition m ring v ≡ some q
    → get_hashed_partition_for_parameter m d
        (pos 0)
        (holding (framed (body p cd (encode v ++ rest))))
      ≡ done q (holding (framed (body p cd (encode v ++ rest))))
unfolding get_hashed_partition_for_parameter
get_hashed_partition-body p cd v rest m d ring q r k e h =
    let text = encode v ++ rest in
    let b = holding (framed (body p cd text)) in
    let n = (ReadsAt-get_string_at p.name (is_text p text r)).reads 5 b (Stands-name p cd text) in
    let (z, c) = read_count p cd text in
    let i = 5 + (4 + length p.name + 8) + 2 in
    let w =
      (parse_parameter-encode m ring q v k h).reads i b
        (Stands-left (encode v) rest i b (Stands-text p cd text)) in
    rw (n, c, e) w
