-- ===== src/Params/Sequence.antt =====
-- A whole parameter set of include/ParameterSet.hpp, filled value by value.
use native.Mathlib.Numerals.{add-one}
use voltdb_client_cpp.Prelude.{
  ℕ, zero, suc, ◌+◌, ◌*◌, ◌^◌, ◌≤◌, ◌<◌, ◌≡◌, refl, ap, sym, subst, ◌∙◌, List, [], ◌∷◌, ◌++◌, arith,
  length, length-append, append_assoc, append-nil, drop, get_elem?, some,
}
use voltdb_client_cpp.Prelude.Int.{ℤ, pos}
use voltdb_client_cpp.Action.{skip}
use voltdb_client_cpp.Wire.{int_bytes, to_bytes, to_word}
use voltdb_client_cpp.Wire.Laws.{length-to_bytes}
use voltdb_client_cpp.WireType.{WireType, code}
use voltdb_client_cpp.Decimal.{Decimal, decimal_bytes}
use voltdb_client_cpp.Buffer.Put.{text_bytes}
use voltdb_client_cpp.Params.{Parameter, ParameterSet, count16, total_size}
use voltdb_client_cpp.Params.Text.{IsFilled, declared, Added}
use voltdb_client_cpp.Params.Values.{
  Value, add, encode, room, type_of, is_array, each, type_bytes, array_bytes,
}
use voltdb_client_cpp.Params.Elements.{length-each, length-each_text}
use voltdb_client_cpp.Params.Encoding.{add-Added, add_all, with_value, Takes}

header_le :
    (t : WireType) (n : ℕ) (bs : List ℕ) → length bs ≤ n → length (type_bytes t ++ bs) ≤ 1 + n
header_le t n bs h =
    omega (arith, length-append (type_bytes t) bs, length-to_bytes 1 (to_word 1 (code t)))

array_le :
    (t : WireType) (c n k : ℕ) (z : ℤ) (bs : List ℕ)
    → length bs ≤ n
    → 2 + c + n ≤ k
    → length (array_bytes t (int_bytes c z) bs) ≤ k
array_le t c n k z bs h l = omega (
  arith,
  length-append (type_bytes WireType.array) (type_bytes t ++ (int_bytes c z ++ bs)),
  length-append (type_bytes t) (int_bytes c z ++ bs),
  length-append (int_bytes c z) bs,
  length-to_bytes 1 (to_word 1 (code WireType.array)),
  length-to_bytes 1 (to_word 1 (code t)),
  length-to_bytes c (to_word c z),
)

ints_le : (n : ℕ) (z : ℤ) → length (int_bytes n z) ≤ n
ints_le n z = omega (arith, length-to_bytes n (to_word n z))

ints_length : (n : ℕ) (z : ℤ) → length (int_bytes n z) ≡ n
ints_length n z = length-to_bytes n (to_word n z)

length-decimal : (d : Decimal) → length (decimal_bytes d) ≡ 16
length-decimal d = omega (
  arith,
  length-append (to_bytes 8 d.high) (to_bytes 8 d.low),
  length-to_bytes 8 d.high,
  length-to_bytes 8 d.low,
)

length-text : (s : List ℕ) → length (text_bytes s) ≤ 4 + length s
length-text s = omega (arith, length-append (to_bytes 4 (length s)) s, length-to_bytes 4 (length s))

-- The room that a method makes is enough for what it writes.
pub length-encode-le : (v : Value) → length (encode v) ≤ room v
length-encode-le Value.null = ints_le 1 (code WireType.null)
length-encode-le (Value.int8 z) = header_le WireType.tinyint 1 _ (ints_le 1 z)
length-encode-le (Value.int16 z) = header_le WireType.smallint 2 _ (ints_le 2 z)
length-encode-le (Value.int32 z) = header_le WireType.integer 4 _ (ints_le 4 z)
length-encode-le (Value.int64 z) = header_le WireType.bigint 8 _ (ints_le 8 z)
length-encode-le (Value.timestamp z) = header_le WireType.timestamp 8 _ (ints_le 8 z)
length-encode-le (Value.double w) =
    header_le WireType.float 8 (to_bytes 8 w) (omega (arith, length-to_bytes 8 w))
length-encode-le (Value.decimal d) =
    header_le WireType.decimal 16 (decimal_bytes d) (omega (arith, length-decimal d))
length-encode-le (Value.string s) =
    omega (arith, header_le WireType.string (4 + length s) (text_bytes s) (length-text s))
length-encode-le (Value.varbinary s) =
    omega (arith, header_le WireType.varbinary (4 + length s) (text_bytes s) (length-text s))
length-encode-le (Value.int8s zs) =
    array_le WireType.tinyint 4 (1 * length zs) _ (pos (length zs)) (each (int_bytes 1) zs)
      (omega (arith, length-each 1 (int_bytes 1) zs (ints_length 1))) (omega arith)
length-encode-le (Value.int16s zs) =
    array_le WireType.smallint 2 (2 * length zs) _ (count16 (length zs)) (each (int_bytes 2) zs)
      (omega (arith, length-each 2 (int_bytes 2) zs (ints_length 2))) (omega arith)
length-encode-le (Value.int32s zs) =
    array_le WireType.integer 2 (4 * length zs) _ (count16 (length zs)) (each (int_bytes 4) zs)
      (omega (arith, length-each 4 (int_bytes 4) zs (ints_length 4))) (omega arith)
length-encode-le (Value.int64s zs) =
    array_le WireType.bigint 2 (8 * length zs) _ (count16 (length zs)) (each (int_bytes 8) zs)
      (omega (arith, length-each 8 (int_bytes 8) zs (ints_length 8))) (omega arith)
length-encode-le (Value.timestamps zs) =
    array_le WireType.timestamp 2 (8 * length zs) _ (count16 (length zs)) (each (int_bytes 8) zs)
      (omega (arith, length-each 8 (int_bytes 8) zs (ints_length 8))) (omega arith)
length-encode-le (Value.decimals ds) =
    array_le WireType.decimal 2 (16 * length ds) _ (count16 (length ds)) (each decimal_bytes ds)
      (omega (arith, length-each 16 decimal_bytes ds length-decimal)) (omega arith)
length-encode-le (Value.strings ss) =
    array_le WireType.string 2 (total_size ss + 4 * length ss) _ (count16 (length ss))
      (each text_bytes ss) (omega (arith, length-each_text ss)) (omega arith)
length-encode-le (Value.varbinaries ss) =
    array_le WireType.varbinary 2 (total_size ss + 4 * length ss) _ (count16 (length ss))
      (each text_bytes ss) (omega (arith, length-each_text ss)) (omega arith)

abbrev pub rooms : List Value → ℕ
rooms [] = 0
rooms (v ∷ vs) = room v + rooms vs

-- The value suits the declared parameter. Null suits any.
abbrev pub Suits : Parameter → Value → Type 0
Suits q Value.null = Unit {0}
Suits q v = q ≡ record { type = type_of v; is_array = is_array v }

abbrev pub AllSuit : List Parameter → List Value → Type 0
AllSuit [] [] = Unit {0}
AllSuit [] (v ∷ vs) = ⊥
AllSuit (q ∷ qs) [] = Unit {0}
AllSuit (q ∷ qs) (v ∷ vs) = Suits q v × AllSuit qs vs

pub drop-get :
    {A : Type 0} (k : ℕ) (xs : List A) (q : A) (qs : List A)
    → drop k xs ≡ q ∷ qs
    → (get_elem? xs k ≡ some q) × (drop (suc k) xs ≡ qs) × (k < length xs)
drop-get zero [] q qs e = cc
drop-get zero (x ∷ xs) q qs e = (ground (arith, e), ground (arith, e), omega arith)
drop-get (suc k) [] q qs e = cc
drop-get (suc k) (x ∷ xs) q qs e = let (g, d, l) = drop-get k xs q qs e in (g, d, omega (arith, l))

Suits-Takes :
    (p : ParameterSet) (q : Parameter) (v : Value)
    → get_elem? p.parameters p.current_param ≡ some q
    → p.current_param < length p.parameters
    → Suits q v
    → Takes p v
Suits-Takes p q Value.null e l s = l
Suits-Takes p q v e l s = declared (e ∙ ap some s)

with_value-declared :
    (p : ParameterSet) (v : Value)
    → p.current_param < length p.parameters
    → with_value p v ≡ p.parameters
with_value-declared p Value.null l = refl
with_value-declared p v l = ground arith

pub Added-then :
    (p : ParameterSet) (v : Value) (vs : List Value) (text : List ℕ) (qs rs : List Parameter)
    → (a : Added qs 1 (text ++ encode v) p (add v p))
    → Added rs (length vs) ((text ++ encode v) ++ each encode vs) a.set (add_all vs a.set)
    → Added rs (length (v ∷ vs)) (text ++ each encode (v ∷ vs)) p (add_all (v ∷ vs) p)
unfolding add_all
Added-then p v vs text qs rs a b = record {
  set = b.set;
  result = rw a.result b.result;
  filled = subst (IsFilled b.set) (append_assoc text (encode v) (each encode vs)) b.filled;
  parameters = b.parameters;
  current = omega (arith, a.current, b.current);
  dynamic = b.dynamic ∙ a.dynamic;
}

pub Added-none :
    (p : ParameterSet) (text : List ℕ)
    → IsFilled p text
    → Added p.parameters 0 (text ++ []) p (skip p)
Added-none p text f = record {
  set = p;
  result = refl;
  filled = subst (IsFilled p) (sym (append-nil text)) f;
  parameters = refl;
  current = omega arith;
  dynamic = refl;
}

-- A set takes a list of values, none of them an array of doubles, that suit the declared parameters
-- from the current one on, and holds their wire forms in order behind what it held, as long as it
-- stays within 2 ^ 30 bytes.
pub add_all-Added :
    (vs : List Value) (p : ParameterSet) (text : List ℕ) (qs : List Parameter)
    → IsFilled p text
    → drop p.current_param p.parameters ≡ qs
    → AllSuit qs vs
    → 2 + length text + rooms vs ≤ 2 ^ 30
    → Added p.parameters (length vs) (text ++ each encode vs) p (add_all vs p)
add_all-Added [] p text qs f d s h = unfold add_all in Added-none p text f
add_all-Added (v ∷ vs) p text [] f d s h = absurd s
add_all-Added (v ∷ vs) p text (q ∷ qs) f d s h =
    let (g, r, l) = drop-get p.current_param p.parameters q qs d in
    let e = with_value-declared p v l in
    let a =
      subst (λ ps. Added ps 1 (text ++ encode v) p (add v p)) e
        (add-Added v p text f (Suits-Takes p q v g l s.0) (omega (arith, h))) in
    let rest =
      add_all-Added vs a.set (text ++ encode v) qs a.filled
        (rw (a.parameters, a.current, add-one) r) s.1
        (omega (arith, h, length-append text (encode v), length-encode-le v)) in
    Added-then p v vs text p.parameters p.parameters a (
      subst
        (λ ps. Added ps (length vs) ((text ++ encode v) ++ each encode vs) a.set (add_all vs a.set))
        a.parameters rest)
