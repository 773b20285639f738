-- ===== src/Params/Text.antt =====
-- The bytes that a parameter set of include/ParameterSet.hpp has gathered, through one `add`.
use voltdb_client_cpp.Prelude.{
  ℕ, zero, suc, ◌+◌, ◌^◌, ◌≤◌, ◌<◌, ◌≡◌, refl, sym, ap, ◌∙◌, List, [], ◌∷◌, ◌++◌, arith, length,
  length-append, append_assoc, length-take, get_elem?, ◌==◌, if◌then◌else◌, Bool, true, false, some,
}
use voltdb_client_cpp.Prelude.Int.{ℤ, pos}
use voltdb_client_cpp.Action.{Action, Outcome, done, ◌>>◌}
use voltdb_client_cpp.Wire.{to_bytes, to_word}
use voltdb_client_cpp.Wire.Laws.{length-to_bytes}
use voltdb_client_cpp.WireType.{WireType, eqb_type_refl}
use voltdb_client_cpp.Buffer.{
  ByteBuffer, Void, ensure_remaining, put_int_at, put_word_at, check_index,
}
use voltdb_client_cpp.Buffer.Storage.{write_at, take-write_at_front, length-write_at}
use voltdb_client_cpp.Buffer.Put.{Writes}
use voltdb_client_cpp.Buffer.Growth.{IsOpen, written}
use voltdb_client_cpp.Buffer.Append.{ensured-Appended}
use voltdb_client_cpp.Params.{
  Parameter, ParameterSet, extend, check_type, validate_type, next_param, on_buffer, count16, same,
}

abbrev pub count_bytes : ℕ → List ℕ
count_bytes n = to_bytes 2 (to_word 2 (count16 n))

-- The buffer holds the count of the parameters, and then `text`.
pub record IsFilled (p : ParameterSet) (text : List ℕ) : Type 0 where
  pub is_open : IsOpen p.buffer
  pub bytes : written p.buffer ≡ count_bytes (length p.parameters) ++ text

-- The parameter at the next place has this type: it is declared so, or the set grows by it.
pub data Accepts (p : ParameterSet) (t : WireType) (a : Bool) : Type 0 where
  declared :
      get_elem? p.parameters p.current_param ≡ some (record { type = t; is_array = a })
      → Accepts p t a
  grows : p.dynamic_count ≡ true → p.current_param ≡ length p.parameters → Accepts p t a

-- The parameters once the type has been validated.
abbrev pub widened : ParameterSet → WireType → Bool → List Parameter
widened p t a =
    if p.current_param == length p.parameters
    then p.parameters ++ record { type = t; is_array = a } ∷ []
    else p.parameters

pub length-bytes :
    (p : ParameterSet) (text : List ℕ) → IsFilled p text → p.buffer.position ≡ 2 + length text
length-bytes p text f = omega (
  arith,
  ap length f.bytes,
  length-take p.buffer.position p.buffer.storage,
  length-append (count_bytes (length p.parameters)) text,
  length-to_bytes 2 (to_word 2 (count16 (length p.parameters))),
  f.is_open.storage,
  f.is_open.position,
)

same_refl : (a : Bool) → same a a ≡ true
same_refl true = refl
same_refl false = refl

get_elem?-lt : {A : Type 0} (xs : List A) (i : ℕ) (x : A) → get_elem? xs i ≡ some x → i < length xs
get_elem?-lt [] i x e = cc
get_elem?-lt (y ∷ xs) zero x e = omega arith
get_elem?-lt (y ∷ xs) (suc i) x e = omega (arith, get_elem?-lt xs i x e)

get_elem?-append :
    {A : Type 0} (xs : List A) (x : A) → get_elem? (xs ++ x ∷ []) (length xs) ≡ some x
get_elem?-append [] x = refl
get_elem?-append (y ∷ xs) x = get_elem?-append xs x

-- A set that is left as it was, but for the parameters, the bytes and the place.
pub record Added (q : List Parameter) (k : ℕ) (text : List ℕ) (p : ParameterSet)
    (o : Outcome ParameterSet Void) : Type 0 where
  pub set : ParameterSet
  pub result : o ≡ done tt set
  pub filled : IsFilled set text
  pub parameters : set.parameters ≡ q
  pub current : set.current_param ≡ p.current_param + k
  pub dynamic : set.dynamic_count ≡ p.dynamic_count

-- A declared parameter is looked at, and nothing changes.
pub validate_declared_done :
    (p : ParameterSet) (t : WireType) (a : Bool)
    → get_elem? p.parameters p.current_param ≡ some (record { type = t; is_array = a })
    → validate_type t a p ≡ done tt p
unfolding validate_type extend check_type
validate_declared_done p t a e =
    ground (arith, get_elem?-lt p.parameters p.current_param _ e, e, eqb_type_refl t, same_refl a)

validate_declared :
    (p : ParameterSet) (t : WireType) (a : Bool) (text : List ℕ)
    → IsFilled p text
    → get_elem? p.parameters p.current_param ≡ some (record { type = t; is_array = a })
    → Added (widened p t a) 0 text p (validate_type t a p)
validate_declared p t a text f e =
    let l = get_elem?-lt p.parameters p.current_param _ e in
    record {
      set = p;
      result = validate_declared_done p t a e;
      filled = f;
      parameters = ground (arith, l);
      current = omega arith;
      dynamic = refl;
    }

-- The buffer once its first two bytes have been written again.
abbrev recounted : ℤ → ByteBuffer → ByteBuffer
recounted z b = record b { storage = write_at zero (to_bytes 2 (to_word 2 z)) b.storage }

put_count_front :
    (z : ℤ) (b : ByteBuffer) → 2 ≤ b.limit → put_int_at 2 (pos 0) z b ≡ done tt (recounted z b)
unfolding put_int_at put_word_at check_index
put_count_front z b h = ground arith

recounted-IsOpen : (z : ℤ) (b : ByteBuffer) → IsOpen b → IsOpen (recounted z b)
recounted-IsOpen z b v = record {
  expandable = v.expandable;
  limit = v.limit;
  storage = length-write_at zero (to_bytes 2 (to_word 2 z)) b.storage ∙ v.storage;
  position = v.position;
  capacity = v.capacity;
}

abbrev widen : ParameterSet → WireType → Bool → ParameterSet
widen p t a =
    let q = p.parameters ++ record { type = t; is_array = a } ∷ [] in
    record p { parameters = q; buffer = recounted (count16 (length q)) p.buffer }

widen-IsFilled :
    (p : ParameterSet) (t : WireType) (a : Bool) (text : List ℕ)
    → IsFilled p text
    → IsFilled (widen p t a) text
widen-IsFilled p t a text f = record {
  is_open = recounted-IsOpen _ p.buffer f.is_open;
  bytes =
      let q = p.parameters ++ record { type = t; is_array = a } ∷ [] in
      take-write_at_front p.buffer.position (count_bytes (length q)) p.buffer.storage
        (count_bytes (length p.parameters)) text f.bytes
        (length-to_bytes 2 (to_word 2 (count16 (length q)))
          ∙ sym (length-to_bytes 2 (to_word 2 (count16 (length p.parameters)))))
        (omega (arith, f.is_open.position, f.is_open.storage));
}

validate_grows :
    (p : ParameterSet) (t : WireType) (a : Bool) (text : List ℕ)
    → IsFilled p text
    → p.dynamic_count ≡ true
    → p.current_param ≡ length p.parameters
    → Added (widened p t a) 0 text p (validate_type t a p)
unfolding validate_type extend check_type
validate_grows p t a text f d e = record {
  set = widen p t a;
  result = ground (
    arith,
    put_count_front (count16 (length (p.parameters ++ record { type = t; is_array = a } ∷ [])))
        p.buffer (omega (arith, length-bytes p text f, f.is_open.position, f.is_open.limit)),
    get_elem?-append p.parameters (record { type = t; is_array = a }),
    eqb_type_refl t,
    same_refl a,
  );
  filled = widen-IsFilled p t a text f;
  parameters = ground arith;
  current = omega arith;
  dynamic = refl;
}

validate_type_lem :
    (p : ParameterSet) (t : WireType) (a : Bool) (text : List ℕ)
    → IsFilled p text
    → Accepts p t a
    → Added (widened p t a) 0 text p (validate_type t a p)
validate_type_lem p t a text f (declared e) = validate_declared p t a text f e
validate_type_lem p t a text f (grows d e) = validate_grows p t a text f d e

-- Bytes behind the text, once there is room for them.
pub buffer_Added :
    (p : ParameterSet) (text bs : List ℕ) (r : ℕ) (w : Action ByteBuffer Void)
    → IsFilled p text
    → Writes w bs
    → length bs ≤ r
    → 2 + length text + r ≤ 2 ^ 30
    → Added p.parameters 1
        (text ++ bs)
        p
        ((on_buffer (ensure_remaining (pos r) >> w) >> next_param) p)
unfolding next_param
buffer_Added p text bs r w f k l h =
    let a = ensured-Appended k r p.buffer f.is_open l (omega (arith, length-bytes p text f)) in
    record {
      set = record p { buffer = a.buffer; current_param = p.current_param + 1 };
      result = rw a.result refl;
      filled = record {
        is_open = a.is_open;
        bytes =
            a.text
            ∙ ap (λ (t : List ℕ). t ++ bs) f.bytes
            ∙ append_assoc (count_bytes (length p.parameters)) text bs;
      };
      parameters = refl;
      current = refl;
      dynamic = refl;
    }

-- The shape of each `add`: the type is validated, room is made, the bytes are written.
pub add_Added :
    (p : ParameterSet) (t : WireType) (a : Bool) (text bs : List ℕ) (r : ℕ)
    (w : Action ByteBuffer Void)
    → IsFilled p text
    → Accepts p t a
    → Writes w bs
    → length bs ≤ r
    → 2 + length text + r ≤ 2 ^ 30
    → Added
        (widened p t a)
        1
        (text ++ bs)
        p
        ((validate_type t a >> on_buffer (ensure_remaining (pos r) >> w) >> next_param) p)
add_Added p t a text bs r w f c k l h =
    let v = validate_type_lem p t a text f c in
    let b = buffer_Added v.set text bs r w v.filled k l h in
    record {
      set = b.set;
      result = rw v.result b.result;
      filled = b.filled;
      parameters = b.parameters ∙ v.parameters;
      current = omega (arith, b.current, v.current);
      dynamic = b.dynamic ∙ v.dynamic;
    }
