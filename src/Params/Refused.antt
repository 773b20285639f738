-- ===== src/Params/Refused.antt =====
-- Sets of include/ParameterSet.hpp that are given fewer or more values than they declare.
use voltdb_client_cpp.Prelude.{
  ℕ, suc, ◌+◌, ◌^◌, ◌≤◌, ◌<◌, ◌≡◌, refl, ap, sym, ◌∙◌, false, Bool, none, List, zero, ltb, ◌-◌,
  ◌==◌, ◌&&◌, true, inl, inr, Bool-cases, length-drop, [], ◌∷◌, arith, length, drop, get_elem?,
}
use voltdb_client_cpp.Action.{done, fail, >>_done, uninitialized_params, param_mismatch}
use voltdb_client_cpp.WireType.{WireType}
use voltdb_client_cpp.Buffer.{ByteBuffer}
use voltdb_client_cpp.Params.{
  ParameterSet, Parameter, get_serialized_size, serialize_to, validate_type, extend, check_type,
  add_value, add_array, add_typed_bytes, add_int8, add_int16, add_int32, add_int64, add_timestamp,
  add_double, add_decimal, add_string, add_bytes, add_int8s, add_int16s, add_int32s, add_int64s,
  add_timestamps, add_decimals, add_typed_byte_array,
}
use voltdb_client_cpp.Params.Values.{Value, add}
use voltdb_client_cpp.Params.Encoding.{add_all}
use voltdb_client_cpp.Params.Text.{IsFilled}
use voltdb_client_cpp.Params.Sequence.{AllSuit, rooms, add_all-Added}
use voltdb_client_cpp.Params.Dynamic.{IsTyped}

get_elem?-end : {A : Type 0} (xs : List A) (i : ℕ) → length xs ≤ i → get_elem? xs i ≡ none
get_elem?-end [] i h = refl
get_elem?-end (x ∷ xs) zero h = absurd (omega arith)
get_elem?-end (x ∷ xs) (suc i) h = get_elem?-end xs i (omega arith)

and_false : (b : Bool) → (b && false) ≡ false
and_false true = refl
and_false false = refl

extend-full :
    (t : WireType) (a : Bool) (p : ParameterSet)
    → p.dynamic_count ≡ false
    → extend t a p ≡ done tt p
unfolding extend
extend-full t a p d =
    let c : (ltb (length p.parameters) (p.current_param + 1) && p.dynamic_count) ≡ false =
      ap (λ (b : Bool). ltb (length p.parameters) (p.current_param + 1) && b) d ∙ and_false _ in
    rw c refl

check_type-full :
    (t : WireType) (a : Bool) (p : ParameterSet)
    → length p.parameters ≤ p.current_param
    → check_type t a p ≡ fail param_mismatch p
unfolding check_type
check_type-full t a p h = rw (check_type, get_elem?-end p.parameters p.current_param h) refl

-- A set that declares its parameters takes no value more.
validate_type-full :
    (t : WireType) (a : Bool) (p : ParameterSet)
    → length p.parameters ≤ p.current_param
    → p.dynamic_count ≡ false
    → validate_type t a p ≡ fail param_mismatch p
unfolding validate_type
validate_type-full t a p h d =
    >>_done (extend t a) (check_type t a) (extend-full t a p d) ∙ check_type-full t a p h

add-full :
    (v : Value) (p : ParameterSet)
    → IsTyped v
    → length p.parameters ≤ p.current_param
    → p.dynamic_count ≡ false
    → add v p ≡ fail param_mismatch p
unfolding add add_value add_array add_typed_bytes add_int8 add_int16 add_int32 add_int64
    add_timestamp add_double add_decimal add_string add_bytes add_int8s add_int16s add_int32s
    add_int64s add_timestamps add_decimals add_typed_byte_array
add-full Value.null p t h d = absurd t
add-full v p t h d = rw (validate_type-full _ _ p h d) refl

AllSuit-length : (qs : List Parameter) (vs : List Value) → AllSuit qs vs → length vs ≤ length qs
AllSuit-length qs [] a = omega arith
AllSuit-length [] (v ∷ vs) a = absurd a
AllSuit-length (q ∷ qs) (v ∷ vs) a = omega (arith, AllSuit-length qs vs a.1)

-- A full set refuses one value more; any other is neither measured nor written.
abbrev Verdict : Bool → Value → ParameterSet → Type 0
Verdict true v p = add v p ≡ fail param_mismatch p
Verdict false v p =
    (get_serialized_size p ≡ fail uninitialized_params p)
    × ((out : ByteBuffer) → serialize_to (p, out) ≡ fail uninitialized_params (p, out))

pub record Counted (qs : List Parameter) (vs : List Value) (v : Value) (p : ParameterSet)
    : Type 0 where
  pub set : ParameterSet
  pub result : add_all vs p ≡ done tt set
  pub verdict : Verdict (length vs == length qs) v set

lacking : (v : Value) (p : ParameterSet) → p.current_param < length p.parameters → Verdict false v p
unfolding get_serialized_size serialize_to
lacking v p h = (ground arith, λ out. ground arith)

-- A set that declares its parameters takes values, none of them an array of doubles, that suit those
-- from the current one on, and then refuses what does not match their number: where it has been given
-- as many as it declares, the `add` of one value more that is not null throws and leaves it as it is;
-- where it has been given fewer, it is neither measured nor written to any buffer, and both are as
-- before. It has to stay within 2 ^ 30 bytes.
pub add_all-Counted :
    (vs : List Value) (v : Value) (p : ParameterSet) (text : List ℕ) (qs : List Parameter)
    → IsFilled p text
    → p.dynamic_count ≡ false
    → drop p.current_param p.parameters ≡ qs
    → AllSuit qs vs
    → IsTyped v
    → 2 + length text + rooms vs ≤ 2 ^ 30
    → Counted qs vs v p
add_all-Counted vs v p text qs f d e a t h =
    let g = add_all-Added vs p text qs f e a h in
    let n : length p.parameters - p.current_param ≡ length qs =
      sym (length-drop p.current_param p.parameters) ∙ ap (λ (xs : List Parameter). length xs) e in
    let m : length g.set.parameters ≡ length p.parameters =
      ap (λ (xs : List Parameter). length xs) g.parameters in
    record {
      set = g.set;
      result = g.result;
      verdict = elim (Bool-cases (length vs == length qs)) [
        | inl k ↦
            let i : length vs ≡ length qs = ground arith in
            rw k (add-full v g.set t (omega (arith, n, m, i, g.current)) (g.dynamic ∙ d))
        | inr k ↦
            let i : length vs < length qs = ground (arith, AllSuit-length qs vs a) in
            rw k (lacking v g.set (omega (arith, n, m, i, g.current)))
      ];
    }
