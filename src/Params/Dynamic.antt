-- ===== src/Params/Dynamic.antt =====
-- A parameter set of include/ParameterSet.hpp whose parameters were not declared.
use voltdb_client_cpp.Prelude.{
  ℕ, ◌+◌, ◌^◌, ◌≤◌, ◌≡◌, ap, sym, subst, ◌∙◌, List, [], ◌∷◌, ◌++◌, map, arith, length,
  length-append, append_assoc, append-nil, true,
}
use voltdb_client_cpp.Params.{Parameter, ParameterSet}
use voltdb_client_cpp.Params.Text.{IsFilled, grows, Added}
use voltdb_client_cpp.Params.Values.{Value, add, encode, type_of, is_array, each}
use voltdb_client_cpp.Params.Encoding.{add-Added, add_all, with_value, Takes}
use voltdb_client_cpp.Params.Sequence.{rooms, Added-then, Added-none, length-encode-le}

-- A value that tells its type: any but null.
abbrev pub IsTyped : Value → Type 0
IsTyped Value.null = ⊥
IsTyped v = Unit {0}

abbrev pub AllTyped : List Value → Type 0
AllTyped [] = Unit {0}
AllTyped (v ∷ vs) = IsTyped v × AllTyped vs

abbrev pub parameter_of : Value → Parameter
parameter_of v = record { type = type_of v; is_array = is_array v }

typed-Takes :
    (p : ParameterSet) (v : Value)
    → p.dynamic_count ≡ true
    → p.current_param ≡ length p.parameters
    → IsTyped v
    → Takes p v
typed-Takes p Value.null d e t = absurd t
typed-Takes p v d e t = grows d e

with_value-grows :
    (p : ParameterSet) (v : Value)
    → p.current_param ≡ length p.parameters
    → IsTyped v
    → with_value p v ≡ p.parameters ++ parameter_of v ∷ []
with_value-grows p Value.null e t = absurd t
with_value-grows p v e t = ground arith

-- A set that grows, with as many values as parameters, takes any list of values, none of
-- them null or an array of doubles: it declares a parameter for each, and holds their wire forms in
-- order behind the final count and what it held, as long as it stays within 2 ^ 30 bytes.
pub add_all-grows :
    (vs : List Value) (p : ParameterSet) (text : List ℕ)
    → IsFilled p text
    → p.dynamic_count ≡ true
    → p.current_param ≡ length p.parameters
    → AllTyped vs
    → 2 + length text + rooms vs ≤ 2 ^ 30
    → Added
        (p.parameters ++ map parameter_of vs)
        (length vs)
        (text ++ each encode vs)
        p
        (add_all vs p)
add_all-grows [] p text f d e t h =
    subst (λ qs. Added qs 0 (text ++ []) p (add_all [] p)) (sym (append-nil p.parameters))
      (unfold add_all in Added-none p text f)
add_all-grows (v ∷ vs) p text f d e t h =
    let qs = p.parameters ++ parameter_of v ∷ [] in
    let a =
      subst (λ ps. Added ps 1 (text ++ encode v) p (add v p)) (with_value-grows p v e t.0)
        (add-Added v p text f (typed-Takes p v d e t.0) (omega (arith, h))) in
    let rest =
      add_all-grows vs a.set (text ++ encode v) a.filled (a.dynamic ∙ d)
        (omega (
          arith,
          a.current,
          e,
          ap (λ (l : List Parameter). length l) a.parameters,
          length-append p.parameters (parameter_of v ∷ []),
        ))
        t.1 (omega (arith, h, length-append text (encode v), length-encode-le v)) in
    Added-then p v vs text qs _ a (
      subst
        (λ ps. Added ps (length vs) ((text ++ encode v) ++ each encode vs) a.set (add_all vs a.set))
        (ap (λ (l : List Parameter). l ++ map parameter_of vs) a.parameters
          ∙ append_assoc p.parameters (parameter_of v ∷ []) (map parameter_of vs))
        rest)
