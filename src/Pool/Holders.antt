-- ===== src/Pool/Holders.antt =====
-- Who holds a client of src/ConnectionPool.cpp.
use voltdb_client_cpp.Prelude.{
  ℕ, ◌+◌, ◌≡◌, refl, inl, inr, Bool, true, none, List, [], ◌∷◌, ◌++◌, ◌==◌, if◌then◌else◌, arith,
  Bool-cases,
}
use voltdb_client_cpp.Buffer.{eqb_bytes}
use voltdb_client_cpp.Pool.{ClientStuff, Pool, stack_of, set_stack, eqb, lend, keep, give_back}

abbrev pub one : ℕ → ClientStuff → ℕ
one x c = if c.client == x then 1 else 0

-- How often a client stands in a list, in a map, and in the pool and with the threads together.
abbrev pub occurs : ℕ → List ClientStuff → ℕ
occurs x [] = 0
occurs x (c ∷ cs) = one x c + occurs x cs

abbrev pub occurs_in : {K : Type 0} → ℕ → List (K × List ClientStuff) → ℕ
occurs_in x [] = 0
occurs_in x ((k, cs) ∷ m) = occurs x cs + occurs_in x m

abbrev pub held : ℕ → Pool → ℕ
held x p = occurs_in x p.clients + occurs_in x p.borrowed

pub occurs_in-set_stack :
    {K : Type 0} (eq : K → K → Bool) (x : ℕ) (k : K) (v : List ClientStuff)
    (m : List (K × List ClientStuff))
    → occurs_in x (set_stack eq k v m) + occurs x (stack_of eq k m) ≡ occurs_in x m + occurs x v
unfolding set_stack stack_of
occurs_in-set_stack eq x k v [] = omega arith
occurs_in-set_stack eq x k v ((j, w) ∷ m) = elim (Bool-cases (eq j k)) [
  | inl e ↦ rw e (omega arith)
  | inr e ↦ rw e (omega (arith, occurs_in-set_stack eq x k v m))
]

pub occurs-append :
    (x : ℕ) (cs : List ClientStuff) (c : ClientStuff)
    → occurs x (cs ++ c ∷ []) ≡ one x c + occurs x cs
occurs-append x [] c = omega arith
occurs-append x (d ∷ cs) c = omega (arith, occurs-append x cs c)

pub held-lend :
    (x thread : ℕ) (c : ClientStuff) (p : Pool) → held x (lend thread c p) ≡ one x c + held x p
held-lend x thread c p = omega (
  arith,
  occurs_in-set_stack eqb x thread (stack_of eqb thread p.borrowed ++ c ∷ []) p.borrowed,
  occurs-append x (stack_of eqb thread p.borrowed) c,
)

pub held-keep :
    (x : ℕ) (id : List ℕ) (cs : List ClientStuff) (p : Pool)
    → held x (keep id cs p) + occurs x (stack_of eqb_bytes id p.clients) ≡ held x p + occurs x cs
held-keep x id cs p = omega (arith, occurs_in-set_stack eqb_bytes x id cs p.clients)

pub held-give_back :
    (x : ℕ) (c : ClientStuff) (p : Pool) → held x (give_back c p) ≡ one x c + held x p
held-give_back x c p = omega (
  arith,
  occurs_in-set_stack eqb_bytes x c.identifier
      (record c { listener = none } ∷ stack_of eqb_bytes c.identifier p.clients) p.clients,
)

self_equal : (a : ℕ) → (a == a) ≡ true
self_equal a = ground arith

pub one-same : (c : ClientStuff) → one c.client c ≡ 1
one-same c = rw (self_equal c.client) refl

pub stack_of-set_stack :
    (k : ℕ) (v : List ClientStuff) (m : List (ℕ × List ClientStuff))
    → stack_of eqb k (set_stack eqb k v m) ≡ v
unfolding set_stack stack_of
stack_of-set_stack k v [] = rw (self_equal k) refl
stack_of-set_stack k v ((j, w) ∷ m) = elim (Bool-cases (j == k)) [
  | inl e ↦ rw (e, e) refl
  | inr e ↦ rw (e, e) (stack_of-set_stack k v m)
]
