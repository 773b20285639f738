-- ===== src/Pool/Returns.antt =====
-- returnClient and the cleanup of src/ConnectionPool.cpp: no client is lost.
use voltdb_client_cpp.Prelude.{
  ℕ, ◌+◌, ◌≡◌, refl, subst, inl, inr, some, List, [], ◌∷◌, ◌==◌, arith, Bool-cases, Option-cases,
}
use voltdb_client_cpp.Action.{state_of}
use voltdb_client_cpp.Pool.{ClientStuff, Pool, stack_of, set_stack, eqb, take_out, return_client}
use voltdb_client_cpp.Pool.Holders.{one, occurs, held, occurs_in-set_stack, held-give_back}

occurs-take_out :
    (x client : ℕ) (cs : List ClientStuff) (c : ClientStuff) (rest : List ClientStuff)
    → take_out client cs ≡ some (c, rest)
    → occurs x cs ≡ one x c + occurs x rest
unfolding take_out
occurs-take_out x client [] c rest e = cc
occurs-take_out x client (d ∷ cs) c rest e = elim (Bool-cases (d.client == client)) [
  | inl b ↦ cc
  | inr b ↦ elim (Option-cases (take_out client cs)) [
    | inl n ↦ cc
    | inr ((f, fs), t) ↦
        let first : f ≡ c = cc in
        let others : d ∷ fs ≡ rest = cc in
        subst (λ r. occurs x (d ∷ cs) ≡ one x c + occurs x r) others
          (subst (λ g. occurs x (d ∷ cs) ≡ one x g + occurs x (d ∷ fs)) first
            (omega (arith, occurs-take_out x client cs f fs t)))
  ]
]

-- Giving a client back, whether the thread has it or not, neither loses a client nor lends one twice:
-- each is held as often as before.
pub held-return_client :
    (x thread client : ℕ) (p : Pool) → held x (state_of (return_client thread client p)) ≡ held x p
unfolding return_client
held-return_client x thread client p =
    elim (Option-cases (take_out client (stack_of eqb thread p.borrowed))) [
      | inl e ↦ rw (state_of, e) refl
      | inr ((c, rest), e) ↦
          rw (state_of, e)
            (omega (
              arith,
              held-give_back x c (record p { borrowed = set_stack eqb thread rest p.borrowed }),
              occurs-take_out x client (stack_of eqb thread p.borrowed) c rest e,
              occurs_in-set_stack eqb x thread rest p.borrowed,
            ))
    ]
