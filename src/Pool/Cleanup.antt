-- ===== src/Pool/Cleanup.antt =====
-- `cleanupOnScriptEnd` of src/ConnectionPool.cpp: what a thread has borrowed goes back to the pool.
use voltdb_client_cpp.Prelude.{
  ℕ, ◌≡◌, refl, ap, sym, ◌∙◌, inl, inr, Bool, true, false, none, List, [], ◌∷◌, length, ◌==◌,
  if◌then◌else◌, arith, Bool-cases,
}
use voltdb_client_cpp.Buffer.{eqb_bytes}
use voltdb_client_cpp.Buffer.Equal.{eqb_bytes-eq, eqb_bytes-ne}
use voltdb_client_cpp.Pool.{
  ClientStuff, Pool, stack_of, set_stack, eqb, give_back, give_back_all, cleanup_on_script_end,
  num_clients_borrowed,
}
use voltdb_client_cpp.Pool.Holders.{stack_of-set_stack}

-- What a thread gives back to the stack of an identifier, the last on top, without the listeners.
abbrev pub returned : List ℕ → List ClientStuff → List ClientStuff → List ClientStuff
returned id [] stack = stack
returned id (c ∷ cs) stack =
    returned id cs
      (if eqb_bytes c.identifier id then record c { listener = none } ∷ stack else stack)

stack_of-set_same :
    (k id : List ℕ) (v : List ClientStuff) (m : List (List ℕ × List ClientStuff))
    → stack_of eqb_bytes id (set_stack eqb_bytes k v m)
      ≡ (if eqb_bytes k id then v else stack_of eqb_bytes id m)
unfolding stack_of set_stack
stack_of-set_same k id v [] = refl
stack_of-set_same k id v ((j, w) ∷ m) = elim (Bool-cases (eqb_bytes j k)) [
  | inl e ↦
      let i : j ≡ k = eqb_bytes-eq j k e in
      rw (e, i) (same (eqb_bytes k id) v w (stack_of eqb_bytes id m))
  | inr e ↦ elim (Bool-cases (eqb_bytes j id)) [
    | inl f ↦
        let i : j ≡ id = eqb_bytes-eq j id f in
        let g : eqb_bytes k id ≡ false = other k j id e i in rw (e, f, g) refl
    | inr f ↦ rw (e, f) (stack_of-set_same k id v m)
  ]
]
  where
    same :
        (b : Bool) (v w z : List ClientStuff)
        → (if b then v else z) ≡ (if b then v else (if b then w else z))
    same true v w z = refl
    same false v w z = refl

    other : (k j id : List ℕ) → eqb_bytes j k ≡ false → j ≡ id → eqb_bytes k id ≡ false
    other k j id e i = elim (Bool-cases (eqb_bytes k id)) [
      | inl h ↦ let q : k ≡ id = eqb_bytes-eq k id h in absurd (eqb_bytes-ne j k e (i ∙ sym q))
      | inr h ↦ h
    ]

stack_of-set_thread :
    (k x : ℕ) (v : List ClientStuff) (m : List (ℕ × List ClientStuff))
    → stack_of eqb x (set_stack eqb k v m) ≡ (if k == x then v else stack_of eqb x m)
unfolding stack_of set_stack
stack_of-set_thread k x v [] = refl
stack_of-set_thread k x v ((j, w) ∷ m) = elim (Bool-cases (j == k)) [
  | inl e ↦ ground arith
  | inr e ↦ ground (arith, stack_of-set_thread k x v m)
]

give_back_all-stack :
    (id : List ℕ) (cs : List ClientStuff) (p : Pool)
    → stack_of eqb_bytes id (give_back_all cs p).clients
      ≡ returned id cs (stack_of eqb_bytes id p.clients)
give_back_all-stack id [] p = refl
give_back_all-stack id (c ∷ cs) p =
    give_back_all-stack id cs (give_back c p)
    ∙ ap (returned id cs) (
        stack_of-set_same c.identifier id
          (record c { listener = none } ∷ stack_of eqb_bytes c.identifier p.clients) p.clients
        ∙ on_top (eqb_bytes c.identifier id) refl)
  where
    on_top :
        (b : Bool)
        → eqb_bytes c.identifier id ≡ b
        → (if b
            then record c { listener = none } ∷ stack_of eqb_bytes c.identifier p.clients
            else stack_of eqb_bytes id p.clients)
          ≡ (if b
              then record c { listener = none } ∷ stack_of eqb_bytes id p.clients
              else stack_of eqb_bytes id p.clients)
    on_top true e =
        ap (λ (k : List ℕ). record c { listener = none } ∷ stack_of eqb_bytes k p.clients)
          (eqb_bytes-eq c.identifier id e)
    on_top false e = refl

give_back_all-borrowed :
    (cs : List ClientStuff) (p : Pool) → (give_back_all cs p).borrowed ≡ p.borrowed
give_back_all-borrowed [] p = refl
give_back_all-borrowed (c ∷ cs) p = give_back_all-borrowed cs (give_back c p)

pub record Cleaned (thread : ℕ) (p q : Pool) : Type 0 where
  pool :
      (id : List ℕ)
      → stack_of eqb_bytes id q.clients
        ≡ returned id (stack_of eqb thread p.borrowed) (stack_of eqb_bytes id p.clients)
  empty : num_clients_borrowed thread q ≡ 0
  threads :
      (x : ℕ) → stack_of eqb x q.borrowed ≡ (if thread == x then [] else stack_of eqb x p.borrowed)

-- The cleanup at the end of a script leaves the thread no client and the other threads theirs: each
-- client that the thread had stands in the pool, without its listener, on the stack of its identifier,
-- on top of what stood there and in the order in which they were borrowed.
pub cleanup_on_script_end-Cleaned :
    (thread : ℕ) (p : Pool) → Cleaned thread p (cleanup_on_script_end thread p)
unfolding cleanup_on_script_end num_clients_borrowed
cleanup_on_script_end-Cleaned thread p =
    let had : List ClientStuff = stack_of eqb thread p.borrowed in
    let without : Pool = record p { borrowed = set_stack eqb thread [] p.borrowed } in
    record {
      pool = λ id. give_back_all-stack id had without;
      empty =
          rw (give_back_all-borrowed had without)
            (ap length (stack_of-set_stack thread [] p.borrowed));
      threads =
          λ x. rw (give_back_all-borrowed had without) (stack_of-set_thread thread x [] p.borrowed);
    }
