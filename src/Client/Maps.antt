-- ===== src/Client/Maps.antt =====
-- The maps of callbacks of src/ClientImpl.cpp, key by key.
use voltdb_client_cpp.Prelude.{
  Option, some_inj, ℕ, ◌≤◌, ◌≡◌, refl, subst, ◌∙◌, inl, inr, false, none, some, List, [], ◌∷◌, ◌==◌,
  if◌then◌else◌, arith, Bool-cases,
}
use voltdb_client_cpp.Prelude.Int.{ℤ, eqb_ℤ, eq_of_parts}
use voltdb_client_cpp.Client.{
  find_callback, put_callback, erase_callback, callbacks_of, set_callbacks, erase_callbacks,
}

abbrev pub Callbacks : Type 0
Callbacks = List (ℤ × ℕ)

-- The entry of a number in the map of a connection, if there is a map.
abbrev pub entry_in : Option Callbacks → ℤ → Option ℕ
entry_in none id = none
entry_in (some m) id = find_callback id m

-- No number and no connection has two entries.
abbrev pub Distinct : Callbacks → Type 0
Distinct [] = 0 ≤ 0
Distinct ((k, c) ∷ m) = (find_callback k m ≡ none) × Distinct m

abbrev pub AllDistinct : List (ℕ × Callbacks) → Type 0
AllDistinct [] = 0 ≤ 0
AllDistinct ((k, m) ∷ ms) = (callbacks_of k ms ≡ none) × Distinct m × AllDistinct ms

pub find_callback-put :
    (id k : ℤ) (c : ℕ) (m : Callbacks)
    → find_callback id (put_callback k c m) ≡ (if eqb_ℤ k id then some c else find_callback id m)
unfolding find_callback put_callback
find_callback-put id k c [] = refl
find_callback-put id k c ((j, d) ∷ m) = elim (Bool-cases (eqb_ℤ j k)) [
  | inl e ↦ ground arith
  | inr e ↦ ground (arith, find_callback-put id k c m)
]

pub find_callback-erase :
    (id k : ℤ) (m : Callbacks)
    → Distinct m
    → find_callback id (erase_callback k m) ≡ (if eqb_ℤ k id then none else find_callback id m)
unfolding find_callback erase_callback
find_callback-erase id k [] u = ground arith
find_callback-erase id k ((j, d) ∷ m) u = elim (Bool-cases (eqb_ℤ j k)) [
  | inl e ↦ elim (Bool-cases (eqb_ℤ k id)) [
    | inl f ↦
        let q : find_callback id m ≡ none =
          subst (λ x. find_callback x m ≡ none) (eq_of_parts j id (ground arith)) u.0 in
        ground (arith, q)
    | inr f ↦ ground arith
  ]
  | inr e ↦ ground (arith, find_callback-erase id k m u.1)
]

pub callbacks_of-set :
    (bev k : ℕ) (m : Callbacks) (ms : List (ℕ × Callbacks))
    → callbacks_of bev (set_callbacks k m ms) ≡ (if k == bev then some m else callbacks_of bev ms)
unfolding callbacks_of set_callbacks
callbacks_of-set bev k m [] = refl
callbacks_of-set bev k m ((j, n) ∷ ms) = elim (Bool-cases (j == k)) [
  | inl e ↦ ground arith
  | inr e ↦ ground (arith, callbacks_of-set bev k m ms)
]

pub callbacks_of-erase :
    (bev k : ℕ) (ms : List (ℕ × Callbacks))
    → AllDistinct ms
    → callbacks_of bev (erase_callbacks k ms) ≡ (if k == bev then none else callbacks_of bev ms)
unfolding callbacks_of erase_callbacks
callbacks_of-erase bev k [] u = ground arith
callbacks_of-erase bev k ((j, n) ∷ ms) u = elim (Bool-cases (j == k)) [
  | inl e ↦ elim (Bool-cases (k == bev)) [
    | inl f ↦
        let i : j ≡ bev = ground arith in
        let q : callbacks_of bev ms ≡ none = subst (λ x. callbacks_of x ms ≡ none) i u.0 in
        ground (arith, q)
    | inr f ↦ ground arith
  ]
  | inr e ↦ ground (arith, callbacks_of-erase bev k ms u.2)
]

pub Distinct-put : (k : ℤ) (c : ℕ) (m : Callbacks) → Distinct m → Distinct (put_callback k c m)
unfolding put_callback find_callback
Distinct-put k c [] u = (refl, u)
Distinct-put k c ((j, d) ∷ m) u = elim (Bool-cases (eqb_ℤ j k)) [
  | inl e ↦ rw e (u.0, u.1)
  | inr e ↦
      let f : eqb_ℤ k j ≡ false = ground arith in
      rw e (find_callback-put j k c m ∙ rw f u.0, Distinct-put k c m u.1)
]

pub Distinct-erase : (k : ℤ) (m : Callbacks) → Distinct m → Distinct (erase_callback k m)
unfolding erase_callback
Distinct-erase k [] u = u
Distinct-erase k ((j, d) ∷ m) u = elim (Bool-cases (eqb_ℤ j k)) [
  | inl e ↦ rw e u.1
  | inr e ↦
      let f : eqb_ℤ k j ≡ false = ground arith in
      rw e (find_callback-erase j k m u.1 ∙ rw f u.0, Distinct-erase k m u.1)
]

pub AllDistinct-set :
    (k : ℕ) (m : Callbacks) (ms : List (ℕ × Callbacks))
    → Distinct m
    → AllDistinct ms
    → AllDistinct (set_callbacks k m ms)
unfolding set_callbacks callbacks_of
AllDistinct-set k m [] h u = (refl, h, u)
AllDistinct-set k m ((j, n) ∷ ms) h u = elim (Bool-cases (j == k)) [
  | inl e ↦ rw e (u.0, h, u.2)
  | inr e ↦
      let f : (k == j) ≡ false = ground arith in
      rw e (callbacks_of-set j k m ms ∙ rw f u.0, u.1, AllDistinct-set k m ms h u.2)
]

pub AllDistinct-erase :
    (k : ℕ) (ms : List (ℕ × Callbacks)) → AllDistinct ms → AllDistinct (erase_callbacks k ms)
unfolding erase_callbacks
AllDistinct-erase k [] u = u
AllDistinct-erase k ((j, n) ∷ ms) u = elim (Bool-cases (j == k)) [
  | inl e ↦ rw e u.2
  | inr e ↦
      let f : (k == j) ≡ false = ground arith in
      rw e (callbacks_of-erase j k ms u.2 ∙ rw f u.0, u.1, AllDistinct-erase k ms u.2)
]

pub Distinct-found :
    (k : ℕ) (m : Callbacks) (ms : List (ℕ × Callbacks))
    → callbacks_of k ms ≡ some m
    → AllDistinct ms
    → Distinct m
unfolding callbacks_of
Distinct-found k m [] h u = cc
Distinct-found k m ((j, n) ∷ ms) h u = elim (Bool-cases (j == k)) [
  | inl e ↦ subst Distinct (some_inj (rw e at h)) u.1
  | inr e ↦ Distinct-found k m ms (rw e at h) u.2
]
