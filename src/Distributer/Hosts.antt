-- ===== src/Distributer/Hosts.antt =====
-- The partitions and hosts that `updateAffinityTopology` of src/Distributer.cpp gathers.
use voltdb_client_cpp.Prelude.{
  ◌≡◌, refl, ap, sym, ◌∙◌, inl, inr, true, Option, none, some, List, [], ◌∷◌, arith, Bool-cases,
  Option-cases, if◌then◌else◌,
}
use voltdb_client_cpp.Prelude.Int.{ℤ, eqb_ℤ, eq_of_parts}
use voltdb_client_cpp.Distributer.{find_host, add_host}

abbrev pub Hosts : Type 0
Hosts = List (ℤ × ℤ)

abbrev pub or_else : Option ℤ → Option ℤ → Option ℤ
or_else none b = b
or_else (some a) b = some a

or_else_assoc : (a b c : Option ℤ) → or_else (or_else a b) c ≡ or_else a (or_else b c)
or_else_assoc none b c = refl
or_else_assoc (some a) b c = refl

or_else-none : (a : Option ℤ) → or_else a none ≡ a
or_else-none none = refl
or_else-none (some a) = refl

abbrev for_key : ℤ → ℤ × ℤ → Option ℤ
for_key p (q, h) = if eqb_ℤ q p then some h else none

-- The host of the first entry of a partition, in the order of the entries.
abbrev pub first_host : ℤ → List (ℤ × ℤ) → Option ℤ
first_host p [] = none
first_host p ((q, h) ∷ es) = let rest = first_host p es in if eqb_ℤ q p then some h else rest

first_host-step :
    (p q h : ℤ) (es : Hosts)
    → first_host p ((q, h) ∷ es) ≡ or_else (for_key p (q, h)) (first_host p es)
first_host-step p q h es = elim (Bool-cases (eqb_ℤ q p)) [ inl k ↦ rw k refl | inr k ↦ rw k refl ]

equal_keys : (q p : ℤ) → eqb_ℤ q p ≡ true → q ≡ p
equal_keys q p h = eq_of_parts q p (ground arith)

find_host-absent :
    (p q h : ℤ) (hs : Hosts)
    → find_host q hs ≡ none
    → find_host p ((q, h) ∷ hs) ≡ or_else (find_host p hs) (for_key p (q, h))
unfolding find_host
find_host-absent p q h hs n = elim (Bool-cases (eqb_ℤ q p)) [
  | inl k ↦
      let m : find_host p hs ≡ none = ap (λ (x : ℤ). find_host x hs) (sym (equal_keys q p k)) ∙ n in
      rw (k, m) refl
  | inr k ↦ rw k (sym (or_else-none (find_host p hs)))
]

find_host-present :
    (p q h g : ℤ) (hs : Hosts)
    → find_host q hs ≡ some g
    → find_host p hs ≡ or_else (find_host p hs) (for_key p (q, h))
find_host-present p q h g hs n = elim (Bool-cases (eqb_ℤ q p)) [
  | inl k ↦
      let m : find_host p hs ≡ some g =
        ap (λ (x : ℤ). find_host x hs) (sym (equal_keys q p k)) ∙ n in
      rw (k, m) refl
  | inr k ↦ rw k (sym (or_else-none (find_host p hs)))
]

find_host-add_host :
    (p q h : ℤ) (hs : Hosts)
    → find_host p (add_host (find_host q hs) (q, h) hs)
      ≡ or_else (find_host p hs) (for_key p (q, h))
find_host-add_host p q h hs = elim (Option-cases (find_host q hs)) [
  | inl n ↦ rw n (find_host-absent p q h hs n)
  | inr (g, n) ↦ rw n (find_host-present p q h g hs n)
]

-- The entries inserted one behind the other.
abbrev pub insert_all : List (ℤ × ℤ) → Hosts → Hosts
insert_all [] hs = hs
insert_all ((q, h) ∷ es) hs = insert_all es (add_host (find_host q hs) (q, h) hs)

pub find_host-insert_all :
    (p : ℤ) (es hs : Hosts)
    → find_host p (insert_all es hs) ≡ or_else (find_host p hs) (first_host p es)
find_host-insert_all p [] hs = sym (or_else-none (find_host p hs))
find_host-insert_all p ((q, h) ∷ es) hs =
    find_host-insert_all p es (add_host (find_host q hs) (q, h) hs)
    ∙ ap (λ (x : Option ℤ). or_else x (first_host p es)) (find_host-add_host p q h hs)
    ∙ or_else_assoc (find_host p hs) (for_key p (q, h)) (first_host p es)
    ∙ ap (or_else (find_host p hs)) (sym (first_host-step p q h es))
