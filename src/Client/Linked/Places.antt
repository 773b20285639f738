-- ===== src/Client/Linked/Places.antt =====
-- What the changes of the three places of src/ClientImpl.cpp do to the counts of a connection.
use voltdb_client_cpp.Prelude.{
  ℕ, zero, suc, ◌+◌, ◌-◌, ◌≤◌, ◌≡◌, refl, List, [], ◌∷◌, ◌++◌, ◌==◌, if◌then◌else◌, some, false,
  inl, inr, arith, Bool-cases, get_elem?,
}
use voltdb_client_cpp.Prelude.Int.{ℤ}
use voltdb_client_cpp.Client.{callbacks_of, set_callbacks, erase_callbacks, has, remove, insert}
use voltdb_client_cpp.Client.Linked.{same, times, keys, AreLinked}

abbrev Maps : Type 0
Maps = List (ℕ × List (ℤ × ℕ))

pub times-append : (x b : ℕ) (bs : List ℕ) → times x (bs ++ b ∷ []) ≡ times x bs + same b x
times-append x b [] = ground arith
times-append x b (c ∷ cs) = omega (arith, times-append x b cs)

-- One is taken out where there is one.
pub times-remove :
    (x b : ℕ) (bs : List ℕ)
    → times x (remove b bs) ≡ (if b == x then times x bs - 1 else times x bs)
unfolding remove
times-remove x b [] = ground arith
times-remove x b (c ∷ cs) = ground (arith, times-remove x b cs)

pub keys-erase :
    (x b : ℕ) (ms : Maps)
    → keys x (erase_callbacks b ms) ≡ (if b == x then keys x ms - 1 else keys x ms)
unfolding erase_callbacks
keys-erase x b [] = ground arith
keys-erase x b ((c, m) ∷ ms) = ground (arith, keys-erase x b ms)

pub keys-set_some :
    (x b : ℕ) (m : List (ℤ × ℕ)) (ms : Maps)
    → 1 ≤ keys b ms
    → keys x (set_callbacks b m ms) ≡ keys x ms
unfolding set_callbacks
keys-set_some x b m [] h = elim h [ ]
keys-set_some x b m ((c, n) ∷ ms) h = ground (arith, keys-set_some x b m ms)

pub keys-set_none :
    (x b : ℕ) (m : List (ℤ × ℕ)) (ms : Maps)
    → keys b ms ≡ 0
    → keys x (set_callbacks b m ms) ≡ keys x ms + same b x
unfolding set_callbacks
keys-set_none x b m [] h = ground arith
keys-set_none x b m ((c, n) ∷ ms) h = ground (arith, keys-set_none x b m ms)

pub keys-callbacks_of :
    (b : ℕ) (m : List (ℤ × ℕ)) (ms : Maps) → callbacks_of b ms ≡ some m → 1 ≤ keys b ms
unfolding callbacks_of
keys-callbacks_of b m [] e = cc
keys-callbacks_of b m ((c, n) ∷ ms) e = ground (arith, keys-callbacks_of b m ms)

pub callbacks_of-there :
    (b : ℕ) (ms : Maps) → 1 ≤ keys b ms → (m : List (ℤ × ℕ)) × (callbacks_of b ms ≡ some m)
unfolding callbacks_of
callbacks_of-there b [] h = elim h [ ]
callbacks_of-there b ((c, n) ∷ ms) h = elim (Bool-cases (c == b)) [
  | inl e ↦ (n, rw e refl)
  | inr e ↦ let (m, q) = callbacks_of-there b ms (ground arith) in (m, rw e q)
]

pub times-get_elem? : (bs : List ℕ) (i b : ℕ) → get_elem? bs i ≡ some b → 1 ≤ times b bs
times-get_elem? [] i b e = cc
times-get_elem? (c ∷ cs) zero b e = ground arith
times-get_elem? (c ∷ cs) (suc i) b e = omega (arith, times-get_elem? cs i b e)

times-has_not : (b : ℕ) (bs : List ℕ) → has b bs ≡ false → times b bs ≡ 0
unfolding has
times-has_not b [] h = refl
times-has_not b (c ∷ cs) h = ground (arith, times-has_not b cs)

pub AreLinked-insert :
    {bevs : List ℕ} {ms : Maps} (b : ℕ) (busy : List ℕ)
    → 1 ≤ keys b ms
    → AreLinked bevs ms busy
    → AreLinked bevs ms (insert b busy)
AreLinked-insert b busy h l = elim (Bool-cases (has b busy)) [
  | inl e ↦ rw e l
  | inr e ↦ rw e (record {
    linked = l.linked;
    single = l.single;
    held = λ x. ground (arith, times-has_not b busy e, l.held x, h);
  })
]

pub AreLinked-remove :
    {bevs : List ℕ} {ms : Maps} (b : ℕ) (busy : List ℕ)
    → AreLinked bevs ms busy
    → AreLinked bevs ms (remove b busy)
AreLinked-remove b busy l = record {
  linked = l.linked;
  single = l.single;
  held = λ x. ground (arith, times-remove x b busy, l.held x);
}

pub AreLinked-set :
    {bevs : List ℕ} (ms : Maps) {busy : List ℕ} (b : ℕ) (m : List (ℤ × ℕ))
    → 1 ≤ keys b ms
    → AreLinked bevs ms busy
    → AreLinked bevs (set_callbacks b m ms) busy
AreLinked-set ms b m h l = record {
  linked = λ x. omega (arith, keys-set_some x b m ms h, l.linked x);
  single = λ x. omega (arith, keys-set_some x b m ms h, l.single x);
  held = λ x. omega (arith, keys-set_some x b m ms h, l.held x);
}

-- A connection that is new stands in both places.
pub AreLinked-add :
    (bevs : List ℕ) (ms : Maps) {busy : List ℕ} (b : ℕ) (m : List (ℤ × ℕ))
    → keys b ms ≡ 0
    → AreLinked bevs ms busy
    → AreLinked (bevs ++ b ∷ []) (set_callbacks b m ms) busy
AreLinked-add bevs ms b m h l = record {
  linked = λ x. omega (arith, keys-set_none x b m ms h, times-append x b bevs, l.linked x);
  single = λ x. ground (arith, keys-set_none x b m ms h, l.single x, h);
  held = λ x. omega (arith, keys-set_none x b m ms h, l.held x);
}

-- One that is lost goes from all.
pub AreLinked-erase :
    (bevs : List ℕ) (ms : Maps) (busy : List ℕ) (b : ℕ)
    → AreLinked bevs ms busy
    → AreLinked (remove b bevs) (erase_callbacks b ms) (remove b busy)
AreLinked-erase bevs ms busy b l = record {
  linked = λ x. ground (arith, keys-erase x b ms, times-remove x b bevs, l.linked x);
  single = λ x. ground (arith, keys-erase x b ms, l.single x);
  held = λ x. ground (arith, keys-erase x b ms, times-remove x b busy, l.held x);
}
