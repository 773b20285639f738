-- ===== src/Client/Choose.antt =====
-- How `invoke` of src/ClientImpl.cpp looks for a connection that is not under backpressure.
use native.Mathlib.Nat.{mod-lt, mod-add-div, mod-eq_of_lt, add-mul-mod_self_left}
use voltdb_client_cpp.Prelude.{
  some_inj, ℕ, zero, suc, ◌+◌, ◌-◌, ◌*◌, ◌/◌, ◌%◌, ◌<◌, ◌≡◌, refl, sym, ap, subst, ◌∙◌, inl, inr,
  true, false, Option, none, some, List, [], ◌∷◌, arith, length, get_elem?, Bool-cases,
}
use voltdb_client_cpp.Action.{Outcome, done}
use voltdb_client_cpp.Client.{Client, has}
use voltdb_client_cpp.Client.Invoke.{next_bev, free_bev}

get_elem?-lt : (xs : List ℕ) (i : ℕ) → i < length xs → (x : ℕ) × (get_elem? xs i ≡ some x)
get_elem?-lt [] i h = elim h [ ]
get_elem?-lt (x ∷ xs) zero h = (x, refl)
get_elem?-lt (x ∷ xs) (suc i) h = get_elem?-lt xs i (omega arith)

-- Every place is reached in as many steps around as there are places.
reaches : (n i k : ℕ) → i < n → (j : ℕ) × (j < n) × ((k + suc j) % n ≡ i)
reaches n i k h =
    let a = k + n - i in
    let r = a % n in
    let q = a / n in
    let l : r < n = mod-lt a (omega (arith, h)) in
    let d : r + n * q ≡ a = mod-add-div a n in
    let e : k + suc (n - 1 - r) ≡ i + n * q = omega (arith, l, d, h) in
    (
      n - 1 - r,
      omega (arith, l, h),
      ap (λ x. x % n) e ∙ add-mul-mod_self_left i n q ∙ mod-eq_of_lt h,
    )

abbrev pub at_index : ℕ → Client → Client
at_index k s = record s { next_connection_index = k }

-- The connection at the place that the walk is at after `j` more steps.
abbrev step_bev : Client → ℕ → Option ℕ
step_bev s j = get_elem? s.bevs ((s.next_connection_index + suc j) % length s.bevs)

data Walk (n : ℕ) (s : Client) (o : Outcome Client (Option ℕ)) : Type 0 where
  stopped :
      (bev k i : ℕ)
      → o ≡ done (some bev) (at_index k s)
      → get_elem? s.bevs i ≡ some bev
      → has bev s.backpressured_bevs ≡ false
      → Walk n s o
  blocked :
      (k : ℕ)
      → o ≡ done none (at_index k s)
      → ((j bev : ℕ) → j < n → step_bev s j ≡ some bev → has bev s.backpressured_bevs ≡ true)
      → Walk n s o

next_bev-done :
    (s : Client) (bev : ℕ)
    → step_bev s 0 ≡ some bev
    → next_bev s ≡ done bev (at_index (s.next_connection_index + 1) s)
unfolding next_bev
next_bev-done s bev e = rw e refl

one_more :
    (n : ℕ) (s : Client) (bev b j : ℕ)
    → step_bev s 0 ≡ some bev
    → has bev s.backpressured_bevs ≡ true
    → ((j c : ℕ)
        → j < n
        → step_bev (at_index (s.next_connection_index + 1) s) j ≡ some c
        → has c s.backpressured_bevs ≡ true)
    → j < suc n
    → step_bev s j ≡ some b
    → has b s.backpressured_bevs ≡ true
one_more n s bev b zero e busy all l g =
    subst (λ (x : ℕ). has x s.backpressured_bevs ≡ true) (some_inj (sym e ∙ g)) busy
one_more n s bev b (suc j) e busy all l g =
    all j b (omega arith)
      (subst (λ (k : ℕ). get_elem? s.bevs (k % length s.bevs) ≡ some b) (omega arith) g)

free_bev-Walk : (n : ℕ) (s : Client) → 0 < length s.bevs → Walk n s (free_bev n s)
unfolding free_bev
free_bev-Walk zero s h =
    blocked s.next_connection_index refl (λ j bev l e. absurd (omega (arith, l)))
free_bev-Walk (suc n) s h =
    let i = (s.next_connection_index + 1) % length s.bevs in
    let (bev, e) = get_elem?-lt s.bevs i (mod-lt (s.next_connection_index + 1) h) in
    let t = at_index (s.next_connection_index + 1) s in
    elim (Bool-cases (has bev s.backpressured_bevs)) [
      | inr free ↦
          stopped bev (s.next_connection_index + 1) i
            (rw (free_bev, next_bev-done s bev e, free) refl) e free
      | inl busy ↦
          further n s bev e busy (rw (free_bev, next_bev-done s bev e, busy) refl)
            (free_bev-Walk n t h)
    ]
  where
    further :
        (n : ℕ) (s : Client) (bev : ℕ)
        → step_bev s 0 ≡ some bev
        → has bev s.backpressured_bevs ≡ true
        → free_bev (suc n) s ≡ free_bev n (at_index (s.next_connection_index + 1) s)
        → Walk n
            (at_index (s.next_connection_index + 1) s)
            (free_bev n (at_index (s.next_connection_index + 1) s))
        → Walk (suc n) s (free_bev (suc n) s)
    further n s bev e busy q (stopped b k i r g f) = stopped b k i (q ∙ r) g f
    further n s bev e busy q (blocked k r all) =
        blocked k (q ∙ r) (λ j b. one_more n s bev b j e busy all)

-- What a round over the connections comes to.
pub data Round (s : Client) (o : Outcome Client (Option ℕ)) : Type 0 where
  -- A connection that is not under backpressure.
  free :
      (bev k i : ℕ)
      → o ≡ done (some bev) (at_index k s)
      → get_elem? s.bevs i ≡ some bev
      → has bev s.backpressured_bevs ≡ false
      → Round s o
  -- None, and all are under backpressure.
  all_busy :
      (k : ℕ)
      → o ≡ done none (at_index k s)
      → ((i bev : ℕ) → get_elem? s.bevs i ≡ some bev → has bev s.backpressured_bevs ≡ true)
      → Round s o

get_elem?-length : (xs : List ℕ) (i x : ℕ) → get_elem? xs i ≡ some x → i < length xs
get_elem?-length [] i x e = cc
get_elem?-length (y ∷ xs) zero x e = omega arith
get_elem?-length (y ∷ xs) (suc i) x e = omega (arith, get_elem?-length xs i x e)

-- Where there are connections, a round over them, from wherever the last one ended, gives a connection
-- that is not under backpressure, or gives none if every connection is; the client is unchanged but
-- for the place.
pub free_bev-Round : (s : Client) → 0 < length s.bevs → Round s (free_bev (length s.bevs) s)
free_bev-Round s h = round (free_bev-Walk (length s.bevs) s h)
  where
    round : {o : Outcome Client (Option ℕ)} → Walk (length s.bevs) s o → Round s o
    round (stopped bev k i r g f) = free bev k i r g f
    round (blocked k r all) = all_busy k r (λ i bev e.
        let (j, l, m) =
          reaches (length s.bevs) i s.next_connection_index (get_elem?-length s.bevs i bev e) in
        all j bev l (ap (get_elem? s.bevs) m ∙ e))
