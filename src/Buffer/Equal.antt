-- ===== src/Buffer/Equal.antt =====
-- The comparison of the bytes of two buffers and of two strings.
use voltdb_client_cpp.Prelude.{
  ℕ, ◌≡◌, ◌≢◌, refl, ap, sym, ◌∙◌, inl, inr, true, false, List, [], ◌∷◌, ◌==◌, arith, Bool-cases,
}
use voltdb_client_cpp.Buffer.{eqb_bytes}

pub eqb_bytes-eq : (xs ys : List ℕ) → eqb_bytes xs ys ≡ true → xs ≡ ys
unfolding eqb_bytes
eqb_bytes-eq [] [] h = refl
eqb_bytes-eq [] (y ∷ ys) h = cc
eqb_bytes-eq (x ∷ xs) [] h = cc
eqb_bytes-eq (x ∷ xs) (y ∷ ys) h = elim (Bool-cases (x == y)) [
  | inl e ↦ let i : x ≡ y = ground arith in rw (i, eqb_bytes-eq xs ys (rw e at h)) refl
  | inr e ↦ let f : false ≡ true = rw e at h in cc
]

eqb_bytes_refl : (xs : List ℕ) → eqb_bytes xs xs ≡ true
unfolding eqb_bytes
eqb_bytes_refl [] = refl
eqb_bytes_refl (x ∷ xs) = let e : (x == x) ≡ true = ground arith in rw e (eqb_bytes_refl xs)

pub eqb_bytes-ne : (xs ys : List ℕ) → eqb_bytes xs ys ≡ false → xs ≢ ys
eqb_bytes-ne xs ys h e =
    let f : true ≡ false = sym (eqb_bytes_refl ys) ∙ ap (λ zs. eqb_bytes zs ys) (sym e) ∙ h in cc
