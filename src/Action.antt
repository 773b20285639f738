-- ===== src/Action.antt =====
-- Methods that change an object and may throw (include/Exception.hpp). What a method wrote before
-- it threw stays written, so the state comes back beside the error too.
use voltdb_client_cpp.Prelude.{◌≡◌, Bool, true, false}

-- The exceptions of include/Exception.hpp that the modelled code throws, and `bad_json` for those of
-- the JSON reader. `undefined` stands for
-- what the C++ leaves undefined: a failed assert, a read outside an array, a signed overflow.
pub data Error : Type 0 where
  overflow_underflow index_out_of_bounds non_expandable_buffer null_pointer : Error
  invalid_column param_mismatch uninitialized_params column_mismatch no_more_rows : Error
  no_connections connect libevent elastic_mode_mismatch cluster_instance_mismatch : Error
  misplaced_client string_to_decimal bad_json undefined : Error

pub data Outcome (S A : Type 0) : Type 0 where
  done : A → S → Outcome S A
  fail : Error → S → Outcome S A

abbrev pub Action : Type 0 → Type 0 → Type 0
Action S A = S → Outcome S A

module _ {S A : Type 0} where
  abbrev pub pure : A → Action S A
  pure a s = done a s

  abbrev pub throw : Error → Action S A
  throw e s = fail e s

  abbrev pub gets : (S → A) → Action S A
  gets f s = done (f s) s

  abbrev pub state_of : Outcome S A → S
  state_of (done a s) = s
  state_of (fail e s) = s

module _ {S : Type 0} where
  abbrev pub modify : (S → S) → Action S (Unit {0})
  modify f s = done tt (f s)

  abbrev pub skip : Action S (Unit {0})
  skip s = done tt s

  -- `if (b) throw e;`
  abbrev pub throw_if : Bool → Error → Action S (Unit {0})
  throw_if true e s = fail e s
  throw_if false e s = done tt s

module _ {S A B : Type 0} where
  abbrev pub continue : Outcome S A → (A → Action S B) → Outcome S B
  continue (done a s) f = f a s
  continue (fail e s) f = fail e s

  infixl 5 ◌>>=◌
  abbrev pub ◌>>=◌ : Action S A → (A → Action S B) → Action S B
  ◌>>=◌ m f s = continue (m s) f

module _ {S B : Type 0} where
  infixl 5 ◌>>◌
  abbrev pub ◌>>◌ : Action S (Unit {0}) → Action S B → Action S B
  ◌>>◌ m k s = continue (m s) (λ _. k)

  -- A step whose outcome is known.
  pub >>_done :
      (m : Action S (Unit {0})) (k : Action S B) {s t : S} → m s ≡ done tt t → (m >> k) s ≡ k t
  >>_done m k e = rw e

module _ {S A B : Type 0} where
  pub >>=_done :
      (m : Action S A) (k : A → Action S B) {s t : S} {a : A} → m s ≡ done a t → (m >>= k) s ≡ k a t
  >>=_done m k e = rw e
