-- ===== src/Client/Outstanding.antt =====
-- The count of outstanding requests of src/ClientImpl.cpp against the callbacks that wait.
use voltdb_client_cpp.Prelude.{
  some_inj, ℕ, suc, ◌+◌, ◌≡◌, refl, ap, inl, inr, false, none, some, List, [], ◌∷◌, ◌==◌,
  if◌then◌else◌, arith, Bool-cases,
}
use voltdb_client_cpp.Prelude.Int.{ℤ, pos, eqb_ℤ, ◌+ℤ◌}
use voltdb_client_cpp.Action.{Outcome, done}
use voltdb_client_cpp.Buffer.{Void}
use voltdb_client_cpp.Client.{
  Client, magic, find_callback, put_callback, erase_callback, callbacks_of, set_callbacks,
  erase_callbacks, register,
}

-- The callbacks of a connection that wait for a response; that of the notifications does not.
abbrev pub requests : List (ℤ × ℕ) → ℕ
requests [] = 0
requests ((k, c) ∷ m) = if eqb_ℤ k magic then requests m else suc (requests m)

abbrev pub waiting : List (ℕ × List (ℤ × ℕ)) → ℕ
waiting [] = 0
waiting ((k, m) ∷ ms) = requests m + waiting ms

-- As many requests are counted as callbacks wait.
abbrev pub IsCounted : Client → Type 0
IsCounted s = s.outstanding_requests ≡ pos (waiting s.callbacks)

requests-put_callback :
    (id : ℤ) (c : ℕ) (m : List (ℤ × ℕ))
    → eqb_ℤ id magic ≡ false
    → find_callback id m ≡ none
    → requests (put_callback id c m) ≡ suc (requests m)
unfolding put_callback find_callback
requests-put_callback id c [] n f = rw n refl
requests-put_callback id c ((k, d) ∷ m) n f = elim (Bool-cases (eqb_ℤ k id)) [
  | inl e ↦ absurd (ground (arith, f, e))
  | inr e ↦ ground (arith, requests-put_callback id c m n (ground (arith, f, e)))
]

pub requests-erase_callback :
    (id : ℤ) (c : ℕ) (m : List (ℤ × ℕ))
    → eqb_ℤ id magic ≡ false
    → find_callback id m ≡ some c
    → requests m ≡ suc (requests (erase_callback id m))
unfolding erase_callback find_callback
requests-erase_callback id c [] n f = cc
requests-erase_callback id c ((k, d) ∷ m) n f = elim (Bool-cases (eqb_ℤ k id)) [
  | inl e ↦ ground arith
  | inr e ↦ ground (arith, requests-erase_callback id c m n (ground (arith, f, e)))
]

pub waiting-set_callbacks :
    (bev : ℕ) (m n : List (ℤ × ℕ)) (ms : List (ℕ × List (ℤ × ℕ)))
    → callbacks_of bev ms ≡ some m
    → waiting (set_callbacks bev n ms) + requests m ≡ waiting ms + requests n
unfolding set_callbacks callbacks_of
waiting-set_callbacks bev m n [] f = cc
waiting-set_callbacks bev m n ((k, l) ∷ ms) f = elim (Bool-cases (k == bev)) [
  | inl e ↦ rw e (omega (arith, ap requests (some_inj (rw e at f))))
  | inr e ↦ ground (arith, waiting-set_callbacks bev m n ms (ground (arith, f, e)))
]

pub waiting-erase_callbacks :
    (bev : ℕ) (m : List (ℤ × ℕ)) (ms : List (ℕ × List (ℤ × ℕ)))
    → callbacks_of bev ms ≡ some m
    → waiting (erase_callbacks bev ms) + requests m ≡ waiting ms
unfolding erase_callbacks callbacks_of
waiting-erase_callbacks bev m [] f = cc
waiting-erase_callbacks bev m ((k, l) ∷ ms) f = elim (Bool-cases (k == bev)) [
  | inl e ↦ rw e (omega (arith, ap requests (some_inj (rw e at f))))
  | inr e ↦ ground (arith, waiting-erase_callbacks bev m ms (ground (arith, f, e)))
]

pub callbacks_of-set_callbacks :
    (bev : ℕ) (n : List (ℤ × ℕ)) (ms : List (ℕ × List (ℤ × ℕ)))
    → callbacks_of bev (set_callbacks bev n ms) ≡ some n
unfolding set_callbacks callbacks_of
callbacks_of-set_callbacks bev n [] = ground arith
callbacks_of-set_callbacks bev n ((k, l) ∷ ms) = elim (Bool-cases (k == bev)) [
  | inl e ↦ ground arith
  | inr e ↦ ground (arith, callbacks_of-set_callbacks bev n ms)
]

pub find_callback-put_callback :
    (id : ℤ) (c : ℕ) (m : List (ℤ × ℕ)) → find_callback id (put_callback id c m) ≡ some c
unfolding find_callback put_callback
find_callback-put_callback id c [] = ground arith
find_callback-put_callback id c ((k, d) ∷ m) = elim (Bool-cases (eqb_ℤ k id)) [
  | inl e ↦ ground arith
  | inr e ↦ ground (arith, find_callback-put_callback id c m)
]

-- The callback of a request stands on a connection.
pub record Waits (bev : ℕ) (id : ℤ) (c : ℕ) (s : Client) : Type 0 where
  pub callbacks : List (ℤ × ℕ)
  pub connection : callbacks_of bev s.callbacks ≡ some callbacks
  pub found : find_callback id callbacks ≡ some c

-- A request has been left behind: it waits, and the count still tells how many do.
pub record Registered (bev : ℕ) (id : ℤ) (c : ℕ) (o : Outcome Client Void) : Type 0 where
  pub client : Client
  pub result : o ≡ done tt client
  pub counted : IsCounted client
  pub waits : Waits bev id c client

-- Where as many requests are counted as callbacks wait, a request with a new id on a connection that
-- is there is registered: its callback waits on the connection, and the count is right again.
pub register-IsCounted :
    (bev : ℕ) (id : ℤ) (c : ℕ) (s : Client) (m : List (ℤ × ℕ))
    → IsCounted s
    → callbacks_of bev s.callbacks ≡ some m
    → eqb_ℤ id magic ≡ false
    → find_callback id m ≡ none
    → Registered bev id c (register bev id c s)
unfolding register
register-IsCounted bev id c s m h k n f =
    let m' = put_callback id c m in
    let w = waiting-set_callbacks bev m m' s.callbacks k in
    let q = requests-put_callback id c m n f in
    record {
      client = record s {
        callbacks = set_callbacks bev m' s.callbacks;
        outstanding_requests = s.outstanding_requests +ℤ pos 1;
      };
      result = rw k refl;
      counted = rw h (ground (arith, w, q));
      waits = record {
        callbacks = m';
        connection = callbacks_of-set_callbacks bev m' s.callbacks;
        found = find_callback-put_callback id c m;
      };
    }
