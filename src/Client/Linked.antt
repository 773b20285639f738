-- ===== src/Client/Linked.antt =====
-- The connections of src/ClientImpl.cpp stand in three places: `m_bevs`, `m_callbacks` and
-- `m_backpressuredBevs`. How the three agree, whatever is called.
pub mod Places
pub mod Choice
pub mod Invoke
pub mod Own
pub mod Responses
pub mod Logins
pub mod Run
pub mod Authentication
pub mod Reach
use voltdb_client_cpp.Prelude.{
  ℕ, ◌+◌, ◌≤◌, Bool, true, false, ◌≡◌, List, [], ◌∷◌, ◌==◌, if◌then◌else◌, Option, some, arith,
}
use voltdb_client_cpp.Prelude.Int.{ℤ}
use voltdb_client_cpp.Action.{Action, Outcome, Error, done, fail, continue, ◌>>=◌}
use voltdb_client_cpp.Client.{Client}

abbrev pub same : ℕ → ℕ → ℕ
same a b = if a == b then 1 else 0

-- How often a connection stands in a list, and how many maps of callbacks there are for it.
abbrev pub times : ℕ → List ℕ → ℕ
times b [] = 0
times b (c ∷ cs) = same c b + times b cs

abbrev pub keys : ℕ → List (ℕ × List (ℤ × ℕ)) → ℕ
keys b [] = 0
keys b ((c, m) ∷ ms) = same c b + keys b ms

-- A connection is in `m_bevs` as often as it has a map of callbacks, which is at most once, and is under
-- backpressure only if it has.
pub record AreLinked (bevs : List ℕ) (callbacks : List (ℕ × List (ℤ × ℕ))) (backpressured : List ℕ)
    : Type 0 where
  pub linked : (b : ℕ) → times b bevs ≡ keys b callbacks
  pub single : (b : ℕ) → keys b callbacks ≤ 1
  pub held : (b : ℕ) → times b backpressured ≤ keys b callbacks

abbrev pub IsLinked : Client → Type 0
IsLinked s = AreLinked s.bevs s.callbacks s.backpressured_bevs

-- What an outcome leaves: the three places agree, also where it throws, and where it does not, `Q` holds
-- of the result and the state.
pub data Post {A : Type 0} (Q : A → Client → Type 0) : Outcome Client A → Type 0 where
  returned : {a : A} {t : Client} → IsLinked t → Q a t → Post Q (done a t)
  threw : {e : Error} {t : Client} → IsLinked t → Post Q (fail e t)

abbrev pub Any : {A : Type 0} → A → Client → Type 0
Any a t = Unit

-- A call that keeps the agreement.
pub record Keeps {A : Type 0} (m : Action Client A) : Type 0 where
  pub keeps : (s : Client) → IsLinked s → Post Any (m s)

pub Post-bind :
    {A B : Type 0} {Q : A → Client → Type 0} {R : B → Client → Type 0} {o : Outcome Client A}
    (f : A → Action Client B)
    → Post Q o
    → ((a : A) (t : Client) → IsLinked t → Q a t → Post R (f a t))
    → Post R (continue o f)
Post-bind f (returned l q) k = k _ _ l q
Post-bind f (threw l) k = threw l

pub Post-Any : {A : Type 0} {Q : A → Client → Type 0} {o : Outcome Client A} → Post Q o → Post Any o
Post-Any (returned l q) = returned l tt
Post-Any (threw l) = threw l

pub Keeps-bind :
    {A B : Type 0} {m : Action Client A} (f : A → Action Client B)
    → Keeps m
    → ((a : A) → Keeps (f a))
    → Keeps (m >>= f)
Keeps-bind f k g = record { keeps = λ s l. Post-bind f (k.keeps s l) (λ a t n q. (g a).keeps t n) }

-- Both branches of a test.
pub Keeps-if :
    {A : Type 0} (b : Bool) {m n : Action Client A} → Keeps m → Keeps n → Keeps (if b then m else n)
Keeps-if true k l = k
Keeps-if false k l = l

pub Post-weaken :
    {A : Type 0} {Q R : A → Client → Type 0} {o : Outcome Client A}
    → Post Q o
    → ((a : A) (t : Client) → Q a t → R a t)
    → Post R o
Post-weaken (returned l q) f = returned l (f _ _ q)
Post-weaken (threw l) f = threw l
