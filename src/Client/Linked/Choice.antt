-- ===== src/Client/Linked/Choice.antt =====
-- The connection that `invoke` of src/ClientImpl.cpp chooses has a map of callbacks.
use voltdb_client_cpp.Prelude.{
  ℕ, zero, suc, ◌+◌, ◌%◌, ◌≤◌, ◌≡◌, refl, Bool, true, false, not, Option, none, some, inl, inr,
  arith, Option-cases, length, get_elem?, if◌then◌else◌,
}
use voltdb_client_cpp.Prelude.Int.{ltb_ℤ}
use voltdb_client_cpp.Action.{Action, Outcome, done, fail, pure, throw_if, ◌>>◌, libevent}
use voltdb_client_cpp.Client.{Client, has, or_on_error, ignoring, ignoring_backpressure}
use voltdb_client_cpp.Client.Invoke.{
  Network, Choice, chosen, again, next_bev, free_bev, ask_listener, wait, choose_next, choose_wait,
  choose_turn, choose,
}
use voltdb_client_cpp.Client.Linked.{keys, IsLinked, Post, returned, threw, Any, Keeps, Post-bind}
use voltdb_client_cpp.Client.Linked.Places.{times-get_elem?}

-- What is outside keeps the agreement: the event loop, whose callbacks may call the client, and the
-- listener.
pub record Behaves (n : Network) : Type 0 where
  pub dispatch : Keeps n.dispatch
  pub poll : Keeps n.poll
  pub dispatch_for : (c : ℕ) → Keeps (n.dispatch_for c)
  pub backpressure : (b : Action Client Bool) → n.backpressure ≡ some b → Keeps b
  pub abandon : (c : ℕ) → Keeps (n.abandon c)

-- The connection has a map of callbacks.
abbrev pub IsConnected : ℕ → Client → Type 0
IsConnected b s = 1 ≤ keys b s.callbacks

pub Keeps-pure : {A : Type 0} (a : A) → Keeps (pure a)
Keeps-pure a = record { keeps = λ s l. returned l tt }

pub Keeps-throw_if : (b : Bool) → Keeps (throw_if b libevent)
Keeps-throw_if true = record { keeps = λ s l. threw l }
Keeps-throw_if false = record { keeps = λ s l. returned l tt }

pub next_bev-IsConnected : (s : Client) → IsLinked s → Post IsConnected (next_bev s)
unfolding next_bev
next_bev-IsConnected s l =
    elim (Option-cases (get_elem? s.bevs ((s.next_connection_index + 1) % length s.bevs))) [
      | inl e ↦ rw e (threw l)
      | inr (b, e) ↦ rw e (returned l (omega (arith, l.linked b, times-get_elem? s.bevs _ b e)))
    ]

-- A connection that is found.
abbrev pub IsFound : Option ℕ → Client → Type 0
IsFound none s = Unit
IsFound (some b) s = IsConnected b s

free_bev-IsFound : (k : ℕ) (s : Client) → IsLinked s → Post IsFound (free_bev k s)
unfolding free_bev
free_bev-IsFound zero s l = returned l tt
free_bev-IsFound (suc k) s l = after (free_bev-IsFound k) (next_bev-IsConnected s l)
  where
    after :
        {o : Outcome Client ℕ}
        → ((t : Client) → IsLinked t → Post IsFound (free_bev k t))
        → Post IsConnected o
        → Post IsFound (elim o [
          | fail e t ↦ fail e t
          | done bev t ↦ elim (has bev t.backpressured_bevs) [
            | true ↦ free_bev k t
            | false ↦ done (some bev) t
          ]
        ])
    after rest (returned {a = b} {t = t} l q) =
        elim (has b t.backpressured_bevs)
          as (λ x. Post IsFound (elim x [ true ↦ free_bev k t | false ↦ done (some b) t ])) [
            | true ↦ rest t l
            | false ↦ returned l q
          ]
    after rest (threw l) = threw l

pub Post-test :
    {A : Type 0} {Q : A → Client → Type 0} (b : Bool) {o p : Outcome Client A}
    → Post Q o
    → Post Q p
    → Post Q (if b then o else p)
Post-test true x y = x
Post-test false x y = y

pub Post-if :
    {A : Type 0} {Q : A → Client → Type 0} (b : Bool) (s : Client) (m n : Action Client A)
    → Post Q (m s)
    → Post Q (n s)
    → Post Q ((if b then m else n) s)
Post-if true s m n x y = x
Post-if false s m n x y = y

module _ (n : Network) (v : Behaves n) where
  Keeps-ignoring : (m : Action Client Bool) → Keeps m → Keeps (ignoring_backpressure m)
  Keeps-ignoring m k = record {
    keeps = λ s l.
        Post-bind (λ b. ignoring false >> pure b)
          (k.keeps (record s { ignore_backpressure = true }) l) (λ b t l q. returned l tt);
  }

  pub Post-or :
      {o : Outcome Client Bool} {handler : Action Client Bool}
      → Post Any o
      → Keeps handler
      → Post Any (or_on_error o handler)
  Post-or (returned l q) k = returned l q
  Post-or (threw {t = t} l) k = k.keeps t l

  Keeps-ask_listener :
      (b : Option (Action Client Bool)) → n.backpressure ≡ b → Keeps (ask_listener b)
  unfolding ask_listener
  Keeps-ask_listener none e = record { keeps = λ s l. returned l tt }
  Keeps-ask_listener (some b) e = record {
    keeps = λ s l.
        Post-or
          (Post-bind (λ queue. pure (not queue)) ((Keeps-ignoring b (v.backpressure b e)).keeps s l)
            (λ a t m q. returned m tt))
          (Keeps-pure true);
  }

  wait-IsFound : (s : Client) → IsLinked s → Post IsFound (wait n s)
  unfolding wait
  wait-IsFound s l =
      Post-bind _ (v.dispatch.keeps (record s { invocation_blocked_on_backpressure = true }) l)
        (λ ok t m _. Post-bind _ ((Keeps-throw_if (not ok)).keeps t m) (λ _ u p _.
          Post-if u.loop_break_requested u _ _
            (Post-bind (λ bev. pure (some bev))
              (next_bev-IsConnected
                (record u {
                  loop_break_requested = false;
                  invocation_blocked_on_backpressure = false;
                })
                p)
              (λ b w r q. returned r q))
            (returned p tt)))

  -- A choice that is made, or what another turn goes on with.
  abbrev IsChosen : Choice → Client → Type 0
  IsChosen (chosen b) s = IsConnected b s
  IsChosen (again b) s = IsFound b s

  choose_next-IsChosen : (s : Client) → IsLinked s → Post IsChosen (choose_next s)
  choose_next-IsChosen s l =
      Post-bind (λ bev. pure (chosen bev)) (next_bev-IsConnected s l) (λ b t m q. returned m q)

  choose_wait-IsChosen :
      (b : Option ℕ) (s : Client) → IsLinked s → IsFound b s → Post IsChosen (choose_wait n b s)
  choose_wait-IsChosen (some b) s l q = returned l q
  choose_wait-IsChosen none s l q =
      Post-bind _ ((Keeps-ask_listener n.backpressure refl).keeps s l) (λ run t m _.
        Post-if run t _ _
          (Post-bind (λ bev. pure (again bev)) (wait-IsFound t m) (λ b u p r. returned p r))
          (choose_next-IsChosen t m))

  choose_turn-IsChosen :
      (b : Option ℕ) (s : Client) → IsLinked s → IsFound b s → Post IsChosen (choose_turn n b s)
  unfolding choose_turn
  choose_turn-IsChosen b s l q = Post-test s.ignore_backpressure (choose_next-IsChosen s l) (
      Post-test (ltb_ℤ s.max_outstanding_requests s.outstanding_requests)
        (choose_wait-IsChosen b s l q)
        (Post-bind (choose_wait n) (free_bev-IsFound (length s.bevs) s l) choose_wait-IsChosen))

  pub choose-IsConnected :
      (fuel : ℕ) (b : Option ℕ) (s : Client)
      → IsLinked s
      → IsFound b s
      → Post IsConnected (choose fuel n b s)
  unfolding choose
  choose-IsConnected zero b s l q = threw l
  choose-IsConnected (suc fuel) b s l q =
      after (λ c t. choose-IsConnected fuel c t) (choose_turn-IsChosen b s l q)
    where
      after :
          {o : Outcome Client Choice}
          → ((c : Option ℕ) (t : Client)
              → IsLinked t
              → IsFound c t
              → Post IsConnected (choose fuel n c t))
          → Post IsChosen o
          → Post IsConnected (elim o [
            | fail e t ↦ fail e t
            | done (chosen b) t ↦ done b t
            | done (again b) t ↦ choose fuel n b t
          ])
      after rest (returned {a = chosen b} l q) = returned l q
      after rest (returned {a = again b} {t = t} l q) = rest b t l q
      after rest (threw l) = threw l
