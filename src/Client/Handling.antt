-- ===== src/Client/Handling.antt =====
-- A response as src/ClientImpl.cpp handles it, and the callback that waits for it.
use voltdb_client_cpp.Prelude.{
  ℕ, ◌≡◌, refl, inl, inr, Bool, true, false, ◌||◌, Option, none, some, ◌==◌, if◌then◌else◌, arith,
  Bool-cases, Option-cases,
}
use voltdb_client_cpp.Prelude.Int.{ℤ, pos, eqb_ℤ, ◌-ℤ◌}
use voltdb_client_cpp.Action.{Action, Outcome, done, fail, ◌>>◌, pure, state_of, continue}
use voltdb_client_cpp.Response.{InvocationResponse}
use voltdb_client_cpp.Client.{
  Client, Handlers, magic, find_callback, erase_callback, callbacks_of, set_callbacks, finish,
  handle_response, call, report, or_on_error, ignoring, ignoring_backpressure, wants_break,
}
use voltdb_client_cpp.Prelude.{◌&&◌, subst}
use voltdb_client_cpp.Client.Maps.{
  entry_in, Callbacks, Distinct, AllDistinct, find_callback-erase, callbacks_of-set, Distinct-found,
}
use voltdb_client_cpp.Client.Outstanding.{
  IsCounted, Waits, requests-erase_callback, waiting-set_callbacks,
}

-- The count is right, no key of a map has two entries, and a request waits.
pub record Holds (bev : ℕ) (id : ℤ) (c : ℕ) (s : Client) : Type 0 where
  pub counted : IsCounted s
  pub distinct : AllDistinct s.callbacks
  pub waits : Waits bev id c s

-- The callback that stands for a number on a connection.
abbrev pub entry_at : ℕ → ℤ → Client → Option ℕ
entry_at x k s = entry_in (callbacks_of x s.callbacks) k

-- What becomes of the client `t` that the callback left: nothing behind a notification, and else its
-- callback, and no other, is gone and counted off.
abbrev Finished : Bool → ℕ → ℤ → Client → Client → Type 0
Finished true bev id t u = u ≡ t
Finished false bev id t u =
    (u ≡ record t {
      callbacks = u.callbacks;
      outstanding_requests = t.outstanding_requests -ℤ pos 1;
    })
    × ((x : ℕ) (k : ℤ)
        → entry_at x k u ≡ (if (bev == x) && eqb_ℤ id k then none else entry_at x k t))

-- The callback ran, with the request in its place, and its request was finished.
pub record Answered (h : Handlers) (bev : ℕ) (r : InvocationResponse) (c : ℕ) (s : Client)
    (o : Outcome Client Bool) : Type 0 where
  pub leave : Bool
  pub left : Client
  pub called : call h c r s ≡ done leave left
  pub waited : entry_at bev r.client_data left ≡ some c
  pub client : Client
  pub finished : Finished (eqb_ℤ r.client_data magic) bev r.client_data left client
  pub counted : IsCounted client
  pub result : o ≡ done (leave || wants_break client) client

-- An unknown response changes nothing; one that is waited for is answered.
abbrev pub Handled :
    Handlers → ℕ → InvocationResponse → Client → Option ℕ → Outcome Client Bool → Type 0
Handled h bev r s none o = o ≡ done (wants_break s) s
Handled h bev r s (some c) o = Answered h bev r c s o

-- A callback may call the client and may throw, as may the listener that is told of it, but both leave
-- the count right, the keys distinct, and the request that they are run for where it is.
pub record IsPolite (h : Handlers) : Type 0 where
  pub callback :
      (bev : ℕ) (id : ℤ) (c : ℕ) (r : InvocationResponse) (s : Client)
      → Holds bev id c s
      → Holds bev id c (state_of (h.callback c r s))
  pub uncaught :
      (u : ℕ → InvocationResponse → Action Client Bool) (bev : ℕ) (id : ℤ) (c : ℕ)
      (r : InvocationResponse) (s : Client)
      → h.uncaught ≡ some u
      → Holds bev id c s
      → Holds bev id c (state_of (u c r s))

module _ (bev : ℕ) (id : ℤ) (c : ℕ) (t : Client) (h : Holds bev id c t) where
  abbrev kept : Callbacks
  kept = erase_callback id h.waits.callbacks

  abbrev struck : Client
  struck = record t {
    callbacks = set_callbacks bev kept t.callbacks;
    outstanding_requests = t.outstanding_requests -ℤ pos 1;
  }

  waits-Distinct : Distinct h.waits.callbacks
  waits-Distinct = Distinct-found bev h.waits.callbacks t.callbacks h.waits.connection h.distinct

  entry_at-struck :
      (x : ℕ) (k : ℤ)
      → entry_at x k struck ≡ (if (bev == x) && eqb_ℤ id k then none else entry_at x k t)
  entry_at-struck x k = elim (Bool-cases (bev == x)) [
    | inl e ↦
        let i : bev ≡ x = ground arith in
        let o : callbacks_of x t.callbacks ≡ some h.waits.callbacks =
          subst (λ y. callbacks_of y t.callbacks ≡ some h.waits.callbacks) i h.waits.connection in
        rw (callbacks_of-set x bev kept t.callbacks, e, o)
          (find_callback-erase k id h.waits.callbacks waits-Distinct)
    | inr e ↦ rw (callbacks_of-set x bev kept t.callbacks, e) refl
  ]

  finish-Finished :
      (u : Client) × (finish bev id t ≡ done tt u)
      × Finished (eqb_ℤ id magic) bev id t u
      × IsCounted u
  unfolding finish
  finish-Finished = elim (Bool-cases (eqb_ℤ id magic)) [
    | inl e ↦ rw e (t, refl, refl, h.counted)
    | inr e ↦
        let q = requests-erase_callback id c h.waits.callbacks e h.waits.found in
        let v = waiting-set_callbacks bev h.waits.callbacks kept t.callbacks h.waits.connection in
        let n : IsCounted struck = rw h.counted (ground (arith, q, v)) in
        rw (e, h.waits.connection) (struck, refl, (refl, entry_at-struck), n)
  ]

-- An action that returned, with the count right and the request in its place.
abbrev Returned : ℕ → ℤ → ℕ → Outcome Client Bool → Type 0
Returned bev id c o = (b : Bool) × (t : Client) × (o ≡ done b t) × Holds bev id c t

module _ (bev : ℕ) (id : ℤ) (c : ℕ) where
  Holds-flag :
      (b : Bool) (s : Client)
      → Holds bev id c s
      → Holds bev id c (record s { ignore_backpressure = b })
  Holds-flag b s h = record {
    counted = h.counted;
    distinct = h.distinct;
    waits = record {
      callbacks = h.waits.callbacks;
      connection = h.waits.connection;
      found = h.waits.found;
    };
  }

  Holds-reset :
      (o : Outcome Client Bool)
      → Holds bev id c (state_of o)
      → Holds bev id c (state_of (continue o (λ b. ignoring false >> pure b)))
  Holds-reset (done b s) h = Holds-flag false s h
  Holds-reset (fail e s) h = h

  Holds-ignoring :
      (m : Action Client Bool) (s : Client)
      → Holds bev id c (state_of (m (record s { ignore_backpressure = true })))
      → Holds bev id c (state_of (ignoring_backpressure m s))
  Holds-ignoring m s h = Holds-reset (m (record s { ignore_backpressure = true })) h

  Returned-or :
      (o : Outcome Client Bool) (handler : Action Client Bool)
      → Holds bev id c (state_of o)
      → ((s : Client) → Holds bev id c s → Returned bev id c (handler s))
      → Returned bev id c (or_on_error o handler)
  Returned-or (done b s) handler h k = (b, s, refl, h)
  Returned-or (fail e s) handler h k = k s h

  Returned-report :
      (u : Option (ℕ → InvocationResponse → Action Client Bool)) (r : InvocationResponse)
      (s : Client)
      → ((v : ℕ → InvocationResponse → Action Client Bool) (t : Client)
          → u ≡ some v
          → Holds bev id c t
          → Holds bev id c (state_of (v c r t)))
      → Holds bev id c s
      → Returned bev id c (report u c r s)
  Returned-report none r s p h = (false, s, refl, h)
  Returned-report (some v) r s p h =
      Returned-or (ignoring_backpressure (v c r) s) (pure false)
        (Holds-ignoring (v c r) s
          (p v (record s { ignore_backpressure = true }) refl (Holds-flag true s h)))
        (λ t k. (false, t, refl, k))

  Returned-call :
      (h : Handlers) (r : InvocationResponse) (s : Client)
      → IsPolite h
      → Holds bev id c s
      → Returned bev id c (call h c r s)
  Returned-call h r s p k =
      Returned-or (ignoring_backpressure (h.callback c r) s) (report h.uncaught c r)
        (Holds-ignoring (h.callback c r) s
          (p.callback bev id c r (record s { ignore_backpressure = true }) (Holds-flag true s k)))
        (λ t. Returned-report h.uncaught r t (λ v u e. p.uncaught v bev id c r u e))

-- Where as many requests are counted as callbacks wait and no key of a map has two entries, a response
-- on a connection that is there is handled without an exception, whoever throws, and the count is
-- right again. A response that nothing waits for changes nothing. Else its callback is run, or the
-- listener where it throws, and then, on the client that they leave, the callback's entry is gone, no
-- other entry has changed and one request is counted off, or, for a notification, all stays. The loop
-- is left where one of them asked for it, or the client then wants it. Callbacks and listener have to
-- leave the count right, the keys distinct and the request where it is.
pub handle_response-Handled :
    (h : Handlers) (bev : ℕ) (r : InvocationResponse) (s : Client) (m : Callbacks)
    → IsPolite h
    → IsCounted s
    → AllDistinct s.callbacks
    → callbacks_of bev s.callbacks ≡ some m
    → Handled h bev r s (find_callback r.client_data m) (handle_response h bev r s)
unfolding handle_response
handle_response-Handled h bev r s m p k d e = elim (Option-cases (find_callback r.client_data m)) [
  | inl f ↦ rw (e, f) refl
  | inr (c, f) ↦
      let w : Holds bev r.client_data c s = record {
        counted = k;
        distinct = d;
        waits = record { callbacks = m; connection = e; found = f };
      } in
      let (b, t, q, n) = Returned-call bev r.client_data c h r s p w in
      let (u, g, z, o) = finish-Finished bev r.client_data c t n in
      let there : entry_at bev r.client_data t ≡ some c = rw n.waits.connection n.waits.found in
      rw f (record {
        leave = b;
        left = t;
        called = q;
        waited = there;
        client = u;
        finished = z;
        counted = o;
        result = rw (e, f, q, g) refl;
      })
]
