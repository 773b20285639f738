-- ===== src/Client/Stuck.antt =====
-- `invoke` of src/ClientImpl.cpp while every connection is under backpressure.
use voltdb_client_cpp.Prelude.{
  ℕ, zero, suc, ◌+◌, ◌<◌, ◌≡◌, refl, ap, arith, ◌∙◌, if◌then◌else◌, Bool, true, false, Option, none,
  some, length, get_elem?,
}
use voltdb_client_cpp.Prelude.Int.{ltb_ℤ}
use voltdb_client_cpp.Action.{Action, done, pure, Outcome, >>=_done}
use voltdb_client_cpp.Client.{Client, has}
use voltdb_client_cpp.Client.Invoke.{
  Network, again, free_bev, wait, ask_listener, choose_wait, choose_turn, choose,
}
use voltdb_client_cpp.Client.Choose.{Round, free, all_busy, free_bev-Round, at_index}

-- A client that waits to send: there are connections and all are under backpressure, no more requests
-- are outstanding than may be, and nothing asked for the loop to be left.
pub record IsStuck (s : Client) : Type 0 where
  pub connections : 0 < length s.bevs
  pub busy : (i bev : ℕ) → get_elem? s.bevs i ≡ some bev → has bev s.backpressured_bevs ≡ true
  pub room : ltb_ℤ s.max_outstanding_requests s.outstanding_requests ≡ false
  pub heeded : s.ignore_backpressure ≡ false
  pub unbroken : s.loop_break_requested ≡ false

-- No listener, and an event loop that is left, as `interrupt` and a callback that returns true leave
-- it, with the client still stuck.
pub record IsInterrupted (n : Network) : Type 0 where
  pub alone : n.backpressure ≡ none
  pub dispatched :
      (s : Client) → IsStuck s → (t : Client) × (n.dispatch s ≡ done true t) × IsStuck t

abbrev waiting_at : ℕ → Client → Client
waiting_at k s = record s { next_connection_index = k; invocation_blocked_on_backpressure = true }

free_bev-none :
    (s : Client) → IsStuck s → (k : ℕ) × (free_bev (length s.bevs) s ≡ done none (at_index k s))
free_bev-none s v = none_free (free_bev-Round s v.connections)
  where
    none_free :
        Round s (free_bev (length s.bevs) s)
        → (k : ℕ) × (free_bev (length s.bevs) s ≡ done none (at_index k s))
    none_free (free bev k i r g f) = cc (v.busy i bev g)
    none_free (all_busy k r all) = (k, r)

if-false : {A : Type 0} (b : Bool) (x y : A) → b ≡ false → (if b then x else y) ≡ y
if-false b x y e = rw e refl

-- A turn that chooses no connection, behind which the client is stuck again.
record TurnsAgain {A : Type 0} (a : A) (s : Client) (o : Outcome Client A) : Type 0 where
  client : Client
  result : o ≡ done a client
  stuck : IsStuck client

-- The event loop is run and left, and another turn goes on with no connection.
wait-TurnsAgain :
    (n : Network) (s : Client) → IsInterrupted n → IsStuck s → TurnsAgain none s (wait n s)
unfolding wait
wait-TurnsAgain n s q v =
    let blocked = record s { invocation_blocked_on_backpressure = true } in
    let (t, d, w) = q.dispatched blocked (record {
      connections = v.connections;
      busy = v.busy;
      room = v.room;
      heeded = v.heeded;
      unbroken = v.unbroken;
    }) in
    record {
      client = t;
      result = rw d (
          ap (λ (m : Action Client (Option ℕ)). m t)
            (if-false t.loop_break_requested _ (pure none) w.unbroken));
      stuck = w;
    }

choose_wait-again :
    (n : Network) (s t : Client)
    → n.backpressure ≡ none
    → wait n s ≡ done none t
    → choose_wait n none s ≡ done (again none) t
unfolding ask_listener
choose_wait-again n s t a w =
    >>=_done (ask_listener n.backpressure) _
      (ap (λ (b : Option (Action Client Bool)). ask_listener b s) a)
    ∙ >>=_done (wait n) _ w

turn-TurnsAgain :
    (n : Network) (s : Client)
    → IsInterrupted n
    → IsStuck s
    → TurnsAgain (again none) s (choose_turn n none s)
unfolding choose_turn
turn-TurnsAgain n s q v =
    let (k, e) = free_bev-none s v in
    let w = wait-TurnsAgain n (at_index k s) q (record {
      connections = v.connections;
      busy = v.busy;
      room = v.room;
      heeded = v.heeded;
      unbroken = v.unbroken;
    }) in
    record {
      client = w.client;
      result =
          if-false s.ignore_backpressure _ _ v.heeded
          ∙ if-false (ltb_ℤ s.max_outstanding_requests s.outstanding_requests) _ _ v.room
          ∙ >>=_done (free_bev (length s.bevs)) (choose_wait n) e
          ∙ choose_wait-again n (at_index k s) w.client q.alone w.result;
      stuck = w.stuck;
    }

-- The loop turned that often, each time without a connection, which is no return and no exception.
abbrev pub Turned : ℕ → Network → Client → Client → Type 0
Turned zero n s t = s ≡ t
Turned (suc k) n s t = (u : Client) × (choose_turn n none s ≡ done (again none) u) × Turned k n u t

-- The loop is where it was: it has turned, and is to turn again with a client that is stuck.
pub record StillTurns (k : ℕ) (n : Network) (s : Client) : Type 0 where
  pub client : Client
  pub turned : Turned k n s client
  pub stuck : IsStuck client
  pub unfinished : (more : ℕ) → choose (k + more) n none s ≡ choose more n none client

-- Outside a callback, which would have backpressure ignored, while every connection is under
-- backpressure, no more requests are outstanding than may be, no break of the loop is requested, there
-- is no listener, and the event loop, whenever it is left, leaves all that so, the loop of `invoke` that
-- chooses a connection does not end: however many turns it is given, each comes to another turn, with no
-- connection, no exception and no undefined behaviour.
pub choose-Stuck :
    (k : ℕ) (n : Network) (s : Client) → IsInterrupted n → IsStuck s → StillTurns k n s
unfolding choose
choose-Stuck zero n s q v = record {
  client = s;
  turned = refl;
  stuck = v;
  unfinished = λ more. ap (λ (m : ℕ). choose m n none s) (omega arith);
}
choose-Stuck (suc k) n s q v =
    let turn = turn-TurnsAgain n s q v in
    let later = choose-Stuck k n turn.client q turn.stuck in
    record {
      client = later.client;
      turned = (turn.client, turn.result, later.turned);
      stuck = later.stuck;
      unfinished = λ more.
          ap (λ (m : ℕ). choose m n none s) (suc-first k more)
          ∙ rw (choose, turn.result) (later.unfinished more);
    }
  where
    suc-first : (a b : ℕ) → suc a + b ≡ suc (a + b)
    suc-first a b = omega arith
