-- ===== src/Client/Lost.antt =====
-- The lost connection of src/ClientImpl.cpp: what its loop over the callbacks leaves of the count of
-- outstanding requests.
use voltdb_client_cpp.Prelude.{
  ℕ, suc, ◌+◌, ◌≡◌, refl, ◌∙◌, Bool, false, ◌||◌, List, [], ◌∷◌, arith, length, some,
}
use voltdb_client_cpp.Prelude.Int.{ℤ, pos, negsuc, ◌+ℤ◌, ◌-ℤ◌}
use voltdb_client_cpp.Action.{Outcome, done}
use voltdb_client_cpp.Response.{InvocationResponse, connection_lost}
use voltdb_client_cpp.Client.{Client, Handlers, callbacks_of, erase_callbacks, abandon}
use voltdb_client_cpp.Client.Outstanding.{requests, waiting, IsCounted, waiting-erase_callbacks}

-- Callbacks that return and leave the client alone.
pub record IsQuiet (h : Handlers) : Type 0 where
  pub answer : ℕ → InvocationResponse → Client → Bool
  pub returns :
      (c : ℕ) (r : InvocationResponse) (s : Client) → h.callback c r s ≡ done (answer c r s) s

-- The loop returned: the callbacks are still there, and `n` requests have been counted off.
pub record CountedOff (n : ℕ) (s : Client) (o : Outcome Client Bool) : Type 0 where
  pub leave : Bool
  pub client : Client
  pub result : o ≡ done leave client
  pub callbacks : client.callbacks ≡ s.callbacks
  pub count : client.outstanding_requests +ℤ pos n ≡ s.outstanding_requests

step_count : (n : ℕ) (x y : ℤ) → x +ℤ pos n ≡ y -ℤ pos 1 → x +ℤ pos (suc n) ≡ y
step_count n (pos a) (pos b) h = ground arith
step_count n (pos a) (negsuc b) h = ground arith
step_count n (negsuc a) (pos b) h = ground arith
step_count n (negsuc a) (negsuc b) h = ground arith

zero_count : (x : ℤ) → x +ℤ pos 0 ≡ x
zero_count (pos a) = ground arith
zero_count (negsuc a) = ground arith

abandon-CountedOff :
    (h : Handlers) (m : List (ℤ × ℕ)) (s : Client)
    → IsQuiet h
    → CountedOff (length m) s (abandon h m s)
unfolding abandon
abandon-CountedOff h [] s q = record {
  leave = false;
  client = s;
  result = refl;
  callbacks = refl;
  count = zero_count s.outstanding_requests;
}
abandon-CountedOff h ((id, c) ∷ m) s q =
    let t = record s { outstanding_requests = s.outstanding_requests -ℤ pos 1 } in
    let r = abandon-CountedOff h m t q in
    record {
      leave = q.answer c connection_lost s || r.leave;
      client = r.client;
      result = rw (q.returns c connection_lost s, r.result) refl;
      callbacks = r.callbacks;
      count = step_count (length m) r.client.outstanding_requests s.outstanding_requests r.count;
    }

-- The loop over the callbacks of a lost connection returned, and the count is one too low for the
-- requests that are left on the other connections.
pub record Miscounted (bev : ℕ) (o : Outcome Client Bool) : Type 0 where
  pub leave : Bool
  pub client : Client
  pub result : o ≡ done leave client
  pub short :
      client.outstanding_requests +ℤ pos 1 ≡ pos (waiting (erase_callbacks bev client.callbacks))

-- Where as many requests are counted as callbacks wait, and a lost connection has its callback for
-- notifications beside those of its requests, and all callbacks return and leave the client alone,
-- the loop counts off one request more than there are: what is left is one short.
pub abandon-Miscounted :
    (h : Handlers) (bev : ℕ) (s : Client) (m : List (ℤ × ℕ))
    → IsQuiet h
    → IsCounted s
    → callbacks_of bev s.callbacks ≡ some m
    → length m ≡ suc (requests m)
    → Miscounted bev (abandon h m s)
abandon-Miscounted h bev s m q k e l =
    let r = abandon-CountedOff h m s q in
    let w = waiting-erase_callbacks bev m s.callbacks e in
    record {
      leave = r.leave;
      client = r.client;
      result = r.result;
      short = rw r.callbacks (
          short_by_one (requests m) (waiting s.callbacks) r.client.outstanding_requests _
            (rw l at (r.count ∙ k)) w);
    }
  where
    short_by_one :
        (n w : ℕ) (x : ℤ) (a : ℕ) → x +ℤ pos (suc n) ≡ pos w → a + n ≡ w → x +ℤ pos 1 ≡ pos a
    short_by_one n w (pos x) a h e = ground arith
    short_by_one n w (negsuc x) a h e = ground arith
