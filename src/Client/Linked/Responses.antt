-- ===== src/Client/Linked/Responses.antt =====
-- The responses of src/ClientImpl.cpp keep the places of a connection in agreement, as long as the
-- callbacks do.
use voltdb_client_cpp.Prelude.{
  ℕ, zero, suc, ◌+◌, ◌*◌, ◌≡◌, refl, Bool, true, false, ◌&&◌, ◌||◌, List, [], ◌∷◌, Option, none,
  some, inl, inr, Option-cases, length, ltb,
}
use voltdb_client_cpp.Prelude.Int.{ℤ, eqb_ℤ}
use voltdb_client_cpp.Action.{Action, Outcome, done, fail, pure, ◌>>◌, undefined}
use voltdb_client_cpp.Buffer.{ByteBuffer}
use voltdb_client_cpp.Buffer.Frame.{holding}
use voltdb_client_cpp.Response.{InvocationResponse, connection_lost, read_response}
use voltdb_client_cpp.Client.{
  Client, Handlers, magic, callbacks_of, erase_callback, or_on_error, ignoring,
  ignoring_backpressure, report, call, finish, dispatch_in, find_in, handle_response, report_lost,
  abandon,
}
use voltdb_client_cpp.Client.Read.{
  Context, Piece, size, message, short, broken, next_piece, handle_parsed, handle_message, stop,
  read_loop, regular_read_callback,
}
use voltdb_client_cpp.Client.Linked.{
  IsLinked, Post, returned, threw, Any, Keeps, Keeps-bind, Keeps-if, Post-bind,
}
use voltdb_client_cpp.Client.Linked.Places.{keys-callbacks_of, AreLinked-set}
use voltdb_client_cpp.Client.Linked.Choice.{Keeps-pure}

-- The callbacks and the listener may call the client, which keeps the agreement, and nothing else.
pub record Answers (h : Handlers) : Type 0 where
  pub callback : (c : ℕ) (r : InvocationResponse) → Keeps (h.callback c r)
  pub uncaught :
      (u : ℕ → InvocationResponse → Action Client Bool)
      → h.uncaught ≡ some u
      → (c : ℕ) (r : InvocationResponse) → Keeps (u c r)
  pub lost : (f : ℕ → Action Client Bool) → h.connection_lost ≡ some f → (b : ℕ) → Keeps (f b)
  pub active : (f : ℕ → Action Client Bool) → h.connection_active ≡ some f → (b : ℕ) → Keeps (f b)

pub Keeps-ignoring : (m : Action Client Bool) → Keeps m → Keeps (ignoring_backpressure m)
Keeps-ignoring m k = record {
  keeps = λ s l.
      Post-bind (λ b. ignoring false >> pure b)
        (k.keeps (record s { ignore_backpressure = true }) l) (λ b t l q. returned l tt);
}

pub Keeps-or : {m n : Action Client Bool} → Keeps m → Keeps n → Keeps (λ s. or_on_error (m s) n)
Keeps-or {m} {n} k l = record { keeps = λ s g. after (k.keeps s g) }
  where
    after : {o : Outcome Client Bool} → Post Any o → Post Any (or_on_error o n)
    after (returned g q) = returned g q
    after (threw {t = t} g) = l.keeps t g

Keeps-finish : (bev : ℕ) (id : ℤ) → Keeps (finish bev id)
unfolding finish
Keeps-finish bev id =
    Keeps-if (eqb_ℤ id magic) (record { keeps = λ s l. returned l tt })
      (record {
        keeps = λ s l. elim (Option-cases (callbacks_of bev s.callbacks)) [
          | inl e ↦ rw e (threw l)
          | inr (m, e) ↦ rw e (
              returned
                (AreLinked-set s.callbacks bev (erase_callback id m)
                  (keys-callbacks_of bev m s.callbacks e) l)
                tt)
        ];
      })

module _ (h : Handlers) (a : Answers h) where
  Keeps-report :
      (u : Option (ℕ → InvocationResponse → Action Client Bool))
      → h.uncaught ≡ u
      → (c : ℕ) (r : InvocationResponse) → Keeps (report u c r)
  Keeps-report none e c r = record { keeps = λ s l. returned l tt }
  Keeps-report (some u) e c r = record {
    keeps = λ s l.
        (Keeps-or (Keeps-ignoring (u c r) (a.uncaught u e c r)) (Keeps-pure false)).keeps s l;
  }

  Keeps-call : (c : ℕ) (r : InvocationResponse) → Keeps (call h c r)
  Keeps-call c r = record {
    keeps = λ s l.
        (Keeps-or (Keeps-ignoring (h.callback c r) (a.callback c r))
            (Keeps-report h.uncaught refl c r)).keeps
          s l;
  }

  Keeps-dispatch_in :
      (bev : ℕ) (r : InvocationResponse) (c : Option (Option ℕ)) → Keeps (dispatch_in h bev r c)
  Keeps-dispatch_in bev r none = record { keeps = λ s l. threw l }
  Keeps-dispatch_in bev r (some none) = record { keeps = λ s l. returned l tt }
  Keeps-dispatch_in bev r (some (some c)) =
      Keeps-bind _ (Keeps-call c r)
        (λ b. Keeps-bind _ (Keeps-finish bev r.client_data) (λ _. Keeps-pure b))

  pub Keeps-handle_response : (bev : ℕ) (r : InvocationResponse) → Keeps (handle_response h bev r)
  unfolding handle_response
  Keeps-handle_response bev r = record {
    keeps = λ s l.
        Post-bind _
          ((Keeps-dispatch_in bev r (find_in r.client_data (callbacks_of bev s.callbacks))).keeps s
            l)
          (λ b t k _. returned k tt);
  }

  Keeps-handle_message : (bev : ℕ) (m : List ℕ) → Keeps (handle_message h bev m)
  unfolding handle_message
  Keeps-handle_message bev m = parsed (read_response (holding m))
    where
      parsed : (o : Outcome ByteBuffer InvocationResponse) → Keeps (handle_parsed h bev o)
      parsed (fail e _) = record { keeps = λ s l. threw l }
      parsed (done r _) = Keeps-handle_response bev r

  Keeps-read_loop :
      (fuel bev : ℕ) (c : Context) (bs : List ℕ) (leave : Bool)
      → Keeps (read_loop fuel h bev c bs leave)
  unfolding read_loop
  Keeps-read_loop zero bev c bs leave = record { keeps = λ s l. threw l }
  Keeps-read_loop (suc fuel) bev c bs leave = record {
    keeps = λ s l. by_piece (Keeps-read_loop fuel bev) s l (next_piece c bs);
  }
    where
      by_outcome :
          {o : Outcome Client Bool} (d : Context) (rest : List ℕ)
          → ((d : Context) (bs : List ℕ) (leave : Bool) → Keeps (read_loop fuel h bev d bs leave))
          → Post Any o
          → Post Any (elim o [
            | fail e t ↦ fail e t
            | done b t ↦ read_loop fuel h bev d rest (leave || b) t
          ])
      by_outcome d rest k (returned {a = b} {t = t} l q) = (k d rest (leave || b)).keeps t l
      by_outcome d rest k (threw l) = threw l

      by_piece :
          ((d : Context) (bs : List ℕ) (leave : Bool) → Keeps (read_loop fuel h bev d bs leave))
          → (s : Client) → IsLinked s
          → (p : Piece)
          → Post Any (elim p [
            | broken ↦ fail undefined s
            | short ↦ stop c bs leave s
            | size n rest ↦
                read_loop fuel h bev
                  (record { next_length = n; length_or_message = false })
                  rest
                  leave
                  s
            | message m rest ↦ elim (handle_message h bev m s) [
              | fail e t ↦ fail e t
              | done b t ↦
                  read_loop fuel h bev (record c { length_or_message = true }) rest (leave || b) t
            ]
          ])
      by_piece k s l broken = threw l
      by_piece k s l short = returned l tt
      by_piece k s l (size n rest) =
          (k (record { next_length = n; length_or_message = false }) rest leave).keeps s l
      by_piece k s l (message m rest) =
          by_outcome (record c { length_or_message = true }) rest k
            ((Keeps-handle_message bev m).keeps s l)

  pub Keeps-regular_read_callback :
      (bev : ℕ) (c : Context) (bs : List ℕ) → Keeps (regular_read_callback h bev c bs)
  unfolding regular_read_callback
  Keeps-regular_read_callback bev c bs =
      Keeps-if (c.length_or_message && ltb (length bs) 4) (Keeps-pure _)
        (Keeps-read_loop (2 + 2 * length bs) bev c bs false)

  pub Keeps-abandon : (m : List (ℤ × ℕ)) → Keeps (abandon h m)
  unfolding abandon
  Keeps-abandon [] = Keeps-pure false
  Keeps-abandon ((id, c) ∷ m) = record {
    keeps = λ s l.
        Post-bind _ ((Keeps-or (a.callback c connection_lost) (told h.uncaught refl c)).keeps s l)
          (λ b t k _. Post-bind _ ((Keeps-abandon m).keeps _ k) (λ b u k' _. returned k' tt));
  }
    where
      told :
          (u : Option (ℕ → InvocationResponse → Action Client Bool))
          → h.uncaught ≡ u
          → (c : ℕ) → Keeps (report_lost u c)
      told none e c = Keeps-pure false
      told (some u) e c = a.uncaught u e c connection_lost
