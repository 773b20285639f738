-- ===== src/Client/Linked/Authentication.antt =====
-- The pending connections of src/ClientImpl.cpp keep the places of a connection in agreement.
use voltdb_client_cpp.Prelude.{ℕ, Bool, true, false, not, List, [], ◌∷◌, if◌then◌else◌, none, some}
use voltdb_client_cpp.Prelude.Int.{ℤ, pos, negsuc, ltb_ℤ, ◌-ℤ◌}
use voltdb_client_cpp.Action.{
  Outcome, Error, done, fail, pure, throw, ◌>>=◌, ◌>>◌, connect, undefined,
}
use voltdb_client_cpp.Buffer.{ByteBuffer, Void, scoped}
use voltdb_client_cpp.Buffer.Frame.{holding}
use voltdb_client_cpp.Hashinator.{Murmur}
use voltdb_client_cpp.Auth.{Request, Response, success, read_response}
use voltdb_client_cpp.Auth
use voltdb_client_cpp.Client.{Client, Pending, Handlers}
use voltdb_client_cpp.Client.Invoke.{Network}
use voltdb_client_cpp.Client.Connections.{is_pending, reconnect_interval, new_pending}
use voltdb_client_cpp.Client.Authentication.{
  Identity, Event, connected, broken, other, store, conclude, request_of, written, message,
  initiate_authentication, authentication_event_callback, Answer, partial, whole, asserted,
  next_answer, parsed, let_in, refused, answered, authentication_read_callback, Connector, enter,
  log_in, create_connection, reconnect, reconnect_event_callback,
}
use voltdb_client_cpp.Client.Linked.{
  IsLinked, Post, returned, threw, Any, Keeps, Keeps-bind, Keeps-if, Post-bind,
}
use voltdb_client_cpp.Client.Linked.Choice.{Behaves, Keeps-throw_if, Keeps-pure, Post-if}
use voltdb_client_cpp.Client.Linked.Own.{Keeps-skip}
use voltdb_client_cpp.Client.Linked.Responses.{Answers}
use voltdb_client_cpp.Client.Linked.Logins.{IsNew, finalize_authentication-Linked}

Keeps-conclude : (now : ℤ) (rest : List ℕ) (pc : Pending) → Keeps (conclude now rest pc)
Keeps-conclude now rest pc =
    Keeps-if (ltb_ℤ pc.start_pending (pos 0)) (Keeps-pure _)
      (record { keeps = λ s l. returned l tt })

Keeps-throw : {A : Type 0} (e : Error) → Keeps {A = A} (throw e)
Keeps-throw e = record { keeps = λ s l. threw l }

Keeps-message : (r : Request) (z : ℤ) → Keeps (message r z)
Keeps-message r (negsuc k) = Keeps-throw undefined
Keeps-message r (pos k) = written_out (Auth.serialize_to r (scoped k))
  where
    written_out : (o : Outcome ByteBuffer Void) → Keeps (written o)
    written_out (fail e _) = record { keeps = λ s l. threw l }
    written_out (done _ b) = Keeps-pure b

Keeps-initiate :
    (n : Network) (i : Identity) (enabled : Bool) (bev : ℕ)
    → Keeps (initiate_authentication n i enabled bev)
unfolding initiate_authentication
Keeps-initiate n i enabled bev = Keeps-bind _ (Keeps-throw_if (not enabled)) (λ _.
    Keeps-bind _ (Keeps-message (request_of i) (Auth.get_serialized_size (request_of i)))
      (λ b. Keeps-throw_if _))

pub Keeps-authentication_event_callback :
    (n : Network) (i : Identity) (enabled : Bool) (now : ℤ) (bev : ℕ) (e : Event) (pc : Pending)
    → Keeps (authentication_event_callback n i enabled now bev e pc)
unfolding authentication_event_callback
Keeps-authentication_event_callback n i enabled now bev connected pc =
    Keeps-bind _ (Keeps-initiate n i enabled bev) (λ _. Keeps-conclude now [] pc)
Keeps-authentication_event_callback n i enabled now bev broken pc = record {
  keeps = λ s l. (Keeps-conclude now [] (record pc { status = false })).keeps _ l;
}
Keeps-authentication_event_callback n i enabled now bev other pc = Keeps-conclude now [] pc

module _ (m : Murmur) (n : Network) (v : Behaves n) (fuel : ℕ) (h : Handlers) (a : Answers h)
    (now : ℤ) (bev : ℕ) where
  let_in-Linked :
      (pc : Pending) (rest : List ℕ) (s : Client)
      → IsLinked s
      → IsNew bev s
      → Post Any (let_in m n fuel h now bev pc rest s)
  let_in-Linked pc rest s l e =
      Post-bind _ (finalize_authentication-Linked m n v fuel h a pc bev s l e) (λ _ t k _.
        (Keeps-if (is_pending pc.number s.pending) (Keeps-throw undefined)
            (Keeps-conclude now rest pc)).keeps
          t k)

  answered-Linked :
      (x : Answer) (s : Client)
      → IsLinked s
      → IsNew bev s
      → Post Any (answered m n fuel h now bev x s)
  answered-Linked asserted s l e = threw l
  answered-Linked (partial pc rest) s l e = returned l tt
  answered-Linked (whole pc bytes rest) s l e = by_response (read_response (holding bytes))
    where
      by_response :
          (o : Outcome ByteBuffer Response)
          → Post Any (
              (parsed o >>= λ r.
              let done_pc = record pc { response = r.login; completed = true } in
              if success r
              then store done_pc >> let_in m n fuel h now bev done_pc rest
              else refused m n fuel h now bev pc rest)
                s)
      by_response (fail e _) = threw l
      by_response (done r _) =
          Post-if (success r) s _ _
            (let_in-Linked (record pc { response = r.login; completed = true }) rest _ l e)
            (returned l tt)

  pub authentication_read_callback-Linked :
      (input : List ℕ) (pc : Pending) (s : Client)
      → IsLinked s
      → IsNew bev s
      → Post Any (authentication_read_callback m n fuel h now bev input pc s)
  unfolding authentication_read_callback
  authentication_read_callback-Linked input pc = answered-Linked (next_answer pc input)

-- What `createConnection` calls outside keeps the agreement.
pub record Connects (c : Connector) : Type 0 where
  pub initiate : (pc : Pending) → Keeps (c.initiate pc)
  pub dispatch : (pc : Pending) → Keeps (c.dispatch pc)

module _ (c : Connector) (k : Connects c) where
  Keeps-enter : (pc : Pending) → Keeps (enter c pc)
  Keeps-enter pc =
      Keeps-bind _ (k.dispatch pc)
        (λ r. Keeps-bind _ (Keeps-throw_if (not r.0)) (λ _. Keeps-pure r.1))

  Keeps-log_in : (pc : Pending) → Keeps (log_in c pc)
  Keeps-log_in pc =
      Keeps-if pc.status
        (Keeps-bind _ (Keeps-enter pc) (λ r. Keeps-if r.completed Keeps-skip (Keeps-throw connect)))
        (Keeps-throw connect)

  pub Keeps-create_connection :
      (number : ℕ) (hostname : List ℕ) (port : ℕ) → Keeps (create_connection c number hostname port)
  unfolding create_connection
  Keeps-create_connection number hostname port =
      Keeps-bind _ (k.initiate (new_pending number hostname port))
        (λ _. Keeps-bind _ (Keeps-enter (new_pending number hostname port)) Keeps-log_in)

  Keeps-reconnect : (now : ℤ) (pcs : List Pending) → Keeps (reconnect c now pcs)
  unfolding reconnect
  Keeps-reconnect now [] = Keeps-skip
  Keeps-reconnect now (pc ∷ pcs) =
      Keeps-bind _
        (Keeps-if (ltb_ℤ reconnect_interval (now -ℤ pc.start_pending)) (k.initiate pc) Keeps-skip)
        (λ _. Keeps-reconnect now pcs)

  pub Keeps-reconnect_event_callback : (now : ℤ) → Keeps (reconnect_event_callback c now)
  unfolding reconnect_event_callback
  Keeps-reconnect_event_callback now = record { keeps = λ s l. listed s.pending s l }
    where
      listed :
          (ps : List Pending) (s : Client)
          → IsLinked s
          → Post Any (elim ps [
            | [] ↦ done none s
            | pc ∷ pcs ↦ (reconnect c now (pc ∷ pcs) >> pure (some reconnect_interval)) s
          ])
      listed [] s l = returned l tt
      listed (pc ∷ pcs) s l =
          Post-bind _ ((Keeps-reconnect now (pc ∷ pcs)).keeps s l) (λ _ t g _. returned g tt)
