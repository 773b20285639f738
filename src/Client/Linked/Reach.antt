-- ===== src/Client/Linked/Reach.antt =====
-- The calls of src/ClientImpl.cpp as steps of the client, in any order.
use voltdb_client_cpp.Prelude.{ℕ, ◌≡◌, refl, subst, sym, List, Bool, arith}
use voltdb_client_cpp.Prelude.Int.{ℤ}
use voltdb_client_cpp.Action.{Outcome, state_of}
use voltdb_client_cpp.Hashinator.{Murmur}
use voltdb_client_cpp.Procedure.{Procedure}
use voltdb_client_cpp.Client.{Client, Pending, Handlers, init}
use voltdb_client_cpp.Client.Invoke.{Network, invoke}
use voltdb_client_cpp.Client.Affinity.{set_client_affinity}
use voltdb_client_cpp.Client.Read.{Context, regular_read_callback}
use voltdb_client_cpp.Client.Run.{run, run_once, drain, invoke_sync}
use voltdb_client_cpp.Client.Connections.{
  Peer, create_pending_connection, lose_connection, write_ready,
}
use voltdb_client_cpp.Client.Authentication.{
  Identity, Event, authentication_event_callback, authentication_read_callback, Connector,
  create_connection, reconnect_event_callback,
}
use voltdb_client_cpp.Client.Linked.{IsLinked, Post, returned, threw, Any}
use voltdb_client_cpp.Client.Linked.Choice.{Behaves}
use voltdb_client_cpp.Client.Linked.Invoke.{Keeps-invoke}
use voltdb_client_cpp.Client.Linked.Own.{Keeps-set_client_affinity}
use voltdb_client_cpp.Client.Linked.Responses.{Answers, Keeps-regular_read_callback}
use voltdb_client_cpp.Client.Linked.Logins.{IsNew, Keeps-lose_connection, Keeps-write_ready}
use voltdb_client_cpp.Client.Linked.Run.{Keeps-run, Keeps-run_once, Keeps-drain, Keeps-invoke_sync}
use voltdb_client_cpp.Client.Linked.Authentication.{
  authentication_read_callback-Linked, Keeps-authentication_event_callback, Connects,
  Keeps-create_connection, Keeps-reconnect_event_callback,
}

-- What the client runs in: the hash, the network with its event loop, the user's callbacks, and how a
-- connection is started.
pub record World : Type 0 where
  pub murmur : Murmur
  pub network : Network
  pub handlers : Handlers
  pub connector : Connector
  pub identity : Identity
  pub fuel : ℕ

-- Nothing outside changes the client but by calling it.
pub record IsFair (w : World) : Type 0 where
  pub network : Behaves w.network
  pub handlers : Answers w.handlers
  pub connector : Connects w.connector

-- The state that a call leaves, whether it returns or throws.
abbrev After : {A : Type 0} → Client → Outcome Client A → Type 0
After t o = t ≡ state_of o

-- A call of the user's, or one that libevent makes. The connection that is let in is a new one.
pub data Step (w : World) (s t : Client) : Type 0 where
  invokes : (p : Procedure) (c : ℕ) → After t (invoke w.murmur w.network w.fuel p c s) → Step w s t
  invokes_and_waits : (p : Procedure) (c : ℕ) → After t (invoke_sync w.network p c s) → Step w s t
  runs : After t (run w.network s) → Step w s t
  runs_once : After t (run_once w.network s) → Step w s t
  drains : After t (drain w.network s) → Step w s t
  sets_affinity :
      (b : Bool) → After t (set_client_affinity w.murmur w.network w.fuel b s) → Step w s t
  connects :
      (number : ℕ) (hostname : List ℕ) (port : ℕ)
      → After t (create_connection w.connector number hostname port s)
      → Step w s t
  will_connect :
      (number : ℕ) (hostname : List ℕ) (port : ℕ) (time : ℤ)
      → After t (create_pending_connection number hostname port time s)
      → Step w s t
  reads :
      (bev : ℕ) (c : Context) (input : List ℕ)
      → After t (regular_read_callback w.handlers bev c input s)
      → Step w s t
  writes : (bev : ℕ) → After t (write_ready bev s) → Step w s t
  loses :
      (peer : Peer) (c : Context) (input : List ℕ) (bev : ℕ)
      → After t (lose_connection w.murmur w.network w.fuel w.handlers peer c input bev s)
      → Step w s t
  connected :
      (enabled : Bool) (now : ℤ) (bev : ℕ) (e : Event) (pc : Pending)
      → After t (authentication_event_callback w.network w.identity enabled now bev e pc s)
      → Step w s t
  logs_in :
      (now : ℤ) (bev : ℕ) (input : List ℕ) (pc : Pending)
      → IsNew bev s
      → After t
          (authentication_read_callback w.murmur w.network w.fuel w.handlers now bev input pc s)
      → Step w s t
  reconnects : (now : ℤ) → After t (reconnect_event_callback w.connector now s) → Step w s t

pub data Reach (w : World) (s : Client) : Client → Type 0 where
  here : Reach w s s
  next : {t u : Client} → Reach w s t → Step w t u → Reach w s u

Post-state : {A : Type 0} {o : Outcome Client A} → Post Any o → IsLinked (state_of o)
Post-state (returned l q) = l
Post-state (threw l) = l

leaves : {A : Type 0} {o : Outcome Client A} {t : Client} → Post Any o → t ≡ state_of o → IsLinked t
leaves p e = subst IsLinked (sym e) (Post-state p)

module _ (w : World) (f : IsFair w) where
  Step-IsLinked : {s t : Client} → Step w s t → IsLinked s → IsLinked t
  unfolding create_pending_connection
  Step-IsLinked (invokes p c e) l =
      leaves ((Keeps-invoke w.murmur w.network f.network w.fuel p c).keeps _ l) e
  Step-IsLinked (invokes_and_waits p c e) l =
      leaves ((Keeps-invoke_sync w.network f.network p c).keeps _ l) e
  Step-IsLinked (runs e) l = leaves ((Keeps-run w.network f.network).keeps _ l) e
  Step-IsLinked (runs_once e) l = leaves ((Keeps-run_once w.network f.network).keeps _ l) e
  Step-IsLinked (drains e) l = leaves ((Keeps-drain w.network f.network).keeps _ l) e
  Step-IsLinked (sets_affinity b e) l =
      leaves ((Keeps-set_client_affinity w.murmur w.network f.network w.fuel b).keeps _ l) e
  Step-IsLinked (connects number hostname port e) l =
      leaves ((Keeps-create_connection w.connector f.connector number hostname port).keeps _ l) e
  Step-IsLinked (will_connect number hostname port time e) l = subst IsLinked (sym e) l
  Step-IsLinked (reads bev c input e) l =
      leaves ((Keeps-regular_read_callback w.handlers f.handlers bev c input).keeps _ l) e
  Step-IsLinked (writes bev e) l = leaves ((Keeps-write_ready bev).keeps _ l) e
  Step-IsLinked (loses peer c input bev e) l =
      leaves
        ((Keeps-lose_connection w.murmur w.network f.network w.fuel w.handlers f.handlers peer c
            input bev).keeps
          _ l)
        e
  Step-IsLinked (connected enabled now bev x pc e) l =
      leaves
        ((Keeps-authentication_event_callback w.network w.identity enabled now bev x pc).keeps _ l)
        e
  Step-IsLinked (logs_in now bev input pc new e) l =
      leaves
        (authentication_read_callback-Linked w.murmur w.network f.network w.fuel w.handlers
          f.handlers now bev input pc _ l new)
        e
  Step-IsLinked (reconnects now e) l =
      leaves ((Keeps-reconnect_event_callback w.connector f.connector now).keeps _ l) e

  Reach-IsLinked : {s t : Client} → Reach w s t → IsLinked s → IsLinked t
  Reach-IsLinked here l = l
  Reach-IsLinked (next r st) l = Step-IsLinked st (Reach-IsLinked r l)

  init-IsLinked : (max : ℤ) → IsLinked (init max)
  unfolding init
  init-IsLinked max = record {
    linked = λ b. refl;
    single = λ b. omega arith;
    held = λ b. omega arith;
  }

  -- Whatever calls are made of a new client, by the user or by libevent, in whatever order and whether
  -- they return or throw: a connection stands in m_bevs as often as it has a map of callbacks, which is
  -- at most once, and it is under backpressure only if it has one. It is assumed that what is outside
  -- changes the client only by calls that keep this so, and that a connection that is let in is a new
  -- one.
  pub reached-IsLinked : (max : ℤ) {t : Client} → Reach w (init max) t → IsLinked t
  reached-IsLinked max r = Reach-IsLinked r (init-IsLinked max)
