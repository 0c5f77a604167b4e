-- ===== src/Broker/History.antt =====
-- internal/server and cmd/broker/main.go: a run of the broker, as the steps that its listener, its sweep
-- loop and its policy watcher take, one after the other.
pub mod Backing
pub mod Runs
pub mod Stream
use agent_cred_broker.Prelude.{
  ◌≡◌, ◌⊎◌, Bool, Option, some, List, [], ◌∷◌, ◌++◌, String, Assoc, ℕ, lookup, map_option,
}
use agent_cred_broker.Time.{Duration, rfc3339}
use agent_cred_broker.Lease.{Lease}
use agent_cred_broker.Audit.{Subject, Source, Event, key, text, time, lease_issued, lease_renewed}
use agent_cred_broker.Audit.Codec.{Codec, Bytes, newline}
use agent_cred_broker.Audit.Emitter.{sign_line}
use agent_cred_broker.Policy.{Policy}
use agent_cred_broker.Policy.Watcher.{Report}
use agent_cred_broker.Server.{Server, new_id}
use agent_cred_broker.Server.Events.{Announces}
use agent_cred_broker.Server.Auth.{Route, post_lease, serve}
use agent_cred_broker.Server.Create.Issue.{IsFresh}
use agent_cred_broker.Server.Leases.{sweep_expired_leases}
use agent_cred_broker.Broker.Reload.{sign_report}

-- The state in which a route is taken: the request has its identifier.
abbrev pub numbered : Server → Server
numbered s = record s { trail = (new_id "req" s.trail).1 }

-- A request for a lease draws an identifier that is not in use.
abbrev pub DrawsFresh : Route → Server → Type 0
DrawsFresh (post_lease body) s = IsFresh s
DrawsFresh _ s = Unit

module _ (c : Codec) (authn : String → Option Subject) (size : Assoc String → ℕ) where
  -- A request, with any header; a tick of the sweep; a report of the watcher, after which any policy may
  -- be in force.
  pub data Step : Server → Server → Type 0 where
    serves :
        (source : Source) (header : String) (r : Route) (s : Server)
        → DrawsFresh r (numbered s)
        → Step s (serve c authn size source header r s).1
    sweeps : (retain : Duration) (s : Server) → Step s (sweep_expired_leases c retain s).1
    reports :
        (why : String) (r : Report) (next : Policy) (s : Server)
        → Step s (record s { policy = next; trail = sign_report c why r s.trail })

  pub data Reaches : Server → Server → Type 0 where
    start : (s : Server) → Reaches s s
    then_step : (s t u : Server) → Reaches s t → Step t u → Reaches s u

-- The signed line of such an event is in the stream.
pub record Attested (c : Codec) (l : Lease) (out : Bytes) : Type 0 where
  pub event : Event
  pub announces : Announces l event
  pub line : Bytes
  pub signed : sign_line c event ≡ some line
  pub before : Bytes
  pub after : Bytes
  pub place : out ≡ before ++ ((line ++ newline ∷ []) ++ after)
