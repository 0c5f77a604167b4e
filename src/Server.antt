-- ===== src/Server.antt =====
-- internal/server/server.go and problem.go: the state of the broker, the effects that its handlers
-- use, and what they answer. A handler is a function of the state, so each request is served whole:
-- the mutexes of the parts make each effect one step, and interleavings of handlers are not modelled.
pub mod Create
pub mod Leases
pub mod Auth
pub mod Claims
pub mod Whoami
pub mod Events
pub mod Progress
use agent_cred_broker.Prelude.{
  ℕ, suc, ◌+◌, Bool, true, false, Option, none, some, List, [], ◌∷◌, String, Assoc, ℤ, pos, ◌==◌,
  if◌then◌else◌,
}
use Prim.Native.String.{◌++◌ as append_text}
use agent_cred_broker.Time.{Instant}
use agent_cred_broker.RateLimit.{Limiter, ByteBudget, allow, spend, new, new_byte_budget}
use agent_cred_broker.Lease.{Store}
use agent_cred_broker.Audit.{Subject, Source, Value, Event, event, key, lease_denied, text, flag}
use agent_cred_broker.Audit.Codec.{Codec}
use agent_cred_broker.Audit.Emitter.{Emitter, Writing, emit}
use agent_cred_broker.Policy.{Policy}
use agent_cred_broker.Provider.{Provider}
use agent_cred_broker.Metrics.{Metrics, inc}

-- The tunables. A rate is a whole number per minute.
pub record Config : Type 0 where
  pub lease_rate_per_minute : ℕ
  pub lease_burst : ℕ
  pub claim_rate_per_minute : ℕ
  pub claim_burst : ℕ
  pub max_body_bytes : ℕ
  pub max_context_bytes : ℕ
  pub max_claim_bytes : ℕ
  pub max_claims_per_req : ℕ

abbrev or_default : ℕ → ℕ → ℕ
or_default n d = if n == 0 then d else n

unfoldable pub apply_defaults : Config → Config
apply_defaults c = record {
  lease_rate_per_minute = or_default c.lease_rate_per_minute 10;
  lease_burst = or_default c.lease_burst 10;
  claim_rate_per_minute = or_default c.claim_rate_per_minute 60;
  claim_burst = or_default c.claim_burst 60;
  max_body_bytes = or_default c.max_body_bytes 131072;
  max_context_bytes = or_default c.max_context_bytes 4096;
  max_claim_bytes = or_default c.max_claim_bytes 2048;
  max_claims_per_req = or_default c.max_claims_per_req 50;
}

-- The limiters and the budget.
pub record Limits : Type 0 where
  pub lease : Limiter
  pub claim : Limiter
  pub auth_fail : Limiter
  pub rl_audit : Limiter
  pub claim_budget : ByteBudget

unfoldable pub new_limits : Config → Limits
new_limits c = record {
  lease = new c.lease_rate_per_minute c.lease_burst;
  claim = new c.claim_rate_per_minute c.claim_burst;
  auth_fail = new 1 1;
  rl_audit = new 1 1;
  claim_budget = new_byte_budget;
}

-- What the broker reads from outside: the clock, random identifiers and what becomes of its writes,
-- each as the sequence of what it will read.
pub record World : Type 0 where
  pub clock : ℕ → Instant
  pub random : ℕ → String
  pub writing : ℕ → Writing
  pub reads : ℕ
  pub draws : ℕ
  pub writes : ℕ

pub record Trail : Type 0 where
  pub emitter : Emitter
  pub metrics : Metrics
  pub world : World

pub record Server : Type 0 where
  pub cfg : Config
  pub policy : Policy
  pub providers : Assoc Provider
  pub leases : Store
  pub limits : Limits
  pub trail : Trail

-- time.Now
unfoldable pub read_clock : Trail → Instant × Trail
read_clock t =
    (t.world.clock t.world.reads, record t { world = record t.world { reads = suc t.world.reads } })

-- lease.NewID
unfoldable pub new_id : String → Trail → String × Trail
new_id prefix t = (
  append_text prefix (append_text "_" (t.world.random t.world.draws)),
  record t { world = record t.world { draws = suc t.world.draws } },
)

unfoldable pub count : String → Assoc String → Trail → Trail
count name labels t = record t { metrics = inc name labels t.metrics }

-- Emit, with the counter that main installs as its hook.
unfoldable pub record_event : Codec → Event → Trail → Bool × Trail
record_event c ev t =
    let now = t.world.clock t.world.reads in
    let w = t.world.writing t.world.writes in
    let world : World = record t.world { reads = suc t.world.reads; writes = suc t.world.writes } in
    let (ok, emitter) = emit c now w ev t.emitter in
    (
      ok,
      record {
        emitter = emitter;
        metrics =
            if ok
            then inc "acb_audit_events_total" (("type", ev.event_type) ∷ []) t.metrics
            else t.metrics;
        world = world;
      },
    )

-- What the middleware hands to a handler: the authenticated subject, the request's identifier and
-- its source.
pub record Caller : Type 0 where
  pub subject : Subject
  pub request_id : String
  pub source : Source

-- The problem types, without the namespace that they all begin with.
pub data Problem : Type 0 where
  unauthenticated grant_denied outside_window lease_not_found lease_forbidden : Problem
  lease_conflict bad_request rate_limited provider_failure audit_unavailable : Problem

pub record LeaseResponse : Type 0 where
  pub lease_id : String
  pub scope : String
  pub issued_at : ℕ
  pub expires_at : ℕ
  pub upstream_expires_at : Option ℕ
  pub renewable : Bool
  pub semantics : String
  pub secret : Assoc String

-- A status with a problem (its type, title and request identifier), with a lease, with claim
-- identifiers, or with nothing; or no answer, when the handler panics and net/http drops the
-- connection.
pub data Response : Type 0 where
  problem : ℕ → Problem → String → String → Response
  lease : ℕ → LeaseResponse → Response
  claims : ℕ → List String → Response
  no_content aborted : Response

-- A body that is not JSON, that is empty, or that decodes.
pub data Body (A : Type 0) : Type 0 where
  malformed : Body A
  nothing : Body A
  decoded : A → Body A

-- A handler, or a part of one.
abbrev pub Handler : Type 0 → Type 0
Handler A = Server → A × Server

infixl 5 ◌>>=◌ ◌>>◌
abbrev pub ◌>>=◌ : {A B : Type 0} → Handler A → (A → Handler B) → Handler B
◌>>=◌ m f s = let (a, s') = m s in f a s'

abbrev pub ◌>>◌ : {A B : Type 0} → Handler A → Handler B → Handler B
m >> n = m >>= λ _. n

abbrev pub answer : {A : Type 0} → A → Handler A
answer a s = (a, s)

abbrev pub reads : {A : Type 0} → (Server → A) → Handler A
reads f s = (f s, s)

abbrev pub on_trail : {A : Type 0} → (Trail → A × Trail) → Handler A
on_trail f s = let (a, t) = f s.trail in (a, record s { trail = t })

abbrev pub clock : Handler Instant
clock = on_trail read_clock

abbrev pub count_metric : String → Assoc String → Handler (Unit {0})
count_metric name labels s = (tt, record s { trail = count name labels s.trail })

abbrev pub emit_event : Codec → Event → Handler Bool
emit_event c ev = on_trail (record_event c ev)

-- leaseLimiter.Allow
unfoldable pub allow_lease : String → Handler Bool
allow_lease k s =
    let (now, t) = read_clock s.trail in
    let (ok, l) = allow k now s.limits.lease in
    (ok, record s { trail = t; limits = record s.limits { lease = l } })

unfoldable pub allow_claim : String → Handler Bool
allow_claim k s =
    let (now, t) = read_clock s.trail in
    let (ok, l) = allow k now s.limits.claim in
    (ok, record s { trail = t; limits = record s.limits { claim = l } })

unfoldable pub allow_auth_fail : String → Handler Bool
allow_auth_fail k s =
    let (now, t) = read_clock s.trail in
    let (ok, l) = allow k now s.limits.auth_fail in
    (ok, record s { trail = t; limits = record s.limits { auth_fail = l } })

unfoldable pub allow_rl_audit : String → Handler Bool
allow_rl_audit k s =
    let (now, t) = read_clock s.trail in
    let (ok, l) = allow k now s.limits.rl_audit in
    (ok, record s { trail = t; limits = record s.limits { rl_audit = l } })

unfoldable pub spend_claims : String → ℤ → ℤ → Handler Bool
spend_claims k n cap s =
    let (now, t) = read_clock s.trail in
    let (ok, b) = spend k n cap now s.limits.claim_budget in
    (ok, record s { trail = t; limits = record s.limits { claim_budget = b } })

abbrev pub subject_label : Caller → Assoc String
subject_label who = ("subject", key who.subject) ∷ []

-- rateLimited: at most one event per minute and subject is signed for the throttled requests.
unfoldable pub rate_limited_response : Codec → Caller → String → String → Handler Response
unfolding allow_rl_audit
rate_limited_response c who endpoint title = do
  count_metric "acb_rate_limited_total" (subject_label who)
  sampled ← allow_rl_audit (key who.subject)
  hash ← reads (λ s. s.policy.hash)
  let refusal =
      event lease_denied who.request_id (some who.subject) (some who.source)
        (("reason", text "rate-limited")
          ∷ ("decision", text "denied")
          ∷ ("aggregated", flag true)
          ∷ ("endpoint", text endpoint)
          ∷ ("policy_hash", text hash)
          ∷ [])
        []
  (if sampled then (do emit_event c refusal; answer tt) else answer tt)
  answer (problem 429 rate_limited title who.request_id)

-- auditFailClosed
unfoldable pub audit_fail_closed : Caller → Handler Response
audit_fail_closed who = do
  count_metric "acb_audit_write_errors_total" []
  answer (
      problem 500 audit_unavailable "audit event could not be written; request failed closed"
        who.request_id)
