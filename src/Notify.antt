-- ===== src/Notify.antt =====
-- internal/notify/server.go, lease.go, ha.go and problem.go: the state of the notify proxy, the services
-- that it calls and what it answers. A handler is a function of the state, so each request is served
-- whole. The emitter, the counters and the clock are those of the broker (`Trail`).
pub mod Grants
pub mod HomeAssistant
pub mod LeaseClient
pub mod Handlers
pub mod Auth
use agent_cred_broker.Prelude.{
  ℕ, Bool, true, false, Option, none, some, List, [], ◌∷◌, ◌++◌, length, String, Assoc, ◌==◌,
  trim_right, if◌then◌else◌,
}
use agent_cred_broker.RateLimit.{Limiter, allow, new}
use agent_cred_broker.Audit.{Event}
use agent_cred_broker.Audit.Codec.{Codec}
use agent_cred_broker.Server.{Trail, read_clock, count, record_event}
use agent_cred_broker.Notify.Grants.{Policy}

-- The tunables. A rate is a whole number per minute.
pub record Config : Type 0 where
  pub rate_per_minute : ℕ
  pub burst : ℕ
  pub max_body_bytes : ℕ

abbrev or_default : ℕ → ℕ → ℕ
or_default n d = if n == 0 then d else n

unfoldable pub apply_defaults : Config → Config
apply_defaults c = record {
  rate_per_minute = or_default c.rate_per_minute 12;
  burst = or_default c.burst 6;
  max_body_bytes = or_default c.max_body_bytes 16384;
}

-- What stands under a key of the body of a call.
pub data HaValue : Type 0 where
  word : String → HaValue
  table : Assoc String → HaValue

-- A POST to Home Assistant, and one to the broker.
pub record HaRequest : Type 0 where
  pub url : String
  pub authorization : String
  pub body : Assoc HaValue

pub record LeaseRequest : Type 0 where
  pub url : String
  pub authorization : String
  pub scope : String
  pub context : Assoc String

-- A transport error, or a status with a body that may not decode: the identifier and the secret.
pub data Reply : Type 0 where
  unreachable : Reply
  replied : ℕ → Option (String × Assoc String) → Reply

-- The services outside: the file of the proxy's own token, which URLs net/http accepts, the answer of
-- the broker to the n-th request to it, and the status of Home Assistant's answer to the n-th call.
pub record Outside : Type 0 where
  pub read_token : ℕ → Option String
  pub accepts : String → Bool
  pub broker : ℕ → LeaseRequest → Reply
  pub home_assistant : ℕ → HaRequest → Option ℕ

-- A Server of the package, with the requests that it sent, in their order, and how often it has read the
-- file of its token.
pub record Proxy : Type 0 where
  pub cfg : Config
  pub policy : Policy
  pub ha_base : String
  pub broker_url : String
  pub scope : String
  pub limiter : Limiter
  pub auth_fail : Limiter
  pub rl_audit : Limiter
  pub trail : Trail
  pub token_reads : ℕ
  pub leased : List LeaseRequest
  pub sent : List HaRequest

-- The problem types, without the namespace that they all begin with.
pub data Problem : Type 0 where
  unauthenticated grant_denied bad_request rate_limited upstream_failure : Problem

-- A status with a problem (its type, title and request identifier), or with the receipt of a delivery.
pub data Response : Type 0 where
  problem : ℕ → Problem → String → String → Response
  receipt : ℕ → String → Response

-- A handler, or a part of one.
abbrev pub Handler : Type 0 → Type 0
Handler A = Proxy → A × Proxy

infixl 5 ◌>>=◌ ◌>>◌
abbrev pub ◌>>=◌ : {A B : Type 0} → Handler A → (A → Handler B) → Handler B
◌>>=◌ m f s = let (a, s') = m s in f a s'

abbrev pub ◌>>◌ : {A B : Type 0} → Handler A → Handler B → Handler B
m >> n = m >>= λ _. n

abbrev pub answer : {A : Type 0} → A → Handler A
answer a s = (a, s)

abbrev pub reads : {A : Type 0} → (Proxy → A) → Handler A
reads f s = (f s, s)

abbrev pub on_trail : {A : Type 0} → (Trail → A × Trail) → Handler A
on_trail f s = let (a, t) = f s.trail in (a, record s { trail = t })

abbrev pub count_metric : String → Assoc String → Handler (Unit {0})
count_metric name labels s = (tt, record s { trail = count name labels s.trail })

-- Emit, for an event whose error is ignored.
abbrev pub emit_event : Codec → Event → Handler (Unit {0})
emit_event c ev s = (tt, record s { trail = (record_event c ev s.trail).1 })

-- limiter.Allow, authFail.Allow and rlAudit.Allow
unfoldable pub allow_caller : String → Handler Bool
allow_caller k s =
    let (now, t) = read_clock s.trail in
    let (ok, l) = allow k now s.limiter in (ok, record s { trail = t; limiter = l })

unfoldable pub allow_auth_fail : String → Handler Bool
allow_auth_fail k s =
    let (now, t) = read_clock s.trail in
    let (ok, l) = allow k now s.auth_fail in (ok, record s { trail = t; auth_fail = l })

unfoldable pub allow_rl_audit : String → Handler Bool
allow_rl_audit k s =
    let (now, t) = read_clock s.trail in
    let (ok, l) = allow k now s.rl_audit in (ok, record s { trail = t; rl_audit = l })

-- New. The base URLs lose their slashes at the end in NewHAClient and NewLeaseClient.
unfoldable pub new_proxy : Config → Policy → String → String → String → Trail → Proxy
new_proxy cfg policy ha_url broker_url scope trail =
    let c = apply_defaults cfg in
    record {
      cfg = c;
      policy = policy;
      ha_base = trim_right (λ b. b == 47) ha_url;
      broker_url = trim_right (λ b. b == 47) broker_url;
      scope = scope;
      limiter = new c.rate_per_minute c.burst;
      auth_fail = new 1 1;
      rl_audit = new 1 1;
      trail = trail;
      token_reads = 0;
      leased = [];
      sent = [];
    }
