-- ===== src/Server/Create.antt =====
-- internal/server/handlers.go: handleLeaseCreate, by its stages. Each stage ends in an answer or goes
-- on to the next.
pub mod Upstream
pub mod Secrecy
pub mod Issue
pub mod Disclosure
pub mod Clamp
pub mod Denial
pub mod Total
pub mod Answers
use agent_cred_broker.Prelude.{
  ℕ, ◌/◌, ◌-◌, Bool, true, false, ◌||◌, ◌&&◌, Option, none, some, List, [], ◌∷◌, ◌++◌, String,
  Assoc, lookup, ℤ, pos, negsuc, ltb, ltb_ℤ, ◌*ℤ◌, wrap64, str_eq, if◌then◌else◌,
}
use agent_cred_broker.Time.{Instant, Duration, second, seconds, sub, is_zero, rfc3339}
use agent_cred_broker.Lease.{Lease, create, remove}
use agent_cred_broker.Audit.{
  Value, Event, event, key, lease_denied, lease_issued, text, number, time,
}
use agent_cred_broker.Audit.Codec.{Codec}
use agent_cred_broker.Policy.{Scope, Grant, IssueWindow, scope_named, grant_for, window_open}
use agent_cred_broker.Provider.{Provider, Request, Result}
use agent_cred_broker.Metrics
use agent_cred_broker.Server.{
  Server, Caller, Response, LeaseResponse, Body, Handler, Problem, ◌>>=◌, ◌>>◌, answer, reads,
  on_trail, clock, read_clock, new_id, count_metric, emit_event, allow_lease, rate_limited_response,
  audit_fail_closed, malformed, nothing, decoded, problem, aborted, lease, bad_request,
  grant_denied, outside_window, provider_failure,
}

pub record LeaseRequest : Type 0 where
  pub scope : String
  pub ttl_seconds : ℤ
  pub context : Assoc String

-- leaseMeta
abbrev pub lease_meta : Lease → LeaseResponse
lease_meta l = record {
  lease_id = l.id;
  scope = l.scope;
  issued_at = rfc3339 l.issued_at;
  expires_at = rfc3339 l.expires_at;
  upstream_expires_at = none;
  renewable = l.renewable;
  semantics = l.semantics;
  secret = [];
}

-- clampTTL: whole seconds first, then nanoseconds; `none` is a refusal.
unfoldable pub clamp_ttl : ℤ → Grant IssueWindow → Option Duration
clamp_ttl requested g =
    if ltb_ℤ requested (pos 0)
    then none
    else if ltb_ℤ (pos 0) requested
    then (let most = seconds g.ttl_max in
        some (wrap64 ((if ltb_ℤ most requested then most else requested) *ℤ pos second)))
    else some g.ttl_default

-- The end of the lease does not pass the end of a credential that has one of its own.
unfoldable pub clamp_upstream : Instant → Instant → Duration → Duration
clamp_upstream expires_at now ttl =
    let capped = sub expires_at now in
    if is_zero expires_at
    then ttl
    else if ltb_ℤ (pos 0) capped && ltb_ℤ capped ttl
    then capped
    else ttl

unfoldable pub upstream_expiry : Instant → Option ℕ
upstream_expiry expires_at = if is_zero expires_at then none else some (rfc3339 expires_at)

module _ (c : Codec) (who : Caller) where
  abbrev scope_label : Option Scope → String
  scope_label none = "<unknown>"
  scope_label (some scope) = scope.name

  abbrev scope_fact : Option Scope → Assoc Value
  scope_fact none = []
  scope_fact (some scope) = ("scope", text scope.name) ∷ []

  -- The closure `deny`.
  unfoldable pub deny :
      LeaseRequest → Option Scope → ℕ → Problem → String → String → Handler Response
  deny req scope status problem_type title reason = do
    count_metric "acb_leases_denied_total"
        (("subject", key who.subject) ∷ ("scope", scope_label scope) ∷ ("reason", reason) ∷ [])
    hash ← reads (λ s. s.policy.hash)
    emit_event c (
        event lease_denied who.request_id (some who.subject) (some who.source)
          (("requested_scope", text req.scope)
            ∷ ("decision", text "denied")
            ∷ ("reason", text reason)
            ∷ ("policy_hash", text hash)
            ∷ scope_fact scope)
          req.context)
    answer (problem status problem_type title who.request_id)

  abbrev upstream_fact : Option ℕ → Assoc Value
  upstream_fact none = []
  upstream_fact (some t) = ("upstream_expires_at", time t) ∷ []

  -- What is attested of an issued lease.
  abbrev pub issued_facts : Lease → Duration → String → Option ℕ → Assoc Value
  issued_facts l ttl hash upstream =
      ("scope", text l.scope)
      ∷ ("lease_id", text l.id)
      ∷ ("ttl_seconds", number (seconds ttl))
      ∷ ("expires_at", time (rfc3339 l.expires_at))
      ∷ ("decision", text "issued")
      ∷ ("semantics", text l.semantics)
      ∷ ("policy_hash", text hash)
      ∷ upstream_fact upstream

  abbrev pub issued_event : LeaseRequest → Lease → Duration → String → Option ℕ → Event
  issued_event req l ttl hash upstream =
      event lease_issued who.request_id (some who.subject) (some who.source)
        (issued_facts l ttl hash upstream) req.context

  -- leases.Create: an identifier is drawn and the clock is read.
  unfoldable pub create_lease : String → String → Duration → Bool → Handler Lease
  create_lease scope semantics ttl renewable = do
    id ← on_trail (new_id "lease")
    now ← clock
    λ s.
        let (l, leases) = create id now (key who.subject) scope semantics ttl renewable s.leases in
        (l, record s { leases = leases })

  remove_lease : String → Handler (Unit {0})
  remove_lease id s = (tt, record s { leases = remove id s.leases })

  abbrev issued_response : Lease → Option ℕ → Assoc String → Response
  issued_response l upstream secret =
      lease 201 (record (lease_meta l) { upstream_expires_at = upstream; secret = secret })

  -- The secret goes out only behind its signed event; otherwise the lease is taken back.
  unfoldable pub conclude : Lease → Option ℕ → Assoc String → Bool → Handler Response
  unfolding remove_lease
  conclude l upstream secret true = do
    count_metric "acb_leases_issued_total" (("subject", key who.subject) ∷ ("scope", l.scope) ∷ [])
    answer (issued_response l upstream secret)
  conclude l upstream secret false = do remove_lease l.id; audit_fail_closed who

  -- From the result of Fetch to the answer.
  unfoldable pub issue :
      LeaseRequest → Grant IssueWindow → Provider → Duration → Result → Handler Response
  unfolding create_lease
  issue req grant prov ttl result = do
    now ← clock
    let ttl' = clamp_upstream result.expires_at now ttl
    let upstream = upstream_expiry result.expires_at
    l ← create_lease req.scope prov.semantics ttl' grant.renewable
    hash ← reads (λ s. s.policy.hash)
    ok ← emit_event c (issued_event req l ttl' hash upstream)
    conclude l upstream result.secret ok

  abbrev provider_label : String → Assoc String
  provider_label name = ("provider", name) ∷ []

  -- The seconds that Fetch took, as a metric.
  unfoldable pub count_latency : String → Instant → Instant → Handler (Unit {0})
  count_latency name start stop s = (
    tt,
    record s {
      trail = record s.trail {
        metrics = Metrics.inc "acb_provider_duration_seconds_count" (provider_label name) (
            Metrics.add "acb_provider_duration_seconds_sum" (provider_label name) (stop - start)
              s.trail.metrics);
      };
    },
  )

  unfoldable pub finish_fetch :
      LeaseRequest
      → Scope
      → Grant IssueWindow
      → Provider
      → Duration
      → Option Result
      → Handler Response
  finish_fetch req scope grant prov ttl none = do
    count_metric "acb_provider_errors_total" (provider_label scope.provider)
    deny req (some scope) 502 provider_failure "secret provider failure" "provider-error"
  finish_fetch req scope grant prov ttl (some result) = issue req grant prov ttl result

  unfoldable pub fetch :
      LeaseRequest → Scope → Grant IssueWindow → Provider → Duration → Handler Response
  unfolding count_latency
  fetch req scope grant prov ttl = do
    start ← clock
    let result =
        prov.fetch start
          (record { ref = scope.ref; fields = scope.fields; params = scope.params; ttl = ttl })
    stop ← clock
    count_latency scope.provider start stop
    finish_fetch req scope grant prov ttl result

  -- s.providers[scope.Provider]
  unfoldable pub provide :
      LeaseRequest → Scope → Grant IssueWindow → Duration → Option Provider → Handler Response
  provide req scope grant ttl none =
      deny req (some scope) 502 provider_failure "secret provider unavailable"
        "provider-unconfigured"
  provide req scope grant ttl (some prov) = fetch req scope grant prov ttl

  -- A grant for a scope that the policy lacks dereferences nil.
  unfoldable pub resolve :
      LeaseRequest → Option Scope → Grant IssueWindow → Option Duration → Handler Response
  resolve req scope grant none =
      answer (problem 400 bad_request "ttl_seconds must be non-negative" who.request_id)
  resolve req none grant (some ttl) = answer aborted
  resolve req (some scope) grant (some ttl) = do
    prov ← reads (λ s. lookup scope.provider s.providers)
    provide req scope grant ttl prov

  unfoldable pub admit : LeaseRequest → Option Scope → Option (Grant IssueWindow) → Handler Response
  admit req none none = deny req none 403 grant_denied "no grant for scope" "unknown-scope"
  admit req (some scope) none =
      deny req (some scope) 403 grant_denied "no grant for scope" "no-grant"
  admit req scope (some grant) = do
    now ← clock
    if window_open grant now
        then resolve req scope grant (clamp_ttl req.ttl_seconds grant)
        else deny req scope 403 outside_window "outside issuance window" "outside-window"

  unfoldable pub authorize : LeaseRequest → Handler Response
  authorize req = do
    scope ← reads (λ s. scope_named s.policy req.scope)
    grant ← reads (λ s. grant_for s.policy (key who.subject) req.scope)
    admit req scope grant

  abbrev bad_body : Handler Response
  bad_body = answer (problem 400 bad_request "invalid request body" who.request_id)

  module _ (context_size : Assoc String → ℕ) where
    -- `context_size` is the length of the context as JSON.
    unfoldable pub read_body : Body LeaseRequest → Handler Response
    read_body malformed = bad_body
    read_body nothing = bad_body
    read_body (decoded req) = if str_eq req.scope "" then bad_body else do
      most ← reads (λ s. s.cfg.max_context_bytes)
      if ltb most (context_size req.context)
          then answer (problem 400 bad_request "context exceeds size limit" who.request_id)
          else authorize req

    unfoldable pub handle_lease_create : Body LeaseRequest → Handler Response
    unfolding read_body
    handle_lease_create body = do
      ok ← allow_lease (key who.subject)
      if ok
          then read_body body
          else rate_limited_response c who "leases" "lease rate limit exceeded"
