-- ===== src/Server/Leases.antt =====
-- internal/server/handlers.go: handleLeaseRenew, handleLeaseSurrender, handleLeaseGet and
-- SweepExpiredLeases.
pub mod Guards
pub mod Renewal
pub mod Isolation
pub mod Records
pub mod Answers
pub mod Surrender
use Prim.Native.Char.{code}
use Prim.Native.String.{◌++◌ as append_text}
use agent_cred_broker.Prelude.{
  ℕ, Bool, true, false, not, ◌||◌, ◌==◌, Option, none, some, List, [], ◌∷◌, String, Assoc, lookup,
  ℤ, pos, str_eq, if◌then◌else◌, cut,
}
use agent_cred_broker.Time.{Instant, Duration, rfc3339}
use agent_cred_broker.Lease.{
  Lease, Store, Outcome, done, notfound, surrendered, expired, nonrenewable, already, get, renew,
  surrender, sweep_expired,
}
use agent_cred_broker.Audit.{
  Subject, Value, Event, event, key, lease_renewed, lease_surrendered, lease_expired, text, time,
}
use agent_cred_broker.Audit.Codec.{Codec}
use agent_cred_broker.Policy.{Grant, IssueWindow, grant_for}
use agent_cred_broker.Server.{
  Server, Caller, Response, Body, Handler, Problem, ◌>>=◌, ◌>>◌, answer, reads, on_trail, clock,
  read_clock, emit_event, record_event, allow_lease, rate_limited_response, audit_fail_closed,
  malformed, nothing, decoded, problem, lease, no_content, bad_request, lease_not_found,
  lease_forbidden, lease_conflict,
}
use agent_cred_broker.Server.Create.{lease_meta, clamp_ttl}

-- "lease "+outcome
abbrev pub outcome_title : Outcome → String
outcome_title done = "lease "
outcome_title notfound = "lease notfound"
outcome_title surrendered = "lease surrendered"
outcome_title expired = "lease expired"
outcome_title nonrenewable = "lease nonrenewable"
outcome_title already = "lease already"

-- What is attested of a renewed lease, and of a surrendered one.
abbrev pub renewed_facts : Lease → String → Assoc Value
renewed_facts l hash =
    ("scope", text l.scope)
    ∷ ("lease_id", text l.id)
    ∷ ("expires_at", time (rfc3339 l.expires_at))
    ∷ ("policy_hash", text hash)
    ∷ []

abbrev pub surrendered_facts : Lease → String → Assoc Value
surrendered_facts l hash =
    ("scope", text l.scope) ∷ ("lease_id", text l.id) ∷ ("policy_hash", text hash) ∷ []

-- leases.Renew: the clock is read for the test and again for the new end.
unfoldable pub renew_lease : String → Duration → Handler (Option Lease × Outcome)
renew_lease id ttl s =
    let (now, t) = read_clock s.trail in
    let (later, t') = read_clock t in
    let (l, outcome, leases) = renew id now later ttl s.leases in
    ((l, outcome), record s { leases = leases; trail = t' })

-- leases.Surrender
unfoldable pub surrender_lease : String → Handler (Unit {0})
surrender_lease id s =
    let (l, outcome, leases) = surrender id s.leases in (tt, record s { leases = leases })

module _ (c : Codec) (who : Caller) where
  abbrev not_found : Handler Response
  not_found = answer (problem 404 lease_not_found "no such lease" who.request_id)

  abbrev not_yours : Handler Response
  not_yours = answer (problem 403 lease_forbidden "not your lease" who.request_id)

  -- Get, and the test of the owner, as three handlers begin.
  unfoldable pub with_lease : String → (Lease → Handler Response) → Handler Response
  with_lease id next s = elim (get id s.leases) [
    | none ↦ not_found s
    | some l ↦ (if str_eq l.subject_key (key who.subject) then next l else not_yours) s
  ]

  unfoldable pub limited : Handler Response → Handler Response
  limited next = do
    ok ← allow_lease (key who.subject)
    if ok then next else rate_limited_response c who "leases" "lease rate limit exceeded"

  abbrev pub renewed_event : Lease → String → Event
  renewed_event l hash =
      event lease_renewed who.request_id (some who.subject) (some who.source) (renewed_facts l hash)
        []

  -- The extension has applied: if its event is not written, the lease is ended.
  unfoldable pub conclude_renewal : String → Lease → Bool → Handler Response
  conclude_renewal id l true = answer (lease 200 (lease_meta l))
  conclude_renewal id l false = do surrender_lease id; audit_fail_closed who

  unfoldable pub renewed : String → Option Lease × Outcome → Handler Response
  renewed id (some l, done) = do
    hash ← reads (λ s. s.policy.hash)
    ok ← emit_event c (renewed_event l hash)
    conclude_renewal id l ok
  renewed id (l, outcome) =
      answer (problem 409 lease_conflict (outcome_title outcome) who.request_id)

  unfoldable pub extend : String → Option Duration → Handler Response
  extend id none =
      answer (problem 400 bad_request "ttl_seconds must be non-negative" who.request_id)
  extend id (some ttl) = do result ← renew_lease id ttl; renewed id result

  -- An empty body is a request for the default.
  unfoldable pub read_renewal : String → Grant IssueWindow → Body ℤ → Handler Response
  read_renewal id grant malformed =
      answer (problem 400 bad_request "invalid request body" who.request_id)
  read_renewal id grant nothing = extend id (clamp_ttl (pos 0) grant)
  read_renewal id grant (decoded ttl_seconds) = extend id (clamp_ttl ttl_seconds grant)

  abbrev not_renewable : Handler Response
  not_renewable = answer (problem 409 lease_conflict "lease not renewable" who.request_id)

  -- The grant is looked up again, in the policy that is in force now.
  unfoldable pub recheck : String → Body ℤ → Option (Grant IssueWindow) → Handler Response
  recheck id body none = not_renewable
  recheck id body (some grant) =
      if grant.renewable then read_renewal id grant body else not_renewable

  unfoldable pub handle_lease_renew : String → Body ℤ → Handler Response
  handle_lease_renew id body = limited (
      with_lease id (λ existing.
        reads (λ s. grant_for s.policy (key who.subject) existing.scope) >>= recheck id body))

  unfoldable pub conclude_surrender : String → Bool → Handler Response
  conclude_surrender id false = audit_fail_closed who
  conclude_surrender id true = do surrender_lease id; answer no_content

  abbrev pub surrendered_event : Lease → String → Event
  surrendered_event l hash =
      event lease_surrendered who.request_id (some who.subject) (some who.source)
        (surrendered_facts l hash) []

  -- The event comes first, so that a failed write can be tried again.
  unfoldable pub surrender_held : String → Lease → Handler Response
  surrender_held id existing = if existing.surrendered then answer no_content else do
    hash ← reads (λ s. s.policy.hash)
    ok ← emit_event c (surrendered_event existing hash)
    conclude_surrender id ok

  unfoldable pub handle_lease_surrender : String → Handler Response
  handle_lease_surrender id = limited (with_lease id (surrender_held id))

  unfoldable pub handle_lease_get : String → Handler Response
  handle_lease_get id = with_lease id (λ l. answer (lease 200 (lease_meta l)))

-- A subject key without a "/" is all namespace.
abbrev subject_parts : String → String × String
subject_parts k = elim (cut 47 k) [ none ↦ (k, "") | some parts ↦ parts ]

unfoldable pub expired_event : String → Lease → Event
expired_event hash l =
    let (namespace, account) = subject_parts l.subject_key in
    event lease_expired ""
      (some (record { namespace = namespace; service_account = account; pod = ""; pod_uid = "" }))
      none
      (("scope", text l.scope)
        ∷ ("lease_id", text l.id)
        ∷ ("expired_at", time (rfc3339 l.expires_at))
        ∷ ("policy_hash", text hash)
        ∷ [])
      []

-- The loop: an event that is not written is passed over.
unfoldable pub emit_expired : Codec → String → List Lease → Handler (Unit {0})
emit_expired c hash [] = answer tt
emit_expired c hash (l ∷ ls) = do emit_event c (expired_event hash l); emit_expired c hash ls

unfoldable pub sweep_expired_leases : Codec → Duration → Handler (Unit {0})
sweep_expired_leases c retain s =
    let (now, t) = read_clock s.trail in
    let (out, leases) = sweep_expired retain now s.leases in
    emit_expired c s.policy.hash out (record s { leases = leases; trail = t })
