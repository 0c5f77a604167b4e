-- ===== src/Server/Progress/Recording.antt =====
-- internal/server/handlers.go and server.go: handleClaims, SweepExpiredLeases and recordAuthFailure only
-- record. The table is as before, or what the sweep leaves of it.
use agent_cred_broker.Prelude.{
  ℕ, ◌≡◌, refl, ◌∙◌, inl, inr, not, ◌&&◌, ◌||◌, ◌==◌, ltb, length, Option, none, some, List, [],
  ◌∷◌, String, Assoc, Bool-cases, ℤ, pos, str_eq, if_cases,
}
use agent_cred_broker.Time.{Duration}
use agent_cred_broker.RateLimit.{allow, spend}
use agent_cred_broker.Lease.{Lease, sweep_expired}
use agent_cred_broker.Lease.Sweep.{sweep-IsValid}
use agent_cred_broker.Audit.{Source, key}
use agent_cred_broker.Audit.Codec.{Codec}
use agent_cred_broker.Policy.{claim_bytes_cap}
use agent_cred_broker.Server.{
  Server, Caller, Body, malformed, nothing, decoded, read_clock, new_id, count, allow_claim,
  spend_claims, allow_auth_fail, audit_fail_closed, record_event,
}
use agent_cred_broker.Server.Auth.{record_auth_failure}
use agent_cred_broker.Server.Leases.{emit_expired, sweep_expired_leases}
use agent_cred_broker.Server.Leases.Guards.{rate_limited_cases}
use agent_cred_broker.Server.Claims.{
  ClaimsRequest, total_bytes, holds, claim_event, record_claims, conclude_claims, charge_claims,
  check_lease, size_checked, read_claims, handle_claims,
}
use agent_cred_broker.Server.Progress.{
  point, Goes, on_table, still, and_then, on_stream, rate_limited-Goes,
}

-- A run from s leaves the table and may write.
abbrev pub Records : {A : Type 0} → Codec → Server → A × Server → Type 0
Records c s x = (x.1.leases ≡ s.leases) × Goes c s x

module _ (c : Codec) where
  pub record_auth_failure-Records :
      (request_id : String) (source : Source) (reason : String) (s : Server)
      → Records c s (record_auth_failure c request_id source reason s)
  unfolding record_auth_failure allow_auth_fail read_clock count
  record_auth_failure-Records request_id source reason s =
      elim (Bool-cases
        (allow source.ip (s.trail.world.clock s.trail.world.reads) s.limits.auth_fail).0) [
          | inl y ↦ rw y (refl, on_stream c _ _ s.leases)
          | inr n ↦ rw n (refl, still c (point s))
        ]

  emit_expired-Records :
      (hash : String) (ls : List Lease) (s : Server) → Records c s (emit_expired c hash ls s)
  unfolding emit_expired
  emit_expired-Records hash [] s = (refl, still c (point s))
  emit_expired-Records hash (l ∷ ls) s =
      let (same, goes) = emit_expired-Records hash ls _ in
      (same, and_then c (point s) _ _ (on_stream c _ _ s.leases) goes)

  pub sweep-Goes : (retain : Duration) (s : Server) → Goes c s (sweep_expired_leases c retain s)
  unfolding sweep_expired_leases read_clock
  sweep-Goes retain s =
      and_then c (point s) _ _ (on_table c (point s) _ (sweep-IsValid retain _ s.leases))
        ((emit_expired-Records s.policy.hash _ _).1)

  pub sweep_leaves :
      (retain : Duration) (s : Server)
      → (sweep_expired_leases c retain s).1.leases
        ≡ (sweep_expired retain (s.trail.world.clock s.trail.world.reads) s.leases).1
  unfolding sweep_expired_leases read_clock
  sweep_leaves retain s = (emit_expired-Records s.policy.hash _ _).0

module _ (c : Codec) (who : Caller) where
  record_claims-Records :
      (lease_id : String) (ms : List (Assoc String)) (s : Server)
      → Records c s (record_claims c who lease_id ms s)
  unfolding record_claims new_id
  record_claims-Records lease_id [] s = (refl, still c (point s))
  record_claims-Records lease_id (m ∷ ms) s =
      let t = (new_id "claim" s.trail).1 in
      let ev = claim_event c who ((new_id "claim" s.trail).0) lease_id m in
      let s' : Server = record s { trail = (record_event c ev t).1 } in
      let event = on_stream c ev t s.leases in
      let (same, goes) = record_claims-Records lease_id ms s' in
      elim (Bool-cases (record_event c ev t).0) [
        | inl ok ↦ rw ok (same, and_then c (point s) _ _ event goes)
        | inr failed ↦ rw failed (refl, event)
      ]

  conclude_claims-Records :
      (ids : Option (List String)) (s : Server) → Records c s (conclude_claims c who ids s)
  unfolding conclude_claims audit_fail_closed count
  conclude_claims-Records none s = (refl, still c (point s))
  conclude_claims-Records (some ids) s = (refl, still c (point s))

  charge_claims-Records :
      (req : ClaimsRequest) (total : ℤ) (s : Server) → Records c s (charge_claims c who req total s)
  unfolding charge_claims spend_claims read_clock count
  charge_claims-Records req total s =
      let now = s.trail.world.clock s.trail.world.reads in
      let k = key who.subject in
      elim (Bool-cases (spend k total (claim_bytes_cap s.policy k) now s.limits.claim_budget).0) [
        | inl y ↦
            let s' : Server = (spend_claims k total (claim_bytes_cap s.policy k) s).1 in
            let x = record_claims c who req.lease_id req.claims s' in
            let (same, goes) = record_claims-Records req.lease_id req.claims s' in
            let (same', goes') = conclude_claims-Records x.0 x.1 in
            rw y (same' ∙ same, and_then c (point s) (point x.1) _ goes goes')
        | inr n ↦ rw n (refl, still c (point s))
      ]

  size_checked-Records :
      (req : ClaimsRequest) (total : Option ℤ) (s : Server)
      → Records c s (size_checked c who req total s)
  unfolding size_checked check_lease
  size_checked-Records req none s = (refl, still c (point s))
  size_checked-Records req (some total) s =
      if_cases (Records c s)
        (not (str_eq req.lease_id "") && not (holds (key who.subject) req.lease_id s)) _ _ s
        (λ y. (refl, still c (point s))) (λ n. charge_claims-Records req total s)

  module _ (size : Assoc String → ℕ) where
    read_claims-Records :
        (body : Body ClaimsRequest) (s : Server) → Records c s (read_claims c who size body s)
    unfolding read_claims
    read_claims-Records malformed s = (refl, still c (point s))
    read_claims-Records nothing s = (refl, still c (point s))
    read_claims-Records (decoded req) s =
        if_cases (Records c s)
          ((length req.claims == 0) || ltb s.cfg.max_claims_per_req (length req.claims)) _ _ s
          (λ y. (refl, still c (point s)))
          (λ n.
            size_checked-Records req (total_bytes size s.cfg.max_claim_bytes (pos 0) req.claims) s)

    pub handle_claims-Records :
        (body : Body ClaimsRequest) (s : Server) → Records c s (handle_claims c who size body s)
    unfolding handle_claims allow_claim read_clock
    handle_claims-Records body s =
        elim (Bool-cases
          (allow (key who.subject) (s.trail.world.clock s.trail.world.reads) s.limits.claim).0) [
            | inl y ↦ rw y (read_claims-Records body _)
            | inr n ↦ rw n (
              (rate_limited_cases (λ x. x.1.leases ≡ s.leases) c who "claims"
                  "claim rate limit exceeded" _ (λ r s' bad same. same)),
              rate_limited-Goes c who "claims" "claim rate limit exceeded" _,
            )
          ]
