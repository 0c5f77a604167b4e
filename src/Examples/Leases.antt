-- ===== src/Examples/Leases.antt =====
-- Renewals, surrenders and claims at the sample broker, and a history of its table.
use agent_cred_broker.Prelude.{
  ◌≡◌, ◌≢◌, refl, true, false, none, some, [], ◌∷◌, lookup, insert, pos, ◌+ℤ◌, ◌*ℤ◌, ◌⊎◌,
}
use agent_cred_broker.Lease.{Lease, renewal, renew, surrender}
use agent_cred_broker.RateLimit.{new, allow, bucket_of, refill, spend, charge, roll_over}
use agent_cred_broker.Audit.{key}
use agent_cred_broker.Audit.Emitter.{emit, envelope, next_seq, sign_line, write_line}
use agent_cred_broker.Policy.{grant_for, claim_bytes_cap}
use agent_cred_broker.Server.{
  LeaseResponse, lease, claims, no_content, decoded, new_limits, read_clock, new_id, record_event,
  allow_lease, allow_claim, spend_claims,
}
use agent_cred_broker.Server.Create.{clamp_ttl}
use agent_cred_broker.Server.Leases.{
  renew_lease, surrender_lease, with_lease, limited, conclude_renewal, renewed, extend,
  read_renewal, recheck, handle_lease_renew, conclude_surrender, surrender_held,
  handle_lease_surrender,
}
use agent_cred_broker.Server.Leases.Answers.{
  Renewed, renewal_is_backed, Audited, no_unaudited_extension,
}
use agent_cred_broker.Server.Leases.Records.{Surrendered, surrender_is_recorded}
use agent_cred_broker.Server.Leases.Isolation.{Request, handle, foreign_leases_kept}
use agent_cred_broker.Server.Claims.{
  ClaimsRequest, total_bytes, holds, record_claims, conclude_claims, charge_claims, check_lease,
  size_checked, read_claims, handle_claims,
}
use agent_cred_broker.Server.Claims.Receipts.{Received, claims_are_logged}
use agent_cred_broker.Examples.PlainCodec.{plain}
use agent_cred_broker.Examples.Sample.{broker, policy, leases, lease_of, emitter, caller, size}

abbrev renewed_body : LeaseResponse
renewed_body = record {
  lease_id = "lease_1";
  scope = "repo";
  issued_at = 63900000000;
  expires_at = 63900000122;
  upstream_expires_at = none;
  renewable = true;
  semantics = "revocable";
  secret = [];
}

-- The caller renews its lease by two minutes.
renews_it :
    (handle_lease_renew plain caller "lease_1" (decoded (pos 120)) (broker leases)).0
    ≡ lease 200 renewed_body
unfolding handle_lease_renew limited with_lease allow_lease read_clock allow new bucket_of refill
    key grant_for recheck read_renewal clamp_ttl extend renew_lease renew renewal renewed
    record_event emit envelope next_seq sign_line write_line conclude_renewal lookup insert
    new_limits ◌*ℤ◌
renews_it = refl

renewal_is_backed_example :
    Renewed plain caller "lease_1"
      (decoded (pos 120))
      policy
      leases
      emitter
      63900000001000000000
      63900000002000000000
      (handle_lease_renew plain caller "lease_1" (decoded (pos 120)) (broker leases)).1
      renewed_body
renewal_is_backed_example =
    renewal_is_backed plain caller "lease_1" (decoded (pos 120)) (broker leases) 200 renewed_body
      renews_it

abbrev lease_1_later : Lease
lease_1_later = record (lease_of "lease_1" "ci/bot") { expires_at = 63900000122000000000 }

finds_it :
    lookup "lease_1"
      (handle_lease_renew plain caller "lease_1" (decoded (pos 120)) (broker leases)).1.leases
    ≡ some lease_1_later
unfolding handle_lease_renew limited with_lease allow_lease read_clock allow new bucket_of refill
    key grant_for recheck read_renewal clamp_ttl extend renew_lease renew renewal renewed
    record_event emit envelope next_seq sign_line write_line conclude_renewal lookup insert
    new_limits ◌*ℤ◌
finds_it = refl

no_unaudited_extension_example :
    (lookup "lease_1" leases ≡ some lease_1_later)
    ⊎ (false ≡ true)
    ⊎ Audited plain caller policy emitter lease_1_later
        (handle_lease_renew plain caller "lease_1"
          (decoded (pos 120))
          (broker leases)).1.trail.emitter
no_unaudited_extension_example =
    no_unaudited_extension plain caller "lease_1" (decoded (pos 120)) (broker leases) "lease_1"
      lease_1_later finds_it

foreign_leases_kept_example :
    lookup "lease_2" (handle plain caller "lease_2" Request.surrender (broker leases)).1.leases
    ≡ some (lease_of "lease_2" "ci/other")
unfolding lookup key
foreign_leases_kept_example =
    foreign_leases_kept plain caller "lease_2" Request.surrender (broker leases) "lease_2"
      (lease_of "lease_2" "ci/other") refl (λ x. cc)

surrenders_it : (handle_lease_surrender plain caller "lease_1" (broker leases)).0 ≡ no_content
unfolding handle_lease_surrender limited with_lease allow_lease read_clock allow new bucket_of
    refill key surrender_held record_event emit envelope next_seq sign_line write_line
    conclude_surrender surrender_lease surrender lookup insert new_limits
surrenders_it = refl

surrender_is_recorded_example :
    Surrendered plain caller "lease_1" policy leases emitter
      (handle_lease_surrender plain caller "lease_1" (broker leases)).1
surrender_is_recorded_example =
    surrender_is_recorded plain caller "lease_1" (broker leases) surrenders_it

no_such_lease : (handle_lease_surrender plain caller "lease_3" (broker leases)).0 ≢ no_content
unfolding handle_lease_surrender limited with_lease allow_lease read_clock allow new bucket_of
    refill key lookup insert new_limits
no_such_lease = λ x. cc

abbrev two_claims : ClaimsRequest
two_claims = record {
  lease_id = "lease_1";
  claims = (("did", "a") ∷ []) ∷ (("did", "b") ∷ []) ∷ [];
}

receives :
    (handle_claims plain caller size (decoded two_claims) (broker leases)).0
    ≡ claims 202 ("claim_00" ∷ "claim_00" ∷ [])
unfolding handle_claims allow_claim read_clock allow new bucket_of refill key read_claims
    total_bytes size_checked check_lease holds charge_claims spend_claims spend charge roll_over
    claim_bytes_cap record_claims new_id record_event emit envelope next_seq sign_line write_line
    conclude_claims lookup insert new_limits ◌+ℤ◌
receives = refl

claims_are_logged_example :
    Received plain caller size two_claims
      ("claim_00" ∷ "claim_00" ∷ [])
      (broker leases)
      (handle_claims plain caller size (decoded two_claims) (broker leases)).1.trail.emitter
claims_are_logged_example =
    claims_are_logged plain caller size two_claims (broker leases) 202
      ("claim_00" ∷ "claim_00" ∷ []) receives
