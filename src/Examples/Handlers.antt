-- ===== src/Examples/Handlers.antt =====
-- Requests to the sample broker.
use agent_cred_broker.Prelude.{
  Assoc, Bool-cases, str_eq, inl, inr, ◌+◌, ◌≡◌, ◌≢◌, refl, true, some, [], ◌∷◌, String, lookup,
  insert, ℤ, pos, ◌*ℤ◌, arith,
}
use agent_cred_broker.Lease.{create}
use agent_cred_broker.RateLimit.{new, allow, bucket_of, refill}
use agent_cred_broker.Audit.{key}
use agent_cred_broker.Audit.Emitter.{emit, envelope, next_seq, sign_line, write_line}
use agent_cred_broker.Policy.{grant_for, window_open}
use agent_cred_broker.Server.{
  LeaseResponse, lease, aborted, decoded, new_limits, read_clock, new_id, count, record_event,
  allow_lease,
}
use agent_cred_broker.Server.Create.{
  LeaseRequest, clamp_ttl, clamp_upstream, upstream_expiry, deny, create_lease, conclude, issue,
  count_latency, finish_fetch, fetch, provide, resolve, admit, authorize, read_body,
  handle_lease_create,
}
use agent_cred_broker.Server.Create.Answers.{Backed, lease_is_Backed, refusal_keeps_leases}
use agent_cred_broker.Server.Create.Issue.{IsLease}
use agent_cred_broker.Server.Create.Disclosure.{opening}
use agent_cred_broker.Server.Create.Denial.{denial_is_uniform}
use agent_cred_broker.Server.Create.Total.{handle_lease_create_answers}
use agent_cred_broker.Server.Create.Clamp.{IsTtlPair, IsClamped, clamp_ttl-IsClamped}
use agent_cred_broker.Provider.{Provider}
use agent_cred_broker.Server.Create.Secrecy.{SameProviders, Alike, over, secret_leaves_no_trace}
use agent_cred_broker.Examples.PlainCodec.{plain}
use agent_cred_broker.Examples.Sample.{
  provider, broker, grant, loader, parsed, leases, caller, size,
}

abbrev request : String → ℤ → LeaseRequest
request name ttl = record { scope = name; ttl_seconds = ttl; context = [] }

abbrev issued_body : LeaseResponse
issued_body = record {
  lease_id = "lease_00";
  scope = "repo";
  issued_at = 63900000005;
  expires_at = 63900000305;
  upstream_expires_at = some 63900001002;
  renewable = true;
  semantics = "revocable";
  secret = ("token", "s3cret") ∷ [];
}

-- The sample broker issues a lease of five minutes.
issues :
    (handle_lease_create plain caller size (decoded (request "repo" (pos 300))) (broker leases)).0
    ≡ lease 201 issued_body
unfolding handle_lease_create allow_lease read_clock allow new bucket_of refill key read_body
    authorize grant_for admit window_open clamp_ttl resolve provide fetch count_latency finish_fetch
    issue clamp_upstream upstream_expiry create_lease new_id create record_event emit envelope
    next_seq sign_line write_line conclude count lookup insert new_limits ◌*ℤ◌
issues = refl

lease_is_Backed_example :
    Backed plain caller
      (request "repo" (pos 300))
      (opening (broker leases))
      issued_body
      (handle_lease_create plain caller size (decoded (request "repo" (pos 300))) (broker leases)).1
unfolding lookup
lease_is_Backed_example =
    lease_is_Backed plain caller (request "repo" (pos 300)) size (broker leases) 201 issued_body
      refl issues

-- An unknown scope is refused.
refuses :
    ¬ IsLease
      (handle_lease_create plain caller size (decoded (request "nope" (pos 300))) (broker leases)).0
unfolding handle_lease_create allow_lease read_clock allow new bucket_of refill key read_body
    authorize grant_for admit deny lookup insert new_limits
refuses = λ x. x

refusal_keeps_leases_example :
    lookup "lease_1"
      (handle_lease_create plain caller size
        (decoded (request "nope" (pos 300)))
        (broker leases)).1.leases
    ≡ lookup "lease_1" leases
unfolding lookup
refusal_keeps_leases_example =
    refusal_keeps_leases plain caller (request "nope" (pos 300)) size (broker leases) refl refuses
      "lease_1"

-- A scope that does not exist, and one that is not granted.
denial_is_uniform_example :
    (handle_lease_create plain caller size (decoded (request "nope" (pos 300))) (broker leases)).0
    ≡ (handle_lease_create plain caller size
        (decoded (request "deploy" (pos 300)))
        (broker leases)).0
unfolding grant_for lookup key
denial_is_uniform_example =
    denial_is_uniform plain caller size (request "nope" (pos 300)) (request "deploy" (pos 300))
      (broker leases) (record { named = refl; small = refl })
      (record { named = refl; small = refl }) refl refl

handle_lease_create_answers_example :
    (handle_lease_create plain caller size (decoded (request "repo" (pos 300))) (broker leases)).0
    ≢ aborted
handle_lease_create_answers_example =
    handle_lease_create_answers plain caller (request "repo" (pos 300)) size loader ""
      (broker leases) parsed

sample_ttls : IsTtlPair (grant [])
sample_ttls = record {
  default_positive = omega arith;
  default_bounded = omega arith;
  max_fits = (omega arith, omega arith);
}

-- 2^63 - 1 seconds, against an hour.
clamp_ttl-IsClamped_example :
    IsClamped (pos 9223372036854775807) (grant []) (clamp_ttl (pos 9223372036854775807) (grant []))
clamp_ttl-IsClamped_example = clamp_ttl-IsClamped (pos 9223372036854775807) (grant []) sample_ttls

-- A provider that differs from the sample's in the secret that it gives.
abbrev other_providers : Assoc Provider
other_providers =
    (
      "github-app",
      record provider {
        fetch = λ now req.
            some (record { secret = ("token", "0ther") ∷ []; expires_at = now + 1000000000000 });
      },
    )
    ∷ []

alike : SameProviders (broker leases).providers other_providers
unfolding lookup
alike name = elim (Bool-cases (str_eq "github-app" name)) [
  | inl y ↦ rw (y, lookup) (record { semantics = refl; fetches = λ now q. refl })
  | inr n ↦ rw (n, lookup) tt
]

secret_leaves_no_trace_example :
    Alike
      (handle_lease_create plain caller size (decoded (request "repo" (pos 300))) (broker leases))
      (handle_lease_create plain caller size
        (decoded (request "repo" (pos 300)))
        (over other_providers (broker leases)))
secret_leaves_no_trace_example =
    secret_leaves_no_trace plain caller other_providers size (decoded (request "repo" (pos 300)))
      (broker leases) alike
