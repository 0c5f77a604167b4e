-- ===== src/Server/Create/Answers.antt =====
-- internal/server/handlers.go, handleLeaseCreate: what an answer tells of the state behind it.
use agent_cred_broker.Prelude.{ℕ, ◌≡◌, refl, Option, String, Assoc, lookup, ap, subst, sym}
use agent_cred_broker.Lease.{Lease}
use agent_cred_broker.Audit.Codec.{Codec}
use agent_cred_broker.Time.{Duration}
use agent_cred_broker.Server.{Server, Caller, Response, LeaseResponse, lease, decoded}
use agent_cred_broker.Server.Create.{LeaseRequest, lease_meta, handle_lease_create}
use agent_cred_broker.Server.Create.Issue.{Scene, Issued, IsLease, Ending, issued, refused, IsFresh}
use agent_cred_broker.Server.Create.Disclosure.{opening, handle_lease_create-Ends}

-- The answer of a run is about a lease for which `Issued` holds.
pub record Backed (c : Codec) (who : Caller) (req : LeaseRequest) (b : Scene) (body : LeaseResponse)
    (s' : Server) : Type 0 where
  pub l : Lease
  pub ttl : Duration
  pub upstream : Option ℕ
  pub behind : Issued c who req b l ttl upstream body.secret s'
  pub told : body ≡ record (lease_meta l) { upstream_expires_at = upstream; secret = body.secret }

body_of : LeaseResponse → Response → LeaseResponse
body_of d (lease status body) = body
body_of d _ = d

module _ (c : Codec) (who : Caller) (req : LeaseRequest) (b : Scene) where
  Ending-lease :
      (x : Response × Server) (status : ℕ) (body : LeaseResponse)
      → Ending c who req b x
      → x.0 ≡ lease status body
      → Backed c who req b body x.1
  unfolding body_of
  Ending-lease x status body (issued l ttl upstream secret s' made) h =
      subst (λ r. Backed c who req b r s') (ap (body_of body) h)
        (record { l = l; ttl = ttl; upstream = upstream; behind = made; told = refl })
  Ending-lease x status body (refused r s' not_lease kept) h =
      absurd (not_lease (subst IsLease (sym h) tt))

  Ending-other :
      (x : Response × Server)
      → Ending c who req b x
      → ¬ IsLease x.0
      → (j : String) → lookup j x.1.leases ≡ lookup j b.leases
  Ending-other x (issued l ttl upstream secret s' made) h = absurd (h tt)
  Ending-other x (refused r s' not_lease kept) h = kept

module _ (c : Codec) (who : Caller) (req : LeaseRequest) (size : Assoc String → ℕ)
    (s : Server) where
  -- When a caller is answered with a lease, and the next random identifier is not in use, then the
  -- policy in force grants the scope to this caller, an issue window was open at the second reading of
  -- the clock, the secret is what the scope's provider gave when it was asked for the scope with the
  -- clamped ttl, the lease ends that ttl, cut to the end of the credential, after the reading for its
  -- issue, it is in the table under its own identifier and every other lease is
  -- as before, and the emitter's stream grew by exactly one line, the signature over the event that
  -- names this lease.
  pub lease_is_Backed :
      (status : ℕ) (body : LeaseResponse)
      → IsFresh s
      → (handle_lease_create c who size (decoded req) s).0 ≡ lease status body
      → Backed c who req (opening s) body (handle_lease_create c who size (decoded req) s).1
  lease_is_Backed status body fresh h =
      Ending-lease c who req (opening s) _ status body
        (handle_lease_create-Ends c who req size s fresh) h

  -- When the answer is not a lease, and the next random identifier is not in use, every entry of the
  -- lease table is as it was before the request.
  pub refusal_keeps_leases :
      IsFresh s
      → ¬ IsLease (handle_lease_create c who size (decoded req) s).0
      → (j : String)
      → lookup j (handle_lease_create c who size (decoded req) s).1.leases ≡ lookup j s.leases
  refusal_keeps_leases fresh =
      Ending-other c who req (opening s) _ (handle_lease_create-Ends c who req size s fresh)
