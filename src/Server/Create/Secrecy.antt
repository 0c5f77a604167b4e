-- ===== src/Server/Create/Secrecy.antt =====
-- internal/server/handlers.go, handleLeaseCreate: what becomes of a secret. Two brokers are compared
-- that are alike in all but the secrets that their providers hold.
use agent_cred_broker.Prelude.{
  ℕ, ◌≡◌, refl, Bool, true, false, Option, none, some, [], String, Assoc, lookup, inl, inr,
  Bool-cases, ltb, str_eq,
}
use agent_cred_broker.Time.{Instant, Duration}
use agent_cred_broker.RateLimit.{allow}
use agent_cred_broker.Lease.{Lease}
use agent_cred_broker.Audit.{key}
use agent_cred_broker.Audit.Codec.{Codec}
use agent_cred_broker.Policy.{Scope, Grant, IssueWindow, window_open}
use agent_cred_broker.Provider.{Provider, Request, Result}
use agent_cred_broker.Server.{
  Server, Caller, Response, Problem, Body, malformed, nothing, decoded, lease, read_clock, count,
  allow_lease, audit_fail_closed, rate_limited_response, allow_rl_audit,
}
use agent_cred_broker.Server.Create.{
  LeaseRequest, clamp_ttl, deny, conclude, issue, finish_fetch, fetch, provide, resolve, admit,
  authorize, read_body, handle_lease_create,
}

-- Two results that may differ in the secret only.
abbrev pub SameResult : Option Result → Option Result → Type 0
SameResult none none = Unit
SameResult (some r) (some r') = r.expires_at ≡ r'.expires_at
SameResult _ _ = ⊥

-- Two providers, or none, that answer each call with results that may differ in the secret only.
pub record SameProvider (p p' : Provider) : Type 0 where
  pub semantics : p.semantics ≡ p'.semantics
  pub fetches : (now : Instant) (q : Request) → SameResult (p.fetch now q) (p'.fetch now q)

abbrev pub SameFound : Option Provider → Option Provider → Type 0
SameFound none none = Unit
SameFound (some p) (some p') = SameProvider p p'
SameFound _ _ = ⊥

abbrev pub SameProviders : Assoc Provider → Assoc Provider → Type 0
SameProviders m m' = (name : String) → SameFound (lookup name m) (lookup name m')

-- The broker with these providers.
abbrev pub over : Assoc Provider → Server → Server
over m s = record s { providers = m }

-- An answer without the secret in it.
abbrev pub hidden : Response → Response
hidden (lease status body) = lease status (record body { secret = [] })
hidden r = r

-- The answers of two runs are the same but for the secret, and so are the states that they leave but for
-- the providers: the table, the stream, the counters, the limits and the rest.
abbrev pub Alike : Response × Server → Response × Server → Type 0
Alike x y = (hidden x.0 ≡ hidden y.0) × (over [] x.1 ≡ over [] y.1)

module _ (c : Codec) (who : Caller) (m' : Assoc Provider) where
  conclude-Alike :
      (l : Lease) (upstream : Option ℕ) (secret secret' : Assoc String) (ok : Bool) (s : Server)
      → Alike
          (conclude c who l upstream secret ok s)
          (conclude c who l upstream secret' ok (over m' s))
  unfolding conclude count audit_fail_closed
  conclude-Alike l upstream secret secret' true s = (refl, refl)
  conclude-Alike l upstream secret secret' false s = (refl, refl)

  issue-Alike :
      (req : LeaseRequest) (grant : Grant IssueWindow) (prov prov' : Provider) (ttl : Duration)
      (r r' : Result) (s : Server)
      → prov.semantics ≡ prov'.semantics
      → r.expires_at ≡ r'.expires_at
      → Alike (issue c who req grant prov ttl r s) (issue c who req grant prov' ttl r' (over m' s))
  unfolding issue read_clock
  issue-Alike req grant prov prov' ttl r r' s same_semantics same_end =
      rw (same_semantics, same_end) (conclude-Alike _ _ r.secret r'.secret _ _)

  deny-Alike :
      (req : LeaseRequest) (scope : Option Scope) (status : ℕ) (p : Problem) (title reason : String)
      (s : Server)
      → Alike
          (deny c who req scope status p title reason s)
          (deny c who req scope status p title reason (over m' s))
  unfolding deny count
  deny-Alike req scope status p title reason s = (refl, refl)

  finish_fetch-Alike :
      (req : LeaseRequest) (scope : Scope) (grant : Grant IssueWindow) (prov prov' : Provider)
      (ttl : Duration) (o o' : Option Result) (s : Server)
      → prov.semantics ≡ prov'.semantics
      → SameResult o o'
      → Alike
          (finish_fetch c who req scope grant prov ttl o s)
          (finish_fetch c who req scope grant prov' ttl o' (over m' s))
  unfolding finish_fetch count
  finish_fetch-Alike req scope grant prov prov' ttl none none s e h = deny-Alike _ _ _ _ _ _ _
  finish_fetch-Alike req scope grant prov prov' ttl (some r) (some r') s e h =
      issue-Alike req grant prov prov' ttl r r' s e h
  finish_fetch-Alike req scope grant prov prov' ttl none (some r') s e h = absurd h
  finish_fetch-Alike req scope grant prov prov' ttl (some r) none s e h = absurd h

  provide-Alike :
      (req : LeaseRequest) (scope : Scope) (grant : Grant IssueWindow) (ttl : Duration)
      (o o' : Option Provider) (s : Server)
      → SameFound o o'
      → Alike
          (provide c who req scope grant ttl o s)
          (provide c who req scope grant ttl o' (over m' s))
  unfolding provide fetch read_clock
  provide-Alike req scope grant ttl none none s h = deny-Alike _ _ _ _ _ _ _
  provide-Alike req scope grant ttl (some p) (some p') s h =
      finish_fetch-Alike req scope grant p p' ttl _ _ _ h.semantics (h.fetches _ _)
  provide-Alike req scope grant ttl none (some p') s h = absurd h
  provide-Alike req scope grant ttl (some p) none s h = absurd h

  module _ (req : LeaseRequest) where
    resolve-Alike :
        (scope : Option Scope) (grant : Grant IssueWindow) (ttl : Option Duration) (s : Server)
        → SameProviders s.providers m'
        → Alike
            (resolve c who req scope grant ttl s)
            (resolve c who req scope grant ttl (over m' s))
    unfolding resolve
    resolve-Alike scope grant none s same = (refl, refl)
    resolve-Alike none grant (some ttl) s same = (refl, refl)
    resolve-Alike (some scope) grant (some ttl) s same =
        provide-Alike req scope grant ttl _ _ s (same scope.provider)

    admit-Alike :
        (scope : Option Scope) (grant : Option (Grant IssueWindow)) (s : Server)
        → SameProviders s.providers m'
        → Alike (admit c who req scope grant s) (admit c who req scope grant (over m' s))
    unfolding admit read_clock
    admit-Alike none none s same = deny-Alike _ _ _ _ _ _ s
    admit-Alike (some scope) none s same = deny-Alike _ _ _ _ _ _ s
    admit-Alike scope (some grant) s same =
        elim (Bool-cases (window_open grant (s.trail.world.clock s.trail.world.reads))) [
          | inl y ↦
              rw (y, admit) (resolve-Alike scope grant (clamp_ttl req.ttl_seconds grant) _ same)
          | inr n ↦ rw (n, admit) (deny-Alike _ _ _ _ _ _ _)
        ]

  module _ (size : Assoc String → ℕ) where
    read_body-Alike :
        (body : Body LeaseRequest) (s : Server)
        → SameProviders s.providers m'
        → Alike (read_body c who size body s) (read_body c who size body (over m' s))
    unfolding read_body authorize
    read_body-Alike malformed s same = (refl, refl)
    read_body-Alike nothing s same = (refl, refl)
    read_body-Alike (decoded req) s same = elim (Bool-cases (str_eq req.scope "")) [
      | inl y ↦ rw (y, read_body) (refl, refl)
      | inr n ↦
          rw (n, read_body)
            (elim (Bool-cases (ltb s.cfg.max_context_bytes (size req.context))) [
              | inl big ↦ rw big (refl, refl)
              | inr fits ↦ rw fits (admit-Alike req _ _ s same)
            ])
    ]

    rate_limited-Alike :
        (title : String) (s : Server)
        → Alike
            (rate_limited_response c who "leases" title s)
            (rate_limited_response c who "leases" title (over m' s))
    unfolding rate_limited_response allow_rl_audit read_clock count
    rate_limited-Alike title s =
        elim (Bool-cases
          (allow (key who.subject) (s.trail.world.clock s.trail.world.reads) s.limits.rl_audit).0) [
            | inl y ↦ rw y (refl, refl)
            | inr n ↦ rw n (refl, refl)
          ]

    -- A request for a lease discloses a secret in its answer only: if two brokers differ in nothing but
    -- the secrets that their providers give, then the same request leaves the same table, stream,
    -- counters, limits and all other state in both, and gets the same answer but for the secret in it.
    pub secret_leaves_no_trace :
        (body : Body LeaseRequest) (s : Server)
        → SameProviders s.providers m'
        → Alike
            (handle_lease_create c who size body s)
            (handle_lease_create c who size body (over m' s))
    unfolding handle_lease_create allow_lease read_clock
    secret_leaves_no_trace body s same =
        elim (Bool-cases
          (allow (key who.subject) (s.trail.world.clock s.trail.world.reads) s.limits.lease).0) [
            | inl y ↦ rw y (read_body-Alike body _ same)
            | inr n ↦ rw n (rate_limited-Alike "lease rate limit exceeded" _)
          ]
