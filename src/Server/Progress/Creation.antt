-- ===== src/Server/Progress/Creation.antt =====
-- internal/server/handlers.go: the progress that handleLeaseCreate makes, on every path.
use agent_cred_broker.Prelude.{
  ℕ, inl, inr, Bool, true, false, Option, none, some, String, Assoc, Bool-cases, ltb, str_eq,
  if_cases,
}
use agent_cred_broker.Time.{Duration}
use agent_cred_broker.RateLimit.{allow}
use agent_cred_broker.Lease.{Lease}
use agent_cred_broker.Lease.Sweep.{create-IsValid, remove-IsValid}
use agent_cred_broker.Audit.{key}
use agent_cred_broker.Audit.Codec.{Codec}
use agent_cred_broker.Policy.{Scope, Grant, IssueWindow, window_open}
use agent_cred_broker.Provider.{Provider, Result}
use agent_cred_broker.Server.{
  Server, Caller, Body, Problem, malformed, nothing, decoded, read_clock, new_id, count,
  allow_lease, audit_fail_closed,
}
use agent_cred_broker.Server.Create.{
  LeaseRequest, clamp_ttl, deny, conclude, issue, finish_fetch, fetch, provide, resolve, admit,
  authorize, read_body, handle_lease_create,
}
use agent_cred_broker.Server.Progress.{
  point, Goes, on_table, still, and_then, on_stream, rate_limited-Goes,
}

module _ (c : Codec) (who : Caller) where
  deny-Goes :
      (req : LeaseRequest) (scope : Option Scope) (status : ℕ) (p : Problem) (title reason : String)
      (s : Server)
      → Goes c s (deny c who req scope status p title reason s)
  unfolding deny count
  deny-Goes req scope status p title reason s = on_stream c _ _ s.leases

  conclude-Goes :
      (l : Lease) (upstream : Option ℕ) (secret : Assoc String) (ok : Bool) (s : Server)
      → Goes c s (conclude c who l upstream secret ok s)
  unfolding conclude count audit_fail_closed
  conclude-Goes l upstream secret true s = still c (point s)
  conclude-Goes l upstream secret false s = on_table c (point s) _ (remove-IsValid l.id s.leases)

  -- The lease is put into the table, then its event is written, then the lease may be taken back.
  issue-Goes :
      (req : LeaseRequest) (grant : Grant IssueWindow) (prov : Provider) (ttl : Duration)
      (result : Result) (s : Server)
      → Goes c s (issue c who req grant prov ttl result s)
  unfolding issue read_clock new_id
  issue-Goes req grant prov ttl result s =
      and_then c (point s) _ _ (on_table c (point s) _ (create-IsValid _ _ _ _ _ _ _ s.leases))
        (and_then c _ _ _ (on_stream c _ _ _) (conclude-Goes _ _ _ _ _))

  finish_fetch-Goes :
      (req : LeaseRequest) (scope : Scope) (grant : Grant IssueWindow) (prov : Provider)
      (ttl : Duration) (result : Option Result) (s : Server)
      → Goes c s (finish_fetch c who req scope grant prov ttl result s)
  unfolding finish_fetch count
  finish_fetch-Goes req scope grant prov ttl none s = deny-Goes _ _ _ _ _ _ _
  finish_fetch-Goes req scope grant prov ttl (some result) s =
      issue-Goes req grant prov ttl result s

  provide-Goes :
      (req : LeaseRequest) (scope : Scope) (grant : Grant IssueWindow) (ttl : Duration)
      (prov : Option Provider) (s : Server)
      → Goes c s (provide c who req scope grant ttl prov s)
  unfolding provide fetch read_clock
  provide-Goes req scope grant ttl none s = deny-Goes _ _ _ _ _ _ s
  provide-Goes req scope grant ttl (some prov) s = finish_fetch-Goes req scope grant prov ttl _ _

  resolve-Goes :
      (req : LeaseRequest) (scope : Option Scope) (grant : Grant IssueWindow)
      (ttl : Option Duration) (s : Server)
      → Goes c s (resolve c who req scope grant ttl s)
  unfolding resolve
  resolve-Goes req scope grant none s = still c (point s)
  resolve-Goes req none grant (some ttl) s = still c (point s)
  resolve-Goes req (some scope) grant (some ttl) s = provide-Goes req scope grant ttl _ s

  admit-Goes :
      (req : LeaseRequest) (scope : Option Scope) (grant : Option (Grant IssueWindow)) (s : Server)
      → Goes c s (admit c who req scope grant s)
  unfolding admit read_clock
  admit-Goes req none none s = deny-Goes _ _ _ _ _ _ s
  admit-Goes req (some scope) none s = deny-Goes _ _ _ _ _ _ s
  admit-Goes req scope (some grant) s =
      if_cases (Goes c s) (window_open grant (s.trail.world.clock s.trail.world.reads))
        (resolve c who req scope grant (clamp_ttl req.ttl_seconds grant)) _ _
        (λ y. resolve-Goes req scope grant _ _) (λ n. deny-Goes _ _ _ _ _ _ _)

  module _ (size : Assoc String → ℕ) where
    read_body-Goes :
        (body : Body LeaseRequest) (s : Server) → Goes c s (read_body c who size body s)
    unfolding read_body authorize
    read_body-Goes malformed s = still c (point s)
    read_body-Goes nothing s = still c (point s)
    read_body-Goes (decoded req) s = elim (Bool-cases (str_eq req.scope "")) [
      | inl y ↦ rw (y, read_body) (still c (point s))
      | inr n ↦
          rw (n, read_body)
            (elim (Bool-cases (ltb s.cfg.max_context_bytes (size req.context))) [
              | inl big ↦ rw big (still c (point s))
              | inr fits ↦ rw fits (admit-Goes req _ _ s)
            ])
    ]

    pub handle_lease_create-Goes :
        (body : Body LeaseRequest) (s : Server) → Goes c s (handle_lease_create c who size body s)
    unfolding handle_lease_create allow_lease read_clock
    handle_lease_create-Goes body s =
        elim (Bool-cases
          (allow (key who.subject) (s.trail.world.clock s.trail.world.reads) s.limits.lease).0) [
            | inl y ↦ rw y (read_body-Goes body _)
            | inr n ↦ rw n (rate_limited-Goes c who _ "lease rate limit exceeded" _)
          ]
