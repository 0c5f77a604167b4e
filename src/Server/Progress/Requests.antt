-- ===== src/Server/Progress/Requests.antt =====
-- internal/server/handlers.go: the progress that renewals and surrenders make.
use agent_cred_broker.Prelude.{Bool, true, false, Option, none, some, String, ℤ, if_cases}
use agent_cred_broker.Time.{Duration}
use agent_cred_broker.Lease.{Lease, Outcome}
use agent_cred_broker.Lease.Sweep.{renew-IsValid, surrender-IsValid}
use agent_cred_broker.Audit.Codec.{Codec}
use agent_cred_broker.Policy.{Grant, IssueWindow}
use agent_cred_broker.Server.{
  Server, Caller, Response, Handler, Body, malformed, nothing, decoded, read_clock, count,
  allow_lease, audit_fail_closed, rate_limited_response,
}
use agent_cred_broker.Server.Leases.{
  renew_lease, surrender_lease, limited, conclude_renewal, renewed, extend, read_renewal, recheck,
  handle_lease_renew, conclude_surrender, surrender_held, handle_lease_surrender,
}
use agent_cred_broker.Server.Leases.Guards.{with_lease_cases}
use agent_cred_broker.Server.Claims.{}
use agent_cred_broker.Server.Progress.{
  point, Goes, on_table, still, and_then, on_stream, rate_limited-Goes,
}

module _ (c : Codec) (who : Caller) where
  limited-Goes :
      (next : Handler Response)
      → ((s : Server) → Goes c s (next s))
      → (s : Server) → Goes c s (limited c who next s)
  unfolding limited allow_lease read_clock
  limited-Goes next go s =
      if_cases (Goes c s) _ next (rate_limited_response c who "leases" "lease rate limit exceeded")
        _ (λ y. go _) (λ n. rate_limited-Goes c who "leases" "lease rate limit exceeded" _)

  surrender_lease-Goes : (id : String) (s : Server) → Goes c s (surrender_lease id s)
  unfolding surrender_lease
  surrender_lease-Goes id s = on_table c (point s) _ (surrender-IsValid id s.leases)

  conclude_renewal-Goes :
      (id : String) (l : Lease) (ok : Bool) (s : Server)
      → Goes c s (conclude_renewal c who id l ok s)
  unfolding conclude_renewal audit_fail_closed count
  conclude_renewal-Goes id l true s = still c (point s)
  conclude_renewal-Goes id l false s = surrender_lease-Goes id s

  renewed-Goes :
      (id : String) (l : Option Lease) (o : Outcome) (s : Server)
      → Goes c s (renewed c who id (l, o) s)
  unfolding renewed
  renewed-Goes id (some l) Outcome.done s =
      and_then c (point s) _ _ (on_stream c _ _ s.leases) (conclude_renewal-Goes id l _ _)
  renewed-Goes id (some l) Outcome.notfound s = still c (point s)
  renewed-Goes id (some l) Outcome.surrendered s = still c (point s)
  renewed-Goes id (some l) Outcome.expired s = still c (point s)
  renewed-Goes id (some l) Outcome.nonrenewable s = still c (point s)
  renewed-Goes id (some l) Outcome.already s = still c (point s)
  renewed-Goes id none o s = still c (point s)

  extend-Goes :
      (id : String) (ttl : Option Duration) (s : Server) → Goes c s (extend c who id ttl s)
  unfolding extend renew_lease read_clock
  extend-Goes id none s = still c (point s)
  extend-Goes id (some ttl) s =
      and_then c (point s) _ _ (on_table c (point s) _ (renew-IsValid id _ _ ttl s.leases))
        (renewed-Goes id _ _ _)

  read_renewal-Goes :
      (id : String) (grant : Grant IssueWindow) (body : Body ℤ) (s : Server)
      → Goes c s (read_renewal c who id grant body s)
  unfolding read_renewal
  read_renewal-Goes id grant malformed s = still c (point s)
  read_renewal-Goes id grant nothing s = extend-Goes id _ s
  read_renewal-Goes id grant (decoded ttl) s = extend-Goes id _ s

  recheck-Goes :
      (id : String) (body : Body ℤ) (grant : Option (Grant IssueWindow)) (s : Server)
      → Goes c s (recheck c who id body grant s)
  unfolding recheck
  recheck-Goes id body none s = still c (point s)
  recheck-Goes id body (some grant) s =
      if_cases (Goes c s) grant.renewable (read_renewal c who id grant body) _ s
        (λ y. read_renewal-Goes id grant body s) (λ n. still c (point s))

  pub handle_lease_renew-Goes :
      (id : String) (body : Body ℤ) (s : Server) → Goes c s (handle_lease_renew c who id body s)
  unfolding handle_lease_renew
  handle_lease_renew-Goes id body = limited-Goes _ (λ s.
      with_lease_cases (Goes c s) c who id _ s (λ r bad. still c (point s))
        (λ l e o. recheck-Goes id body _ s))

  conclude_surrender-Goes :
      (id : String) (ok : Bool) (s : Server) → Goes c s (conclude_surrender c who id ok s)
  unfolding conclude_surrender audit_fail_closed count
  conclude_surrender-Goes id false s = still c (point s)
  conclude_surrender-Goes id true s = surrender_lease-Goes id s

  surrender_held-Goes :
      (id : String) (l : Lease) (s : Server) → Goes c s (surrender_held c who id l s)
  unfolding surrender_held
  surrender_held-Goes id l s =
      if_cases (Goes c s) l.surrendered _ _ s (λ gone. still c (point s))
        (λ held.
          and_then c (point s) _ _ (on_stream c _ _ s.leases) (conclude_surrender-Goes id _ _))

  pub handle_lease_surrender-Goes :
      (id : String) (s : Server) → Goes c s (handle_lease_surrender c who id s)
  unfolding handle_lease_surrender
  handle_lease_surrender-Goes id = limited-Goes _ (λ s.
      with_lease_cases (Goes c s) c who id _ s (λ r bad. still c (point s))
        (λ l e o. surrender_held-Goes id l s))
