-- ===== src/Server/Create/Total.antt =====
-- internal/server/handlers.go, handleLeaseCreate: the scope of a grant is never nil.
use agent_cred_broker.Prelude.{
  ℕ, ◌≡◌, ◌≢◌, refl, inl, inr, Bool, true, false, Option-cases, subst, Option, none, some, String,
  Assoc, Bool-cases, ltb, str_eq,
}
use agent_cred_broker.Time.{Duration}
use agent_cred_broker.Lease.{Lease}
use agent_cred_broker.RateLimit.{allow}
use agent_cred_broker.Audit.{key}
use agent_cred_broker.Audit.Codec.{Codec}
use agent_cred_broker.Policy.{Scope, Grant, IssueWindow, grant_for, scope_named, window_open}
use agent_cred_broker.Policy.Parse.{Loader, fine, parse}
use agent_cred_broker.Policy.Parse.Parsed.{IsValid, parse-IsValid}
use agent_cred_broker.Provider.{Provider, Result}
use agent_cred_broker.Server.{
  Server, Caller, Response, Problem, lease, claims, no_content, decoded, aborted, problem,
  read_clock, allow_lease, audit_fail_closed,
}
use agent_cred_broker.Server.Create.{
  LeaseRequest, deny, conclude, issue, finish_fetch, fetch, provide, resolve, admit, authorize,
  read_body, handle_lease_create,
}
use agent_cred_broker.Server.Leases.Guards.{rate_limited_cases, IsProblem}

abbrev Answers : Response × Server → Type 0
Answers x = x.0 ≢ aborted

problem_answers : (r : Response) → IsProblem r → r ≢ aborted
problem_answers (problem status kind title id) h = λ x. cc
problem_answers (lease status body) h = λ x. h
problem_answers (claims status ids) h = λ x. h
problem_answers no_content h = λ x. h
problem_answers aborted h = λ x. h

module _ (c : Codec) (who : Caller) (req : LeaseRequest) where
  deny-Answers :
      (scope : Option Scope) (status : ℕ) (p : Problem) (title reason : String) (s : Server)
      → Answers (deny c who req scope status p title reason s)
  unfolding deny
  deny-Answers scope status p title reason s = λ x. cc

  conclude-Answers :
      (l : Lease) (upstream : Option ℕ) (secret : Assoc String) (ok : Bool) (s : Server)
      → Answers (conclude c who l upstream secret ok s)
  unfolding conclude audit_fail_closed
  conclude-Answers l upstream secret true s = λ x. cc
  conclude-Answers l upstream secret false s = λ x. cc

  finish_fetch-Answers :
      (scope : Scope) (grant : Grant IssueWindow) (prov : Provider) (ttl : Duration)
      (result : Option Result) (s : Server)
      → Answers (finish_fetch c who req scope grant prov ttl result s)
  unfolding finish_fetch issue
  finish_fetch-Answers scope grant prov ttl none s = deny-Answers _ _ _ _ _ _
  finish_fetch-Answers scope grant prov ttl (some result) s = conclude-Answers _ _ _ _ _

  provide-Answers :
      (scope : Scope) (grant : Grant IssueWindow) (ttl : Duration) (prov : Option Provider)
      (s : Server)
      → Answers (provide c who req scope grant ttl prov s)
  unfolding provide fetch
  provide-Answers scope grant ttl none s = deny-Answers _ _ _ _ _ s
  provide-Answers scope grant ttl (some prov) s = finish_fetch-Answers _ _ _ _ _ _

  -- A grant of a valid policy has its scope.
  resolve-Answers :
      (scope : Option Scope) (grant : Grant IssueWindow) (ttl : Option Duration) (s : Server)
      → scope ≢ none
      → Answers (resolve c who req scope grant ttl s)
  unfolding resolve
  resolve-Answers scope grant none s h = λ x. cc
  resolve-Answers none grant (some ttl) s h = absurd (h refl)
  resolve-Answers (some scope) grant (some ttl) s h = provide-Answers _ _ _ _ _

  admit-Answers :
      (scope : Option Scope) (grant : Option (Grant IssueWindow)) (s : Server)
      → (grant ≢ none → scope ≢ none)
      → Answers (admit c who req scope grant s)
  unfolding admit read_clock
  admit-Answers none none s h = deny-Answers _ _ _ _ _ s
  admit-Answers (some scope) none s h = deny-Answers _ _ _ _ _ s
  admit-Answers scope (some grant) s h =
      elim (Bool-cases (window_open grant (s.trail.world.clock s.trail.world.reads))) [
        | inl y ↦ rw (y, admit) (resolve-Answers scope grant _ _ (h (λ x. cc)))
        | inr n ↦ rw (n, admit) (deny-Answers _ _ _ _ _ _)
      ]

  scope_of_grant :
      (s : Server)
      → IsValid s.policy
      → grant_for s.policy (key who.subject) req.scope ≢ none
      → scope_named s.policy req.scope ≢ none
  scope_of_grant s valid h = elim (Option-cases (grant_for s.policy (key who.subject) req.scope)) [
    | inl e ↦ absurd (h e)
    | inr (g, e) ↦
        let (form, own, ok) = valid.grant_sound (key who.subject) req.scope g e in
        subst (λ n. scope_named s.policy n ≢ none) own ok.scope_exists
  ]

  module _ (size : Assoc String → ℕ) where
    read_body-Answers :
        (s : Server) → IsValid s.policy → Answers (read_body c who size (decoded req) s)
    unfolding read_body authorize
    read_body-Answers s valid = elim (Bool-cases (str_eq req.scope "")) [
      | inl y ↦ rw (y, read_body) (λ x. cc)
      | inr n ↦
          rw (n, read_body)
            (elim (Bool-cases (ltb s.cfg.max_context_bytes (size req.context))) [
              | inl big ↦ rw big (λ x. cc)
              | inr fits ↦ rw fits (admit-Answers _ _ s (scope_of_grant s valid))
            ])
    ]

    -- The handler answers every request: with a policy from Parse it never meets the nil scope that
    -- would make it panic.
    pub handle_lease_create_answers :
        (loader : Loader) (raw : String) (s : Server)
        → parse loader raw ≡ fine s.policy
        → (handle_lease_create c who size (decoded req) s).0 ≢ aborted
    unfolding handle_lease_create allow_lease read_clock
    handle_lease_create_answers loader raw s h =
        let valid = parse-IsValid loader raw s.policy h in
        elim (Bool-cases
          (allow (key who.subject) (s.trail.world.clock s.trail.world.reads) s.limits.lease).0) [
            | inl y ↦ rw y (read_body-Answers _ valid)
            | inr n ↦ rw n (
                rate_limited_cases Answers c who "leases" "lease rate limit exceeded" _
                  (λ r s' bad same. problem_answers r bad))
          ]
