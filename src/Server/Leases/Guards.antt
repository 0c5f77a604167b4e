-- ===== src/Server/Leases/Guards.antt =====
-- internal/server/handlers.go: how the three handlers of a lease begin.
use agent_cred_broker.Prelude.{
  ℕ, List, ◌≡◌, ◌≢◌, refl, inl, inr, true, some, String, lookup, Option-cases, Bool-cases, str_eq,
  if_cases,
}
use agent_cred_broker.RateLimit.{allow}
use agent_cred_broker.Lease.{Lease}
use agent_cred_broker.Audit.{key}
use agent_cred_broker.Audit.Codec.{Codec}
use agent_cred_broker.Server.{
  Server, Caller, Response, problem, lease, claims, no_content, aborted, Handler, read_clock, count,
  rate_limited_response, allow_rl_audit, allow_lease, record_event,
}
use agent_cred_broker.Server.Create.Issue.{IsLease}
use agent_cred_broker.Server.Leases.{with_lease, limited}

abbrev pub IsProblem : Response → Type 0
IsProblem (problem status kind title id) = Unit
IsProblem _ = ⊥

pub problem_no-IsLease : (r : Response) → IsProblem r → ¬ IsLease r
problem_no-IsLease (problem status kind title id) h x = x
problem_no-IsLease (lease status body) h x = h
problem_no-IsLease (claims status ids) h x = h
problem_no-IsLease no_content h x = h
problem_no-IsLease aborted h x = h

pub problem_has_content : (r : Response) → IsProblem r → r ≢ no_content
problem_has_content (problem status kind title id) h = λ x. cc
problem_has_content (lease status body) h = λ x. h
problem_has_content (claims status ids) h = λ x. h
problem_has_content no_content h = λ x. h
problem_has_content aborted h = λ x. h

pub problem_no_claims :
    (r : Response) (status : ℕ) (ids : List String) → IsProblem r → r ≢ claims status ids
problem_no_claims (problem s kind title id) status ids h = λ x. cc
problem_no_claims (lease s body) status ids h = λ x. h
problem_no_claims (claims s more) status ids h = λ x. h
problem_no_claims no_content status ids h = λ x. h
problem_no_claims aborted status ids h = λ x. h

-- A throttled request is not answered with a lease and leaves the leases alone.
pub rate_limited_cases {ℓ} :
    (P : Response × Server → Type ℓ) (c : Codec) (who : Caller) (endpoint title : String)
    (s : Server)
    → ((r : Response) (s' : Server) → IsProblem r → s'.leases ≡ s.leases → P (r, s'))
    → P (rate_limited_response c who endpoint title s)
unfolding rate_limited_response allow_rl_audit read_clock count record_event
rate_limited_cases P c who endpoint title s other =
    elim (Bool-cases
      (allow (key who.subject) (s.trail.world.clock s.trail.world.reads) s.limits.rl_audit).0) [
        | inl y ↦ rw y (other _ _ tt refl)
        | inr n ↦ rw n (other _ _ tt refl)
      ]

pub limited_cases {ℓ} :
    (P : Response × Server → Type ℓ) (c : Codec) (who : Caller) (next : Handler Response)
    (s : Server)
    → ((r : Response) (s' : Server) → IsProblem r → s'.leases ≡ s.leases → P (r, s'))
    → P (next (allow_lease (key who.subject) s).1)
    → P (limited c who next s)
unfolding limited allow_lease read_clock
limited_cases P c who next s other go =
    if_cases P _ next (rate_limited_response c who "leases" "lease rate limit exceeded") _ (λ y. go)
      (λ n. rate_limited_cases P c who _ _ _ other)

pub with_lease_cases {ℓ} :
    (P : Response × Server → Type ℓ) (c : Codec) (who : Caller) (id : String)
    (next : Lease → Handler Response) (s : Server)
    → ((r : Response) → IsProblem r → P (r, s))
    → ((l : Lease)
        → lookup id s.leases ≡ some l
        → str_eq l.subject_key (key who.subject) ≡ true
        → P (next l s))
    → P (with_lease c who id next s)
unfolding with_lease
with_lease_cases P c who id next s other go = elim (Option-cases (lookup id s.leases)) [
  | inl e ↦ rw (e, with_lease) (other _ tt)
  | inr (l, e) ↦
      rw (e, with_lease)
        (if_cases P (str_eq l.subject_key (key who.subject)) (next l) _ s (go l e)
          (λ n. other _ tt))
]
