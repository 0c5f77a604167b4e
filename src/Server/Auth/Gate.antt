-- ===== src/Server/Auth/Gate.antt =====
-- internal/server/server.go, withAuth: no handler runs without an authenticated subject.
use agent_cred_broker.Prelude.{
  ℕ, ◌≡◌, ◌≢◌, refl, inl, inr, Option, none, some, String, Assoc, Bool-cases, str_eq, cut_prefix,
  eq_iff, str_ne,
}
use agent_cred_broker.RateLimit.{allow}
use agent_cred_broker.Audit.{Subject, Source}
use agent_cred_broker.Audit.Codec.{Codec}
use agent_cred_broker.Server.{
  Server, Caller, Response, Handler, problem, unauthenticated, read_clock, count, record_event,
  allow_auth_fail, new_id,
}
use agent_cred_broker.Server.Auth.{
  record_auth_failure, reject, admit_subject, check_token, with_auth, with_request_id, Route, route,
  serve,
}

-- The header holds no bearer token that authn accepts.
abbrev pub Rejected : (String → Option Subject) → String → Type 0
Rejected authn header =
    (token : String) → cut_prefix "Bearer " header ≡ some token → token ≢ "" → authn token ≡ none

-- The answer is 401, and only the counters, the limiter of failures and the stream differ.
pub record TurnedAway (s : Server) (request_id : String) (x : Response × Server) : Type 0 where
  pub title : String
  pub answer : x.0 ≡ problem 401 unauthenticated title request_id
  pub leases : x.1.leases ≡ s.leases
  pub policy : x.1.policy ≡ s.policy
  pub claim_budget : x.1.limits.claim_budget ≡ s.limits.claim_budget
  pub lease_limit : x.1.limits.lease ≡ s.limits.lease
  pub claim_limit : x.1.limits.claim ≡ s.limits.claim
  pub sampling_limit : x.1.limits.rl_audit ≡ s.limits.rl_audit
  pub providers : x.1.providers ≡ s.providers
  pub cfg : x.1.cfg ≡ s.cfg

module _ (c : Codec) (authn : String → Option Subject) where
  reject-TurnedAway :
      (request_id : String) (source : Source) (reason title : String) (s : Server)
      → TurnedAway s request_id (reject c authn request_id source reason title s)
  unfolding reject record_auth_failure allow_auth_fail read_clock count record_event
  reject-TurnedAway request_id source reason title s =
      elim (Bool-cases
        (allow source.ip (s.trail.world.clock s.trail.world.reads) s.limits.auth_fail).0) [
          | inl y ↦ rw y (record {
            title = title;
            answer = refl;
            leases = refl;
            policy = refl;
            claim_budget = refl;
            lease_limit = refl;
            claim_limit = refl;
            sampling_limit = refl;
            providers = refl;
            cfg = refl;
          })
          | inr n ↦ rw n (record {
            title = title;
            answer = refl;
            leases = refl;
            policy = refl;
            claim_budget = refl;
            lease_limit = refl;
            claim_limit = refl;
            sampling_limit = refl;
            providers = refl;
            cfg = refl;
          })
        ]

  check_token-TurnedAway :
      (request_id : String) (source : Source) (token : Option String)
      (next : Caller → Handler Response) (s : Server)
      → ((t : String) → token ≡ some t → t ≢ "" → authn t ≡ none)
      → TurnedAway s request_id (check_token c authn request_id source token next s)
  unfolding check_token admit_subject
  check_token-TurnedAway request_id source none next s h = reject-TurnedAway request_id source _ _ s
  check_token-TurnedAway request_id source (some t) next s h = elim (Bool-cases (str_eq t "")) [
    | inl y ↦ rw y (reject-TurnedAway request_id source _ _ s)
    | inr n ↦
        rw (n, h t refl (λ e. let y = (eq_iff t "").1 e in cc), admit_subject)
          (reject-TurnedAway request_id source _ _ s)
  ]

  -- A request whose Authorization header holds no token that authn accepts is answered with 401, whatever
  -- its route: no lease, no budget and no limiter of a handler changes, for no handler runs.
  pub unauthenticated_is_TurnedAway :
      (size : Assoc String → ℕ) (source : Source) (header : String) (r : Route) (s : Server)
      → Rejected authn header
      → TurnedAway
          (record s { trail = (new_id "req" s.trail).1 })
          (new_id "req" s.trail).0
          (serve c authn size source header r s)
  unfolding serve with_request_id with_auth
  unauthenticated_is_TurnedAway size source header r s h =
      check_token-TurnedAway _ source (cut_prefix "Bearer " header) _ _ h

  -- A request whose token authn accepts is answered by its handler, for exactly the subject of the token.
  pub authenticated_is_served :
      (size : Assoc String → ℕ) (source : Source) (header token : String) (subject : Subject)
      (r : Route) (s : Server)
      → cut_prefix "Bearer " header ≡ some token
      → token ≢ ""
      → authn token ≡ some subject
      → serve c authn size source header r s
        ≡ route c size r
            (record { subject = subject; request_id = (new_id "req" s.trail).0; source = source })
            (record s { trail = (new_id "req" s.trail).1 })
  unfolding serve with_request_id with_auth check_token admit_subject
  authenticated_is_served size source header token subject r s e full ok =
      rw (e, check_token, str_ne token "" full, ok, admit_subject) refl
