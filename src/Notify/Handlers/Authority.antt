-- ===== src/Notify/Handlers/Authority.antt =====
-- internal/notify/server.go: nothing reaches Home Assistant but what the policy grants to the caller.
use agent_cred_broker.Prelude.{
  ◌≡◌, refl, inl, inr, Option, none, some, String, str_eq, cut_prefix, Bool-cases, Option-cases,
}
use agent_cred_broker.RateLimit.{allow}
use agent_cred_broker.Audit.{Subject, Source, key}
use agent_cred_broker.Audit.Codec.{Codec}
use agent_cred_broker.Server.{read_clock, count, new_id}
use agent_cred_broker.Notify.Grants.{Policy}
use agent_cred_broker.Notify.{HaRequest, Outside, Proxy, unauthenticated, allow_auth_fail}
use agent_cred_broker.Notify.Handlers.{Route, route}
use agent_cred_broker.Notify.Handlers.Conduct.{Ends, refused, Ends-map}
use agent_cred_broker.Notify.Handlers.Permission.{Permitted, route-Ends}
use agent_cred_broker.Notify.Auth.{
  record_auth_failure, reject, admit_subject, check_token, with_auth, serve,
}

-- The agent that the token names is permitted the request.
pub record Authorized (authn : String → Option Subject) (header : String) (policy : Policy)
    (base : String) (route_is : Route) (r : HaRequest) : Type 0 where
  pub token : String
  pub subject : Subject
  pub presented : cut_prefix "Bearer " header ≡ some token
  pub admitted : authn token ≡ some subject
  pub permitted : Permitted policy base (key subject) route_is r

module _ (c : Codec) (o : Outside) (authn : String → Option Subject) where
  reject-Ends :
      {P : HaRequest → Type 0} (id : String) (source : Source) (reason title : String) (s : Proxy)
      → Ends o P id s.sent (reject c authn id source reason title s)
  unfolding reject record_auth_failure allow_auth_fail read_clock count
  reject-Ends id source reason title s =
      elim (Bool-cases (allow source.ip (s.trail.world.clock s.trail.world.reads) s.auth_fail).0) [
        | inl y ↦ rw y (refused 401 unauthenticated title refl refl)
        | inr n ↦ rw n (refused 401 unauthenticated title refl refl)
      ]

  check_token-Ends :
      (id : String) (source : Source) (header : String) (token : Option String) (r : Route)
      (s : Proxy)
      → cut_prefix "Bearer " header ≡ token
      → Ends o
          (Authorized authn header s.policy s.ha_base r)
          id
          s.sent
          (check_token c authn id source token (route c o r) s)
  unfolding check_token admit_subject
  check_token-Ends id source header none r s e = reject-Ends id source _ _ s
  check_token-Ends id source header (some t) r s e = elim (Bool-cases (str_eq t "")) [
    | inl y ↦ rw y (reject-Ends id source _ _ s)
    | inr n ↦ elim (Option-cases (authn t)) [
      | inl bad ↦ rw (n, bad, admit_subject) (reject-Ends id source _ _ s)
      | inr (subject, ok) ↦
          rw (n, ok, admit_subject)
            (Ends-map
              (λ q h. record {
                token = t;
                subject = subject;
                presented = e;
                admitted = ok;
                permitted = h;
              })
              (route-Ends c o (record { subject = subject; request_id = id; source = source }) r s))
    ]
  ]

  -- A request to the proxy ends in one of two ways. Either it is answered with a problem and Home
  -- Assistant is not called. Or it makes exactly one call, which the policy in force grants to the agent
  -- that the bearer token names: a push goes to the first target of its push grant, with allowed keys only,
  -- and a persistent notification has an identifier that begins with the prefix of its grant. Then the
  -- answer is the receipt if Home Assistant's status is from 200 to 299, and 502 otherwise.
  pub calls_are_Authorized :
      (source : Source) (header : String) (r : Route) (s : Proxy)
      → Ends o
          (Authorized authn header s.policy s.ha_base r)
          (new_id "req" s.trail).0
          s.sent
          (serve c o authn source header r s)
  unfolding serve with_auth
  calls_are_Authorized source header r s =
      check_token-Ends (new_id "req" s.trail).0 source header (cut_prefix "Bearer " header) r
        (record s { trail = (new_id "req" s.trail).1 }) refl
