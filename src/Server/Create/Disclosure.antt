-- ===== src/Server/Create/Disclosure.antt =====
-- internal/server/handlers.go, handleLeaseCreate: the whole handler, on every path. No secret leaves
-- the broker without a grant and without its signed event.
use agent_cred_broker.Prelude.{
  suc, ap, sym, ◌∙◌, lookup, ℕ, ◌≡◌, refl, inl, inr, true, Option, none, some, String, Assoc,
  Bool-cases, ltb, str_eq,
}
use agent_cred_broker.Time.{Instant, Duration}
use agent_cred_broker.RateLimit.{allow}
use agent_cred_broker.Audit.{key}
use agent_cred_broker.Audit.Codec.{Codec}
use agent_cred_broker.Policy.{Scope, scope_named, Grant, IssueWindow, grant_for, window_open}
use agent_cred_broker.Provider.{Provider, Result}
use agent_cred_broker.Server.{
  Server, Caller, Response, Problem, decoded, read_clock, count, allow_lease, rate_limited_response,
}
use agent_cred_broker.Server.Create.{
  LeaseRequest, clamp_ttl, deny, finish_fetch, fetch, provide, resolve, admit, authorize, read_body,
  handle_lease_create,
}
use agent_cred_broker.Server.Create.Issue.{
  Scene, scene, Authorized, Fetched, Ending, refused, IsFresh, issue-Ending,
}
use agent_cred_broker.Server.Leases.Guards.{rate_limited_cases, problem_no-IsLease}

-- The scene of a request, before its provider is asked, and before the test of its windows.
abbrev pub asking : Instant → Server → Scene
asking tested_at s = record (scene tested_at (s.trail.world.clock s.trail.world.reads) s) {
  fetched_at = s.trail.world.clock (suc (suc s.trail.world.reads));
  created_at = s.trail.world.clock (suc (suc (suc s.trail.world.reads)));
  signed_at = s.trail.world.clock (suc (suc (suc (suc s.trail.world.reads))));
}

abbrev pub testing : Server → Scene
testing s = record (asking (s.trail.world.clock s.trail.world.reads) s) {
  asked_at = s.trail.world.clock (suc s.trail.world.reads);
  fetched_at = s.trail.world.clock (suc (suc (suc s.trail.world.reads)));
  created_at = s.trail.world.clock (suc (suc (suc (suc s.trail.world.reads))));
  signed_at = s.trail.world.clock (suc (suc (suc (suc (suc s.trail.world.reads)))));
}

-- The scene of a whole request, whose first reading of the clock is for the limiter.
abbrev pub opening : Server → Scene
opening s = record (testing s) {
  tested_at = s.trail.world.clock (suc s.trail.world.reads);
  asked_at = s.trail.world.clock (suc (suc s.trail.world.reads));
  fetched_at = s.trail.world.clock (suc (suc (suc (suc s.trail.world.reads))));
  created_at = s.trail.world.clock (suc (suc (suc (suc (suc s.trail.world.reads)))));
  signed_at = s.trail.world.clock (suc (suc (suc (suc (suc (suc s.trail.world.reads))))));
}

module _ (c : Codec) (who : Caller) (req : LeaseRequest) where
  abbrev Ends : Scene → Response × Server → Type 0
  Ends b = Ending c who req b

  deny-Ends :
      (b : Scene) (scope : Option Scope) (status : ℕ) (p : Problem) (title reason : String)
      (s : Server)
      → b.leases ≡ s.leases
      → Ends b (deny c who req scope status p title reason s)
  unfolding deny count
  deny-Ends b scope status p title reason s same =
      refused _ _ (λ x. x) (λ j. ap (lookup j) (sym same))

  finish_fetch-Ends :
      (scope : Scope) (grant : Grant IssueWindow) (prov : Provider) (ttl : Duration)
      (result : Option Result) (tested_at asked_at : Instant) (s : Server)
      → IsFresh s
      → Authorized who req (scene tested_at asked_at s) grant ttl
      → ((r : Result) → result ≡ some r → Fetched req (scene tested_at asked_at s) ttl prov r)
      → Ends (scene tested_at asked_at s) (finish_fetch c who req scope grant prov ttl result s)
  unfolding finish_fetch deny count
  finish_fetch-Ends scope grant prov ttl none tested_at asked_at s fresh auth got =
      refused _ _ (λ x. x) (λ j. refl)
  finish_fetch-Ends scope grant prov ttl (some result) tested_at asked_at s fresh auth got =
      issue-Ending c who req grant prov ttl result tested_at asked_at s fresh auth (got result refl)

  provide-Ends :
      (scope : Scope) (grant : Grant IssueWindow) (ttl : Duration) (prov : Option Provider)
      (tested_at : Instant) (s : Server)
      → IsFresh s
      → Authorized who req (asking tested_at s) grant ttl
      → scope_named s.policy req.scope ≡ some scope
      → lookup scope.provider s.providers ≡ prov
      → Ends (asking tested_at s) (provide c who req scope grant ttl prov s)
  unfolding provide fetch read_clock
  provide-Ends scope grant ttl none tested_at s fresh auth named found =
      deny-Ends _ _ _ _ _ _ s refl
  provide-Ends scope grant ttl (some prov) tested_at s fresh auth named found =
      finish_fetch-Ends scope grant prov ttl _ tested_at _ _ fresh
        (record { granted = auth.granted; open_then = auth.open_then; clamped = auth.clamped })
        (λ r e. record { scope = scope; named = named; provided = found; fetched = e })

  resolve-Ends :
      (scope : Option Scope) (grant : Grant IssueWindow) (ttl : Option Duration)
      (tested_at : Instant) (s : Server)
      → IsFresh s
      → scope_named s.policy req.scope ≡ scope
      → grant_for s.policy (key who.subject) req.scope ≡ some grant
      → window_open grant tested_at ≡ true
      → clamp_ttl req.ttl_seconds grant ≡ ttl
      → Ends (asking tested_at s) (resolve c who req scope grant ttl s)
  unfolding resolve
  resolve-Ends scope grant none tested_at s fresh named granted opened clamped =
      refused _ _ (λ x. x) (λ j. refl)
  resolve-Ends none grant (some ttl) tested_at s fresh named granted opened clamped =
      refused _ _ (λ x. x) (λ j. refl)
  resolve-Ends (some scope) grant (some ttl) tested_at s fresh named granted opened clamped =
      provide-Ends scope grant ttl _ tested_at s fresh
        (record { granted = granted; open_then = opened; clamped = clamped }) named refl

  admit-Ends :
      (scope : Option Scope) (grant : Option (Grant IssueWindow)) (s : Server)
      → IsFresh s
      → scope_named s.policy req.scope ≡ scope
      → grant_for s.policy (key who.subject) req.scope ≡ grant
      → Ends (testing s) (admit c who req scope grant s)
  unfolding admit read_clock
  admit-Ends none none s fresh named e = deny-Ends _ _ _ _ _ _ s refl
  admit-Ends (some scope) none s fresh named e = deny-Ends _ _ _ _ _ _ s refl
  admit-Ends scope (some grant) s fresh named e =
      let at = s.trail.world.clock s.trail.world.reads in
      elim (Bool-cases (window_open grant at)) [
        | inl y ↦
            rw (y, admit)
              (resolve-Ends scope grant (clamp_ttl req.ttl_seconds grant) at _ fresh named e y refl)
        | inr n ↦ rw (n, admit) (deny-Ends _ _ _ _ _ _ _ refl)
      ]

  authorize-Ends : (s : Server) → IsFresh s → Ends (testing s) (authorize c who req s)
  unfolding authorize
  authorize-Ends s fresh = admit-Ends _ _ s fresh refl refl

  module _ (size : Assoc String → ℕ) where
    read_body-Ends :
        (s : Server) → IsFresh s → Ends (testing s) (read_body c who size (decoded req) s)
    unfolding read_body
    read_body-Ends s fresh = elim (Bool-cases (str_eq req.scope "")) [
      | inl y ↦ rw (y, read_body) (refused _ _ (λ x. x) (λ j. refl))
      | inr n ↦
          rw (n, read_body)
            (elim (Bool-cases (ltb s.cfg.max_context_bytes (size req.context))) [
              | inl big ↦ rw big (refused _ _ (λ x. x) (λ j. refl))
              | inr fits ↦ rw fits (authorize-Ends s fresh)
            ])
    ]

    rate_limited-Ends :
        (b : Scene) (title : String) (s : Server)
        → b.leases ≡ s.leases
        → Ends b (rate_limited_response c who "leases" title s)
    rate_limited-Ends b title s same =
        rate_limited_cases (Ends b) c who "leases" title s (λ r s' bad kept.
          refused r s' (problem_no-IsLease r bad) (λ j. ap (lookup j) (kept ∙ sym same)))

    -- Every run of the handler issues a lease that is on record, or leaves the leases as they are.
    pub handle_lease_create-Ends :
        (s : Server) → IsFresh s → Ends (opening s) (handle_lease_create c who size (decoded req) s)
    unfolding handle_lease_create allow_lease read_clock
    handle_lease_create-Ends s fresh =
        elim (Bool-cases
          (allow (key who.subject) (s.trail.world.clock s.trail.world.reads) s.limits.lease).0) [
            | inl y ↦ rw y (read_body-Ends _ fresh)
            | inr n ↦ rw n (rate_limited-Ends _ "lease rate limit exceeded" _ refl)
          ]
