-- ===== src/Server/Create/Denial.antt =====
-- internal/server/handlers.go, handleLeaseCreate: what a caller can learn from a denial.
use agent_cred_broker.Prelude.{
  ℕ, ◌≡◌, refl, sym, ◌∙◌, inl, inr, false, Option, none, some, String, Assoc, Bool-cases, ltb,
  str_eq,
}
use agent_cred_broker.Audit.{key}
use agent_cred_broker.Audit.Codec.{Codec}
use agent_cred_broker.RateLimit.{allow}
use agent_cred_broker.Policy.{Scope, Grant, IssueWindow, grant_for}
use agent_cred_broker.Server.{
  Server, Caller, Response, decoded, problem, grant_denied, read_clock, allow_lease,
}
use agent_cred_broker.Server.Create.{
  LeaseRequest, deny, admit, authorize, read_body, handle_lease_create,
}

module _ (c : Codec) (who : Caller) where
  abbrev denial : Response
  denial = problem 403 grant_denied "no grant for scope" who.request_id

  admit-none :
      (req : LeaseRequest) (scope : Option Scope) (grant : Option (Grant IssueWindow)) (s : Server)
      → grant ≡ none
      → (admit c who req scope grant s).0 ≡ denial
  unfolding admit deny
  admit-none req none none s h = refl
  admit-none req (some scope) none s h = refl
  admit-none req scope (some g) s h = cc

  module _ (size : Assoc String → ℕ) where
    -- A request that is complete: it names a scope and its context is within the limit.
    pub record IsComplete (req : LeaseRequest) (s : Server) : Type 0 where
      pub named : str_eq req.scope "" ≡ false
      pub small : ltb s.cfg.max_context_bytes (size req.context) ≡ false

    read_body-none :
        (req : LeaseRequest) (s : Server)
        → IsComplete req s
        → grant_for s.policy (key who.subject) req.scope ≡ none
        → (read_body c who size (decoded req) s).0 ≡ denial
    unfolding read_body authorize
    read_body-none req s ok h = rw (ok.named, ok.small) (admit-none req _ _ s h)

    -- Two complete requests of one caller for scopes that are not granted to it get the same answer
    -- from the same broker, whether or not the scopes exist.
    pub denial_is_uniform :
        (one other : LeaseRequest) (s : Server)
        → IsComplete one s
        → IsComplete other s
        → grant_for s.policy (key who.subject) one.scope ≡ none
        → grant_for s.policy (key who.subject) other.scope ≡ none
        → (handle_lease_create c who size (decoded one) s).0
          ≡ (handle_lease_create c who size (decoded other) s).0
    unfolding handle_lease_create allow_lease read_clock
    denial_is_uniform one other s ok ok' h h' =
        elim (Bool-cases
          (allow (key who.subject) (s.trail.world.clock s.trail.world.reads) s.limits.lease).0) [
            | inl y ↦ rw y (
                read_body-none one _ (record { named = ok.named; small = ok.small }) h
                ∙ sym (read_body-none other _ (record { named = ok'.named; small = ok'.small }) h'))
            | inr n ↦ rw n
          ]
