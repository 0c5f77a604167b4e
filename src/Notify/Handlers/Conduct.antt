-- ===== src/Notify/Handlers/Conduct.antt =====
-- internal/notify/server.go: what a request makes the proxy send to Home Assistant.
use Prim.Native.String.{◌++◌ as append_text}
use agent_cred_broker.Prelude.{
  ℕ, ◌≡◌, refl, subst, inl, inr, true, not, ◌||◌, Option, none, some, List, [], ◌∷◌, ◌++◌, length,
  String, Assoc, Bool-cases, arith, if◌then◌else◌,
}
use agent_cred_broker.Audit.Codec.{Codec}
use agent_cred_broker.Server.{Caller, count}
use agent_cred_broker.Notify.Grants.{}
use agent_cred_broker.Notify.HomeAssistant.{ha_allowed, service_url, send, call}
use agent_cred_broker.Notify.LeaseClient.{Lease, own_token, ask, ask_with, lease}
use agent_cred_broker.Notify.{
  HaValue, HaRequest, Outside, Proxy, Problem, upstream_failure, Response, problem, receipt,
}
use agent_cred_broker.Notify.Handlers.{
  lease_context, is_delivered, emit_forwarded, conclude, forward_leased, forward, deny,
}

-- The two ways in which a request ends, after these calls: with a problem and no call, or with one call,
-- whose status decides between the receipt and the problem 502.
pub data Ends (o : Outside) (P : HaRequest → Type 0) (id : String) (before : List HaRequest)
    (x : Response × Proxy) : Type 0 where
  refused :
      (status : ℕ) (p : Problem) (title : String)
      → x.0 ≡ problem status p title id
      → x.1.sent ≡ before
      → Ends o P id before x
  called :
      (r : HaRequest)
      → P r
      → x.1.sent ≡ before ++ r ∷ []
      → x.0 ≡ (
          if is_delivered (o.home_assistant (length before) r)
          then receipt 201 id
          else problem 502 upstream_failure "notification not delivered" id)
      → Ends o P id before x

-- The request that a call makes.
abbrev pub To : String → String → String → Assoc HaValue → HaRequest → Type 0
To base domain service body r =
    (ha_allowed domain service ≡ true) × (r.url ≡ service_url base domain service) × (r.body ≡ body)

module _ (c : Codec) (o : Outside) (who : Caller) where
  pub deny-Ends :
      {P : HaRequest → Type 0} (kind reason : String) (status : ℕ) (p : Problem) (title : String)
      (asserted : Assoc String) (s : Proxy)
      → Ends o P who.request_id s.sent (deny c o who kind reason status p title asserted s)
  unfolding deny count
  deny-Ends kind reason status p title asserted s = refused status p title refl refl

  -- The answer depends on the reply, and nothing more is sent.
  pub conclude_lem :
      (kind domain service id : String) (reply : Option ℕ) (s : Proxy)
      → ((conclude c o who kind domain service id reply s).0 ≡ (
          if is_delivered reply
          then receipt 201 who.request_id
          else problem 502 upstream_failure "notification not delivered" who.request_id))
        × ((conclude c o who kind domain service id reply s).1.sent ≡ s.sent)
  unfolding conclude emit_forwarded count
  conclude_lem kind domain service id reply s = elim (Bool-cases (is_delivered reply)) [
    | inl y ↦ rw y (refl, refl)
    | inr n ↦ rw n (refl, refl)
  ]

  forward_leased-Ends :
      (kind domain service : String) (body : Assoc HaValue) (got : Option Lease) (s : Proxy)
      → Ends o
          (To s.ha_base domain service body)
          who.request_id
          s.sent
          (forward_leased c o who kind domain service body got s)
  unfolding forward_leased emit_forwarded count call send is_delivered
  forward_leased-Ends kind domain service body none s =
      refused 502 upstream_failure "could not obtain notify credential" refl refl
  forward_leased-Ends kind domain service body (some l) s =
      let blocked =
        not (ha_allowed domain service) || not (o.accepts (service_url s.ha_base domain service)) in
      elim (Bool-cases blocked) [
        | inl y ↦
            let end = conclude_lem kind domain service l.lease_id none s in
            rw y (refused 502 upstream_failure "notification not delivered" end.0 end.1)
        | inr n ↦
            let r : HaRequest = record {
              url = service_url s.ha_base domain service;
              authorization = append_text "Bearer " l.token;
              body = body;
            } in
            let s' : Proxy = record s { sent = s.sent ++ r ∷ [] } in
            let end =
              conclude_lem kind domain service l.lease_id (o.home_assistant (length s.sent) r) s' in
            rw n (called r (ground arith, refl, refl) end.1 end.0)
      ]

  ask_with-sent :
      (url : String) (context : Assoc String) (token : Option String) (s : Proxy)
      → ((ask_with o url context token s).1.sent ≡ s.sent)
        × ((ask_with o url context token s).1.ha_base ≡ s.ha_base)
        × ((ask_with o url context token s).1.policy ≡ s.policy)
  unfolding ask_with ask
  ask_with-sent url context none s = (refl, refl, refl)
  ask_with-sent url context (some token) s = (refl, refl, refl)

  pub lease-sent :
      (context : Assoc String) (s : Proxy)
      → ((lease o context s).1.sent ≡ s.sent)
        × ((lease o context s).1.ha_base ≡ s.ha_base)
        × ((lease o context s).1.policy ≡ s.policy)
  unfolding lease own_token
  lease-sent context s =
      elim (Bool-cases (not (o.accepts (append_text s.broker_url "/v1/leases")))) [
        | inl y ↦ rw y (refl, refl, refl)
        | inr n ↦ rw n (ask_with-sent _ context _ _)
      ]

  pub forward-Ends :
      (kind domain service : String) (body : Assoc HaValue) (s : Proxy)
      → Ends o
          (To s.ha_base domain service body)
          who.request_id
          s.sent
          (forward c o who kind domain service body s)
  unfolding forward
  forward-Ends kind domain service body s =
      let context = lease_context who kind domain service in
      let same = lease-sent context s in
      let end =
        forward_leased-Ends kind domain service body (lease o context s).0 (lease o context s).1 in
      subst
        (λ b. Ends o (To b domain service body) who.request_id s.sent (
          forward_leased c o who kind domain service body (lease o context s).0
            (lease o context s).1))
        same.1
        (subst
          (λ b. Ends o (To (lease o context s).1.ha_base domain service body) who.request_id b (
            forward_leased c o who kind domain service body (lease o context s).0
              (lease o context s).1))
          same.0 end)

pub Ends-map :
    {o : Outside} {P Q : HaRequest → Type 0} {id : String} {before : List HaRequest}
    {x : Response × Proxy}
    → ((r : HaRequest) → P r → Q r)
    → Ends o P id before x
    → Ends o Q id before x
Ends-map f (refused status p title e k) = refused status p title e k
Ends-map f (called r h e k) = called r (f r h) e k
