-- ===== src/Notify/Handlers/Secrecy.antt =====
-- internal/notify/server.go: the leased token reaches Home Assistant and nothing else.
use agent_cred_broker.Prelude.{
  ℕ, ◌≡◌, refl, inl, inr, true, false, not, ◌||◌, Option, none, some, List, [], ◌∷◌, ◌++◌, length,
  String, Assoc, str_eq, Bool-cases, Option-cases,
}
use Prim.Native.String.{◌++◌ as append_text}
use agent_cred_broker.RateLimit.{allow}
use agent_cred_broker.Audit.{Subject, Source, key}
use agent_cred_broker.Audit.Codec.{Codec}
use agent_cred_broker.Server.{Caller, read_clock, count, new_id}
use agent_cred_broker.Notify.Grants.{grant_for, push_target}
use agent_cred_broker.Notify.HomeAssistant.{ha_allowed, service_url, send, call}
use agent_cred_broker.Notify.LeaseClient.{Lease, lease_of, own_token, ask, ask_with, lease}
use agent_cred_broker.Notify.{
  HaValue, HaRequest, LeaseRequest, Outside, Proxy, Problem, Response, Handler, allow_caller,
}
use agent_cred_broker.Notify.Handlers.{
  bad_data_key, PushRequest, PersistRequest, id_allowed, lease_context, is_delivered,
  emit_forwarded, conclude, forward_leased, forward, deny, refuse_rate, rate_ok, push_checked,
  read_push, handle_push, check_id, read_create, handle_persistent_create, read_dismiss,
  handle_persistent_dismiss, Route, push, create, dismiss, route,
}
use agent_cred_broker.Notify.Auth.{admit_subject, check_token, with_auth, serve}

-- Both leases fail, or both have the same identifier; the tokens may differ.
abbrev pub SameId : Option Lease → Option Lease → Type 0
SameId none none = Unit
SameId none (some l) = ⊥
SameId (some l) none = ⊥
SameId (some l) (some l') = l.lease_id ≡ l'.lease_id

-- Services that differ in the tokens of their leases only: Home Assistant's status depends on what a call
-- asks for, and not on its token.
pub record Alike (o o' : Outside) : Type 0 where
  pub own : (n : ℕ) → o.read_token n ≡ o'.read_token n
  pub urls : (u : String) → o.accepts u ≡ o'.accepts u
  pub leases :
      (n : ℕ) (r : LeaseRequest) → SameId (lease_of (o.broker n r)) (lease_of (o'.broker n r))
  pub statuses :
      (n : ℕ) (r r' : HaRequest)
      → r.url ≡ r'.url
      → r.body ≡ r'.body
      → o.home_assistant n r ≡ o'.home_assistant n r'

-- The answers are the same, and so are the stream, the counters, and what was asked of the broker.
pub record Indistinct (x x' : Response × Proxy) : Type 0 where
  pub answers : x.0 ≡ x'.0
  pub trails : x.1.trail ≡ x'.1.trail
  pub asked : x.1.leased ≡ x'.1.leased

module _ (c : Codec) (o o' : Outside) (who : Caller) (alike : Alike o o') where
  ask_with-SameId :
      (url : String) (context : Assoc String) (token : Option String) (s : Proxy)
      → SameId (ask_with o url context token s).0 (ask_with o' url context token s).0
        × ((ask_with o url context token s).1 ≡ (ask_with o' url context token s).1)
  unfolding ask_with ask
  ask_with-SameId url context none s = (tt, refl)
  ask_with-SameId url context (some token) s = (alike.leases _ _, refl)

  lease-SameId :
      (context : Assoc String) (s : Proxy)
      → SameId (lease o context s).0 (lease o' context s).0
        × ((lease o context s).1 ≡ (lease o' context s).1)
  unfolding lease own_token
  lease-SameId context s =
      let u = append_text s.broker_url "/v1/leases" in
      elim (Bool-cases (not (o.accepts u))) [
        | inl y ↦
            let y' : not (o'.accepts u) ≡ true = rw (alike.urls u) at y in rw (y, y') (tt, refl)
        | inr n ↦
            let n' : not (o'.accepts u) ≡ false = rw (alike.urls u) at n in
            rw (n, n', alike.own s.token_reads) (ask_with-SameId u context _ _)
      ]

  -- The end of a forward does not look at the calls that were made.
  conclude-Indistinct :
      (kind domain service id : String) (reply : Option ℕ) (calls calls' : List HaRequest)
      (s : Proxy)
      → Indistinct
          (conclude c o who kind domain service id reply (record s { sent = calls }))
          (conclude c o' who kind domain service id reply (record s { sent = calls' }))
  unfolding conclude emit_forwarded count
  conclude-Indistinct kind domain service id reply calls calls' s =
      elim (Bool-cases (is_delivered reply)) [
        | inl y ↦ rw y (record { answers = refl; trails = refl; asked = refl })
        | inr n ↦ rw n (record { answers = refl; trails = refl; asked = refl })
      ]

  forward_leased-Indistinct :
      (kind domain service : String) (body : Assoc HaValue) (got got' : Option Lease) (s : Proxy)
      → SameId got got'
      → Indistinct
          (forward_leased c o who kind domain service body got s)
          (forward_leased c o' who kind domain service body got' s)
  unfolding forward_leased emit_forwarded count call send
  forward_leased-Indistinct kind domain service body none none s h = record {
    answers = refl;
    trails = refl;
    asked = refl;
  }
  forward_leased-Indistinct kind domain service body none (some l) s h = absurd h
  forward_leased-Indistinct kind domain service body (some l) none s h = absurd h
  forward_leased-Indistinct kind domain service body (some l) (some l') s h =
      let u = service_url s.ha_base domain service in
      let blocked = not (ha_allowed domain service) || not (o.accepts u) in
      elim (Bool-cases blocked) [
        | inl y ↦
            let y' : (not (ha_allowed domain service) || not (o'.accepts u)) ≡ true =
              rw (alike.urls u) at y in
            rw (y, y', h) (conclude-Indistinct kind domain service l'.lease_id none s.sent s.sent s)
        | inr n ↦
            let n' : (not (ha_allowed domain service) || not (o'.accepts u)) ≡ false =
              rw (alike.urls u) at n in
            let r : HaRequest = record {
              url = u;
              authorization = append_text "Bearer " l.token;
              body = body;
            } in
            let r' : HaRequest = record {
              url = u;
              authorization = append_text "Bearer " l'.token;
              body = body;
            } in
            let same = alike.statuses (length s.sent) r r' refl refl in
            rw (n, n', h, same)
              (conclude-Indistinct kind domain service l'.lease_id
                (o'.home_assistant (length s.sent) r') (s.sent ++ r ∷ []) (s.sent ++ r' ∷ []) s)
      ]

  forward-Indistinct :
      (kind domain service : String) (body : Assoc HaValue) (s : Proxy)
      → Indistinct
          (forward c o who kind domain service body s)
          (forward c o' who kind domain service body s)
  unfolding forward
  forward-Indistinct kind domain service body s =
      let context = lease_context who kind domain service in
      let (got, state) = lease-SameId context s in
      rw state (
        forward_leased-Indistinct kind domain service body (lease o context s).0
          (lease o' context s).0 (lease o' context s).1 got)

  -- A refusal does not call any service.
  deny-Indistinct :
      (kind reason : String) (status : ℕ) (p : Problem) (title : String) (asserted : Assoc String)
      (s : Proxy)
      → Indistinct
          (deny c o who kind reason status p title asserted s)
          (deny c o' who kind reason status p title asserted s)
  unfolding deny
  deny-Indistinct kind reason status p title asserted s = record {
    answers = refl;
    trails = refl;
    asked = refl;
  }

  read_push-Indistinct :
      (body : Option PushRequest) (s : Proxy)
      → Indistinct (read_push c o who body s) (read_push c o' who body s)
  unfolding read_push push_checked
  read_push-Indistinct none s = deny-Indistinct _ _ _ _ _ _ s
  read_push-Indistinct (some req) s =
      elim (Bool-cases (str_eq (push_target s.policy (key who.subject)) "")) [
        | inl y ↦ rw y (deny-Indistinct _ _ _ _ _ _ s)
        | inr n ↦ elim (Option-cases (bad_data_key req.extra)) [
          | inl ok ↦ rw (n, ok, push_checked) (forward-Indistinct _ _ _ _ s)
          | inr (k, bad) ↦ rw (n, bad, push_checked) (deny-Indistinct _ _ _ _ _ _ s)
        ]
      ]

  check_id-Indistinct :
      (kind service id : String) (body : Assoc HaValue) (s : Proxy)
      → Indistinct
          (check_id c o who kind service id body s)
          (check_id c o' who kind service id body s)
  unfolding check_id
  check_id-Indistinct kind service id body s =
      elim (Bool-cases (id_allowed (grant_for s.policy (key who.subject) kind) id)) [
        | inl y ↦ rw y (forward-Indistinct _ _ _ _ s)
        | inr n ↦ rw n (deny-Indistinct _ _ _ _ _ _ s)
      ]

  read_create-Indistinct :
      (body : Option PersistRequest) (s : Proxy)
      → Indistinct (read_create c o who body s) (read_create c o' who body s)
  unfolding read_create
  read_create-Indistinct none s = deny-Indistinct _ _ _ _ _ _ s
  read_create-Indistinct (some req) s = check_id-Indistinct _ _ _ _ s

  read_dismiss-Indistinct :
      (body : Option String) (s : Proxy)
      → Indistinct (read_dismiss c o who body s) (read_dismiss c o' who body s)
  unfolding read_dismiss
  read_dismiss-Indistinct none s = deny-Indistinct _ _ _ _ _ _ s
  read_dismiss-Indistinct (some id) s = check_id-Indistinct _ _ _ _ s

  rate_ok-Indistinct :
      (next next' : Handler Response) (s : Proxy)
      → ((s' : Proxy) → Indistinct (next s') (next' s'))
      → Indistinct (rate_ok c o who next s) (rate_ok c o' who next' s)
  unfolding rate_ok allow_caller read_clock refuse_rate
  rate_ok-Indistinct next next' s go =
      let now = s.trail.world.clock s.trail.world.reads in
      elim (Bool-cases (allow (key who.subject) now s.limiter).0) [
        | inl y ↦ rw y (go _)
        | inr n ↦ rw n (record { answers = refl; trails = refl; asked = refl })
      ]

  pub route-Indistinct :
      (r : Route) (s : Proxy) → Indistinct (route c o r who s) (route c o' r who s)
  unfolding route handle_push handle_persistent_create handle_persistent_dismiss
  route-Indistinct (push body) s =
      rate_ok-Indistinct (read_push c o who body) (read_push c o' who body) s
        (read_push-Indistinct body)
  route-Indistinct (create body) s =
      rate_ok-Indistinct (read_create c o who body) (read_create c o' who body) s
        (read_create-Indistinct body)
  route-Indistinct (dismiss body) s =
      rate_ok-Indistinct (read_dismiss c o who body) (read_dismiss c o' who body) s
        (read_dismiss-Indistinct body)

module _ (c : Codec) (authn : String → Option Subject) where
  same_run : (x : Response × Proxy) → Indistinct x x
  same_run x = record { answers = refl; trails = refl; asked = refl }

  check_token-Indistinct :
      (id : String) (source : Source) (token : Option String)
      (next next' : Caller → Handler Response) (s : Proxy)
      → ((who : Caller) → Indistinct (next who s) (next' who s))
      → Indistinct
          (check_token c authn id source token next s)
          (check_token c authn id source token next' s)
  unfolding check_token admit_subject
  check_token-Indistinct id source none next next' s go = same_run _
  check_token-Indistinct id source (some t) next next' s go = elim (Bool-cases (str_eq t "")) [
    | inl y ↦ rw y (same_run _)
    | inr n ↦ elim (Option-cases (authn t)) [
      | inl bad ↦ rw (n, bad, admit_subject) (same_run _)
      | inr (subject, ok) ↦ rw (n, ok, admit_subject) (go _)
    ]
  ]

  -- The leased token stays between the broker and Home Assistant. With two sets of services that differ
  -- only in the tokens of their leases, where Home Assistant's status does not depend on the token, each
  -- request has the same answer, and leaves the same signed stream, counters and requests to the broker:
  -- so none of these tells anything about the token.
  pub token_stays_secret :
      (o o' : Outside) (source : Source) (header : String) (r : Route) (s : Proxy)
      → Alike o o'
      → Indistinct (serve c o authn source header r s) (serve c o' authn source header r s)
  unfolding serve with_auth
  token_stays_secret o o' source header r s alike =
      let t : Proxy = record s { trail = (new_id "req" s.trail).1 } in
      check_token-Indistinct _ source _ (route c o r) (route c o' r) t
        (λ who. route-Indistinct c o o' who alike r t)
