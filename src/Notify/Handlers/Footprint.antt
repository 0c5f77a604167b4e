-- ===== src/Notify/Handlers/Footprint.antt =====
-- internal/notify/server.go: the signed event that each request of an authenticated caller leaves.
use agent_cred_broker.Prelude.{
  ℕ, suc, ◌≡◌, refl, subst, inl, inr, true, false, not, ◌||◌, Option, none, some, String, Assoc,
  lookup, str_eq, Bool-cases, Option-cases,
}
use Prim.Native.String.{◌++◌ as append_text}
use agent_cred_broker.RateLimit.{Limiter, allow}
use agent_cred_broker.Audit.{Event, text, flag, key}
use agent_cred_broker.Audit.Codec.{Codec}
use agent_cred_broker.Audit.Emitter.{emit}
use agent_cred_broker.Server.{Caller, Trail, read_clock, count, record_event}
use agent_cred_broker.Notify.Grants.{grant_for, push_target}
use agent_cred_broker.Notify.HomeAssistant.{ha_allowed, service_url, send, call}
use agent_cred_broker.Notify.LeaseClient.{Lease, own_token, ask, ask_with, lease}
use agent_cred_broker.Notify.{
  HaValue, Outside, Proxy, bad_request, grant_denied, rate_limited, upstream_failure, Response,
  problem, receipt, Handler, allow_caller, allow_rl_audit,
}
use agent_cred_broker.Notify.Handlers.{
  notify_forwarded, notify_denied, bad_data_key, PushRequest, PersistRequest, id_allowed,
  lease_context, is_delivered, emit_forwarded, conclude, forward_leased, forward, deny, refuse_rate,
  rate_ok, push_checked, read_push, handle_push, check_id, read_create, handle_persistent_create,
  read_dismiss, handle_persistent_dismiss, Route, push, create, dismiss, route,
}

-- What the event says to this answer: a forward with its success, or a denial.
abbrev pub Tells : Response → Event → Type 0
Tells (receipt status id) ev =
    (ev.event_type ≡ notify_forwarded) × (lookup "delivered" ev.attested ≡ some (flag true))
Tells (problem status upstream_failure title id) ev =
    (ev.event_type ≡ notify_forwarded) × (lookup "delivered" ev.attested ≡ some (flag false))
Tells (problem status p title id) ev =
    (ev.event_type ≡ notify_denied) × (lookup "decision" ev.attested ≡ some (text "denied"))

-- One event was handed to the emitter, with the next write; or the caller is throttled, and the limiter
-- of these events has nothing left for it.
pub data Footprint (c : Codec) (who : Caller) (rl_audit : Limiter) (before : Trail)
    (x : Response × Proxy) : Type 0 where
  recorded :
      (ev : Event) (n : ℕ)
      → x.1.trail.emitter
        ≡ (emit c
            (before.world.clock n)
            (before.world.writing before.world.writes)
            ev
            before.emitter).1
      → x.1.trail.world.writes ≡ suc before.world.writes
      → ev.subject ≡ some who.subject
      → ev.request_id ≡ who.request_id
      → Tells x.0 ev
      → Footprint c who rl_audit before x
  silent :
      (title : String) (now : ℕ)
      → x.0 ≡ problem 429 rate_limited title who.request_id
      → (allow (key who.subject) now rl_audit).0 ≡ false
      → x.1.trail.emitter ≡ before.emitter
      → x.1.trail.world.writes ≡ before.world.writes
      → Footprint c who rl_audit before x

module _ (c : Codec) (o : Outside) (who : Caller) (rl : Limiter) where
  denied :
      (kind reason title : String) (status : ℕ) (asserted : Assoc String) (s : Proxy)
      → Footprint c who rl s.trail (deny c o who kind reason status bad_request title asserted s)
        × Footprint c who rl s.trail (deny c o who kind reason status grant_denied title asserted s)
  unfolding deny count record_event lookup
  denied kind reason title status asserted s =
      (recorded _ _ refl refl refl refl (refl, refl), recorded _ _ refl refl refl refl (refl, refl))

  conclude-Footprint :
      (kind domain service id : String) (reply : Option ℕ) (s : Proxy)
      → Footprint c who rl s.trail (conclude c o who kind domain service id reply s)
  unfolding conclude emit_forwarded count record_event lookup
  conclude-Footprint kind domain service id reply s = elim (Bool-cases (is_delivered reply)) [
    | inl y ↦ rw y (recorded _ _ refl refl refl refl (refl, refl))
    | inr n ↦ rw n (recorded _ _ refl refl refl refl (refl, refl))
  ]

  forward_leased-Footprint :
      (kind domain service : String) (body : Assoc HaValue) (got : Option Lease) (s : Proxy)
      → Footprint c who rl s.trail (forward_leased c o who kind domain service body got s)
  unfolding forward_leased emit_forwarded count record_event lookup call send
  forward_leased-Footprint kind domain service body none s =
      recorded _ _ refl refl refl refl (refl, refl)
  forward_leased-Footprint kind domain service body (some l) s =
      let blocked =
        not (ha_allowed domain service) || not (o.accepts (service_url s.ha_base domain service)) in
      elim (Bool-cases blocked) [
        | inl y ↦ rw y (conclude-Footprint kind domain service l.lease_id none s)
        | inr n ↦ rw n (conclude-Footprint kind domain service l.lease_id _ (record s { sent = _ }))
      ]

  ask_with-trail :
      (url : String) (context : Assoc String) (token : Option String) (s : Proxy)
      → (ask_with o url context token s).1.trail ≡ s.trail
  unfolding ask_with ask
  ask_with-trail url context none s = refl
  ask_with-trail url context (some token) s = refl

  lease-trail : (context : Assoc String) (s : Proxy) → (lease o context s).1.trail ≡ s.trail
  unfolding lease own_token
  lease-trail context s =
      elim (Bool-cases (not (o.accepts (append_text s.broker_url "/v1/leases")))) [
        | inl y ↦ rw y refl
        | inr n ↦ rw n (ask_with-trail _ context _ _)
      ]

  forward-Footprint :
      (kind domain service : String) (body : Assoc HaValue) (s : Proxy)
      → Footprint c who rl s.trail (forward c o who kind domain service body s)
  unfolding forward
  forward-Footprint kind domain service body s =
      let (got, s') = lease o (lease_context who kind domain service) s in
      subst (λ t. Footprint c who rl t (forward_leased c o who kind domain service body got s'))
        (lease-trail (lease_context who kind domain service) s)
        (forward_leased-Footprint kind domain service body got s')

  read_push-Footprint :
      (body : Option PushRequest) (s : Proxy)
      → Footprint c who rl s.trail (read_push c o who body s)
  unfolding read_push push_checked
  read_push-Footprint none s = (denied _ _ _ _ _ s).0
  read_push-Footprint (some req) s =
      elim (Bool-cases (str_eq (push_target s.policy (key who.subject)) "")) [
        | inl y ↦ rw y (denied _ _ _ _ _ s).1
        | inr n ↦ elim (Option-cases (bad_data_key req.extra)) [
          | inl ok ↦ rw (n, ok, push_checked) (forward-Footprint _ _ _ _ s)
          | inr (k, bad) ↦ rw (n, bad, push_checked) (denied _ _ _ _ _ s).0
        ]
      ]

  check_id-Footprint :
      (kind service id : String) (body : Assoc HaValue) (s : Proxy)
      → Footprint c who rl s.trail (check_id c o who kind service id body s)
  unfolding check_id
  check_id-Footprint kind service id body s =
      elim (Bool-cases (id_allowed (grant_for s.policy (key who.subject) kind) id)) [
        | inl y ↦ rw y (forward-Footprint _ _ _ _ s)
        | inr n ↦ rw n (denied _ _ _ _ _ s).1
      ]

  read_create-Footprint :
      (body : Option PersistRequest) (s : Proxy)
      → Footprint c who rl s.trail (read_create c o who body s)
  unfolding read_create
  read_create-Footprint none s = (denied _ _ _ _ _ s).0
  read_create-Footprint (some req) s = check_id-Footprint _ _ _ _ s

  read_dismiss-Footprint :
      (body : Option String) (s : Proxy) → Footprint c who rl s.trail (read_dismiss c o who body s)
  unfolding read_dismiss
  read_dismiss-Footprint none s = (denied _ _ _ _ _ s).0
  read_dismiss-Footprint (some id) s = check_id-Footprint _ _ _ _ s

module _ (c : Codec) (o : Outside) (who : Caller) where
  refuse_rate-Footprint : (s : Proxy) → Footprint c who s.rl_audit s.trail (refuse_rate c o who s)
  unfolding refuse_rate allow_rl_audit read_clock count record_event lookup
  refuse_rate-Footprint s =
      let now = s.trail.world.clock s.trail.world.reads in
      elim (Bool-cases (allow (key who.subject) now s.rl_audit).0) [
        | inl y ↦ rw y (recorded _ _ refl refl refl refl (refl, refl))
        | inr n ↦ rw n (silent _ now refl n refl refl)
      ]

  rate_ok-Footprint :
      (next : Handler Response) (s : Proxy)
      → ((s' : Proxy) → Footprint c who s.rl_audit s'.trail (next s'))
      → Footprint c who s.rl_audit (read_clock s.trail).1 (rate_ok c o who next s)
  unfolding rate_ok allow_caller read_clock
  rate_ok-Footprint next s go =
      let now = s.trail.world.clock s.trail.world.reads in
      elim (Bool-cases (allow (key who.subject) now s.limiter).0) [
        | inl y ↦ rw y (go _)
        | inr n ↦ rw n (refuse_rate-Footprint (allow_caller (key who.subject) s).1)
      ]

  -- Each request of an authenticated caller hands exactly one event to the emitter, about this caller and
  -- this request: a forward, marked as delivered exactly if the answer is the receipt, or a denial if the
  -- request was refused. The one exception is a request that the rate limiter refuses when the limiter of
  -- such events refuses as well; it leaves the stream as it is.
  pub requests_leave_Footprint :
      (r : Route) (s : Proxy)
      → Footprint c who s.rl_audit (read_clock s.trail).1 (route c o r who s)
  unfolding route handle_push handle_persistent_create handle_persistent_dismiss
  requests_leave_Footprint (push body) s =
      rate_ok-Footprint (read_push c o who body) s (read_push-Footprint c o who s.rl_audit body)
  requests_leave_Footprint (create body) s =
      rate_ok-Footprint (read_create c o who body) s (read_create-Footprint c o who s.rl_audit body)
  requests_leave_Footprint (dismiss body) s =
      rate_ok-Footprint (read_dismiss c o who body) s
        (read_dismiss-Footprint c o who s.rl_audit body)
