-- ===== src/Notify/Handlers/Permission.antt =====
-- internal/notify/server.go: what a grant permits, and that a handler sends nothing else.
use Prim.Native.String.{◌++◌ as append_text}
use agent_cred_broker.Prelude.{
  ◌≡◌, ◌≢◌, refl, sym, ap, ◌∙◌, subst, inl, inr, true, not, Option, none, some, List, [], ◌∷◌,
  String, Assoc, str_eq, eq_iff, has_prefix, has_prefix-exact, Bool-cases, Option-cases, arith,
  and_parts,
}
use agent_cred_broker.RateLimit.{allow}
use agent_cred_broker.Audit.{key}
use agent_cred_broker.Audit.Codec.{Codec}
use agent_cred_broker.Server.{Caller, read_clock, count}
use agent_cred_broker.Regexp.{match_string}
use agent_cred_broker.Notify.Grants.{
  Grant, Policy, kind_push, kind_create, kind_dismiss, ha_target, grant_for, push_target,
  pinned_target,
}
use agent_cred_broker.Notify.HomeAssistant.{service_url, path_escape, ha_allowed, unescaped}
use agent_cred_broker.Notify.HomeAssistant.Ceiling.{service_url_push}
use agent_cred_broker.Notify.{
  HaValue, word, HaRequest, Outside, Proxy, rate_limited, Response, problem, Handler, allow_caller,
  allow_rl_audit,
}
use agent_cred_broker.Notify.Handlers.{
  bad_data_key, PushRequest, PersistRequest, id_allowed, refuse_rate, rate_ok, push_body,
  push_checked, read_push, handle_push, check_id, read_create, handle_persistent_create,
  read_dismiss, handle_persistent_dismiss, Route, push, create, dismiss, route,
}
use agent_cred_broker.Notify.Handlers.Conduct.{Ends, refused, Ends-map, deny-Ends, forward-Ends}
use agent_cred_broker.Notify.Auth.{}

-- The first target of the push grant that the agent holds, named in the URL.
pub record Pinned (p : Policy) (base agent : String) (req : PushRequest) (r : HaRequest)
    : Type 0 where
  pub grant : Grant
  pub target : String
  pub others : List String
  pub held : grant_for p agent kind_push ≡ some grant
  pub first : grant.targets ≡ target ∷ others
  pub url_is : r.url ≡ append_text base (append_text "/api/services/notify/" target)
  pub keys_allowed : bad_data_key req.extra ≡ none
  pub body_is : r.body ≡ push_body req

-- A notification whose identifier begins with the prefix of the grant of this kind.
pub record Prefixed (p : Policy) (agent kind : String) (id url : String) (body : Assoc HaValue)
    (r : HaRequest) : Type 0 where
  pub grant : Grant
  pub rest : String
  pub held : grant_for p agent kind ≡ some grant
  pub id_is : id ≡ append_text grant.id_prefix rest
  pub not_empty : id ≢ ""
  pub url_is : r.url ≡ url
  pub body_is : r.body ≡ body

-- What the agent may have sent by a request of this route.
abbrev pub Permitted : Policy → String → String → Route → HaRequest → Type 0
Permitted p base agent (push none) r = ⊥
Permitted p base agent (push (some req)) r = Pinned p base agent req r
Permitted p base agent (create none) r = ⊥
Permitted p base agent (create (some req)) r =
    Prefixed p agent kind_create req.notification_id
      (append_text base "/api/services/persistent_notification/create")
      (("notification_id", word req.notification_id)
        ∷ ("title", word req.title)
        ∷ ("message", word req.message)
        ∷ [])
      r
Permitted p base agent (dismiss none) r = ⊥
Permitted p base agent (dismiss (some id)) r =
    Prefixed p agent kind_dismiss id
      (append_text base "/api/services/persistent_notification/dismiss")
      (("notification_id", word id) ∷ []) r

-- A target that is not empty is the first of a push grant.
pub pinned_lem :
    (g : Option Grant)
    → pinned_target g ≢ ""
    → (h : Grant) × (ts : List String) × (g ≡ some h) × (h.targets ≡ pinned_target g ∷ ts)
pinned_lem none ne = absurd (ne refl)
pinned_lem (some g) ne =
    elim g.targets
        as (λ l.
          (pinned_target (some (record g { targets = l })) ≢ "")
          → (h : Grant) × (ts : List String) × (some (record g { targets = l }) ≡ some h)
            × (h.targets ≡ pinned_target (some (record g { targets = l })) ∷ ts)) [
              | [] ↦ λ ne'. absurd (ne' refl)
              | t ∷ ts ↦ λ ne'. (record g { targets = t ∷ ts }, ts, refl, refl)
            ]
      ne

-- A push goes to a service name, which the ceiling itself tests.
allowed_target : (t : String) → ha_allowed "notify" t ≡ true → match_string ha_target t ≡ true
unfolding ha_allowed
allowed_target t h = h

module _ (c : Codec) (o : Outside) (who : Caller) where
  refuse_rate_lem :
      (s : Proxy)
      → ((refuse_rate c o who s).0
          ≡ problem 429 rate_limited "notify rate limit exceeded" who.request_id)
        × ((refuse_rate c o who s).1.sent ≡ s.sent)
  unfolding refuse_rate allow_rl_audit read_clock count
  refuse_rate_lem s =
      let t =
        (read_clock
          (count "acb_notify_rate_limited_total" (("subject", key who.subject) ∷ []) s.trail)).0 in
      elim (Bool-cases (allow (key who.subject) t s.rl_audit).0) [
        | inl y ↦ rw y (refl, refl)
        | inr n ↦ rw n (refl, refl)
      ]

  rate_ok-Ends :
      {P : HaRequest → Type 0} (next : Handler Response) (s : Proxy)
      → ((s' : Proxy)
          → s'.sent ≡ s.sent
          → s'.policy ≡ s.policy
          → s'.ha_base ≡ s.ha_base
          → Ends o P who.request_id s.sent (next s'))
      → Ends o P who.request_id s.sent (rate_ok c o who next s)
  unfolding rate_ok allow_caller read_clock
  rate_ok-Ends next s go =
      let now = s.trail.world.clock s.trail.world.reads in
      elim (Bool-cases (allow (key who.subject) now s.limiter).0) [
        | inl y ↦ rw y (go _ refl refl refl)
        | inr n ↦
            let end = refuse_rate_lem (allow_caller (key who.subject) s).1 in
            rw n (refused 429 rate_limited "notify rate limit exceeded" end.0 end.1)
      ]

  -- The rest of each handler, from the state itself.
  push-Ends :
      (target : String) (req : PushRequest) (s : Proxy)
      → push_target s.policy (key who.subject) ≡ target
      → target ≢ ""
      → Ends o
          (Pinned s.policy s.ha_base (key who.subject) req)
          who.request_id
          s.sent
          (push_checked c o who target req (bad_data_key req.extra) s)
  unfolding push_target push_checked
  push-Ends target req s e ne = elim (Option-cases (bad_data_key req.extra)) [
    | inl ok ↦
        let ne' : pinned_target (grant_for s.policy (key who.subject) kind_push) ≢ "" =
          λ z. ne (sym e ∙ z) in
        let (g, ts, held, first) =
          pinned_lem (grant_for s.policy (key who.subject) kind_push) ne' in
        rw (ok, push_checked)
          (Ends-map
            (λ r h. record {
              grant = g;
              target = target;
              others = ts;
              held = held;
              first = first ∙ ap (λ t. t ∷ ts) e;
              url_is = h.1 ∙ service_url_push s.ha_base target (allowed_target target h.0);
              keys_allowed = ok;
              body_is = h.2;
            })
            (forward-Ends c o who kind_push "notify" target (push_body req) s))
    | inr (k, bad) ↦ rw (bad, push_checked) (deny-Ends c o who _ _ _ _ _ _ s)
  ]

  read_push-Ends :
      (body : Option PushRequest) (s : Proxy)
      → Ends o
          (Permitted s.policy s.ha_base (key who.subject) (push body))
          who.request_id
          s.sent
          (read_push c o who body s)
  unfolding read_push
  read_push-Ends none s = deny-Ends c o who _ _ _ _ _ _ s
  read_push-Ends (some req) s =
      elim (Bool-cases (str_eq (push_target s.policy (key who.subject)) "")) [
        | inl y ↦ rw y (deny-Ends c o who _ _ _ _ _ _ s)
        | inr n ↦ rw n (
            push-Ends (push_target s.policy (key who.subject)) req s refl
              (λ e. let y = (eq_iff (push_target s.policy (key who.subject)) "").1 e in cc))
      ]

  id_allowed_lem :
      (g : Option Grant) (id : String)
      → id_allowed g id ≡ true
      → (h : Grant) × (rest : String) × (g ≡ some h)
        × (id ≡ append_text h.id_prefix rest)
        × (id ≢ "")
  unfolding id_allowed
  id_allowed_lem none id e = cc
  id_allowed_lem (some g) id e =
      let (full, starts) = and_parts (not (str_eq id "")) (has_prefix g.id_prefix id) e in
      let (rest, is) = has_prefix-exact g.id_prefix id starts in
      (g, rest, refl, is, (λ z. let y = (eq_iff id "").1 z in ground arith))

  check_id-Ends :
      (kind service id : String) (body : Assoc HaValue) (s : Proxy)
      → Ends o
          (Prefixed s.policy
            (key who.subject)
            kind
            id
            (service_url s.ha_base "persistent_notification" service)
            body)
          who.request_id
          s.sent
          (check_id c o who kind service id body s)
  unfolding check_id
  check_id-Ends kind service id body s =
      elim (Bool-cases (id_allowed (grant_for s.policy (key who.subject) kind) id)) [
        | inl y ↦
            let (g, rest, held, is, full) =
              id_allowed_lem (grant_for s.policy (key who.subject) kind) id y in
            rw y (
              Ends-map
                (λ r h. record {
                  grant = g;
                  rest = rest;
                  held = held;
                  id_is = is;
                  not_empty = full;
                  url_is = h.1;
                  body_is = h.2;
                })
                (forward-Ends c o who kind "persistent_notification" service body s))
        | inr n ↦ rw n (deny-Ends c o who _ _ _ _ _ _ s)
      ]

  read_create-Ends :
      (body : Option PersistRequest) (s : Proxy)
      → Ends o
          (Permitted s.policy s.ha_base (key who.subject) (create body))
          who.request_id
          s.sent
          (read_create c o who body s)
  unfolding read_create service_url path_escape unescaped
  read_create-Ends none s = deny-Ends c o who _ _ _ _ _ _ s
  read_create-Ends (some req) s = check_id-Ends kind_create "create" req.notification_id _ s

  read_dismiss-Ends :
      (body : Option String) (s : Proxy)
      → Ends o
          (Permitted s.policy s.ha_base (key who.subject) (dismiss body))
          who.request_id
          s.sent
          (read_dismiss c o who body s)
  unfolding read_dismiss service_url path_escape unescaped
  read_dismiss-Ends none s = deny-Ends c o who _ _ _ _ _ _ s
  read_dismiss-Ends (some id) s = check_id-Ends kind_dismiss "dismiss" id _ s

  -- What holds from a state with the same policy, base and calls.
  carried :
      (r : Route) (next : Handler Response) (s s' : Proxy)
      → s'.sent ≡ s.sent
      → s'.policy ≡ s.policy
      → s'.ha_base ≡ s.ha_base
      → Ends o (Permitted s'.policy s'.ha_base (key who.subject) r) who.request_id s'.sent (next s')
      → Ends o (Permitted s.policy s.ha_base (key who.subject) r) who.request_id s.sent (next s')
  carried r next s s' a b d h =
      subst
        (λ k. Ends o (Permitted s.policy s.ha_base (key who.subject) r) who.request_id k (next s'))
        a
        (subst
          (λ k. Ends o (Permitted k s.ha_base (key who.subject) r) who.request_id s'.sent (next s'))
          b
          (subst
            (λ k.
              Ends o (Permitted s'.policy k (key who.subject) r) who.request_id s'.sent (next s'))
            d h))

  pub route-Ends :
      (r : Route) (s : Proxy)
      → Ends o
          (Permitted s.policy s.ha_base (key who.subject) r)
          who.request_id
          s.sent
          (route c o r who s)
  unfolding route handle_push handle_persistent_create handle_persistent_dismiss
  route-Ends (push body) s =
      rate_ok-Ends (read_push c o who body) s (λ s' a b d.
        carried (push body) (read_push c o who body) s s' a b d (read_push-Ends body s'))
  route-Ends (create body) s = rate_ok-Ends (read_create c o who body) s (λ s' a b d.
      carried (create body) (read_create c o who body) s s' a b d (read_create-Ends body s'))
  route-Ends (dismiss body) s = rate_ok-Ends (read_dismiss c o who body) s (λ s' a b d.
      carried (dismiss body) (read_dismiss c o who body) s s' a b d (read_dismiss-Ends body s'))
