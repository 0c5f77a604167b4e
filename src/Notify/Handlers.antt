-- ===== src/Notify/Handlers.antt =====
-- internal/notify/server.go: the handlers of the proxy, with their effects. `c` is the codec of the
-- emitter and `o` the services outside. A body that does not decode is `none`.
pub mod Conduct
pub mod Permission
pub mod Authority
pub mod Footprint
pub mod Secrecy
pub mod Reach
use Prim.Native.String.{◌++◌ as append_text}
use agent_cred_broker.Prelude.{
  ℕ, Bool, true, false, not, ◌||◌, ◌&&◌, leb, ltb, Option, none, some, List, [], ◌∷◌, String, Assoc,
  pos, lookup, str_eq, has_prefix, cut_prefix, if◌then◌else◌,
}
use agent_cred_broker.Audit.{
  Subject, Source, Value, Event, event, key, auth_failed, text, number, flag,
}
use agent_cred_broker.Audit.Codec.{Codec}
use agent_cred_broker.Server.{Caller, new_id}
use agent_cred_broker.Notify.Grants.{
  Grant, kind_push, kind_create, kind_dismiss, grant_for, push_target,
}
use agent_cred_broker.Notify.HomeAssistant.{call}
use agent_cred_broker.Notify.LeaseClient.{Lease, lease}
use agent_cred_broker.Notify.{
  HaValue, word, table, Outside, Proxy, Problem, unauthenticated, grant_denied, bad_request,
  rate_limited, upstream_failure, Response, problem, receipt, Handler, ◌>>=◌, ◌>>◌, answer, reads,
  on_trail, count_metric, emit_event, allow_caller, allow_auth_fail, allow_rl_audit,
}

-- The event types.
abbrev pub notify_forwarded : String
notify_forwarded = "notify.forwarded"

abbrev pub notify_denied : String
notify_denied = "notify.denied"

-- allowedPushDataKeys
unfoldable pub allowed_data_key : String → Bool
allowed_data_key k = str_eq k "group" || str_eq k "tag" || str_eq k "url"

-- The first key that the loop over the data refuses.
unfoldable pub bad_data_key : Assoc String → Option String
bad_data_key [] = none
bad_data_key ((k, v) ∷ m) =
    let later = bad_data_key m in if not (allowed_data_key k) then some k else later

pub record PushRequest : Type 0 where
  pub title : String
  pub message : String
  pub extra : Assoc String

pub record PersistRequest : Type 0 where
  pub notification_id : String
  pub title : String
  pub message : String

-- idAllowed, for the grant of the kind: it is held, and the identifier has its prefix.
unfoldable pub id_allowed : Option Grant → String → Bool
id_allowed none id = false
id_allowed (some g) id = not (str_eq id "") && has_prefix g.id_prefix id

unfoldable pub lease_context : Caller → String → String → String → Assoc String
lease_context who kind domain service =
    ("originating_agent", key who.subject)
    ∷ ("action", kind)
    ∷ ("ha_service", append_text domain (append_text "/" service))
    ∷ (if str_eq who.subject.pod "" then [] else ("originating_pod", who.subject.pod) ∷ [])

-- What emitForwarded reports of a call.
pub record Outcome : Type 0 where
  pub status : ℕ
  pub delivered : Bool
  pub lease_id : String
  pub error : String

abbrev unless_empty : String → String → Assoc Value
unless_empty name value = if str_eq value "" then [] else (name, text value) ∷ []

abbrev append_entries : Assoc Value → Assoc Value → Assoc Value
append_entries [] more = more
append_entries (e ∷ es) more = e ∷ append_entries es more

abbrev pub forwarded_event : Caller → String → String → String → String → Outcome → Event
forwarded_event who kind domain service hash x =
    event notify_forwarded who.request_id (some who.subject) (some who.source)
      (("kind", text kind)
        ∷ ("ha_domain", text domain)
        ∷ ("ha_service", text service)
        ∷ ("ha_status", number (pos x.status))
        ∷ ("delivered", flag x.delivered)
        ∷ ("policy_hash", text hash)
        ∷ append_entries (unless_empty "lease_id" x.lease_id) (unless_empty "error" x.error))
      []

abbrev pub denied_event : Caller → String → String → String → Assoc String → Event
denied_event who kind reason hash asserted =
    event notify_denied who.request_id (some who.subject) (some who.source)
      (("kind", text kind)
        ∷ ("reason", text reason)
        ∷ ("decision", text "denied")
        ∷ ("policy_hash", text hash)
        ∷ [])
      asserted

abbrev pub throttled_event : Caller → String → Event
throttled_event who hash =
    event notify_denied who.request_id (some who.subject) (some who.source)
      (("reason", text "rate-limited")
        ∷ ("decision", text "denied")
        ∷ ("aggregated", flag true)
        ∷ ("policy_hash", text hash)
        ∷ [])
      []

-- The status and the error class of the answer to a call.
abbrev status_of : Option ℕ → ℕ
status_of none = 0
status_of (some n) = n

unfoldable pub is_delivered : Option ℕ → Bool
is_delivered none = false
is_delivered (some n) = leb 200 n && ltb n 300

abbrev error_class : Option ℕ → String
error_class none = "ha-unreachable"
error_class (some n) = if is_delivered (some n) then "" else "ha-status"

abbrev pub push_body : PushRequest → Assoc HaValue
push_body req =
    ("title", word req.title)
    ∷ ("message", word req.message)
    ∷ elim req.extra [ [] ↦ [] | e ∷ es ↦ ("data", table (e ∷ es)) ∷ [] ]

module _ (c : Codec) (o : Outside) where
  unfoldable pub emit_forwarded : Caller → String → String → String → Outcome → Handler (Unit {0})
  emit_forwarded who kind domain service x = do
    hash ← reads (λ s. s.policy.hash)
    emit_event c (forwarded_event who kind domain service hash x)

  -- The end of forward, with the answer of Home Assistant.
  unfoldable pub conclude : Caller → String → String → String → String → Option ℕ → Handler Response
  conclude who kind domain service lease_id reply = do
    emit_forwarded who kind domain service (record {
      status = status_of reply;
      delivered = is_delivered reply;
      lease_id = lease_id;
      error = error_class reply;
    })
    if not (is_delivered reply)
        then (do
          count_metric "acb_notify_ha_errors_total" (("kind", kind) ∷ [])
          answer (problem 502 upstream_failure "notification not delivered" who.request_id))
        else (do
          count_metric "acb_notify_forwarded_total" (("kind", kind) ∷ [])
          answer (receipt 201 who.request_id))

  -- forward, with what Lease gave.
  unfoldable pub forward_leased :
      Caller → String → String → String → Assoc HaValue → Option Lease → Handler Response
  forward_leased who kind domain service body none = do
    count_metric "acb_notify_lease_errors_total" []
    emit_forwarded who kind domain service
        (record { status = 0; delivered = false; lease_id = ""; error = "lease-failed" })
    answer (problem 502 upstream_failure "could not obtain notify credential" who.request_id)
  forward_leased who kind domain service body (some l) = do
    reply ← call o l.token domain service body
    conclude who kind domain service l.lease_id reply

  unfoldable pub forward : Caller → String → String → String → Assoc HaValue → Handler Response
  forward who kind domain service body = do
    got ← lease o (lease_context who kind domain service)
    forward_leased who kind domain service body got

  -- deny, which answers with this problem.
  unfoldable pub deny :
      Caller → String → String → ℕ → Problem → String → Assoc String → Handler Response
  deny who kind reason status problem_type title asserted = do
    count_metric "acb_notify_denied_total" (("kind", kind) ∷ ("reason", reason) ∷ [])
    hash ← reads (λ s. s.policy.hash)
    emit_event c (denied_event who kind reason hash asserted)
    answer (problem status problem_type title who.request_id)

  unfoldable pub refuse_rate : Caller → Handler Response
  refuse_rate who = do
    count_metric "acb_notify_rate_limited_total" (("subject", key who.subject) ∷ [])
    sampled ← allow_rl_audit (key who.subject)
    hash ← reads (λ s. s.policy.hash)
    (if sampled then emit_event c (throttled_event who hash) else answer tt)
    answer (problem 429 rate_limited "notify rate limit exceeded" who.request_id)

  -- rateOK, before the rest of a handler.
  unfoldable pub rate_ok : Caller → Handler Response → Handler Response
  rate_ok who next = do ok ← allow_caller (key who.subject); if ok then next else refuse_rate who

  abbrev pub bad_body : Caller → String → Handler Response
  bad_body who kind = deny who kind "bad-body" 400 bad_request "invalid request body" []

  unfoldable pub push_checked : Caller → String → PushRequest → Option String → Handler Response
  push_checked who target req none = forward who kind_push "notify" target (push_body req)
  push_checked who target req (some k) =
      deny who kind_push "bad-data-key" 400 bad_request "unsupported data key"
        (("data_key", k) ∷ [])

  unfoldable pub read_push : Caller → Option PushRequest → Handler Response
  read_push who none = bad_body who kind_push
  read_push who (some req) = do
    target ← reads (λ s. push_target s.policy (key who.subject))
    if str_eq target ""
        then deny who kind_push "no-grant" 403 grant_denied "not permitted" []
        else push_checked who target req (bad_data_key req.extra)

  -- handlePush
  unfoldable pub handle_push : Caller → Option PushRequest → Handler Response
  handle_push who body = rate_ok who (read_push who body)

  -- A persistent notification: with the right prefix it is forwarded, else denied.
  unfoldable pub check_id : Caller → String → String → String → Assoc HaValue → Handler Response
  check_id who kind service id body = do
    g ← reads (λ s. grant_for s.policy (key who.subject) kind)
    if not (id_allowed g id)
        then deny who kind "no-grant-or-prefix" 403 grant_denied "not permitted"
            (("requested_notification_id", id) ∷ [])
        else forward who kind "persistent_notification" service body

  unfoldable pub read_create : Caller → Option PersistRequest → Handler Response
  read_create who none = bad_body who kind_create
  read_create who (some req) = check_id who kind_create "create" req.notification_id (
      ("notification_id", word req.notification_id)
      ∷ ("title", word req.title)
      ∷ ("message", word req.message)
      ∷ [])

  -- handlePersistentCreate
  unfoldable pub handle_persistent_create : Caller → Option PersistRequest → Handler Response
  handle_persistent_create who body = rate_ok who (read_create who body)

  unfoldable pub read_dismiss : Caller → Option String → Handler Response
  read_dismiss who none = bad_body who kind_dismiss
  read_dismiss who (some id) =
      check_id who kind_dismiss "dismiss" id (("notification_id", word id) ∷ [])

  -- handlePersistentDismiss, with the notification_id of the body.
  unfoldable pub handle_persistent_dismiss : Caller → Option String → Handler Response
  handle_persistent_dismiss who body = rate_ok who (read_dismiss who body)

-- The routes of the authenticated API.
pub data Route : Type 0 where
  push : Option PushRequest → Route
  create : Option PersistRequest → Route
  dismiss : Option String → Route

unfoldable pub route : Codec → Outside → Route → Caller → Handler Response
route c o (push body) who = handle_push c o who body
route c o (create body) who = handle_persistent_create c o who body
route c o (dismiss body) who = handle_persistent_dismiss c o who body
