-- ===== src/Notify/Handlers/Reach.antt =====
-- internal/notify/server.go: a push that the policy grants is sent, so the ceiling of the binary never
-- stands in the way of an accepted policy.
use Prim.Native.String.{◌++◌ as append_text}
use agent_cred_broker.Prelude.{◌≡◌, List, [], ◌∷◌, ◌++◌, length, String, if◌then◌else◌}
use agent_cred_broker.Audit.{key}
use agent_cred_broker.Audit.Codec.{Codec}
use agent_cred_broker.Server.{Caller}
use agent_cred_broker.Notify.Grants.{push_target}
use agent_cred_broker.Notify.HomeAssistant.{service_url}
use agent_cred_broker.Notify.LeaseClient.{Lease}
use agent_cred_broker.Notify.{
  HaRequest, Outside, Proxy, upstream_failure, Response, problem, receipt,
}
use agent_cred_broker.Notify.Handlers.{PushRequest, is_delivered, push_body}

-- The device that the policy pins for the caller.
abbrev pub target_of : Caller → Proxy → String
target_of who s = push_target s.policy (key who.subject)

module _ (c : Codec) (o : Outside) (who : Caller) where
  -- The run sends this request, and the answer is the one that its status decides.
  abbrev pub Sends : List HaRequest → HaRequest → Response × Proxy → Type 0
  Sends before r x =
      (x.1.sent ≡ before ++ r ∷ [])
      × (x.0 ≡ (
          if is_delivered (o.home_assistant (length before) r)
          then receipt 201 who.request_id
          else problem 502 upstream_failure "notification not delivered" who.request_id))

  abbrev pub push_request : String → String → Lease → PushRequest → HaRequest
  push_request base t l req = record {
    url = service_url base "notify" t;
    authorization = append_text "Bearer " l.token;
    body = push_body req;
  }
