-- ===== src/Notify/Auth.antt =====
-- internal/notify/server.go: withRequestID, withAuth, recordAuthFailure, the routes of Handler, and
-- EmitStarted. `authn` is the AuthnFunc. MaxBytesReader, which cuts a body, is not modelled: a body that it
-- cuts does not decode.
use agent_cred_broker.Prelude.{
  true, Option, none, some, [], ◌∷◌, String, str_eq, cut_prefix, if◌then◌else◌,
}
use agent_cred_broker.Audit.{Subject, Source, Event, event, auth_failed, text, flag}
use agent_cred_broker.Audit.Codec.{Codec}
use agent_cred_broker.Server.{Caller, new_id}
use agent_cred_broker.Notify.{
  Outside, unauthenticated, Response, problem, Handler, ◌>>=◌, ◌>>◌, answer, reads, on_trail,
  count_metric, emit_event, allow_auth_fail,
}
use agent_cred_broker.Notify.Handlers.{Route, route}

abbrev auth_failed_event : String → Source → String → Event
auth_failed_event request_id source reason =
    event auth_failed request_id none (some source)
      (("reason", text reason) ∷ ("aggregated", flag true) ∷ []) []

abbrev pub proxy_started : String
proxy_started = "proxy.started"

-- EmitStarted, with the key identifier and the public key of the signer.
unfoldable pub emit_started : Codec → String → String → Handler (Unit {0})
emit_started c kid public_key = do
  hash ← reads (λ s. s.policy.hash)
  emit_event c (
      event proxy_started "" none none
        (("policy_hash", text hash) ∷ ("kid", text kid) ∷ ("public_key", text public_key) ∷ []) [])

-- recordAuthFailure: every failure is counted; at most one a minute and source is signed.
unfoldable pub record_auth_failure : Codec → String → Source → String → Handler (Unit {0})
record_auth_failure c request_id source reason = do
  count_metric "acb_auth_failures_total" []
  sampled ← allow_auth_fail source.ip
  (if sampled then emit_event c (auth_failed_event request_id source reason) else answer tt)

module _ (c : Codec) (authn : String → Option Subject) where
  unfoldable pub reject : String → Source → String → String → Handler Response
  reject request_id source reason title = do
    record_auth_failure c request_id source reason
    answer (problem 401 unauthenticated title request_id)

  unfoldable pub admit_subject :
      String → Source → Option Subject → (Caller → Handler Response) → Handler Response
  admit_subject request_id source none next =
      reject request_id source "token-rejected" "token rejected"
  admit_subject request_id source (some subject) next =
      next (record { subject = subject; request_id = request_id; source = source })

  unfoldable pub check_token :
      String → Source → Option String → (Caller → Handler Response) → Handler Response
  check_token request_id source none next =
      reject request_id source "missing-bearer" "missing or malformed Authorization header"
  check_token request_id source (some token) next =
      if str_eq token ""
      then reject request_id source "missing-bearer" "missing or malformed Authorization header"
      else admit_subject request_id source (authn token) next

  -- withAuth, for a request with this Authorization header.
  unfoldable pub with_auth :
      String → Source → String → (Caller → Handler Response) → Handler Response
  with_auth request_id source header next =
      check_token request_id source (cut_prefix "Bearer " header) next

-- Handler: a request from this source with this Authorization header.
unfoldable pub serve :
    Codec → Outside → (String → Option Subject) → Source → String → Route → Handler Response
serve c o authn source header r = on_trail (new_id "req") >>= λ request_id.
    with_auth c authn request_id source header (route c o r)
