-- ===== src/Server/Auth.antt =====
-- internal/server/server.go: withRequestID, withAuth, recordAuthFailure and the routes of Handler.
-- `authn` is the AuthnFunc. MaxBytesReader, which cuts a body, is not modelled: a body that it cuts is
-- `malformed`.
pub mod Gate
use Prim.Native.String.{◌++◌ as append_text}
use agent_cred_broker.Prelude.{
  Bool, true, false, Option, none, some, List, [], ◌∷◌, String, Assoc, ℕ, ℤ, str_eq, if◌then◌else◌,
  cut_prefix,
}
use agent_cred_broker.Audit.{Subject, Source, Event, event, auth_failed, text, flag}
use agent_cred_broker.Audit.Codec.{Codec}
use agent_cred_broker.Server.{
  Server, Caller, Response, Body, Handler, ◌>>=◌, ◌>>◌, answer, on_trail, new_id, emit_event,
  count_metric, allow_auth_fail, problem, unauthenticated,
}
use agent_cred_broker.Server.Create.{LeaseRequest, handle_lease_create}
use agent_cred_broker.Server.Leases.{handle_lease_renew, handle_lease_surrender, handle_lease_get}
use agent_cred_broker.Server.Claims.{ClaimsRequest, handle_claims}

abbrev auth_failed_event : String → Source → String → Event
auth_failed_event request_id source reason =
    event auth_failed request_id none (some source)
      (("reason", text reason) ∷ ("aggregated", flag true) ∷ []) []

-- Every failure is counted; at most one a minute and source is signed.
unfoldable pub record_auth_failure : Codec → String → Source → String → Handler (Unit {0})
record_auth_failure c request_id source reason = do
  count_metric "acb_auth_failures_total" []
  sampled ← allow_auth_fail source.ip
  (if sampled
      then (do emit_event c (auth_failed_event request_id source reason); answer tt)
      else answer tt)

module _ (c : Codec) (authn : String → Option Subject) where
  unfoldable pub reject : String → Source → String → String → Handler Response
  reject request_id source reason title = do
    record_auth_failure c request_id source reason
    answer (problem 401 unauthenticated title request_id)

  unfoldable pub admit_subject :
      String → Source → Option Subject → (Caller → Handler Response) → Handler Response
  admit_subject request_id source none next =
      reject request_id source "token-rejected" "token rejected"
  admit_subject request_id source (some subject) next =
      next (record { subject = subject; request_id = request_id; source = source })

  unfoldable pub check_token :
      String → Source → Option String → (Caller → Handler Response) → Handler Response
  check_token request_id source none next =
      reject request_id source "missing-bearer" "missing or malformed Authorization header"
  check_token request_id source (some token) next =
      if str_eq token ""
      then reject request_id source "missing-bearer" "missing or malformed Authorization header"
      else admit_subject request_id source (authn token) next

  -- withAuth, for a request with this Authorization header.
  unfoldable pub with_auth :
      String → Source → String → (Caller → Handler Response) → Handler Response
  with_auth request_id source header next =
      check_token request_id source (cut_prefix "Bearer " header) next

  -- withRequestID
  unfoldable pub with_request_id : (String → Handler Response) → Handler Response
  with_request_id next = on_trail (new_id "req") >>= next

-- The routes; GET /v1/whoami, which changes nothing, is not among them.
pub data Route : Type 0 where
  post_lease : Body LeaseRequest → Route
  renew_lease : String → Body ℤ → Route
  delete_lease get_lease : String → Route
  post_claims : Body ClaimsRequest → Route

-- `size` is the length of a map as JSON.
unfoldable pub route : Codec → (Assoc String → ℕ) → Route → Caller → Handler Response
route c size (post_lease body) who = handle_lease_create c who size body
route c size (renew_lease id body) who = handle_lease_renew c who id body
route c size (delete_lease id) who = handle_lease_surrender c who id
route c size (get_lease id) who = handle_lease_get c who id
route c size (post_claims body) who = handle_claims c who size body

-- Handler: a request from this source with this Authorization header.
unfoldable pub serve :
    Codec
    → (String → Option Subject)
    → (Assoc String → ℕ)
    → Source
    → String
    → Route
    → Handler Response
serve c authn size source header r =
    with_request_id c authn
      (λ request_id. with_auth c authn request_id source header (route c size r))
