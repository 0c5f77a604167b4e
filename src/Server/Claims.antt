-- ===== src/Server/Claims.antt =====
-- internal/server/handlers.go: handleClaims. `claim_size` is the length of a claim as JSON.
pub mod Receipts
use Prim.Native.String.{◌++◌ as append_text}
use agent_cred_broker.Prelude.{
  ℕ, Bool, true, false, not, ◌||◌, ◌&&◌, ◌==◌, ltb, Option, none, some, List, [], ◌∷◌, ◌++◌, length,
  String, Assoc, lookup, ℤ, pos, ◌+ℤ◌, map_option, wrap64, str_eq, if◌then◌else◌, decimal,
}
use agent_cred_broker.Lease.{Lease, get}
use agent_cred_broker.Audit.{Value, Event, event, key, claim_recorded, text}
use agent_cred_broker.Audit.Codec.{Codec}
use agent_cred_broker.Policy.{claim_bytes_cap}
use agent_cred_broker.Server.{
  Server, Caller, Response, Body, Handler, ◌>>=◌, ◌>>◌, answer, reads, on_trail, new_id, emit_event,
  count_metric, subject_label, allow_claim, spend_claims, rate_limited_response, audit_fail_closed,
  malformed, nothing, decoded, problem, claims, bad_request, lease_forbidden, rate_limited,
}

pub record ClaimsRequest : Type 0 where
  pub lease_id : String
  pub claims : List (Assoc String)

-- What the sizes of the claims come to: none, when one exceeds the limit.
unfoldable pub total_bytes : (Assoc String → ℕ) → ℕ → ℤ → List (Assoc String) → Option ℤ
total_bytes size most acc [] = some acc
total_bytes size most acc (m ∷ ms) =
    let rest = total_bytes size most (wrap64 (acc +ℤ pos (size m))) ms in
    if ltb most (size m) then none else rest

-- A named lease is held by the caller.
unfoldable pub holds : String → String → Server → Bool
holds subject_key id s = elim (get id s.leases) [
  | none ↦ false
  | some l ↦ str_eq l.subject_key subject_key
]

module _ (c : Codec) (who : Caller) where
  abbrev pub claim_event : String → String → Assoc String → Event
  claim_event id lease_id asserted =
      event claim_recorded who.request_id (some who.subject) (some who.source)
        (("claim_id", text id)
          ∷ (if str_eq lease_id "" then [] else ("lease_id", text lease_id) ∷ []))
        asserted

  -- The loop: it ends at the first event that is not written, and the events before it stand.
  unfoldable pub record_claims : String → List (Assoc String) → Handler (Option (List String))
  record_claims lease_id [] s = (some [], s)
  record_claims lease_id (m ∷ ms) s =
      let (id, t) = new_id "claim" s.trail in
      let (ok, s') = emit_event c (claim_event id lease_id m) (record s { trail = t }) in
      let (rest, s'') = record_claims lease_id ms s' in
      if ok then (map_option (λ ids. id ∷ ids) rest, s'') else (none, s')

  unfoldable pub conclude_claims : Option (List String) → Handler Response
  conclude_claims none = audit_fail_closed who
  conclude_claims (some ids) = do
    count_metric "acb_claims_recorded_total" (subject_label who)
    answer (claims 202 ids)

  -- The bytes are charged before the events are written.
  unfoldable pub charge_claims : ClaimsRequest → ℤ → Handler Response
  charge_claims req total = do
    cap ← reads (λ s. claim_bytes_cap s.policy (key who.subject))
    ok ← spend_claims (key who.subject) total cap
    if ok then (record_claims req.lease_id req.claims >>= conclude_claims) else (do
      count_metric "acb_rate_limited_total" (subject_label who)
      answer (problem 429 rate_limited "daily claim-bytes cap exceeded" who.request_id))

  unfoldable pub check_lease : ClaimsRequest → ℤ → Handler Response
  check_lease req total = do
    held ← reads (holds (key who.subject) req.lease_id)
    if not (str_eq req.lease_id "") && not held
        then answer (problem 403 lease_forbidden "lease not held by caller" who.request_id)
        else charge_claims req total

  unfoldable pub size_checked : ClaimsRequest → Option ℤ → Handler Response
  size_checked req none =
      answer (problem 400 bad_request "claim entry exceeds size limit" who.request_id)
  size_checked req (some total) = check_lease req total

  module _ (claim_size : Assoc String → ℕ) where
    unfoldable pub read_claims : Body ClaimsRequest → Handler Response
    read_claims (decoded req) = do
      cfg ← reads (λ s. s.cfg)
      if (length req.claims == 0) || ltb cfg.max_claims_per_req (length req.claims)
          then answer (
              problem 400 bad_request
                (append_text "claims must contain 1-"
                  (append_text (decimal cfg.max_claims_per_req) " entries"))
                who.request_id)
          else size_checked req (total_bytes claim_size cfg.max_claim_bytes (pos 0) req.claims)
    read_claims body = answer (problem 400 bad_request "invalid request body" who.request_id)

    unfoldable pub handle_claims : Body ClaimsRequest → Handler Response
    handle_claims body = do
      ok ← allow_claim (key who.subject)
      if ok
          then read_claims body
          else rate_limited_response c who "claims" "claim rate limit exceeded"
