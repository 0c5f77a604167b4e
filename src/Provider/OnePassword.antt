-- ===== src/Provider/OnePassword.antt =====
-- internal/provider/onepassword.go: Fetch and the cached probe of Healthy. What 1Password Connect answers
-- is the parameter `connect`, a function of the vault and the item of the path; the token and the
-- building of the request are part of it. The probe's outcome is an argument of Healthy.
pub mod Secrets
use agent_cred_broker.Prelude.{
  ℕ, ◌-◌, Bool, true, false, not, ◌||◌, Option, none, some, List, [], ◌∷◌, String, Assoc, lookup,
  insert, ◌>>=◌, ◌==◌, ltb, leb, str_eq, if◌then◌else◌,
}
use agent_cred_broker.Time.{Instant}
use agent_cred_broker.Regexp.{match_string}
use agent_cred_broker.Policy.Patterns.{op_ref}
use agent_cred_broker.Provider.{Request, Result, static_disclosure}

-- A field of an opItem.
pub record ItemField : Type 0 where
  pub label : String
  pub value : String

-- The answer to a request: a transport error, or a status with a body that may not decode.
pub data Reply : Type 0 where
  unreachable : Reply
  replied : ℕ → Option (List ItemField) → Reply

-- byLabel: a later field replaces an earlier one with its label.
unfoldable pub by_label : Assoc String → List ItemField → Assoc String
by_label m [] = m
by_label m (f ∷ fs) = by_label (insert f.label f.value m) fs

-- A value that is there and not empty.
unfoldable pub full_value : String → Assoc String → Option String
full_value label m = do v ← lookup label m; if str_eq v "" then none else some v

-- The loop over the fields of the request; one that is missing ends it with an error.
unfoldable pub pick : Assoc String → Assoc String → Assoc String → Option (Assoc String)
pick values out [] = some out
pick values out ((field, label) ∷ fields) =
    full_value label values >>= λ v. pick values (insert field v out) fields

unfoldable pub secret_of : Assoc String → Reply → Option Result
secret_of fields unreachable = none
secret_of fields (replied status none) = none
secret_of fields (replied status (some item)) =
    if not (status == 200)
    then none
    else pick (by_label [] item) [] fields >>= λ out. some (record { secret = out; expires_at = 0 })

-- A reference that does not have the form reaches no URL.
unfoldable pub fetch : (String → Reply) → Request → Option Result
fetch connect req =
    if not (match_string op_ref req.ref) then none else secret_of req.fields (connect req.ref)

-- healthTTL
abbrev pub health_ttl : ℕ
health_ttl = 60000000000

-- The result of the last probe, `true` for no error, and its time.
pub record Health : Type 0 where
  pub at : Instant
  pub ok : Bool

-- Healthy: the last probe's result within the ttl, and otherwise that of a new probe. The clock is read
-- for the test and again after the probe.
unfoldable pub healthy : Instant → Instant → Bool → Health → Bool × Health
healthy now after_probe probe h =
    if ltb (now - h.at) health_ttl
    then (h.ok, h)
    else (probe, record { at = after_probe; ok = probe })
