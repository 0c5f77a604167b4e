-- ===== src/Broker/Upkeep.antt =====
-- cmd/broker/main.go: connectTokenExpiry with the gauge that it sets, and readiness; cmd/ha-notify-proxy/main.go:
-- the cached probe and readiness. The decoding of a JWT's payload is the parameter `payload_exp`: the exp
-- claim, 0 if there is none, of a text in base64 and JSON.
use agent_cred_broker.Prelude.{
  ℕ, ◌-◌, ◌*◌, Bool, true, false, not, ◌&&◌, ◌==◌, Option, none, some, List, [], ◌∷◌, String, split,
  ltb, trim_space, ◌>>=◌, if◌then◌else◌,
}
use agent_cred_broker.Time.{Instant}
use agent_cred_broker.Metrics.{Metrics, unit, set}

-- The middle one of three parts.
unfoldable pub middle_part : String × List String → Option String
middle_part (a, b ∷ c ∷ []) = some b
middle_part (a, other) = none

-- connectTokenExpiry; a negative claim, which no token has, is not modelled.
unfoldable pub connect_token_expiry : (String → Option ℕ) → String → Option ℕ
connect_token_expiry payload_exp tok = do
  payload ← middle_part (split 46 tok)
  exp ← payload_exp payload
  if exp == 0 then none else some exp

unfoldable pub set_expiry : Option ℕ → Metrics → Metrics
set_expiry none m = m
set_expiry (some exp) m = set "acb_connect_token_expiry_timestamp_seconds" [] (exp * unit) m

-- update: a token that cannot be read, or has no expiry, leaves the gauge.
unfoldable pub update_expiry : (String → Option ℕ) → Option String → Metrics → Metrics
update_expiry payload_exp file m =
    set_expiry (file >>= λ raw. connect_token_expiry payload_exp (trim_space raw)) m

-- Whether each provider with a probe is healthy, in the order of a range over the providers.
unfoldable pub all_healthy : List (Option Bool) → Bool
all_healthy [] = true
all_healthy (none ∷ ps) = all_healthy ps
all_healthy (some ok ∷ ps) = let rest = all_healthy ps in if ok then rest else false

-- ready of the broker.
unfoldable pub broker_ready : Bool → List (Option Bool) → Bool
broker_ready has_policy probes = if not has_policy then false else all_healthy probes

-- The state of newCachedProbe.
pub record Probe : Type 0 where
  pub at : Instant
  pub ok : Bool
  pub seen : Bool

-- The function that newCachedProbe returns: the time of the test, the time after the probe, and whether the
-- request could be built and was answered.
unfoldable pub probe_step : ℕ → Instant → Instant → Bool → Probe → Bool × Probe
probe_step ttl now after_probe answered p =
    if p.seen && ltb (now - p.at) ttl
    then (p.ok, p)
    else (answered, record { at = after_probe; ok = answered; seen = true })

-- ready of the proxy.
unfoldable pub proxy_ready : Bool → Bool → Bool
proxy_ready has_policy reachable = has_policy && reachable
