-- ===== src/Server/Whoami.antt =====
-- internal/server/handlers.go: handleWhoami and handleVerifyKey, and the readiness of HealthHandler in
-- internal/server/server.go. The text of a window's duration is modelled by the duration.
pub mod Answers
use agent_cred_broker.Prelude.{ℕ, Bool, true, false, List, [], ◌∷◌, map, String, ℤ, if◌then◌else◌}
use agent_cred_broker.Time.{Duration, seconds}
use agent_cred_broker.Audit.{Subject, key}
use agent_cred_broker.Policy.{IssueWindow, Grant}
use agent_cred_broker.Policy.Listing.{grants_for}
use agent_cred_broker.Server.{Server, Caller}

pub record WindowOut : Type 0 where
  pub cron : String
  pub duration : Duration

pub record GrantOut : Type 0 where
  pub scope : String
  pub ttl_default_seconds : ℤ
  pub ttl_max_seconds : ℤ
  pub renewable : Bool
  pub issue_windows : List WindowOut

abbrev pub window_out : IssueWindow → WindowOut
window_out w = record { cron = w.cron; duration = w.duration }

unfoldable pub grant_out : Grant IssueWindow → GrantOut
grant_out g = record {
  scope = g.scope;
  ttl_default_seconds = seconds g.ttl_default;
  ttl_max_seconds = seconds g.ttl_max;
  renewable = g.renewable;
  issue_windows = map window_out g.issue_windows;
}

pub record Whoami : Type 0 where
  pub status : ℕ
  pub subject : Subject
  pub grants : List GrantOut

-- handleWhoami, which changes nothing.
unfoldable pub handle_whoami : Caller → Server → Whoami
handle_whoami who s = record {
  status = 200;
  subject = who.subject;
  grants = map grant_out (grants_for s.policy (key who.subject));
}

-- A key as handleVerifyKey and the proxy's route of the same name publish it.
pub record VerifyKey : Type 0 where
  pub kid : String
  pub alg : String
  pub public_key : String

unfoldable pub handle_verify_key : String → String → ℕ × List VerifyKey
handle_verify_key kid public_key =
    (200, record { kid = kid; alg = "Ed25519"; public_key = public_key } ∷ [])

-- GET /readyz
unfoldable pub readyz : Bool → ℕ
readyz ready = if ready then 200 else 503
