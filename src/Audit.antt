-- ===== src/Audit.antt =====
-- internal/audit/audit.go: the signed event stream. The JSON codec, the canonical form, base64 and
-- Ed25519 are the parameter `Codec`; `IsCodec` states what the code relies on.
pub mod Codec
pub mod Emitter
pub mod Signer
use Prim.Native.String.{◌++◌ as append_text}
use agent_cred_broker.Prelude.{ℕ, ℤ, String, List, Bool, Option, none, some, [], Assoc}

-- The constants Version and Kind.
abbrev pub version : ℕ
version = 1

abbrev pub act_claim : String
act_claim = "act-claim"

-- The event types that the broker emits.
abbrev pub lease_issued : String
lease_issued = "lease.issued"

abbrev pub lease_denied : String
lease_denied = "lease.denied"

abbrev pub lease_renewed : String
lease_renewed = "lease.renewed"

abbrev pub lease_surrendered : String
lease_surrendered = "lease.surrendered"

abbrev pub lease_expired : String
lease_expired = "lease.expired"

abbrev pub claim_recorded : String
claim_recorded = "claim.recorded"

abbrev pub policy_reloaded : String
policy_reloaded = "policy.reloaded"

abbrev pub policy_reload_failed : String
policy_reload_failed = "policy.reload_failed"

abbrev pub auth_failed : String
auth_failed = "auth.failed"

abbrev pub broker_started : String
broker_started = "broker.started"

pub record Subject : Type 0 where
  pub namespace : String
  pub service_account : String
  pub pod : String
  pub pod_uid : String

-- Key
unfoldable pub key : Subject → String
key s = append_text s.namespace (append_text "/" s.service_account)

pub record Source : Type 0 where
  pub ip : String
  pub user_agent : String

pub record BrokerInfo : Type 0 where
  pub instance_name : String
  pub kid : String
  pub seq : ℕ

-- What the code puts into a map[string]any. An RFC 3339 time is its number of seconds.
pub data Value : Type 0 where
  text : String → Value
  number : ℤ → Value
  flag : Bool → Value
  time : ℕ → Value
  texts : List String → Value

pub record Event : Type 0 where
  pub v : ℕ
  pub kind : String
  pub event_type : String
  pub ts : ℕ
  pub request_id : String
  pub broker : BrokerInfo
  pub subject : Option Subject
  pub source : Option Source
  pub attested : Assoc Value
  pub asserted : Assoc String
  pub sig : String

-- An event as a caller of Emit fills it: the envelope is empty.
abbrev pub event :
    String → String → Option Subject → Option Source → Assoc Value → Assoc String → Event
event event_type request_id subject source attested asserted = record {
  v = 0;
  kind = "";
  event_type = event_type;
  ts = 0;
  request_id = request_id;
  broker = record { instance_name = ""; kid = ""; seq = 0 };
  subject = subject;
  source = source;
  attested = attested;
  asserted = asserted;
  sig = "";
}
