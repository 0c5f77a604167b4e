-- ===== src/Provider.antt =====
-- internal/provider/provider.go: the interface of a secret source. What a call of Fetch returns may
-- depend on the time: the sources are other services.
pub mod OnePassword
pub mod GitHub
use agent_cred_broker.Prelude.{Option, String, Assoc}
use agent_cred_broker.Time.{Instant, Duration}

abbrev pub static_disclosure : String
static_disclosure = "static-disclosure"

abbrev pub revocable : String
revocable = "revocable"

pub record Request : Type 0 where
  pub ref : String
  pub fields : Assoc String
  pub params : Assoc String
  pub ttl : Duration

-- A result whose expires_at is the zero Time has no end of its own.
pub record Result : Type 0 where
  pub secret : Assoc String
  pub expires_at : Instant

-- Fetch returns no result on an error.
pub record Provider : Type 0 where
  pub name : String
  pub semantics : String
  pub fetch : Instant → Request → Option Result
