-- ===== src/Audit/Signer.antt =====
-- internal/audit/audit.go: NewSigner and ParseSignerPEM, and loadSigner of the two programs. PEM, PKCS#8,
-- SHA-256 and the generation of keys are the parameter `Keys`.
use Prim.Native.String.{◌++◌ as append_text}
use agent_cred_broker.Prelude.{Bool, Option, none, some, String, ◌>>=◌, if◌then◌else◌}

-- A parsed PKCS#8 key: an Ed25519 key, here by its public half, or another.
pub data Parsed : Type 0 where
  ed25519 : String → Parsed
  other_key : Parsed

pub record Keys : Type 0 where
  pub pem_block : String → Option String
  pub parse_pkcs8 : String → Option Parsed
  pub fingerprint : String → String
  pub generate : Option String

pub record Signer : Type 0 where
  pub public : String
  pub kid : String

-- NewSigner: the fingerprint is the first four bytes of the hash, in hexadecimal.
unfoldable pub new_signer : Keys → String → Signer
new_signer k public = record { public = public; kid = append_text "k" (k.fingerprint public) }

unfoldable pub signer_of : Keys → Parsed → Option Signer
signer_of k (ed25519 public) = some (new_signer k public)
signer_of k other_key = none

-- ParseSignerPEM
unfoldable pub parse_signer_pem : Keys → String → Option Signer
parse_signer_pem k raw = do
  block ← k.pem_block raw
  parsed ← k.parse_pkcs8 block
  signer_of k parsed

-- Reading a file: its text, no such file, or another error.
pub data Reading : Type 0 where
  contents : String → Reading
  missing unreadable : Reading

-- loadSigner: only in development, and only for a missing file, is a key made up.
unfoldable pub load_signer : Keys → Bool → Reading → Option Signer
load_signer k dev_insecure (contents raw) = parse_signer_pem k raw
load_signer k dev_insecure missing =
    if dev_insecure then (k.generate >>= λ public. some (new_signer k public)) else none
load_signer k dev_insecure unreadable = none
