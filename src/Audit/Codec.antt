-- ===== src/Audit/Codec.antt =====
-- internal/audit/audit.go: what Emit and Verify use of encoding/json, the JSON canonicaliser (a
-- third-party package), encoding/base64 and crypto/ed25519.
use agent_cred_broker.Prelude.{ℕ, ◌≡◌, ◌≢◌, Bool, true, List, Option, some, String, All, []}
use agent_cred_broker.Audit.{Event}

abbrev pub Bytes : Type 0
Bytes = List ℕ

abbrev pub newline : ℕ
newline = 10

pub record Codec : Type 0 where
  -- json.Marshal and json.Unmarshal of an event
  pub marshal : Event → Option Bytes
  pub unmarshal : Bytes → Option Event
  -- Unmarshal into a map, delete(raw, "sig"), Marshal
  pub without_sig : Bytes → Option Bytes
  -- jcs.Transform
  pub transform : Bytes → Option Bytes
  -- base64.StdEncoding
  pub encode : Bytes → String
  pub decode : String → Option Bytes
  -- ed25519.Sign and Verify with the key pair of the emitter
  pub sign : Bytes → Bytes
  pub check : Bytes → Bytes → Bool

-- A line decodes to an event with the fields of the envelope that the verifier reads. (An attested
-- number comes back as a float64, so the whole event need not.)
abbrev pub SameEnvelope : Event → Event → Type 0
SameEnvelope e f = (e.broker ≡ f.broker) × (e.sig ≡ f.sig) × (e.event_type ≡ f.event_type)

pub record IsCodec (c : Codec) : Type 0 where
  pub decodes :
      (e : Event) (line : Bytes)
      → c.marshal e ≡ some line
      → (f : Event) × (c.unmarshal line ≡ some f) × SameEnvelope f e
  -- A line is one line.
  pub one_line :
      (e : Event) (line : Bytes)
      → c.marshal e ≡ some line
      → All (λ b. (b ≢ newline) × (b ≢ 13)) line
  pub nonempty : (e : Event) → c.marshal e ≢ some []
  -- The canonical form does not depend on the order of the keys, so taking the signature out of a
  -- signed line gives the form that was signed.
  pub canonical :
      (e : Event) (sig : String) (plain line form : Bytes)
      → e.sig ≡ ""
      → c.marshal e ≡ some plain
      → c.transform plain ≡ some form
      → c.marshal (record e { sig = sig }) ≡ some line
      → (raw : Bytes) × (c.without_sig line ≡ some raw) × (c.transform raw ≡ some form)
  pub decode-encode : (b : Bytes) → c.decode (c.encode b) ≡ some b
  pub encode-sign_nonempty : (b : Bytes) → c.encode (c.sign b) ≢ ""
  pub check-sign : (b : Bytes) → c.check b (c.sign b) ≡ true
