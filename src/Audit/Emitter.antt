-- ===== src/Audit/Emitter.antt =====
-- internal/audit/audit.go: Emit and Verify. The mutex makes Emit one step; the time and what becomes
-- of the write are arguments.
pub mod Signed
use agent_cred_broker.Prelude.{
  ℕ, ◌+◌, ◌%◌, ◌≡◌, Bool, true, false, Option, none, some, List, [], ◌∷◌, ◌++◌, take, String,
  if◌then◌else◌, str_eq, ◌>>=◌,
}
use agent_cred_broker.Time.{Instant, rfc3339}
use agent_cred_broker.Audit.{Event, BrokerInfo, version, act_claim}
use agent_cred_broker.Audit.Codec.{Codec, Bytes, newline}

-- The fields of the emitter and, in place of the io.Writer, the bytes that were written to it.
pub record Emitter : Type 0 where
  pub instance_name : String
  pub kid : String
  pub seq : ℕ
  pub out : Bytes

-- A write succeeds, or fails after some bytes.
pub data Writing : Type 0 where
  written : Writing
  failed : ℕ → Writing

-- The numbers of a uint64 wrap around.
unfoldable pub next_seq : Emitter → ℕ
next_seq e = (e.seq + 1) % 18446744073709551616

unfoldable pub envelope : Instant → Event → Emitter → Event
unfolding next_seq
envelope now ev e = record ev {
  v = version;
  kind = act_claim;
  ts = rfc3339 now;
  broker = record { instance_name = e.instance_name; kid = e.kid; seq = next_seq e };
  sig = "";
}

-- The signed line, if each codec step succeeds.
unfoldable pub sign_line : Codec → Event → Option Bytes
sign_line c ev = do
  unsigned ← c.marshal ev
  canonical ← c.transform unsigned
  c.marshal (record ev { sig = c.encode (c.sign canonical) })

-- The sequence number is taken only when the line is written. `true` is a nil error.
unfoldable pub write_line : Writing → Bytes → Emitter → Bool × Emitter
write_line written line e =
    (true, record e { seq = next_seq e; out = e.out ++ (line ++ newline ∷ []) })
write_line (failed n) line e = (false, record e { out = e.out ++ take n (line ++ newline ∷ []) })

unfoldable pub emit : Codec → Instant → Writing → Event → Emitter → Bool × Emitter
emit c now w ev e = elim (sign_line c (envelope now ev e)) [
  | none ↦ (false, e)
  | some line ↦ write_line w line e
]

-- The errors of Verify, by their step.
pub data Fault : Type 0 where
  parse_event no_sig decode_sig parse_object canonicalize bad_signature : Fault

pub data Verdict : Type 0 where
  valid : Event → Verdict
  invalid : Fault → Verdict

check_sig : Codec → Event → Bytes → Option Bytes → Verdict
check_sig c ev sig none = invalid parse_object
check_sig c ev sig (some unsigned) = elim (c.transform unsigned) [
  | none ↦ invalid canonicalize
  | some canonical ↦ if c.check canonical sig then valid ev else invalid bad_signature
]

unfoldable pub verify : Codec → Bytes → Verdict
unfolding check_sig
verify c line = elim (c.unmarshal line) [
  | none ↦ invalid parse_event
  | some ev ↦ if str_eq ev.sig "" then invalid no_sig else elim (c.decode ev.sig) [
    | none ↦ invalid decode_sig
    | some sig ↦ check_sig c ev sig (c.without_sig line)
  ]
]
