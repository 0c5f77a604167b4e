-- ===== src/Audit/Emitter/Signed.antt =====
-- internal/audit/audit.go: a line that Emit writes passes Verify.
use agent_cred_broker.Prelude.{
  ◌≡◌, ◌≢◌, refl, true, false, some, [], ◌∷◌, ◌++◌, arith, str_ne, Option-cases, inl, inr,
  bind-eq-some,
}
use agent_cred_broker.Time.{Instant}
use agent_cred_broker.Audit.{Event}
use agent_cred_broker.Audit.Codec.{Codec, IsCodec, Bytes, newline}
use agent_cred_broker.Audit.Emitter.{
  Emitter, Writing, written, failed, next_seq, envelope, sign_line, write_line, emit, valid, verify,
  check_sig,
}

-- What makes up a signed line.
pub record Parts (c : Codec) (ev : Event) (line : Bytes) : Type 0 where
  pub unsigned : Bytes
  pub canonical : Bytes
  pub marshals : c.marshal ev ≡ some unsigned
  pub transforms : c.transform unsigned ≡ some canonical
  pub signs : c.marshal (record ev { sig = c.encode (c.sign canonical) }) ≡ some line

pub parts : (c : Codec) (ev : Event) (line : Bytes) → sign_line c ev ≡ some line → Parts c ev line
unfolding sign_line
parts c ev line h =
    let (u, e, h') = bind-eq-some (c.marshal ev) _ h in
    let (f, e', h'') = bind-eq-some (c.transform u) _ h' in
    record { unsigned = u; canonical = f; marshals = e; transforms = e'; signs = h'' }

verify_valid :
    (c : Codec) (f : Event) (line sig raw form : Bytes)
    → c.unmarshal line ≡ some f
    → f.sig ≢ ""
    → c.decode f.sig ≡ some sig
    → c.without_sig line ≡ some raw
    → c.transform raw ≡ some form
    → c.check form sig ≡ true
    → verify c line ≡ valid f
unfolding verify
verify_valid c f line sig raw form decoded signed plain stripped canonical checked =
    rw (decoded, verify)
      (rw (str_ne f.sig "" signed)
        (rw (plain, verify) (rw (stripped, check_sig) (rw (canonical, check_sig) (rw checked)))))

module _ (c : Codec) (laws : IsCodec c) where
  -- A signed line passes Verify, and decodes to an event with the envelope that was signed.
  pub verify-sign_line :
      (ev : Event) (line : Bytes)
      → ev.sig ≡ ""
      → sign_line c ev ≡ some line
      → (f : Event) × (verify c line ≡ valid f)
        × (f.broker ≡ ev.broker)
        × (f.event_type ≡ ev.event_type)
  verify-sign_line ev line blank h =
      let p = parts c ev line h in
      let s = c.encode (c.sign p.canonical) in
      let (f, decoded, same) = laws.decodes (record ev { sig = s }) line p.signs in
      let (raw, stripped, form) =
        laws.canonical ev s p.unsigned line p.canonical blank p.marshals p.transforms p.signs in
      (
        f,
        verify_valid c f line (c.sign p.canonical) raw p.canonical decoded
            (rw same.1 (laws.encode-sign_nonempty p.canonical))
            (rw same.1 (laws.decode-encode (c.sign p.canonical))) stripped form
            (laws.check-sign p.canonical),
        same.0,
        same.2,
      )

-- The emitter after a line was written in full.
abbrev pub wrote : Bytes → Emitter → Emitter
wrote line e = record e { seq = next_seq e; out = e.out ++ (line ++ newline ∷ []) }

-- A call that returns no error wrote its signed line in full.
pub emit_succeeds :
    (c : Codec) (now : Instant) (w : Writing) (ev : Event) (e : Emitter)
    → (emit c now w ev e).0 ≡ true
    → (line : Bytes) × (sign_line c (envelope now ev e) ≡ some line)
      × ((emit c now w ev e).1 ≡ wrote line e)
unfolding emit
emit_succeeds c now w ev e h = elim (Option-cases (sign_line c (envelope now ev e))) [
  | inl f ↦ let x : false ≡ true = rw (f, emit) at h in cc
  | inr (line, f) ↦ (line, f, rw (f, emit) (by_writing w line (rw (f, emit) at h)))
]
  where
    by_writing :
        (v : Writing) (line : Bytes)
        → (write_line v line e).0 ≡ true
        → (write_line v line e).1 ≡ wrote line e
    by_writing written line g = unfold write_line in refl
    by_writing (failed n) line g = unfold write_line in cc

-- A call that returns an error takes no sequence number.
pub emit_fails :
    (c : Codec) (now : Instant) (w : Writing) (ev : Event) (e : Emitter)
    → (emit c now w ev e).0 ≡ false
    → (emit c now w ev e).1.seq ≡ e.seq
unfolding emit write_line
emit_fails c now w ev e h = ground arith
