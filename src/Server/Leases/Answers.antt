-- ===== src/Server/Leases/Answers.antt =====
-- internal/server/handlers.go: what the answers of the handlers of a lease tell of the state.
use agent_cred_broker.Prelude.{
  eq_iff, ℕ, ◌≡◌, refl, ◌⊎◌, inl, inr, true, some, String, lookup, ℤ, ap, ◌∙◌, sym, subst,
  Bool-cases, str_eq, eq_refl, if◌then◌else◌,
}
use agent_cred_broker.Time.{Instant, Duration}
use agent_cred_broker.Lease.{Lease, Store}
use agent_cred_broker.Lease.Outcomes.{extended}
use agent_cred_broker.Audit.{key}
use agent_cred_broker.Audit.Codec.{Codec, Bytes}
use agent_cred_broker.Audit.Emitter.{Emitter, envelope, sign_line}
use agent_cred_broker.Audit.Emitter.Signed.{wrote}
use agent_cred_broker.Policy.{Policy}
use agent_cred_broker.Server.{Server, Caller, Response, Body, LeaseResponse, lease}
use agent_cred_broker.Server.Events.{Announces}
use agent_cred_broker.Server.Create.{lease_meta}
use agent_cred_broker.Server.Create.Issue.{IsLease}
use agent_cred_broker.Server.Leases.{renewed_event, handle_lease_renew}
use agent_cred_broker.Server.Leases.Renewal
use agent_cred_broker.Server.Leases.Renewal.{
  tested_at, extended_at, Extends, handle_lease_renew-Ends,
}

-- The signed event of a lease as renewed is the last line of the stream.
pub record Audited (c : Codec) (who : Caller) (p : Policy) (e : Emitter) (l : Lease) (e' : Emitter)
    : Type 0 where
  pub at : Instant
  pub line : Bytes
  pub signed : sign_line c (envelope at (renewed_event c who l p.hash) e) ≡ some line
  pub announced : Announces l (envelope at (renewed_event c who l p.hash) e)
  pub written : e' ≡ wrote line e

-- A lease that was renewed: the one of that identifier, with an end past the reading `later`, which is in the table and in
-- the stream.
pub record Renewed (c : Codec) (who : Caller) (id : String) (body : Body ℤ) (p : Policy)
    (leases : Store) (e : Emitter) (now later : Instant) (s' : Server) (told : LeaseResponse)
    : Type 0 where
  pub l : Lease
  pub ttl : Duration
  pub extends : Extends who id body p leases now l ttl
  pub stored : lookup id s'.leases ≡ some (extended l later ttl)
  pub audited : Audited c who p e (extended l later ttl) s'.trail.emitter
  pub answer : told ≡ lease_meta (extended l later ttl)

some-inj : {A : Type 0} (a b : A) → some a ≡ some b → a ≡ b
some-inj a b h = cc

body_of : LeaseResponse → Response → LeaseResponse
body_of d (lease status body) = body
body_of d _ = d

module _ (c : Codec) (who : Caller) (id : String) (body : Body ℤ) (p : Policy) (leases : Store)
    (e : Emitter) (now later : Instant) where
  renewed-Announces :
      (at : Instant) (l : Lease) (ttl : Duration)
      → Extends who id body p leases now l ttl
      → Announces
          (extended l later ttl)
          (envelope at (renewed_event c who (extended l later ttl) p.hash) e)
  unfolding lookup envelope
  renewed-Announces at l ttl ext = record {
    kind = inr refl;
    holder = ap some (sym ((eq_iff l.subject_key (key who.subject)).0 ext.owner));
    scope = refl;
    names = refl;
    ends = refl;
  }

  Ending-Renewed :
      (x : Response × Server) (status : ℕ) (told : LeaseResponse)
      → Renewal.Ending c who id body p leases e now later x
      → x.0 ≡ lease status told
      → Renewed c who id body p leases e now later x.1 told
  unfolding body_of
  Ending-Renewed x status told (Renewal.extended_to l ttl at line s' ext stored signed written) h =
      record {
        l = l;
        ttl = ttl;
        extends = ext;
        stored = rw (stored id, eq_refl id) refl;
        audited = record {
          at = at;
          line = line;
          signed = signed;
          announced = renewed-Announces at l ttl ext;
          written = written;
        };
        answer = sym (ap (body_of told) h);
      }
  Ending-Renewed x status told (Renewal.ended r l ttl s' bad ext stored) h =
      absurd (bad (subst IsLease (sym h) tt))
  Ending-Renewed x status told (Renewal.refused r s' bad same) h =
      absurd (bad (subst IsLease (sym h) tt))

  -- A lease that differs from what was there is surrendered or audited.
  Ending-Audited :
      (x : Response × Server)
      → Renewal.Ending c who id body p leases e now later x
      → (j : String) (l' : Lease) → lookup j x.1.leases ≡ some l'
      → (lookup j leases ≡ some l')
        ⊎ (l'.surrendered ≡ true)
        ⊎ Audited c who p e l' x.1.trail.emitter
  Ending-Audited x (Renewal.extended_to l ttl at line s' ext stored signed written) j l' h =
      elim (Bool-cases (str_eq id j)) [
        | inl y ↦
            let same : extended l later ttl ≡ l' = some-inj _ _ (
              subst (λ b. (if b then some (extended l later ttl) else lookup j leases) ≡ some l') y
                (sym (stored j) ∙ h)) in
            inr (
              inr (
                subst (λ k. Audited c who p e k s'.trail.emitter) same
                  (record {
                    at = at;
                    line = line;
                    signed = signed;
                    announced = renewed-Announces at l ttl ext;
                    written = written;
                  })))
        | inr n ↦ inl (rw (stored j, n) at h)
      ]
  Ending-Audited x (Renewal.ended r l ttl s' bad ext stored) j l' h =
      elim (Bool-cases (str_eq id j)) [
        | inl y ↦
            let same : record (extended l later ttl) { surrendered = true } ≡ l' = some-inj _ _ (
              subst
                (λ b.
                  (if b
                    then some (record (extended l later ttl) { surrendered = true })
                    else lookup j leases)
                  ≡ some l')
                y (sym (stored j) ∙ h)) in
            inr (inl (ap (λ k. k.surrendered) (sym same)))
        | inr n ↦ inl (rw (stored j, n) at h)
      ]
  Ending-Audited x (Renewal.refused r s' bad same) j l' h = inl (sym (same j) ∙ h)

module _ (c : Codec) (who : Caller) (id : String) (body : Body ℤ) (s : Server) where
  -- When a renewal is answered with a lease, then the caller holds that lease, the policy in force
  -- still grants its scope as renewable, the lease was not surrendered and not past its end by the clock's
  -- second reading of the request, its end is now the clamped ttl past the third reading, and the emitter's stream grew by exactly the signed event of it.
  pub renewal_is_backed :
      (status : ℕ) (told : LeaseResponse)
      → (handle_lease_renew c who id body s).0 ≡ lease status told
      → Renewed c who id body s.policy s.leases s.trail.emitter
          (tested_at s)
          (extended_at s)
          (handle_lease_renew c who id body s).1
          told
  renewal_is_backed status told h =
      Ending-Renewed c who id body s.policy s.leases s.trail.emitter (tested_at s) (extended_at s) _
        status told (handle_lease_renew-Ends c who id body s) h

  -- After a request to renew, each lease of the table is as it was, or is surrendered, or is the one
  -- whose signed event is the last line of the stream: no unrecorded extension stays usable.
  pub no_unaudited_extension :
      (j : String) (l' : Lease)
      → lookup j (handle_lease_renew c who id body s).1.leases ≡ some l'
      → (lookup j s.leases ≡ some l')
        ⊎ (l'.surrendered ≡ true)
        ⊎ Audited c who s.policy s.trail.emitter l'
            (handle_lease_renew c who id body s).1.trail.emitter
  no_unaudited_extension j l' h =
      Ending-Audited c who id body s.policy s.leases s.trail.emitter (tested_at s) (extended_at s) _
        (handle_lease_renew-Ends c who id body s) j l' h
