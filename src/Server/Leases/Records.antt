-- ===== src/Server/Leases/Records.antt =====
-- internal/server/handlers.go: what a surrender leaves behind.
use agent_cred_broker.Prelude.{
  eq_iff, sym, str_eq, ◌≡◌, ◌≢◌, refl, ◌⊎◌, inl, inr, true, some, String, lookup, ap, ◌∙◌, eq_refl,
}
use agent_cred_broker.Time.{Instant}
use agent_cred_broker.Lease.{Lease, Store}
use agent_cred_broker.Audit.{key}
use agent_cred_broker.Audit.Codec.{Codec, Bytes}
use agent_cred_broker.Audit.Emitter.{Emitter, envelope, sign_line}
use agent_cred_broker.Audit.Emitter.Signed.{wrote}
use agent_cred_broker.Policy.{Policy}
use agent_cred_broker.Server.{Server, Caller, Response, no_content}
use agent_cred_broker.Server.Events.{Closes}
use agent_cred_broker.Server.Leases.{surrendered_event, handle_lease_surrender}
use agent_cred_broker.Server.Leases.Guards.{problem_has_content}
use agent_cred_broker.Server.Leases.Surrender
use agent_cred_broker.Server.Leases.Surrender.{handle_lease_surrender-Ends}

-- The signed event of the surrender is the last line of the stream.
pub record Recorded (c : Codec) (who : Caller) (p : Policy) (e : Emitter) (l : Lease) (e' : Emitter)
    : Type 0 where
  pub at : Instant
  pub line : Bytes
  pub signed : sign_line c (envelope at (surrendered_event c who l p.hash) e) ≡ some line
  pub closes : Closes l (envelope at (surrendered_event c who l p.hash) e)
  pub written : e' ≡ wrote line e

-- The lease under id was there and is surrendered: now, with its event, or before, with none.
pub record Surrendered (c : Codec) (who : Caller) (id : String) (p : Policy) (leases : Store)
    (e : Emitter) (s' : Server) : Type 0 where
  pub l : Lease
  pub before : lookup id leases ≡ some l
  pub after : lookup id s'.leases ≡ some (record l { surrendered = true })
  pub event :
      Recorded c who p e l s'.trail.emitter ⊎ ((l.surrendered ≡ true) × (s'.trail.emitter ≡ e))

marked : (l : Lease) → l.surrendered ≡ true → l ≡ record l { surrendered = true }
marked l h = ap (λ b. record l { surrendered = b }) h

module _ (c : Codec) (who : Caller) (id : String) (p : Policy) (leases : Store) (e : Emitter) where
  surrendered-Closes :
      (at : Instant) (l : Lease)
      → str_eq l.subject_key (key who.subject) ≡ true
      → Closes l (envelope at (surrendered_event c who l p.hash) e)
  unfolding lookup envelope
  surrendered-Closes at l mine = record {
    kind = refl;
    holder = ap some (sym ((eq_iff l.subject_key (key who.subject)).0 mine));
    scope = refl;
    names = refl;
  }

  Ending-Surrendered :
      (x : Response × Server)
      → Surrender.Ending c who id p leases e x
      → x.0 ≡ no_content
      → Surrendered c who id p leases e x.1
  Ending-Surrendered x (Surrender.surrendered_now l at line s' stored mine changed signed written)
        h =
      record {
        l = l;
        before = stored;
        after = rw (changed id, eq_refl id) refl;
        event = inl (record {
          at = at;
          line = line;
          signed = signed;
          closes = surrendered-Closes at l mine;
          written = written;
        });
      }
  Ending-Surrendered x (Surrender.surrendered_before l s' stored gone same quiet) h = record {
    l = l;
    before = stored;
    after = ap (lookup id) same ∙ stored ∙ ap some (marked l gone);
    event = inr (gone, quiet);
  }
  Ending-Surrendered x (Surrender.kept r s' bad same) h = absurd (problem_has_content r bad h)

  Ending-kept :
      (x : Response × Server)
      → Surrender.Ending c who id p leases e x
      → x.0 ≢ no_content
      → x.1.leases ≡ leases
  Ending-kept x (Surrender.surrendered_now l at line s' stored mine changed signed written) h =
      absurd (h refl)
  Ending-kept x (Surrender.surrendered_before l s' stored gone same quiet) h = same
  Ending-kept x (Surrender.kept r s' bad same) h = same

module _ (c : Codec) (who : Caller) (id : String) (s : Server) where
  -- When a surrender is answered with 204, the lease is marked in the table, and its signed event is
  -- the last line of the stream, or it was surrendered before and nothing is written again.
  pub surrender_is_recorded :
      (handle_lease_surrender c who id s).0 ≡ no_content
      → Surrendered c who id s.policy s.leases s.trail.emitter (handle_lease_surrender c who id s).1
  surrender_is_recorded h =
      Ending-Surrendered c who id s.policy s.leases s.trail.emitter _
        (handle_lease_surrender-Ends c who id s) h

  -- A surrender with any other answer leaves the table as it was, so that it can be tried again.
  pub failed_surrender_keeps :
      (handle_lease_surrender c who id s).0 ≢ no_content
      → (handle_lease_surrender c who id s).1.leases ≡ s.leases
  failed_surrender_keeps h =
      Ending-kept c who id s.policy s.leases s.trail.emitter _
        (handle_lease_surrender-Ends c who id s) h
