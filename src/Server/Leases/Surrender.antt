-- ===== src/Server/Leases/Surrender.antt =====
-- internal/server/handlers.go, handleLeaseSurrender: the ways in which a run ends.
use agent_cred_broker.Prelude.{
  ◌≡◌, refl, inl, inr, true, false, some, String, lookup, lookup-insert, Bool-cases, if_cases,
  str_eq, if◌then◌else◌,
}
use agent_cred_broker.Time.{Instant}
use agent_cred_broker.Lease.{Lease, Store, surrender}
use agent_cred_broker.Audit.{key}
use agent_cred_broker.Audit.Codec.{Codec, Bytes}
use agent_cred_broker.Audit.Emitter.{Emitter, envelope, sign_line}
use agent_cred_broker.Audit.Emitter.Signed.{wrote}
use agent_cred_broker.Policy.{Policy}
use agent_cred_broker.Server.{
  Server, Caller, Response, Trail, no_content, record_event, read_clock, count, audit_fail_closed,
  allow_lease,
}
use agent_cred_broker.Server.Create.Issue.{record_event-true}
use agent_cred_broker.Server.Leases.{
  surrendered_event, conclude_surrender, surrender_held, handle_lease_surrender, surrender_lease,
}
use agent_cred_broker.Server.Leases.Guards.{limited_cases, with_lease_cases, IsProblem}

-- The lease is surrendered, now behind its signed event or already before; or nothing happens to any
-- lease and the answer is a problem.
pub data Ending (c : Codec) (who : Caller) (id : String) (p : Policy) (leases : Store) (e : Emitter)
    : Response × Server → Type 0 where
  surrendered_now :
      (l : Lease) (at : Instant) (line : Bytes) (s' : Server)
      → lookup id leases ≡ some l
      → str_eq l.subject_key (key who.subject) ≡ true
      → ((j : String)
          → lookup j s'.leases
            ≡ (if str_eq id j then some (record l { surrendered = true }) else lookup j leases))
      → sign_line c (envelope at (surrendered_event c who l p.hash) e) ≡ some line
      → s'.trail.emitter ≡ wrote line e
      → Ending c who id p leases e (no_content, s')
  surrendered_before :
      (l : Lease) (s' : Server)
      → lookup id leases ≡ some l
      → l.surrendered ≡ true
      → s'.leases ≡ leases
      → s'.trail.emitter ≡ e
      → Ending c who id p leases e (no_content, s')
  kept :
      (r : Response) (s' : Server)
      → IsProblem r
      → s'.leases ≡ leases
      → Ending c who id p leases e (r, s')

module _ (c : Codec) (who : Caller) (id : String) where
  abbrev Ends : Server → Response × Server → Type 0
  Ends s = Ending c who id s.policy s.leases s.trail.emitter

  conclude_surrender-Ends :
      (l : Lease) (t : Trail) (s : Server)
      → lookup id s.leases ≡ some l
      → str_eq l.subject_key (key who.subject) ≡ true
      → l.surrendered ≡ false
      → Ending c who id s.policy s.leases t.emitter (
          conclude_surrender c who id
            (record_event c (surrendered_event c who l s.policy.hash) t).0
            (record s { trail = (record_event c (surrendered_event c who l s.policy.hash) t).1 }))
  unfolding conclude_surrender surrender_lease audit_fail_closed count surrender
  conclude_surrender-Ends l t s e o held =
      elim (Bool-cases (record_event c (surrendered_event c who l s.policy.hash) t).0) [
        | inl ok ↦
            let (at, line, signed, put) =
              record_event-true c (surrendered_event c who l s.policy.hash) t ok in
            rw ok (
              surrendered_now l at line _ e o
                (λ j.
                  rw (e, surrender)
                    (rw held (lookup-insert id j (record l { surrendered = true }) s.leases)))
                signed put)
        | inr failed ↦ rw failed (kept _ _ tt refl)
      ]

  surrender_held-Ends :
      (l : Lease) (s : Server)
      → lookup id s.leases ≡ some l
      → str_eq l.subject_key (key who.subject) ≡ true
      → Ends s (surrender_held c who id l s)
  unfolding surrender_held
  surrender_held-Ends l s e o =
      if_cases (Ends s) l.surrendered _ _ s (λ gone. surrendered_before l s e gone refl refl)
        (λ held. conclude_surrender-Ends l s.trail s e o held)

  -- Every run of the handler ends in one of the three ways.
  pub handle_lease_surrender-Ends :
      (s : Server)
      → Ending c who id s.policy s.leases s.trail.emitter (handle_lease_surrender c who id s)
  unfolding handle_lease_surrender allow_lease read_clock
  handle_lease_surrender-Ends s =
      limited_cases (Ends s) c who _ s (λ r s' bad same. kept r s' bad same)
        (with_lease_cases (Ends s) c who id _ _ (λ r bad. kept r _ bad refl)
          (λ l e o. surrender_held-Ends l _ e o))
