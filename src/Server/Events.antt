-- ===== src/Server/Events.antt =====
-- internal/server/handlers.go: what the events of a lease and of a claim hold, said without the functions
-- that build them.
use agent_cred_broker.Prelude.{◌≡◌, ◌≢◌, ◌⊎◌, some, none, String, Assoc, lookup, map_option}
use agent_cred_broker.Time.{rfc3339}
use agent_cred_broker.Lease.{Lease}
use agent_cred_broker.Audit.{
  Subject, Event, key, text, time, lease_issued, lease_renewed, lease_surrendered, claim_recorded,
}

-- The event tells of the issue or the renewal of this lease, with its holder, scope and end.
pub record Announces (l : Lease) (ev : Event) : Type 0 where
  pub kind : (ev.event_type ≡ lease_issued) ⊎ (ev.event_type ≡ lease_renewed)
  pub holder : map_option key ev.subject ≡ some l.subject_key
  pub scope : lookup "scope" ev.attested ≡ some (text l.scope)
  pub names : lookup "lease_id" ev.attested ≡ some (text l.id)
  pub ends : lookup "expires_at" ev.attested ≡ some (time (rfc3339 l.expires_at))

-- The event tells of the surrender of this lease.
pub record Closes (l : Lease) (ev : Event) : Type 0 where
  pub kind : ev.event_type ≡ lease_surrendered
  pub holder : map_option key ev.subject ≡ some l.subject_key
  pub scope : lookup "scope" ev.attested ≡ some (text l.scope)
  pub names : lookup "lease_id" ev.attested ≡ some (text l.id)

-- The event attests that the subject made this claim, under its identifier and the lease's, if the claim
-- names one.
pub record Claims (subject : Subject) (lease_id id : String) (claim : Assoc String) (ev : Event)
    : Type 0 where
  pub kind : ev.event_type ≡ claim_recorded
  pub claimant : ev.subject ≡ some subject
  pub asserted : ev.asserted ≡ claim
  pub names : lookup "claim_id" ev.attested ≡ some (text id)
  pub lease :
      ((lease_id ≡ "") × (lookup "lease_id" ev.attested ≡ none))
      ⊎ ((lease_id ≢ "") × (lookup "lease_id" ev.attested ≡ some (text lease_id)))
