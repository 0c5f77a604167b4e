-- ===== src/Server/Leases/Isolation.antt =====
-- internal/server/handlers.go: a caller reaches its own leases only.
use agent_cred_broker.Prelude.{
  ◌≡◌, ◌≢◌, refl, inl, inr, true, false, Option, some, String, lookup, ℤ, ap, ◌∙◌, sym, Bool-cases,
  str_eq, eq_iff, if◌then◌else◌,
}
use agent_cred_broker.Time.{Instant}
use agent_cred_broker.Lease.{Lease, Store}
use agent_cred_broker.Audit.{key}
use agent_cred_broker.Audit.Codec.{Codec}
use agent_cred_broker.Audit.Emitter.{Emitter}
use agent_cred_broker.Policy.{Policy}
use agent_cred_broker.Server.{Server, Caller, Response, Body, Handler}
use agent_cred_broker.Server.Leases.{handle_lease_renew, handle_lease_surrender, handle_lease_get}
use agent_cred_broker.Server.Leases.Guards.{with_lease_cases}
use agent_cred_broker.Server.Leases.Renewal
use agent_cred_broker.Server.Leases.Renewal.{handle_lease_renew-Ends}
use agent_cred_broker.Server.Leases.Surrender
use agent_cred_broker.Server.Leases.Surrender.{handle_lease_surrender-Ends}

-- A request about one lease.
pub data Request : Type 0 where
  renew : Body ℤ → Request
  surrender get : Request

unfoldable pub handle : Codec → Caller → String → Request → Handler Response
handle c who id (renew body) = handle_lease_renew c who id body
handle c who id surrender = handle_lease_surrender c who id
handle c who id get = handle_lease_get c who id

-- Two identifiers whose leases have different owners are different.
apart :
    (id j k : String) (m l : Lease) (leases : Store)
    → lookup id leases ≡ some m
    → lookup j leases ≡ some l
    → str_eq m.subject_key k ≡ true
    → l.subject_key ≢ k
    → str_eq id j ≡ false
apart id j k m l leases a b mine foreign = elim (Bool-cases (str_eq id j)) [
  | inl y ↦
      let same : id ≡ j = (eq_iff id j).0 y in
      let e : m.subject_key ≡ k = (eq_iff m.subject_key k).0 mine in
      let q : some m ≡ some l = sym a ∙ ap (λ i. lookup i leases) same ∙ b in
      let r : m ≡ l = cc in absurd (foreign (ap (λ n. n.subject_key) (sym r) ∙ e))
  | inr n ↦ n
]

module _ (c : Codec) (who : Caller) (id : String) (p : Policy) (leases : Store) (e : Emitter)
    (j : String) (l : Lease) (there : lookup j leases ≡ some l)
    (foreign : l.subject_key ≢ key who.subject) where
  at_other :
      (m : Lease) (o : Option Lease)
      → lookup id leases ≡ some m
      → str_eq m.subject_key (key who.subject) ≡ true
      → (if str_eq id j then o else lookup j leases) ≡ some l
  at_other m o a mine = rw (apart id j (key who.subject) m l leases a there mine foreign) there

  renewal_keeps :
      (body : Body ℤ) (now later : Instant) (x : Response × Server)
      → Renewal.Ending c who id body p leases e now later x
      → lookup j x.1.leases ≡ some l
  renewal_keeps body now later x (Renewal.extended_to m ttl at line s' ext stored signed written) =
      stored j ∙ at_other m _ ext.stored ext.owner
  renewal_keeps body now later x (Renewal.ended r m ttl s' bad ext stored) =
      stored j ∙ at_other m _ ext.stored ext.owner
  renewal_keeps body now later x (Renewal.refused r s' bad same) = same j ∙ there

  surrender_keeps :
      (x : Response × Server)
      → Surrender.Ending c who id p leases e x
      → lookup j x.1.leases ≡ some l
  surrender_keeps x (Surrender.surrendered_now m at line s' stored mine changed signed written) =
      changed j ∙ at_other m _ stored mine
  surrender_keeps x (Surrender.surrendered_before m s' stored gone same quiet) =
      ap (lookup j) same ∙ there
  surrender_keeps x (Surrender.kept r s' bad same) = ap (lookup j) same ∙ there

pub get_keeps :
    (c : Codec) (who : Caller) (id : String) (s : Server) → (handle_lease_get c who id s).1 ≡ s
unfolding handle_lease_get
get_keeps c who id s = with_lease_cases (λ x. x.1 ≡ s) c who id _ s (λ r bad. refl) (λ l e o. refl)

-- No request about a lease, whichever identifier it names, changes a lease that another subject holds.
pub foreign_leases_kept :
    (c : Codec) (who : Caller) (id : String) (r : Request) (s : Server) (j : String) (l : Lease)
    → lookup j s.leases ≡ some l
    → l.subject_key ≢ key who.subject
    → lookup j (handle c who id r s).1.leases ≡ some l
unfolding handle
foreign_leases_kept c who id (renew body) s j l h foreign =
    renewal_keeps c who id s.policy s.leases s.trail.emitter j l h foreign body _ _ _
      (handle_lease_renew-Ends c who id body s)
foreign_leases_kept c who id surrender s j l h foreign =
    surrender_keeps c who id s.policy s.leases s.trail.emitter j l h foreign _
      (handle_lease_surrender-Ends c who id s)
foreign_leases_kept c who id get s j l h foreign =
    ap (λ t. lookup j t.leases) (get_keeps c who id s) ∙ h
