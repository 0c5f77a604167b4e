-- ===== src/Server/Leases/Renewal.antt =====
-- internal/server/handlers.go, handleLeaseRenew: the ways in which a run ends.
use agent_cred_broker.Prelude.{
  suc, ◌≡◌, refl, inl, inr, true, false, Option, none, some, String, lookup, insert, lookup-insert,
  lookup-insert_self, ℤ, pos, Bool-cases, if_cases, str_eq, if◌then◌else◌, ap,
}
use agent_cred_broker.Time.{Instant, Duration}
use agent_cred_broker.Lease.{Lease, Store, surrender}
use agent_cred_broker.Lease.Outcomes.{IsRenewable, extended, renew_either}
use agent_cred_broker.Audit.{key}
use agent_cred_broker.Audit.Codec.{Codec, Bytes}
use agent_cred_broker.Audit.Emitter.{Emitter, envelope, sign_line}
use agent_cred_broker.Audit.Emitter.Signed.{wrote}
use agent_cred_broker.Policy.{Policy, Grant, IssueWindow, grant_for}
use agent_cred_broker.Server.{
  Server, Caller, Response, Body, malformed, nothing, decoded, lease, record_event, read_clock,
  count, audit_fail_closed, allow_lease, Trail,
}
use agent_cred_broker.Server.Create.{lease_meta, clamp_ttl}
use agent_cred_broker.Server.Create.Issue.{IsLease, record_event-true}
use agent_cred_broker.Server.Leases.Guards.{limited_cases, with_lease_cases, problem_no-IsLease}
use agent_cred_broker.Server.Leases.{
  renewed_event, conclude_renewal, renewed, extend, read_renewal, recheck, handle_lease_renew,
  renew_lease, surrender_lease,
}

-- The ttl that a body asks for.
abbrev pub asked : Body ℤ → ℤ
asked (decoded n) = n
asked _ = pos 0

-- The caller holds the lease, the policy in force grants its scope as renewable, and the lease is not
-- surrendered, not past its end by the clock's reading and renewable.
pub record Extends (who : Caller) (id : String) (body : Body ℤ) (p : Policy) (leases : Store)
    (now : Instant) (l : Lease) (ttl : Duration) : Type 0 where
  pub stored : lookup id leases ≡ some l
  pub owner : str_eq l.subject_key (key who.subject) ≡ true
  pub grant : Grant IssueWindow
  pub granted : grant_for p (key who.subject) l.scope ≡ some grant
  pub renewable : grant.renewable ≡ true
  pub clamped : clamp_ttl (asked body) grant ≡ some ttl
  pub live : IsRenewable now l

-- The clock reads `now` for the test of the end and `later` for the new end.
-- The lease is extended and the signed event of it is in the stream; or it is ended, because the event
-- was not written; or nothing happens to any lease.
pub data Ending (c : Codec) (who : Caller) (id : String) (body : Body ℤ) (p : Policy)
    (leases : Store) (e : Emitter) (now later : Instant) : Response × Server → Type 0 where
  extended_to :
      (l : Lease) (ttl : Duration) (at : Instant) (line : Bytes) (s' : Server)
      → Extends who id body p leases now l ttl
      → ((j : String)
          → lookup j s'.leases
            ≡ (if str_eq id j then some (extended l later ttl) else lookup j leases))
      → sign_line c (envelope at (renewed_event c who (extended l later ttl) p.hash) e) ≡ some line
      → s'.trail.emitter ≡ wrote line e
      → Ending c who id body p leases e now later
          (lease 200 (lease_meta (extended l later ttl)), s')
  ended :
      (r : Response) (l : Lease) (ttl : Duration) (s' : Server)
      → ¬ IsLease r
      → Extends who id body p leases now l ttl
      → ((j : String)
          → lookup j s'.leases ≡ (
              if str_eq id j
              then some (record (extended l later ttl) { surrendered = true })
              else lookup j leases))
      → Ending c who id body p leases e now later (r, s')
  refused :
      (r : Response) (s' : Server)
      → ¬ IsLease r
      → ((j : String) → lookup j s'.leases ≡ lookup j leases)
      → Ending c who id body p leases e now later (r, s')

module _ (c : Codec) (who : Caller) (id : String) (body : Body ℤ) where
  abbrev Ends : Server → Response × Server → Type 0
  Ends s =
      Ending c who id body s.policy s.leases s.trail.emitter
        (s.trail.world.clock s.trail.world.reads) (s.trail.world.clock (suc s.trail.world.reads))

  -- The entry that was written last is found.
  insert_twice :
      (l l' : Lease) (leases : Store) (j : String)
      → lookup j (insert id l' (insert id l leases))
        ≡ (if str_eq id j then some l' else lookup j leases)
  insert_twice l l' leases j = elim (Bool-cases (str_eq id j)) [
    | inl y ↦ rw (lookup-insert id j l' (insert id l leases), y)
    | inr n ↦ rw (lookup-insert id j l' (insert id l leases), lookup-insert id j l leases, n)
  ]

  surrender_inserted :
      (l : Lease) (leases : Store)
      → l.surrendered ≡ false
      → (surrender id (insert id l leases)).2
        ≡ insert id (record l { surrendered = true }) (insert id l leases)
  unfolding surrender
  surrender_inserted l leases h = rw (lookup-insert_self id l leases, surrender) (rw h)

  conclude_renewal-Ends :
      (l : Lease) (ttl : Duration) (now later : Instant) (t : Trail) (s : Server)
      → Extends who id body s.policy s.leases now l ttl
      → Ending c who id body s.policy s.leases t.emitter now later (
          conclude_renewal c who id
            (extended l later ttl)
            (record_event c (renewed_event c who (extended l later ttl) s.policy.hash) t).0
            (record s {
              leases = insert id (extended l later ttl) s.leases;
              trail =
                  (record_event c (renewed_event c who (extended l later ttl) s.policy.hash) t).1;
            }))
  unfolding conclude_renewal surrender_lease audit_fail_closed count
  conclude_renewal-Ends l ttl now later t s ext =
      let l' = extended l later ttl in
      elim (Bool-cases (record_event c (renewed_event c who l' s.policy.hash) t).0) [
        | inl ok ↦
            let (at, line, signed, put) =
              record_event-true c (renewed_event c who l' s.policy.hash) t ok in
            rw ok (extended_to l ttl at line _ ext (λ j. lookup-insert id j l' s.leases) signed put)
        | inr failed ↦ rw failed (
            ended _ l ttl _ (λ x. x) ext
              (λ j.
                rw (surrender_inserted l' s.leases ext.live.held)
                  (insert_twice l' (record l' { surrendered = true }) s.leases j)))
      ]

  extend_known :
      (l : Lease) (ttl : Duration) (s : Server)
      → lookup id s.leases ≡ some l
      → (IsRenewable (s.trail.world.clock s.trail.world.reads) l
          → Extends who id body s.policy s.leases (s.trail.world.clock s.trail.world.reads) l ttl)
      → Ends s (extend c who id (some ttl) s)
  unfolding extend renew_lease read_clock renewed
  extend_known l ttl s e build =
      let now = s.trail.world.clock s.trail.world.reads in
      let later = s.trail.world.clock (suc s.trail.world.reads) in
      elim (renew_either id now later ttl s.leases l e) [
        | inl (live, f) ↦ rw f (conclude_renewal-Ends l ttl now later _ s (build live))
        | inr (o, f) ↦ rw f (refused _ _ (λ x. x) (λ j. refl))
      ]

  module _ (l : Lease) (s : Server) (stored : lookup id s.leases ≡ some l)
      (owner : str_eq l.subject_key (key who.subject) ≡ true) where
    extend-Ends :
        (grant : Grant IssueWindow) (ttl : Option Duration)
        → grant_for s.policy (key who.subject) l.scope ≡ some grant
        → grant.renewable ≡ true
        → clamp_ttl (asked body) grant ≡ ttl
        → Ends s (extend c who id ttl s)
    unfolding extend
    extend-Ends grant none granted ok clamped = refused _ _ (λ x. x) (λ j. refl)
    extend-Ends grant (some ttl) granted ok clamped = extend_known l ttl s stored (λ live. record {
      stored = stored;
      owner = owner;
      grant = grant;
      granted = granted;
      renewable = ok;
      clamped = clamped;
      live = live;
    })

-- A run for lease l of the caller, from the tests of its grant on.
read_renewal-Ends :
    (c : Codec) (who : Caller) (id : String) (body : Body ℤ) (l : Lease) (s : Server)
    → lookup id s.leases ≡ some l
    → str_eq l.subject_key (key who.subject) ≡ true
    → (grant : Grant IssueWindow) → grant_for s.policy (key who.subject) l.scope ≡ some grant
    → grant.renewable ≡ true
    → Ends c who id body s (read_renewal c who id grant body s)
unfolding read_renewal
read_renewal-Ends c who id malformed l s e o grant g ok = refused _ _ (λ x. x) (λ j. refl)
read_renewal-Ends c who id nothing l s e o grant g ok =
    extend-Ends c who id nothing l s e o grant _ g ok refl
read_renewal-Ends c who id (decoded n) l s e o grant g ok =
    extend-Ends c who id (decoded n) l s e o grant _ g ok refl

recheck-Ends :
    (c : Codec) (who : Caller) (id : String) (body : Body ℤ) (l : Lease) (s : Server)
    → lookup id s.leases ≡ some l
    → str_eq l.subject_key (key who.subject) ≡ true
    → (grant : Option (Grant IssueWindow)) → grant_for s.policy (key who.subject) l.scope ≡ grant
    → Ends c who id body s (recheck c who id body grant s)
unfolding recheck
recheck-Ends c who id body l s e o none g = refused _ _ (λ x. x) (λ j. refl)
recheck-Ends c who id body l s e o (some grant) g =
    if_cases (Ends c who id body s) grant.renewable (read_renewal c who id grant body) _ s
      (read_renewal-Ends c who id body l s e o grant g) (λ n. refused _ _ (λ x. x) (λ j. refl))

-- The readings of the clock during a request: the first is for the limiter.
abbrev pub tested_at : Server → Instant
tested_at s = s.trail.world.clock (suc s.trail.world.reads)

abbrev pub extended_at : Server → Instant
extended_at s = s.trail.world.clock (suc (suc s.trail.world.reads))

-- Every run of the handler ends in one of the three ways.
pub handle_lease_renew-Ends :
    (c : Codec) (who : Caller) (id : String) (body : Body ℤ) (s : Server)
    → Ending c who id body s.policy s.leases s.trail.emitter
        (tested_at s)
        (extended_at s)
        (handle_lease_renew c who id body s)
unfolding handle_lease_renew allow_lease read_clock
handle_lease_renew-Ends c who id body s =
    limited_cases
      (Ending c who id body s.policy s.leases s.trail.emitter (tested_at s) (extended_at s)) c who _
      s (λ r s' bad same. refused r s' (problem_no-IsLease r bad) (λ j. ap (lookup j) same))
      (with_lease_cases
        (Ending c who id body s.policy s.leases s.trail.emitter (tested_at s) (extended_at s)) c who
        id _ _ (λ r bad. refused r _ (problem_no-IsLease r bad) (λ j. refl))
        (λ l e o. recheck-Ends c who id body l _ e o _ refl))
