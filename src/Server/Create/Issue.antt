-- ===== src/Server/Create/Issue.antt =====
-- internal/server/handlers.go, handleLeaseCreate: the stage that issues, after the secret is fetched.
use Prim.Native.String.{◌++◌ as append_text}
use agent_cred_broker.Prelude.{
  suc, false, ap, sym, ◌∙◌, str_eq, lookup-insert, insert, ℕ, ◌≡◌, refl, inl, inr, true, Option,
  none, some, String, Assoc, lookup, lookup-delete-insert, Bool-cases, if◌then◌else◌,
}
use agent_cred_broker.Time.{Instant, Duration, add}
use agent_cred_broker.Lease.{Lease, Store, create, remove}
use agent_cred_broker.Audit.{Event, key}
use agent_cred_broker.Audit.Codec.{Codec, Bytes}
use agent_cred_broker.Audit.Emitter.{Emitter, envelope, sign_line}
use agent_cred_broker.Audit.Emitter.Signed.{wrote, emit_succeeds}
use agent_cred_broker.Policy.{
  Policy, Scope, scope_named, Grant, IssueWindow, grant_for, window_open,
}
use agent_cred_broker.Provider.{Provider, Result}
use agent_cred_broker.Server.{
  Server, Caller, Response, Trail, lease, record_event, read_clock, count, new_id,
  audit_fail_closed,
}
use agent_cred_broker.Server.Events.{Announces}
use agent_cred_broker.Server.Create.Upstream.{
  IsCut, IsTold, clamp_upstream-IsCut, upstream_expiry-IsTold,
}
use agent_cred_broker.Server.Create.{
  LeaseRequest, clamp_ttl, conclude, issued_event, issue, issued_response,
}

record_event-signs :
    (c : Codec) (ev : Event) (t : Trail)
    → (record_event c ev t).0 ≡ true
    → (line : Bytes) × (sign_line c (envelope (t.world.clock t.world.reads) ev t.emitter)
        ≡ some line)
      × ((record_event c ev t).1.emitter ≡ wrote line t.emitter)
unfolding record_event
record_event-signs c ev t h =
    emit_succeeds c (t.world.clock t.world.reads) (t.world.writing t.world.writes) ev t.emitter h

pub record_event-true :
    (c : Codec) (ev : Event) (t : Trail)
    → (record_event c ev t).0 ≡ true
    → (now : Instant) × (line : Bytes) × (sign_line c (envelope now ev t.emitter) ≡ some line)
      × ((record_event c ev t).1.emitter ≡ wrote line t.emitter)
record_event-true c ev t h =
    let (line, s, e) = record_event-signs c ev t h in (t.world.clock t.world.reads, line, s, e)

-- What a request meets: the policy, the providers, the leases and the emitter of the broker, and the
-- readings of the clock for the test of the windows, for the call of the provider, after it, for the
-- lease and for the event.
pub record Scene : Type 0 where
  pub policy : Policy
  pub providers : Assoc Provider
  pub leases : Store
  pub emitter : Emitter
  pub tested_at : Instant
  pub asked_at : Instant
  pub fetched_at : Instant
  pub created_at : Instant
  pub signed_at : Instant

-- The policy grants the scope to the caller, a window is open at the reading of the clock for this test,
-- and this is the clamped ttl.
pub record Authorized (who : Caller) (req : LeaseRequest) (b : Scene) (grant : Grant IssueWindow)
    (ttl : Duration) : Type 0 where
  pub granted : grant_for b.policy (key who.subject) req.scope ≡ some grant
  pub open_then : window_open grant b.tested_at ≡ true
  pub clamped : clamp_ttl req.ttl_seconds grant ≡ some ttl

-- The scope's provider was asked for the scope with this ttl, and gave this result.
pub record Fetched (req : LeaseRequest) (b : Scene) (ttl : Duration) (prov : Provider)
    (result : Result) : Type 0 where
  pub scope : Scope
  pub named : scope_named b.policy req.scope ≡ some scope
  pub provided : lookup scope.provider b.providers ≡ some prov
  pub fetched :
      prov.fetch b.asked_at
        (record { ref = scope.ref; fields = scope.fields; params = scope.params; ttl = ttl })
      ≡ some result

-- What is true when the caller is answered with a lease and a secret.
pub record Issued (c : Codec) (who : Caller) (req : LeaseRequest) (b : Scene) (l : Lease)
    (ttl : Duration) (upstream : Option ℕ) (secret : Assoc String) (s' : Server) : Type 0 where
  pub grant : Grant IssueWindow
  pub allowed_ttl : Duration
  pub authorized : Authorized who req b grant allowed_ttl
  pub prov : Provider
  pub result : Result
  pub fetched : Fetched req b allowed_ttl prov result
  pub disclosed : secret ≡ result.secret
  pub shortened : IsCut result.expires_at b.fetched_at allowed_ttl ttl
  pub upstream_told : IsTold result.expires_at upstream
  -- The lease
  pub owner : l.subject_key ≡ key who.subject
  pub scope : l.scope ≡ req.scope
  pub semantics : l.semantics ≡ prov.semantics
  pub renewable : l.renewable ≡ grant.renewable
  pub issued_at : l.issued_at ≡ b.created_at
  pub ends : l.expires_at ≡ add b.created_at ttl
  pub held : l.surrendered ≡ false
  pub stored :
      (j : String) → lookup j s'.leases ≡ (if str_eq l.id j then some l else lookup j b.leases)
  -- The event
  pub line : Bytes
  pub signed :
      sign_line c
        (envelope b.signed_at (issued_event c who req l ttl b.policy.hash upstream) b.emitter)
      ≡ some line
  pub announced :
      Announces l
        (envelope b.signed_at (issued_event c who req l ttl b.policy.hash upstream) b.emitter)
  pub written : s'.trail.emitter ≡ wrote line b.emitter

abbrev pub IsLease : Response → Type 0
IsLease (lease status body) = Unit
IsLease _ = ⊥

-- The two ways in which the handler ends: a lease is issued and on record, or the answer holds no
-- lease and the table is as before.
pub data Ending (c : Codec) (who : Caller) (req : LeaseRequest) (b : Scene)
    : Response × Server → Type 0 where
  issued :
      (l : Lease) (ttl : Duration) (upstream : Option ℕ) (secret : Assoc String) (s' : Server)
      → Issued c who req b l ttl upstream secret s'
      → Ending c who req b (issued_response c who l upstream secret, s')
  refused :
      (r : Response) (s' : Server)
      → ¬ IsLease r
      → ((j : String) → lookup j s'.leases ≡ lookup j b.leases)
      → Ending c who req b (r, s')

-- The next identifier is not in use.
abbrev pub IsFresh : Server → Type 0
IsFresh s =
    lookup (append_text "lease" (append_text "_" (s.trail.world.random s.trail.world.draws)))
      s.leases
    ≡ none

-- The scene at the stage that issues, with the readings before it.
abbrev pub scene : Instant → Instant → Server → Scene
scene tested_at asked_at s = record {
  policy = s.policy;
  providers = s.providers;
  leases = s.leases;
  emitter = s.trail.emitter;
  tested_at = tested_at;
  asked_at = asked_at;
  fetched_at = s.trail.world.clock s.trail.world.reads;
  created_at = s.trail.world.clock (suc s.trail.world.reads);
  signed_at = s.trail.world.clock (suc (suc s.trail.world.reads));
}

-- The last step, over the state that the steps before it leave.
conclude-Ending :
    (c : Codec) (who : Caller) (req : LeaseRequest) (l : Lease) (ttl : Duration)
    (upstream : Option ℕ) (secret : Assoc String) (ev : Event) (t : Trail) (b : Scene) (s : Server)
    → b.leases ≡ s.leases
    → lookup l.id s.leases ≡ none
    → ((s' : Server) (line : Bytes)
        → ((j : String)
            → lookup j s'.leases ≡ (if str_eq l.id j then some l else lookup j s.leases))
        → sign_line c (envelope (t.world.clock t.world.reads) ev t.emitter) ≡ some line
        → s'.trail.emitter ≡ wrote line t.emitter
        → Issued c who req b l ttl upstream secret s')
    → Ending c who req b (
        conclude c who l upstream secret
          (record_event c ev t).0
          (record s { leases = insert l.id l s.leases; trail = (record_event c ev t).1 }))
unfolding conclude remove audit_fail_closed count
conclude-Ending c who req l ttl upstream secret ev t b s same fresh build =
    elim (Bool-cases (record_event c ev t).0) [
      | inl ok ↦
          let (line, signed, written) = record_event-signs c ev t ok in
          rw ok (
            issued l ttl upstream secret _
              (build _ line (λ j. lookup-insert l.id j l s.leases) signed written))
      | inr failed ↦ rw failed (
          refused _ _ (λ x. x)
            (λ j. lookup-delete-insert l.id j l s.leases fresh ∙ ap (lookup j) (sym same)))
    ]

module _ (c : Codec) (who : Caller) (req : LeaseRequest) where
  pub issue-Ending :
      (grant : Grant IssueWindow) (prov : Provider) (ttl : Duration) (result : Result)
      (tested_at asked_at : Instant) (s : Server)
      → IsFresh s
      → Authorized who req (scene tested_at asked_at s) grant ttl
      → Fetched req (scene tested_at asked_at s) ttl prov result
      → Ending c who req (scene tested_at asked_at s) (issue c who req grant prov ttl result s)
  unfolding issue read_clock new_id create lookup envelope
  issue-Ending grant prov ttl result tested_at asked_at s fresh auth got =
      conclude-Ending c who req _ _ _ result.secret _ _ (scene tested_at asked_at s) s refl fresh
        (λ s' line stored signed written. record {
          grant = grant;
          allowed_ttl = ttl;
          authorized = auth;
          prov = prov;
          result = result;
          fetched = got;
          disclosed = refl;
          shortened =
              clamp_upstream-IsCut result.expires_at (s.trail.world.clock s.trail.world.reads) ttl;
          upstream_told = upstream_expiry-IsTold result.expires_at;
          owner = refl;
          scope = refl;
          semantics = refl;
          renewable = refl;
          issued_at = refl;
          ends = refl;
          held = refl;
          stored = stored;
          line = line;
          signed = signed;
          announced = record {
            kind = inl refl;
            holder = refl;
            scope = refl;
            names = refl;
            ends = refl;
          };
          written = written;
        })
