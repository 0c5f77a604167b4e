-- ===== src/Broker/History/Runs.antt =====
-- internal/server and cmd/broker/main.go: the lease table against the event stream, after each step of the
-- broker and after a run.
use agent_cred_broker.Prelude.{
  ℕ, ◌≡◌, refl, ◌∙◌, ap, sym, subst, inl, inr, false, Option, none, some, [], String, Assoc, lookup,
  Bool-cases, str_eq, else_branch, if_cases, Entries-lookup, cut_prefix,
}
use agent_cred_broker.Time.{Instant, Duration}
use agent_cred_broker.RateLimit.{allow}
use agent_cred_broker.Lease.{Lease, mark, dead}
use agent_cred_broker.Lease.Sweep.{HasName, IsValid, sweep_tests, swept}
use agent_cred_broker.Audit.{Subject, Source, Event, key}
use agent_cred_broker.Audit.Codec.{Codec}
use agent_cred_broker.Policy.{Policy}
use agent_cred_broker.Policy.Watcher.{Report, quiet, reloaded, failed}
use agent_cred_broker.Server.{
  record_event, Server, Caller, Body, malformed, nothing, decoded, allow_lease, read_clock, new_id,
}
use agent_cred_broker.Server.Auth.{
  Route, post_lease, renew_lease, delete_lease, get_lease, post_claims, route, serve, reject,
  admit_subject, check_token, with_auth, with_request_id, record_auth_failure,
}
use agent_cred_broker.Server.Create.{LeaseRequest, handle_lease_create, read_body}
use agent_cred_broker.Server.Create.Issue.{IsFresh}
use agent_cred_broker.Server.Create.Disclosure.{opening, handle_lease_create-Ends}
use agent_cred_broker.Server.Leases.{
  handle_lease_renew, handle_lease_surrender, sweep_expired_leases,
}
use agent_cred_broker.Server.Leases.Guards.{rate_limited_cases}
use agent_cred_broker.Server.Leases.Renewal.{handle_lease_renew-Ends}
use agent_cred_broker.Server.Leases.Surrender.{handle_lease_surrender-Ends}
use agent_cred_broker.Server.Leases.Isolation.{get_keeps}
use agent_cred_broker.Server.Progress.{grown, point, on_stream}
use agent_cred_broker.Server.Progress.Creation.{handle_lease_create-Goes}
use agent_cred_broker.Server.Progress.Requests.{
  handle_lease_renew-Goes, handle_lease_surrender-Goes,
}
use agent_cred_broker.Server.Progress.Recording.{
  record_auth_failure-Records, handle_claims-Records, sweep-Goes, sweep_leaves,
}
use agent_cred_broker.Server.Claims.{handle_claims}
use agent_cred_broker.Broker.History.Backing.{
  Backed, Safe, Renews, advance, keeps, created, renewed_to, surrendered, Backed-grows, some-inj,
  Backed-mark,
}
use agent_cred_broker.Broker.Reload.{sign_report}
use agent_cred_broker.Broker.History.{
  Step, serves, sweeps, reports, Reaches, start, then_step, numbered, DrawsFresh, Attested,
}

-- A body that does not decode changes no lease.
undecoded :
    (c : Codec) (who : Caller) (size : Assoc String → ℕ) (body : Body LeaseRequest) (s : Server)
    → ((t : Server) → (read_body c who size body t).1.leases ≡ t.leases)
    → (handle_lease_create c who size body s).1.leases ≡ s.leases
unfolding handle_lease_create allow_lease read_clock
undecoded c who size body s same =
    elim (Bool-cases
      (allow (key who.subject) (s.trail.world.clock s.trail.world.reads) s.limits.lease).0) [
        | inl y ↦ rw y (same _)
        | inr n ↦ rw n (
            rate_limited_cases (λ x. x.1.leases ≡ s.leases) c who "leases"
              "lease rate limit exceeded" _ (λ r s' bad kept. kept))
      ]

module _ (c : Codec) (size : Assoc String → ℕ) (who : Caller) (s : Server) where
  creation-Renews :
      (body : Body LeaseRequest) → IsFresh s → Renews c s (handle_lease_create c who size body s)
  unfolding read_body
  creation-Renews malformed fresh =
      keeps c s (handle_lease_create c who size malformed s)
        (undecoded c who size malformed s (λ t. refl))
  creation-Renews nothing fresh =
      keeps c s (handle_lease_create c who size nothing s)
        (undecoded c who size nothing s (λ t. refl))
  creation-Renews (decoded req) fresh =
      created c who req (opening s) s _ refl (handle_lease_create-Ends c who req size s fresh)

  -- Each route keeps the state safe.
  route-Safe : (r : Route) → DrawsFresh r s → Safe c s → Safe c (route c size r who s).1
  unfolding route
  route-Safe (post_lease body) fresh safe =
      advance c s (handle_lease_create c who size body s)
        (handle_lease_create-Goes c who size body s) (creation-Renews body fresh) safe
  route-Safe (renew_lease id body) fresh safe =
      advance c s (handle_lease_renew c who id body s) (handle_lease_renew-Goes c who id body s)
        (renewed_to c who id body s.policy s _ _ _ (handle_lease_renew-Ends c who id body s)) safe
  route-Safe (delete_lease id) fresh safe =
      advance c s (handle_lease_surrender c who id s) (handle_lease_surrender-Goes c who id s)
        (surrendered c who id s.policy s _ (handle_lease_surrender-Ends c who id s)) safe
  route-Safe (get_lease id) fresh safe = subst (Safe c) (sym (get_keeps c who id s)) safe
  route-Safe (post_claims body) fresh safe =
      let (same, goes) = handle_claims-Records c who size body s in
      advance c s (handle_claims c who size body s) goes
        (keeps c s (handle_claims c who size body s) same) safe

module _ (c : Codec) (authn : String → Option Subject) (size : Assoc String → ℕ) where
  reject-Safe :
      (request_id : String) (source : Source) (reason title : String) (s : Server)
      → Safe c s
      → Safe c (reject c authn request_id source reason title s).1
  unfolding reject
  reject-Safe request_id source reason title s =
      let (same, goes) = record_auth_failure-Records c request_id source reason s in
      advance c s (record_auth_failure c request_id source reason s) goes
        (keeps c s (record_auth_failure c request_id source reason s) same)

  admit_subject-Safe :
      (request_id : String) (source : Source) (found : Option Subject) (r : Route) (s : Server)
      → DrawsFresh r s
      → Safe c s
      → Safe c (admit_subject c authn request_id source found (route c size r) s).1
  unfolding admit_subject
  admit_subject-Safe request_id source none r s fresh safe =
      reject-Safe request_id source _ _ s safe
  admit_subject-Safe request_id source (some subject) r s fresh safe =
      route-Safe c size _ s r fresh safe

  check_token-Safe :
      (request_id : String) (source : Source) (token : Option String) (r : Route) (s : Server)
      → DrawsFresh r s
      → Safe c s
      → Safe c (check_token c authn request_id source token (route c size r) s).1
  unfolding check_token
  check_token-Safe request_id source none r s fresh safe = reject-Safe request_id source _ _ s safe
  check_token-Safe request_id source (some token) r s fresh safe =
      if_cases (λ x. Safe c x.1) (str_eq token "") _
        (admit_subject c authn request_id source (authn token) (route c size r)) s
        (λ y. reject-Safe request_id source _ _ s safe)
        (λ n. admit_subject-Safe request_id source (authn token) r s fresh safe)

  serve-Safe :
      (source : Source) (header : String) (r : Route) (s : Server)
      → DrawsFresh r (numbered s)
      → Safe c s
      → Safe c (serve c authn size source header r s).1
  unfolding serve with_request_id with_auth new_id
  serve-Safe source header r s fresh safe =
      check_token-Safe _ source (cut_prefix "Bearer " header) r (numbered s) fresh
        (record { table = safe.table; backed = safe.backed })

  -- A lease that a sweep leaves is one that was there, marked or not.
  swept_from :
      (retain : Duration) (now : Instant) (o : Option Lease) (l : Lease)
      → swept retain now o ≡ some l
      → (k : Lease) × (o ≡ some k) × (mark now k ≡ l)
  swept_from retain now none l h = cc
  swept_from retain now (some k) l h =
      (k, refl, some-inj _ _ (else_branch (dead retain now k) _ _ _ (λ x. cc) h).1)

  -- What the sweep leaves of a lease is backed by the same line.
  sweep-Renews :
      (retain : Duration) (s : Server) → Safe c s → Renews c s (sweep_expired_leases c retain s)
  sweep-Renews retain s safe j l h =
      let (more, e) =
        grown c (point s) (point (sweep_expired_leases c retain s).1) (sweep-Goes c retain s) in
      let now = s.trail.world.clock s.trail.world.reads in
      let left : swept retain now (lookup j s.leases) ≡ some l =
        sym ((sweep_tests retain now j s.leases safe.table).1)
        ∙ sym (ap (lookup j) (sweep_leaves c retain s))
        ∙ h in
      let (k, there, marked) = swept_from retain now (lookup j s.leases) l left in
      let old = Backed-mark c now k s.trail.emitter.out (safe.backed j k there) in
      inr (
        subst (λ x. Backed c x (sweep_expired_leases c retain s).1.trail.emitter.out) marked
          (Backed-grows c (mark now k) _ more _ e old))

  signed_report-Safe :
      (ev : Event) (next : Policy) (s : Server)
      → Safe c s
      → Safe c (record s { policy = next; trail = (record_event c ev s.trail).1 })
  signed_report-Safe ev next s =
      let t : Server = record s { policy = next; trail = (record_event c ev s.trail).1 } in
      advance {A = Unit} c s (tt, t) (on_stream c ev s.trail s.leases) (keeps c s (tt, t) refl)

  report-Safe :
      (why : String) (r : Report) (next : Policy) (s : Server)
      → Safe c s
      → Safe c (record s { policy = next; trail = sign_report c why r s.trail })
  unfolding sign_report
  report-Safe why quiet next s safe = record { table = safe.table; backed = safe.backed }
  report-Safe why (reloaded old new) next s safe = signed_report-Safe _ next s safe
  report-Safe why (failed retained) next s safe = signed_report-Safe _ next s safe

  step-Safe : (s t : Server) → Step c authn size s t → Safe c s → Safe c t
  step-Safe s t (serves source header r u fresh) safe = serve-Safe source header r u fresh safe
  step-Safe s t (sweeps retain u) safe =
      advance c u (sweep_expired_leases c retain u) (sweep-Goes c retain u)
        (sweep-Renews retain u safe) safe
  step-Safe s t (reports why r next u) safe = report-Safe why r next u safe

  -- Over any run each lease stays backed.
  pub run-Safe : (s t : Server) → Reaches c authn size s t → Safe c s → Safe c t
  run-Safe s t (start u) safe = safe
  run-Safe s t (then_step u v w run step) safe = step-Safe v w step (run-Safe u v run safe)

  empty-Safe : (s : Server) → s.leases ≡ [] → Safe c s
  unfolding lookup
  empty-Safe s empty = record {
    table = subst IsValid (sym empty) (record { unique = tt; named = tt });
    backed = λ j l h. let bad : none ≡ some l = sym (ap (lookup j) empty) ∙ h in cc;
  }

  -- In any run of the broker from an empty table, in which each new lease draws an identifier that is not in
  -- use, every lease that is in the table and not surrendered stands under its own identifier, and the
  -- signed line of its issue or its last renewal, which names its holder, its scope, its identifier and
  -- its end, is in the event stream.
  pub usable_leases_are_signed :
      (s t : Server)
      → s.leases ≡ []
      → Reaches c authn size s t
      → (j : String) (l : Lease) → lookup j t.leases ≡ some l
      → l.surrendered ≡ false
      → (l.id ≡ j) × Attested c l t.trail.emitter.out
  usable_leases_are_signed s t empty run j l there held =
      let safe = run-Safe s t run (empty-Safe s empty) in
      elim (safe.backed j l there) [
        | inl over ↦ cc
        | inr a ↦ (Entries-lookup HasName j t.leases l safe.table.named there, a)
      ]
