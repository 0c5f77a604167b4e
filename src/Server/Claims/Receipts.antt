-- ===== src/Server/Claims/Receipts.antt =====
-- internal/server/handlers.go, handleClaims: what the receipt of claims stands for.
use agent_cred_broker.Prelude.{
  refl, false, eq_iff, lookup, ℕ, ◌≤◌, ◌≡◌, ◌⊎◌, inl, inr, true, ◌||◌, ◌==◌, ltb, Option, none,
  some, List, [], ◌∷◌, length, All, String, Assoc, ℤ, pos, ◌+ℤ◌, map_option, wrap64, arith, ap, sym,
  subst, Bool-cases, Option-cases, str_eq,
}
use agent_cred_broker.RateLimit.{allow, spend}
use agent_cred_broker.Policy.{claim_bytes_cap}
use agent_cred_broker.Lease.{Lease}
use agent_cred_broker.Audit.{key}
use agent_cred_broker.Audit.Codec.{Codec, Bytes}
use agent_cred_broker.Audit.Emitter.{Emitter, envelope, sign_line}
use agent_cred_broker.Audit.Emitter.Signed.{wrote}
use agent_cred_broker.Server.{
  Server, Caller, Response, decoded, claims, record_event, read_clock, new_id, count, spend_claims,
  audit_fail_closed, allow_claim,
}
use agent_cred_broker.Server.Create.Issue.{record_event-true}
use agent_cred_broker.Server.Leases.Guards.{rate_limited_cases, problem_no_claims}
use agent_cred_broker.Server.Events.{Claims}
use agent_cred_broker.Server.Claims.{
  ClaimsRequest, total_bytes, holds, claim_event, record_claims, conclude_claims, charge_claims,
  check_lease, size_checked, read_claims, handle_claims,
}

-- The stream grew by one signed event for each claim, in their order, with these identifiers.
pub data Logged (c : Codec) (who : Caller) (lease_id : String)
    : List (Assoc String) → List String → Emitter → Emitter → Type 0 where
  done : (e : Emitter) → Logged c who lease_id [] [] e e
  next :
      (m : Assoc String) (ms : List (Assoc String)) (id : String) (ids : List String)
      (e e' : Emitter) (at : ℕ) (line : Bytes)
      → Claims who.subject lease_id id m (envelope at (claim_event c who id lease_id m) e)
      → sign_line c (envelope at (claim_event c who id lease_id m) e) ≡ some line
      → Logged c who lease_id ms ids (wrote line e) e'
      → Logged c who lease_id (m ∷ ms) (id ∷ ids) e e'

some-inj : {A : Type 0} (a b : A) → some a ≡ some b → a ≡ b
some-inj a b h = cc

-- A run that returns identifiers has logged them.
abbrev LoggedRun :
    Codec → Caller → String → List (Assoc String) → Emitter → Option (List String) × Server → Type 0
LoggedRun c who lease_id ms e x =
    (ids : List String) → x.0 ≡ some ids → Logged c who lease_id ms ids e x.1.trail.emitter

module _ (c : Codec) (who : Caller) (lease_id : String) where
  claim_event-Claims :
      (id : String) (m : Assoc String) (at : ℕ) (e : Emitter)
      → Claims who.subject lease_id id m (envelope at (claim_event c who id lease_id m) e)
  unfolding lookup envelope
  claim_event-Claims id m at e = record {
    kind = refl;
    claimant = refl;
    asserted = refl;
    names = refl;
    lease = elim (Bool-cases (str_eq lease_id "")) [
      | inl y ↦ inl ((eq_iff lease_id "").0 y, rw y refl)
      | inr n ↦ inr ((λ z. let y = (eq_iff lease_id "").1 z in cc), rw n refl)
    ];
  }

  logged_next :
      (m : Assoc String) (ms : List (Assoc String)) (id : String) (e e' : Emitter) (at : ℕ)
      (line : Bytes)
      → sign_line c (envelope at (claim_event c who id lease_id m) e) ≡ some line
      → e' ≡ wrote line e
      → (x : Option (List String) × Server) → LoggedRun c who lease_id ms e' x
      → LoggedRun c who lease_id (m ∷ ms) e (map_option (λ ids. id ∷ ids) x.0, x.1)
  logged_next m ms id e e' at line signed put x rest ids h = elim (Option-cases x.0) [
    | inl n ↦ let bad : none ≡ some ids = rw n at h in cc
    | inr (more, f) ↦
        let q : some (id ∷ more) ≡ some ids = rw f at h in
        subst (λ k. Logged c who lease_id (m ∷ ms) k e x.1.trail.emitter) (some-inj _ _ q)
          (next m ms id more e _ _ line (claim_event-Claims id m at e) signed
            (subst (λ k. Logged c who lease_id ms more k x.1.trail.emitter) put (rest more f)))
  ]

  -- The loop returns identifiers only if it wrote every event.
  record_claims-Logged :
      (ms : List (Assoc String)) (s : Server)
      → LoggedRun c who lease_id ms s.trail.emitter (record_claims c who lease_id ms s)
  unfolding record_claims new_id
  record_claims-Logged [] s = λ ids h.
      subst (λ k. Logged c who lease_id [] k s.trail.emitter s.trail.emitter) (some-inj _ _ h)
        (done s.trail.emitter)
  record_claims-Logged (m ∷ ms) s =
      let t = (new_id "claim" s.trail).1 in
      let id = (new_id "claim" s.trail).0 in
      let ev = claim_event c who id lease_id m in
      elim (Bool-cases (record_event c ev t).0) [
        | inl ok ↦
            let (at, line, signed, put) = record_event-true c ev t ok in
            let s' : Server = record s { trail = (record_event c ev t).1 } in
            rw ok (
              logged_next m ms id s.trail.emitter s'.trail.emitter at line signed put
                (record_claims c who lease_id ms s') (record_claims-Logged ms s'))
        | inr failed ↦ rw failed (λ ids h. cc)
      ]

-- What stands behind the receipt of a request's claims.
pub record Received (c : Codec) (who : Caller) (size : Assoc String → ℕ) (req : ClaimsRequest)
    (ids : List String) (s : Server) (e' : Emitter) : Type 0 where
  pub some_claims : 1 ≤ length req.claims
  pub not_too_many : length req.claims ≤ s.cfg.max_claims_per_req
  pub not_too_big : All (λ m. size m ≤ s.cfg.max_claim_bytes) req.claims
  pub lease_held :
      (req.lease_id ≡ "")
      ⊎ ((l : Lease) × (lookup req.lease_id s.leases ≡ some l) × (l.subject_key ≡ key who.subject))
  pub logged : Logged c who req.lease_id req.claims ids s.trail.emitter e'

holds_lem :
    (k id : String) (s : Server)
    → holds k id s ≡ true
    → (l : Lease) × (lookup id s.leases ≡ some l) × (l.subject_key ≡ k)
unfolding holds
holds_lem k id s h = elim (Option-cases (lookup id s.leases)) [
  | inl e ↦ let bad : false ≡ true = rw (e, holds) at h in cc
  | inr (l, e) ↦
      let mine : str_eq l.subject_key k ≡ true = rw (e, holds) at h in
      (l, e, (eq_iff l.subject_key k).0 mine)
]

total_bytes-small :
    (size : Assoc String → ℕ) (most : ℕ) (acc total : ℤ) (ms : List (Assoc String))
    → total_bytes size most acc ms ≡ some total
    → All (λ m. size m ≤ most) ms
unfolding total_bytes
total_bytes-small size most acc total [] h = tt
total_bytes-small size most acc total (m ∷ ms) h = elim (Bool-cases (ltb most (size m))) [
  | inl y ↦ let bad : none ≡ some total = rw y at h in cc
  | inr n ↦ (
    ground arith,
    total_bytes-small size most (wrap64 (acc +ℤ pos (size m))) total ms (rw n at h),
  )
]

module _ (c : Codec) (who : Caller) (size : Assoc String → ℕ) (req : ClaimsRequest) where
  -- A run whose receipt is backed, from the state s.
  abbrev Backed : Server → Response × Server → Type 0
  Backed s x =
      (status : ℕ) (ids : List String)
      → x.0 ≡ claims status ids
      → Received c who size req ids s x.1.trail.emitter

  abbrev Held : Server → Type 0
  Held s =
      (req.lease_id ≡ "")
      ⊎ ((l : Lease) × (lookup req.lease_id s.leases ≡ some l) × (l.subject_key ≡ key who.subject))

  conclude-Backed :
      (s : Server) (x : Option (List String) × Server)
      → ((ids : List String) → x.0 ≡ some ids → Received c who size req ids s x.1.trail.emitter)
      → Backed s (conclude_claims c who x.0 x.1)
  unfolding conclude_claims audit_fail_closed count
  conclude-Backed s (none, s') build status ids h = cc
  conclude-Backed s (some more, s') build status ids h =
      let same : ids ≡ more = cc in build ids (ap some (sym same))

  charge-Backed :
      (total : ℤ) (s : Server)
      → ((ids : List String) (e' : Emitter)
          → Logged c who req.lease_id req.claims ids s.trail.emitter e'
          → Received c who size req ids s e')
      → Backed s (charge_claims c who req total s)
  unfolding charge_claims spend_claims read_clock count
  charge-Backed total s build =
      let now = s.trail.world.clock s.trail.world.reads in
      let k = key who.subject in
      elim (Bool-cases (spend k total (claim_bytes_cap s.policy k) now s.limits.claim_budget).0) [
        | inl y ↦
            let s' : Server = (spend_claims k total (claim_bytes_cap s.policy k) s).1 in
            rw y (
              conclude-Backed s (record_claims c who req.lease_id req.claims s') (λ ids h.
                build ids _ (record_claims-Logged c who req.lease_id req.claims s' ids h)))
        | inr n ↦ rw n (λ status ids h. cc)
      ]

  check_lease-Backed :
      (total : ℤ) (s : Server)
      → ((ids : List String) (e' : Emitter)
          → Held s
          → Logged c who req.lease_id req.claims ids s.trail.emitter e'
          → Received c who size req ids s e')
      → Backed s (check_lease c who req total s)
  unfolding check_lease
  check_lease-Backed total s build = elim (Bool-cases (str_eq req.lease_id "")) [
    | inl y ↦
        rw y (charge-Backed total s (λ ids e'. build ids e' (inl ((eq_iff req.lease_id "").0 y))))
    | inr n ↦ rw n (elim (Bool-cases (holds (key who.subject) req.lease_id s)) [
      | inl held ↦ rw held (
          charge-Backed total s
            (λ ids e'. build ids e' (inr (holds_lem (key who.subject) req.lease_id s held))))
      | inr other ↦ rw other (λ status ids h. cc)
    ])
  ]

  module _ (s : Server) where
    read-Backed : Backed s (read_claims c who size (decoded req) s)
    unfolding read_claims size_checked
    read-Backed =
        elim (Bool-cases
          ((length req.claims == 0) || ltb s.cfg.max_claims_per_req (length req.claims))) [
            | inl y ↦ rw y (λ status ids h. cc)
            | inr n ↦
                rw n
                  (elim (Option-cases (total_bytes size s.cfg.max_claim_bytes (pos 0) req.claims)) [
                    | inl big ↦ rw (big, size_checked) (λ status ids h. cc)
                    | inr (total, e) ↦
                        rw (e, size_checked)
                          (check_lease-Backed total s (λ ids e' held logged. record {
                            some_claims = ground arith;
                            not_too_many = ground arith;
                            not_too_big =
                                total_bytes-small size s.cfg.max_claim_bytes (pos 0) total
                                  req.claims e;
                            lease_held = held;
                            logged = logged;
                          }))
                  ])
          ]

-- When claims are answered with a receipt, the request has from one to the allowed number of claims,
-- none of them too big, the lease that it names is held by the caller, and the emitter's stream grew by
-- exactly one signed event for each claim, in the order of the claims and with the identifiers of the
-- answer.
pub claims_are_logged :
    (c : Codec) (who : Caller) (size : Assoc String → ℕ) (req : ClaimsRequest) (s : Server)
    (status : ℕ) (ids : List String)
    → (handle_claims c who size (decoded req) s).0 ≡ claims status ids
    → Received c who size req ids s (handle_claims c who size (decoded req) s).1.trail.emitter
unfolding handle_claims allow_claim read_clock holds
claims_are_logged c who size req s =
    let k = key who.subject in
    let s1 : Server = (allow_claim k s).1 in
    elim (Bool-cases (allow k (s.trail.world.clock s.trail.world.reads) s.limits.claim).0) [
      | inl y ↦ rw y (λ status ids h.
          let r = read-Backed c who size req s1 status ids h in
          record {
            some_claims = r.some_claims;
            not_too_many = r.not_too_many;
            not_too_big = r.not_too_big;
            lease_held = r.lease_held;
            logged = r.logged;
          })
      | inr n ↦ rw n (
          rate_limited_cases (Backed c who size req s) c who "claims" "claim rate limit exceeded" s1
            (λ r s' bad same status ids h. absurd (problem_no_claims r status ids bad h)))
    ]
