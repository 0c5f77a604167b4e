-- ===== src/Lease/Outcomes.antt =====
-- internal/lease/store.go: what each method returns and changes, on every branch.
use agent_cred_broker.Prelude.{
  ◌≡◌, refl, ◌≢◌, ◌≤◌, ◌↔◌, ◌⊎◌, true, false, none, some, String, lookup, insert, lookup-insert,
  arith, if◌then◌else◌, str_eq, Option-cases, inl, inr, Bool-cases,
}
use agent_cred_broker.Time.{Instant, Duration, add}
use agent_cred_broker.Lease.{Lease, Store, Outcome, renewal, settle, renew, surrender}

-- A lease that Renew extends: held, renewable, and not past its end.
pub record IsRenewable (now : Instant) (l : Lease) : Type 0 where
  pub held : l.surrendered ≡ false
  pub alive : now ≤ l.expires_at
  pub allowed : l.renewable ≡ true

renewal_iff : (now : Instant) (l : Lease) → (renewal now l ≡ Outcome.done) ↔ IsRenewable now l
unfolding renewal
renewal_iff now l = ((λ h. ground arith), (λ h. ground arith))

abbrev pub extended : Lease → Instant → Duration → Lease
extended l later ttl = record l { expires_at = add later ttl }

module _ (id : String) (now later : Instant) (ttl : Duration) (s : Store) where
  -- Renew extends a lease that is held, renewable and not past its end, to the second clock reading
  -- plus the ttl. It returns the lease as extended, and no other lease changes.
  pub renew_extends :
      (l : Lease)
      → lookup id s ≡ some l
      → IsRenewable now l
      → ((renew id now later ttl s).0 ≡ some (extended l later ttl))
        × ((renew id now later ttl s).1 ≡ Outcome.done)
        × ((j : String)
            → lookup j (renew id now later ttl s).2
              ≡ (if str_eq id j then some (extended l later ttl) else lookup j s))
  unfolding renew
  renew_extends l e h =
      let d = (renewal_iff now l).1 h in
      rw (e, d, renew) (refl, refl, λ j. lookup-insert id j (extended l later ttl) s)

  -- Renew of any other lease, or of none, returns no lease and an outcome, and changes nothing.
  pub renew_refuses :
      ((l : Lease) → lookup id s ≡ some l → ¬ IsRenewable now l)
      → ((renew id now later ttl s).0 ≡ none)
        × ((renew id now later ttl s).1 ≢ Outcome.done)
        × ((renew id now later ttl s).2 ≡ s)
  unfolding renew
  renew_refuses h = elim (Option-cases (lookup id s)) [
    | inl e ↦ rw (e, renew) (refl, (λ x. cc), refl)
    | inr (l, e) ↦
        let bad : renewal now l ≢ Outcome.done = λ d. h l e ((renewal_iff now l).0 d) in
        rw (e, renew) (ground arith)
  ]

-- Renew is one of two steps, for a lease that is there.
pub renew_either :
    (id : String) (now later : Instant) (ttl : Duration) (s : Store) (l : Lease)
    → lookup id s ≡ some l
    → (IsRenewable now l
        × (renew id now later ttl s
            ≡ (some (extended l later ttl), Outcome.done, insert id (extended l later ttl) s)))
      ⊎ ((o : Outcome) × (renew id now later ttl s ≡ (none, o, s)))
unfolding renew settle
renew_either id now later ttl s l e = rw (e, renew) (by_outcome (renewal now l) refl)
  where
    by_outcome :
        (o : Outcome)
        → renewal now l ≡ o
        → (IsRenewable now l
            × (settle id (extended l later ttl) o s
                ≡ (some (extended l later ttl), Outcome.done, insert id (extended l later ttl) s)))
          ⊎ ((o' : Outcome) × (settle id (extended l later ttl) o s ≡ (none, o', s)))
    by_outcome Outcome.done h = inl ((renewal_iff now l).0 h, refl)
    by_outcome Outcome.notfound h = inr (_, refl)
    by_outcome Outcome.surrendered h = inr (_, refl)
    by_outcome Outcome.expired h = inr (_, refl)
    by_outcome Outcome.nonrenewable h = inr (_, refl)
    by_outcome Outcome.already h = inr (_, refl)

settle_cases {ℓ} :
    (P : Store → Type ℓ) (id : String) (l : Lease) (o : Outcome) (s : Store)
    → P s
    → (o ≡ Outcome.done → P (insert id l s))
    → P (settle id l o s).2
unfolding settle
settle_cases P id l Outcome.done s same changed = changed refl
settle_cases P id l _ s same changed = same

-- To prove a property of the table after a call: it is as before, or the lease is written back.
pub renew_cases {ℓ} :
    (P : Store → Type ℓ) (id : String) (now later : Instant) (ttl : Duration) (s : Store)
    → P s
    → ((l : Lease)
        → lookup id s ≡ some l
        → IsRenewable now l
        → P (insert id (extended l later ttl) s))
    → P (renew id now later ttl s).2
unfolding renew
renew_cases P id now later ttl s same changed = elim (Option-cases (lookup id s)) [
  | inl e ↦ rw (e, renew) same
  | inr (l, e) ↦
      rw (e, renew)
        (settle_cases P id (extended l later ttl) (renewal now l) s same
          (λ d. changed l e ((renewal_iff now l).0 d)))
]

pub surrender_cases {ℓ} :
    (P : Store → Type ℓ) (id : String) (s : Store)
    → P s
    → ((l : Lease)
        → lookup id s ≡ some l
        → l.surrendered ≡ false
        → P (insert id (record l { surrendered = true }) s))
    → P (surrender id s).2
unfolding surrender
surrender_cases P id s same changed = elim (Option-cases (lookup id s)) [
  | inl e ↦ rw (e, surrender) same
  | inr (l, e) ↦ elim (Bool-cases l.surrendered) [
    | inl y ↦ rw (e, y, surrender) same
    | inr n ↦ rw (e, n, surrender) (changed l e n)
  ]
]
