-- ===== src/Examples/Table.antt =====
-- The table of leases over a history of calls.
use agent_cred_broker.Prelude.{
  ℕ, ◌≡◌, refl, true, none, some, List, [], ◌∷◌, lookup, pos, ◌≤◌, ◌+◌, arith,
}
use agent_cred_broker.Lease.{Lease, Store, sweep_expired}
use agent_cred_broker.Lease.Outcomes.{IsRenewable}
use agent_cred_broker.Lease.Sweep.{IsValid, reports, Sweeps, sweep_exact}
use agent_cred_broker.Lease.Lifecycle.{
  Call, renews, surrenders, sweeps, run, Final, surrendered_is_Final, total_reports, reported_once,
}
use agent_cred_broker.Examples.Sample.{leases, lease_of}

leases-IsValid : IsValid leases
unfolding lookup
leases-IsValid = record { unique = (refl, (refl, tt)); named = (refl, (refl, tt)) }

abbrev noon : ℕ
noon = 63900000001000000000

abbrev midnight : ℕ
midnight = 63900001000000000000

-- Past the end of the lease.
too_late : (l : Lease) → lookup "lease_1" leases ≡ some l → ¬ IsRenewable midnight l
unfolding lookup
too_late l e r =
    let same : (lease_of "lease_1" "ci/bot").expires_at ≡ l.expires_at =
      λ i. (elim (e i) as (λ o. Lease) [ none ↦ l | some k ↦ k ]).expires_at in
    let alive = r.alive in omega arith

sweep_exact_example :
    Sweeps
      (pos 10)
      midnight
      (lookup "lease_1" leases)
      (reports "lease_1" (sweep_expired (pos 10) midnight leases).0)
      (lookup "lease_1" (sweep_expired (pos 10) midnight leases).1)
sweep_exact_example = sweep_exact (pos 10) midnight "lease_1" leases leases-IsValid

abbrev history : List Call
history =
    surrenders "lease_1"
    ∷ renews "lease_2" noon noon (pos 7)
    ∷ sweeps (pos 10) midnight
    ∷ sweeps (pos 10) (midnight + 1)
    ∷ []

abbrev ended : Store
ended = ("lease_1", record (lease_of "lease_1" "ci/bot") { surrendered = true }) ∷ []

ended-IsValid : IsValid ended
unfolding lookup
ended-IsValid = record { unique = (refl, tt); named = (refl, tt) }

surrendered_is_Final_example : Final 63900000600000000000 (lookup "lease_1" (run history ended))
unfolding lookup
surrendered_is_Final_example =
    surrendered_is_Final "lease_1" (record (lease_of "lease_1" "ci/bot") { surrendered = true })
      history ended ended-IsValid (tt, (tt, (tt, (tt, tt)))) refl refl

reported_once_example : total_reports "lease_2" history leases ≤ 1
reported_once_example =
    reported_once "lease_2" history leases leases-IsValid (tt, (tt, (tt, (tt, tt))))
