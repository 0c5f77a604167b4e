-- ===== src/Lease/Lifecycle.antt =====
-- internal/lease/store.go: what holds of a lease over any history of calls of the store.
use agent_cred_broker.Prelude.{
  ℕ, ◌+◌, ◌≤◌, ◌≡◌, ◌≢◌, refl, Bool, true, Option, none, some, String, List, [], ◌∷◌, lookup,
  insert, lookup-insert, lookup-delete, arith, if◌then◌else◌, str_eq, Bool-cases, inl, inr, eq_iff,
  subst, subst,
}
use agent_cred_broker.Time.{Instant, Duration}
use agent_cred_broker.Lease.{
  Lease, Store, create, renew, surrender, remove, newly_expired, mark, dead, sweep_expired,
}
use agent_cred_broker.Lease.Outcomes.{renew_cases, surrender_cases}
use agent_cred_broker.Lease.Sweep.{
  IsValid, create-IsValid, renew-IsValid, surrender-IsValid, remove-IsValid, sweep-IsValid, swept,
  due, reports, sweep_tests,
}

-- A call of a method that writes, with the clock readings and the identifier that it draws.
pub data Call : Type 0 where
  creates : String → Instant → String → String → String → Duration → Bool → Call
  renews : String → Instant → Instant → Duration → Call
  surrenders removes : String → Call
  sweeps : Duration → Instant → Call

pub step : Call → Store → Store
step (creates id now key scope semantics ttl renewable) s =
    (create id now key scope semantics ttl renewable s).1
step (renews id now later ttl) s = (renew id now later ttl s).2
step (surrenders id) s = (surrender id s).2
step (removes id) s = remove id s
step (sweeps retain now) s = (sweep_expired retain now s).1

pub run : List Call → Store → Store
run [] s = s
run (c ∷ cs) s = run cs (step c s)

step-IsValid : (c : Call) (s : Store) → IsValid s → IsValid (step c s)
unfolding step
step-IsValid (creates id now key scope semantics ttl renewable) s v =
    create-IsValid id now key scope semantics ttl renewable s v
step-IsValid (renews id now later ttl) s v = renew-IsValid id now later ttl s v
step-IsValid (surrenders id) s v = surrender-IsValid id s v
step-IsValid (removes id) s v = remove-IsValid id s v
step-IsValid (sweeps retain now) s v = sweep-IsValid retain now s v

-- Every history keeps the table well formed: each lease stands under its own identifier, once.
pub run-IsValid : (cs : List Call) (s : Store) → IsValid s → IsValid (run cs s)
unfolding run
run-IsValid [] s v = v
run-IsValid (c ∷ cs) s v = run-IsValid cs (step c s) (step-IsValid c s v)

-- No call of the history draws the identifier again.
abbrev pub IsFreshFor : String → Call → Type 0
IsFreshFor k (creates id now key scope semantics ttl renewable) = id ≢ k
IsFreshFor k _ = Unit

abbrev pub NeverRedrawn : String → List Call → Type 0
NeverRedrawn k [] = Unit
NeverRedrawn k (c ∷ cs) = IsFreshFor k c × NeverRedrawn k cs

-- The lease is gone, or surrendered with the end that it had.
abbrev pub Final : Instant → Option Lease → Type 0
Final end none = Unit
Final end (some l) = (l.surrendered ≡ true) × (l.expires_at ≡ end)

Final-insert :
    (end : Instant) (k id : String) (l : Lease) (s : Store)
    → (id ≡ k → Final end (some l))
    → Final end (lookup k s)
    → Final end (lookup k (insert id l s))
Final-insert end k id l s h f = elim (Bool-cases (str_eq id k)) [
  | inl same ↦ rw (lookup-insert id k l s, same) (h ((eq_iff id k).0 same))
  | inr ne ↦ rw (lookup-insert id k l s, ne) f
]

Final-delete :
    (end : Instant) (k id : String) (s : Store)
    → Final end (lookup k s)
    → Final end (lookup k (remove id s))
unfolding remove
Final-delete end k id s f = elim (Bool-cases (str_eq id k)) [
  | inl same ↦ rw (lookup-delete id k s, same) tt
  | inr ne ↦ rw (lookup-delete id k s, ne) f
]

Final-swept :
    (end : Instant) (retain : Duration) (now : Instant) (o : Option Lease)
    → Final end o
    → Final end (swept retain now o)
unfolding mark
Final-swept end retain now none f = f
Final-swept end retain now (some l) f = elim (Bool-cases (dead retain now l)) [
  | inl y ↦ rw y tt
  | inr n ↦ rw n (ground arith)
]

-- A lease that is there under the name k is closed.
at_name :
    (end : Instant) (k : String) (s : Store) (l : Lease)
    → Final end (lookup k s)
    → lookup k s ≡ some l
    → Final end (some l)
at_name end k s l f e = rw e at f

step-Final :
    (end : Instant) (k : String) (c : Call) (s : Store)
    → IsValid s
    → IsFreshFor k c
    → Final end (lookup k s)
    → Final end (lookup k (step c s))
unfolding step create
step-Final end k (creates id now key scope semantics ttl renewable) s v fresh f =
    Final-insert end k id _ s (λ e. absurd (fresh e)) f
step-Final end k (renews id now later ttl) s v fresh f =
    renew_cases (λ t. Final end (lookup k t)) id now later ttl s f
      (λ l e r.
        Final-insert end k id _ s
          (λ same.
            let g = at_name end k s l f (subst (λ i. lookup i s ≡ some l) same e) in
            cc (r.held, g.0))
          f)
step-Final end k (surrenders id) s v fresh f =
    surrender_cases (λ t. Final end (lookup k t)) id s f
      (λ l e r.
        Final-insert end k id _ s
          (λ same.
            let g = at_name end k s l f (subst (λ i. lookup i s ≡ some l) same e) in (refl, g.1))
          f)
step-Final end k (removes id) s v fresh f = Final-delete end k id s f
step-Final end k (sweeps retain now) s v fresh f =
    rw ((sweep_tests retain now k s v).1) (Final-swept end retain now (lookup k s) f)

run-Final :
    (end : Instant) (k : String) (cs : List Call) (s : Store)
    → IsValid s
    → NeverRedrawn k cs
    → Final end (lookup k s)
    → Final end (lookup k (run cs s))
unfolding run
run-Final end k [] s v fresh f = f
run-Final end k (c ∷ cs) s v fresh f =
    run-Final end k cs (step c s) (step-IsValid c s v) fresh.1 (step-Final end k c s v fresh.0 f)

-- Surrender is final: whatever calls follow, a surrendered lease is gone or still surrendered, with
-- the end that it had, so it is never extended. The table is well formed and the identifier is not
-- drawn again.
pub surrendered_is_Final :
    (k : String) (l : Lease) (cs : List Call) (s : Store)
    → IsValid s
    → NeverRedrawn k cs
    → lookup k s ≡ some l
    → l.surrendered ≡ true
    → Final l.expires_at (lookup k (run cs s))
surrendered_is_Final k l cs s v fresh e h = run-Final l.expires_at k cs s v fresh (rw e (h, refl))

-- The leases that a call reports as expired.
pub reported : Call → Store → List Lease
reported (sweeps retain now) s = (sweep_expired retain now s).0
reported _ s = []

pub total_reports : String → List Call → Store → ℕ
total_reports k [] s = 0
total_reports k (c ∷ cs) s = reports k (reported c s) + total_reports k cs (step c s)

-- A lease that has not been reported may be reported once.
abbrev pub unreported : Option Lease → ℕ
unreported none = 0
unreported (some l) = if l.expired_emit then 0 else 1

unreported-insert :
    (k id : String) (l : Lease) (s : Store)
    → (id ≡ k → unreported (some l) ≡ unreported (lookup k s))
    → unreported (lookup k (insert id l s)) ≡ unreported (lookup k s)
unreported-insert k id l s h = elim (Bool-cases (str_eq id k)) [
  | inl same ↦ rw (lookup-insert id k l s, same) (h ((eq_iff id k).0 same))
  | inr ne ↦ rw (lookup-insert id k l s, ne)
]

due-add-swept :
    (retain : Duration) (now : Instant) (o : Option Lease)
    → due now o + unreported (swept retain now o) ≤ unreported o
unfolding mark newly_expired
due-add-swept retain now none = omega arith
due-add-swept retain now (some l) = ground arith

kept_name :
    (k id : String) (s : Store) (l : Lease)
    → lookup id s ≡ some l
    → id ≡ k
    → unreported (some l) ≡ unreported (lookup k s)
kept_name k id s l e same = let e' = subst (λ i. lookup i s ≡ some l) same e in rw e'

step-unreported :
    (k : String) (c : Call) (s : Store)
    → IsValid s
    → IsFreshFor k c
    → reports k (reported c s) + unreported (lookup k (step c s)) ≤ unreported (lookup k s)
unfolding step create reported reports
step-unreported k (creates id now key scope semantics ttl renewable) s v fresh =
    omega (arith, unreported-insert k id _ s (λ e. absurd (fresh e)))
step-unreported k (renews id now later ttl) s v fresh =
    renew_cases (λ t. 0 + unreported (lookup k t) ≤ unreported (lookup k s)) id now later ttl s
      (omega arith) (λ l e r. omega (arith, unreported-insert k id _ s (kept_name k id s l e)))
step-unreported k (surrenders id) s v fresh =
    surrender_cases (λ t. 0 + unreported (lookup k t) ≤ unreported (lookup k s)) id s (omega arith)
      (λ l e r. omega (arith, unreported-insert k id _ s (kept_name k id s l e)))
step-unreported k (removes id) s v fresh = unfold remove in ground (arith, lookup-delete id k s)
step-unreported k (sweeps retain now) s v fresh =
    let x = sweep_tests retain now k s v in rw (x.0, x.1) (due-add-swept retain now (lookup k s))

total_reports-le :
    (k : String) (cs : List Call) (s : Store)
    → IsValid s
    → NeverRedrawn k cs
    → total_reports k cs s ≤ unreported (lookup k s)
unfolding total_reports
total_reports-le k [] s v fresh = omega arith
total_reports-le k (c ∷ cs) s v fresh = omega (
  arith,
  step-unreported k c s v fresh.0,
  total_reports-le k cs (step c s) (step-IsValid c s v) fresh.1,
)

unreported-le-one : (o : Option Lease) → unreported o ≤ 1
unreported-le-one none = omega arith
unreported-le-one (some l) = ground arith

-- Over any history a lease is reported as expired at most once. The table is well formed at the
-- start and the identifier is not drawn again.
pub reported_once :
    (k : String) (cs : List Call) (s : Store)
    → IsValid s
    → NeverRedrawn k cs
    → total_reports k cs s ≤ 1
reported_once k cs s v fresh =
    omega (arith, total_reports-le k cs s v fresh, unreported-le-one (lookup k s))
