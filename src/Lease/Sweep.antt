-- ===== src/Lease/Sweep.antt =====
-- internal/lease/store.go: SweepExpired over the whole table, and the well-formed tables.
use agent_cred_broker.Prelude.{
  ◌<◌, ◌≤◌, ◌↔◌, inl, inr, true, false, Bool-cases, ltb, ltb→lt, ◌⊎◌, ℕ, suc, ◌≡◌, refl, Bool,
  Option, none, some, String, List, [], ◌∷◌, lookup, insert, arith, if◌then◌else◌, str_eq, Unique,
  Entries, Unique-insert, Unique-delete, Entries-insert, Entries-delete, Entries-lookup, eq_iff,
  subst,
}
use agent_cred_broker.Time.{Instant, Duration, add}
use agent_cred_broker.Lease.Outcomes.{renew_cases, surrender_cases}
use agent_cred_broker.Lease.{
  Lease, Store, create, renew, surrender, remove, newly_expired, mark, dead, sweep_expired,
}

abbrev pub HasName : String → Lease → Type 0
HasName k l = l.id ≡ k

-- Each lease stands under its identifier, once.
pub record IsValid (s : Store) : Type 0 where
  pub unique : Unique s
  pub named : Entries HasName s

pub create-IsValid :
    (id : String) (now : Instant) (key scope semantics : String) (ttl : Duration) (renewable : Bool)
    (s : Store)
    → IsValid s
    → IsValid (create id now key scope semantics ttl renewable s).1
unfolding create
create-IsValid id now key scope semantics ttl renewable s v = record {
  unique = Unique-insert id _ s v.unique;
  named = Entries-insert HasName id _ s refl v.named;
}

pub insert-IsValid :
    (id : String) (l : Lease) (s : Store) → l.id ≡ id → IsValid s → IsValid (insert id l s)
insert-IsValid id l s e v = record {
  unique = Unique-insert id l s v.unique;
  named = Entries-insert HasName id l s e v.named;
}

named_at : (id : String) (s : Store) (l : Lease) → IsValid s → lookup id s ≡ some l → l.id ≡ id
named_at id s l v e = Entries-lookup HasName id s l v.named e

pub renew-IsValid :
    (id : String) (now later : Instant) (ttl : Duration) (s : Store)
    → IsValid s
    → IsValid (renew id now later ttl s).2
renew-IsValid id now later ttl s v =
    renew_cases IsValid id now later ttl s v
      (λ l e _. insert-IsValid id _ s (named_at id s l v e) v)

pub surrender-IsValid : (id : String) (s : Store) → IsValid s → IsValid (surrender id s).2
surrender-IsValid id s v =
    surrender_cases IsValid id s v (λ l e _. insert-IsValid id _ s (named_at id s l v e) v)

pub remove-IsValid : (id : String) (s : Store) → IsValid s → IsValid (remove id s)
unfolding remove
remove-IsValid id s v = record {
  unique = Unique-delete id s v.unique;
  named = Entries-delete HasName id s v.named;
}

module _ (retain : Duration) (now : Instant) where
  -- What becomes of one entry of the table.
  abbrev pub swept : Option Lease → Option Lease
  swept none = none
  swept (some l) = if dead retain now l then none else some (mark now l)

  lookup-sweep_none :
      (k : String) (s : Store) → lookup k s ≡ none → lookup k (sweep_expired retain now s).1 ≡ none
  unfolding sweep_expired lookup
  lookup-sweep_none k [] e = refl
  lookup-sweep_none k ((j, l) ∷ s) e = ground (arith, lookup-sweep_none k s)

  lookup-sweep :
      (k : String) (s : Store)
      → Unique s
      → lookup k (sweep_expired retain now s).1 ≡ swept (lookup k s)
  unfolding sweep_expired lookup
  lookup-sweep k [] u = refl
  lookup-sweep k ((j, l) ∷ s) u =
      ground (arith, lookup-sweep k s u.1, lookup-sweep_none k s, eq_iff j k)

  sweep-Unique : (s : Store) → Unique s → Unique (sweep_expired retain now s).1
  unfolding sweep_expired
  sweep-Unique [] u = tt
  sweep-Unique ((j, l) ∷ s) u = ground (arith, sweep-Unique s u.1, lookup-sweep_none j s u.0)

  mark-HasName : (k : String) (l : Lease) → HasName k l → HasName k (mark now l)
  unfolding mark
  mark-HasName k l h = ground arith

  sweep-named : (s : Store) → Entries HasName s → Entries HasName (sweep_expired retain now s).1
  unfolding sweep_expired
  sweep-named [] h = tt
  sweep-named ((j, l) ∷ s) h = ground (arith, sweep-named s h.1, mark-HasName j l h.0)

  pub sweep-IsValid : (s : Store) → IsValid s → IsValid (sweep_expired retain now s).1
  sweep-IsValid s v = record { unique = sweep-Unique s v.unique; named = sweep-named s v.named }

-- How often a lease is in a list.
unfoldable pub reports : String → List Lease → ℕ
reports k [] = 0
reports k (l ∷ ls) = if str_eq l.id k then suc (reports k ls) else reports k ls

-- One report for a lease that is newly past its end, and none otherwise.
abbrev pub due : Instant → Option Lease → ℕ
due now none = 0
due now (some l) = if newly_expired now l then 1 else 0

reports-sweep_none :
    (retain : Duration) (now : Instant) (k : String) (s : Store)
    → lookup k s ≡ none
    → Entries HasName s
    → reports k (sweep_expired retain now s).0 ≡ 0
unfolding sweep_expired lookup reports
reports-sweep_none retain now k [] e h = refl
reports-sweep_none retain now k ((j, l) ∷ s) e h =
    let name : l.id ≡ j = h.0 in
    let name' = mark-HasName retain now j l h.0 in
    ground (arith, reports-sweep_none retain now k s, h.1)

reports-sweep :
    (retain : Duration) (now : Instant) (k : String) (s : Store)
    → Unique s
    → Entries HasName s
    → reports k (sweep_expired retain now s).0 ≡ due now (lookup k s)
unfolding sweep_expired lookup reports
reports-sweep retain now k [] u h = refl
reports-sweep retain now k ((j, l) ∷ s) u h =
    let name' = mark-HasName retain now j l h.0 in
    ground (
      arith,
      reports-sweep retain now k s u.1 h.1,
      (λ (e : j ≡ k). reports-sweep_none retain now k s (subst (λ i. lookup i s ≡ none) e u.0) h.1),
      eq_iff j k,
    )

-- A sweep, by the tests of the code.
pub sweep_tests :
    (retain : Duration) (now : Instant) (k : String) (s : Store)
    → IsValid s
    → (reports k (sweep_expired retain now s).0 ≡ due now (lookup k s))
      × (lookup k (sweep_expired retain now s).1 ≡ swept retain now (lookup k s))
sweep_tests retain now k s v =
    (reports-sweep retain now k s v.unique v.named, lookup-sweep retain now k s v.unique)

-- Past its end, neither reported nor surrendered.
pub record IsDue (now : Instant) (l : Lease) : Type 0 where
  pub past : l.expires_at < now
  pub unreported : l.expired_emit ≡ false
  pub held : l.surrendered ≡ false

-- What a sweep does with a lease, or with none: the number of its reports, and what is left.
abbrev pub Reports : Instant → Lease → ℕ → Type 0
Reports now l n = (IsDue now l × (n ≡ 1)) ⊎ ((¬ IsDue now l) × (n ≡ 0))

abbrev pub Leaves : Duration → Instant → Lease → Option Lease → Type 0
Leaves retain now l left =
    ((add l.expires_at retain < now) × (left ≡ none))
    ⊎ ((now ≤ add l.expires_at retain)
        × IsDue now l
        × (left ≡ some (record l { expired_emit = true })))
    ⊎ ((now ≤ add l.expires_at retain) × (¬ IsDue now l) × (left ≡ some l))

abbrev pub Sweeps : Duration → Instant → Option Lease → ℕ → Option Lease → Type 0
Sweeps retain now none n left = (n ≡ 0) × (left ≡ none)
Sweeps retain now (some l) n left = Reports now l n × Leaves retain now l left

newly_expired_iff : (now : Instant) (l : Lease) → (newly_expired now l ≡ true) ↔ IsDue now l
unfolding newly_expired
newly_expired_iff now l = (
  (λ h. record { past = ground arith; unreported = ground arith; held = ground arith }),
  (λ d. let p = d.past in let u = d.unreported in let h = d.held in ground arith),
)

IsDue-cases :
    (now : Instant) (l : Lease)
    → (IsDue now l × (newly_expired now l ≡ true))
      ⊎ ((¬ IsDue now l) × (newly_expired now l ≡ false))
IsDue-cases now l = elim (Bool-cases (newly_expired now l)) [
  | inl y ↦ inl ((newly_expired_iff now l).0 y, y)
  | inr n ↦ inr ((λ d. let y = (newly_expired_iff now l).1 d in cc), n)
]

due-Reports : (now : Instant) (l : Lease) → Reports now l (due now (some l))
due-Reports now l = elim (IsDue-cases now l) [
  | inl (d, y) ↦ inl (d, rw y refl)
  | inr (late, n) ↦ inr (late, rw n refl)
]

swept-Leaves :
    (retain : Duration) (now : Instant) (l : Lease)
    → Leaves retain now l (swept retain now (some l))
unfolding dead mark
swept-Leaves retain now l = elim (Bool-cases (ltb (add l.expires_at retain) now)) [
  | inl late ↦ inl (ltb→lt (add l.expires_at retain) now late, rw late refl)
  | inr kept ↦
      let stays : now ≤ add l.expires_at retain = ground arith in
      elim (IsDue-cases now l) [
        | inl (d, y) ↦ inr (inl (stays, d, rw (kept, y) refl))
        | inr (other, n) ↦ inr (inr (stays, other, rw (kept, n) refl))
      ]
]

swept-Sweeps :
    (retain : Duration) (now : Instant) (o : Option Lease)
    → Sweeps retain now o (due now o) (swept retain now o)
swept-Sweeps retain now none = (refl, refl)
swept-Sweeps retain now (some l) = (due-Reports now l, swept-Leaves retain now l)

-- In a well-formed table a sweep reports a lease exactly if it is past its end, not reported before and
-- not surrendered, and then once. It takes out a lease that is past its end by more than the time to
-- retain; of the others it marks those it reports, and leaves the rest as they are.
pub sweep_exact :
    (retain : Duration) (now : Instant) (k : String) (s : Store)
    → IsValid s
    → Sweeps retain now
        (lookup k s)
        (reports k (sweep_expired retain now s).0)
        (lookup k (sweep_expired retain now s).1)
sweep_exact retain now k s v =
    let (told, left) = sweep_tests retain now k s v in
    rw (told, left) (swept-Sweeps retain now (lookup k s))
