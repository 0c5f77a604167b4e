-- ===== src/Policy/Windows.antt =====
-- internal/policy/policy.go: when a grant may be issued. `Fires` are the instants at which a cron
-- expression fires; `IsSchedule` is what the cron library documents of Next.
use agent_cred_broker.Prelude.{
  ℕ, ◌-◌, ◌≤◌, ◌<◌, ◌≡◌, ◌≢◌, ◌↔◌, ◌⊎◌, inl, inr, true, List, [], ◌∷◌, pos, arith, Bool-cases, ◌==◌,
  or_parts,
}
use agent_cred_broker.Time.{Instant, add}
use agent_cred_broker.Policy.{IssueWindow, Schedule, negate, open_at, any_open}

-- Next t is the first instant after t at which the expression fires, or the zero Time if it finds
-- none.
pub record IsSchedule (Fires : Instant → Type 0) (next : Schedule) : Type 0 where
  pub found : (t : Instant) → next t ≢ 0 → Fires (next t) × (t < next t)
  pub first : (t f : Instant) → next t ≢ 0 → Fires f → t < f → next t ≤ f

-- An instant d nanoseconds earlier.
earlier : (t d : ℕ) → d ≤ t → add t (negate (pos d)) ≡ t - d
earlier t ℕ.zero h = omega arith
earlier t (ℕ.suc d) h = omega arith

-- A window is open exactly if its expression has fired within the duration, provided the expression
-- fires again at all: some fire f has t - d < f ≤ t.
pub open_at_iff :
    (Fires : Instant → Type 0) (w : IssueWindow) (d t : ℕ)
    → IsSchedule Fires w.sched
    → w.duration ≡ pos d
    → d ≤ t
    → w.sched (t - d) ≢ 0
    → (open_at w t ≡ true) ↔ ((f : Instant) × Fires f × (t - d < f) × (f ≤ t))
unfolding open_at
open_at_iff Fires w d t laws e h live =
    rw (e, earlier t d h)
      (
        (λ o.
            let (fires, late) = laws.found (t - d) live in
            (w.sched (t - d), fires, late, ground arith)),
        (λ r.
            let (f, fires, late, past) = r in
            let n = laws.first (t - d) f live fires late in ground arith),
      )

-- The window fails open: if its expression does not fire after t - d, as February 30 never does,
-- then Next gives the zero Time and the window is open at t.
pub open_at_exhausted :
    (Fires : Instant → Type 0) (w : IssueWindow) (d t : ℕ)
    → IsSchedule Fires w.sched
    → w.duration ≡ pos d
    → d ≤ t
    → ((f : Instant) → Fires f → f ≤ t - d)
    → open_at w t ≡ true
unfolding open_at
open_at_exhausted Fires w d t laws e h over = elim (Bool-cases (w.sched (t - d) == 0)) [
  | inl z ↦ let z' : w.sched (t - d) ≡ 0 = ground arith in rw (e, earlier t d h, z') (ground arith)
  | inr n ↦
      let (fires, late) = laws.found (t - d) (λ z. ground arith) in
      absurd (omega (arith, over (w.sched (t - d)) fires))
]

-- Some window of the list is open.
abbrev pub SomeOpen : Instant → List IssueWindow → Type 0
SomeOpen t [] = ⊥
SomeOpen t (w ∷ ws) = (open_at w t ≡ true) ⊎ SomeOpen t ws

any_open_iff : (ws : List IssueWindow) (t : Instant) → (any_open ws t ≡ true) ↔ SomeOpen t ws
unfolding any_open
any_open_iff [] t = ((λ h. cc), (λ h. absurd h))
any_open_iff (w ∷ ws) t = (
  (λ h. elim (or_parts (open_at w t) (any_open ws t) h) [
    | inl a ↦ inl a
    | inr b ↦ inr ((any_open_iff ws t).0 b)
  ]),
  (λ h. elim h [ inl a ↦ rw a | inr b ↦ let b' = (any_open_iff ws t).1 b in ground arith ]),
)
