-- ===== src/RateLimit/Spending.antt =====
-- internal/ratelimit/ratelimit.go: one call of Spend, for the key that is counted or for another, on its
-- day or on another.
use agent_cred_broker.Prelude.{
  ℕ, ◌+◌, ◌≤◌, ◌<◌, ◌≡◌, ◌≢◌, refl, ◌⊎◌, ◌∙◌, Bool, true, false, Option, none, some, arith, String,
  lookup, lookup-insert, [], str_eq, eq_refl, inl, inr, if◌then◌else◌, ℤ, pos, int64_limit, ◌+ℤ◌,
  wrap64, Option-cases, leb,
}
use agent_cred_broker.Time.{Instant, utc_day}
use agent_cred_broker.RateLimit.{ByteBudget, used_by, roll_over, charge, spend}

-- One call for a key: the bytes, the key's cap, the time.
pub record Spending : Type 0 where
  pub key : String
  pub bytes : ℕ
  pub cap : ℕ
  pub at : Instant

abbrev pub run_spend : Spending → ByteBudget → Bool × ByteBudget
run_spend c b = spend c.key (pos c.bytes) (pos c.cap) c.at b

-- What is booked for the key on the day: nothing, if the budget's counters are of another day.
unfoldable pub booked : String → ℕ → ByteBudget → ℤ
booked k d b = used_by (roll_over d b).used k

sum64 : (u n : ℕ) → u + n < int64_limit → wrap64 (pos u +ℤ pos n) ≡ pos (u + n)
unfolding ◌+ℤ◌
sum64 u n h = ground arith

-- One call for a key whose counter is within its cap.
charge_self :
    (k : String) (n cap u : ℕ) (b : ByteBudget)
    → used_by b.used k ≡ pos u
    → u ≤ cap
    → n + cap < int64_limit
    → ((charge k (pos n) (pos cap) b).0 ≡ leb (u + n) cap)
      × (used_by (charge k (pos n) (pos cap) b).1.used k
          ≡ pos (if leb (u + n) cap then u + n else u))
unfolding charge
charge_self k n cap u b e h lim =
    rw (e, sum64 u n (omega arith))
      (ground (arith, lookup-insert k k (pos (u + n)) b.used, eq_refl k))

charge_ne :
    (j k : String) (n cap : ℤ) (b : ByteBudget)
    → str_eq j k ≡ false
    → used_by (charge j n cap b).1.used k ≡ used_by b.used k
unfolding charge
charge_ne j k n cap b ne = ground (arith, lookup-insert j k (wrap64 (used_by b.used j +ℤ n)) b.used)

day-charge : (j : String) (n cap : ℤ) (b : ByteBudget) → (charge j n cap b).1.day ≡ b.day
unfolding charge
day-charge j n cap b = ground arith

roll_over_id : (d : ℕ) (b : ByteBudget) → b.day ≡ some d → roll_over d b ≡ b
unfolding roll_over
roll_over_id d b e = rw (e, roll_over) (ground arith)

roll_over_new : (d e : ℕ) (b : ByteBudget) → b.day ≡ some e → e ≢ d → (roll_over d b).used ≡ []
unfolding roll_over
roll_over_new d e b h ne = rw (h, roll_over) (ground arith)

day-roll_over : (d : ℕ) (b : ByteBudget) → (roll_over d b).day ≡ some d
unfolding roll_over
day-roll_over d b = elim (Option-cases b.day) [
  | inl e ↦ rw (e, roll_over)
  | inr (c, e) ↦ rw (e, roll_over) (ground arith)
]

-- The counters belong to a day that is over or current.
abbrev pub DayLe : Option ℕ → ℕ → Type 0
DayLe none d = Unit
DayLe (some e) d = e ≤ d

spend_positive :
    (k : String) (n : ℤ) (cap : ℕ) (at : Instant) (b : ByteBudget)
    → 0 < cap
    → spend k n (pos cap) at b ≡ charge k n (pos cap) (roll_over (utc_day at) b)
unfolding spend
spend_positive k n cap at b p = ground arith

spend_uncapped :
    (k : String) (n : ℤ) (at : Instant) (b : ByteBudget) → spend k n (pos 0) at b ≡ (true, b)
unfolding spend
spend_uncapped k n at b = refl

-- A day's charge, rolled over to its own day, is itself.
roll_over-charge :
    (j : String) (n cap : ℤ) (d : ℕ) (b : ByteBudget)
    → roll_over d (charge j n cap (roll_over d b)).1 ≡ (charge j n cap (roll_over d b)).1
roll_over-charge j n cap d b =
    roll_over_id d _ (day-charge j n cap (roll_over d b) ∙ day-roll_over d b)

zero-or-pos : (n : ℕ) → (n ≡ 0) ⊎ (0 < n)
zero-or-pos n = omega arith

DayLe-mono : (o : Option ℕ) {d e : ℕ} → DayLe o d → d ≤ e → DayLe o e
DayLe-mono none h le = tt
DayLe-mono (some c) h le = omega arith

module _ (k : String) (d : ℕ) where
  booked-spend_self :
      (n cap u : ℕ) (at : Instant) (b : ByteBudget)
      → utc_day at ≡ d
      → booked k d b ≡ pos u
      → u ≤ cap
      → 0 < cap
      → n + cap < int64_limit
      → ((spend k (pos n) (pos cap) at b).0 ≡ leb (u + n) cap)
        × (booked k d (spend k (pos n) (pos cap) at b).1
            ≡ pos (if leb (u + n) cap then u + n else u))
  unfolding booked
  booked-spend_self n cap u at b today e h p lim =
      rw (spend_positive k (pos n) cap at b p, today, roll_over-charge k (pos n) (pos cap) d b)
        (charge_self k n cap u (roll_over d b) e h lim)

  pub booked-spend_ne :
      (c : Spending) (b : ByteBudget)
      → str_eq c.key k ≡ false
      → utc_day c.at ≡ d
      → booked k d (run_spend c b).1 ≡ booked k d b
  unfolding booked
  booked-spend_ne c b ne today = elim (zero-or-pos c.cap) [
    | inl z ↦ rw (z, spend_uncapped c.key (pos c.bytes) c.at b)
    | inr p ↦
        rw
          (
            spend_positive c.key (pos c.bytes) c.cap c.at b p,
            today,
            roll_over-charge c.key (pos c.bytes) (pos c.cap) d b,
          )
          (charge_ne c.key k (pos c.bytes) (pos c.cap) (roll_over d b) ne)
  ]

  booked-spend_later :
      (c : Spending) (b : ByteBudget)
      → utc_day c.at ≢ d
      → 0 < c.cap
      → booked k d (run_spend c b).1 ≡ pos 0
  unfolding booked lookup
  booked-spend_later c b later p = rw (
    spend_positive c.key (pos c.bytes) c.cap c.at b p,
    roll_over_new d (utc_day c.at)
        (charge c.key (pos c.bytes) (pos c.cap) (roll_over (utc_day c.at) b)).1
        (day-charge c.key (pos c.bytes) (pos c.cap) (roll_over (utc_day c.at) b)
          ∙ day-roll_over (utc_day c.at) b)
        later,
  )

pub DayLe-spend :
    (c : Spending) (day : ℕ) (b : ByteBudget)
    → DayLe b.day day
    → day ≤ utc_day c.at
    → DayLe (run_spend c b).1.day (utc_day c.at)
DayLe-spend c day b h le = elim (zero-or-pos c.cap) [
  | inl z ↦ rw (z, spend_uncapped c.key (pos c.bytes) c.at b) (DayLe-mono b.day h le)
  | inr p ↦
      rw
        (
          spend_positive c.key (pos c.bytes) c.cap c.at b p,
          day-charge c.key (pos c.bytes) (pos c.cap) (roll_over (utc_day c.at) b),
          day-roll_over (utc_day c.at) b,
        )
        (omega arith)
]

pub booked_before :
    (k : String) (d day : ℕ) (b : ByteBudget) → DayLe b.day day → day < d → booked k d b ≡ pos 0
unfolding booked lookup roll_over
booked_before k d day b h lt = elim (Option-cases b.day) [
  | inl e ↦ rw (e, roll_over)
  | inr (c, e) ↦ let h' : c ≤ day = rw e at h in rw (e, roll_over) (ground arith)
]

pub run_spend_self :
    (k : String) (d cap u : ℕ) (c : Spending) (b : ByteBudget)
    → c.key ≡ k
    → c.cap ≡ cap
    → utc_day c.at ≡ d
    → booked k d b ≡ pos u
    → u ≤ cap
    → 0 < cap
    → c.bytes + cap < int64_limit
    → ((run_spend c b).0 ≡ leb (u + c.bytes) cap)
      × (booked k d (run_spend c b).1 ≡ pos (if leb (u + c.bytes) cap then u + c.bytes else u))
run_spend_self k d cap u c b e f today h le p lim =
    rw (e, f) (booked-spend_self k d c.bytes cap u c.at b today h le p lim)
