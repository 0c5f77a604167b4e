-- ===== src/RateLimit/Budget.antt =====
-- internal/ratelimit/ratelimit.go: the bytes that Spend accepts for a key in one UTC day, with the
-- calls of all keys interleaved.
use agent_cred_broker.Prelude.{
  ℕ, ◌+◌, ◌≤◌, ◌<◌, ◌≡◌, ◌≢◌, refl, ◌⊎◌, ◌∙◌, true, false, ◌&&◌, ◌==◌, arith, String, lookup, List,
  [], ◌∷◌, str_eq, eq_iff, Bool-cases, inl, inr, if◌then◌else◌, pos, int64_limit,
}
use agent_cred_broker.Time.{utc_day}
use agent_cred_broker.RateLimit.{new_byte_budget, ByteBudget, roll_over}
use agent_cred_broker.RateLimit.Spending.{
  booked, Spending, run_spend, DayLe, booked-spend_ne, DayLe-spend, booked_before, run_spend_self,
}

-- The bytes that are accepted for the key on the day, when the budget serves the calls in turn.
unfoldable pub accepted : String → ℕ → ByteBudget → List Spending → ℕ
accepted k d b [] = 0
accepted k d b (c ∷ cs) =
    let rest = accepted k d (run_spend c b).1 cs in
    if str_eq c.key k && utc_day c.at == d && (run_spend c b).0 then c.bytes + rest else rest

-- The calls of the key all have this cap, which is not 0, and the days do not fall.
abbrev pub IsHistory : String → ℕ → ℕ → List Spending → Type 0
IsHistory k cap day [] = Unit
IsHistory k cap day (c ∷ cs) =
    (c.key ≡ k → c.cap ≡ cap)
    × (c.bytes + cap < int64_limit)
    × (day ≤ utc_day c.at)
    × IsHistory k cap (utc_day c.at) cs

-- Nothing is accepted on a day that is over.
accepted_over :
    (k : String) (cap d day : ℕ) (b : ByteBudget) (cs : List Spending)
    → d < day
    → IsHistory k cap day cs
    → accepted k d b cs ≡ 0
unfolding accepted
accepted_over k cap d day b [] h w = refl
accepted_over k cap d day b (c ∷ cs) h w =
    ground (arith, accepted_over k cap d (utc_day c.at) (run_spend c b).1 cs (omega arith) w.3)

accepted_today :
    (k : String) (d : ℕ) (b : ByteBudget) (c : Spending) (cs : List Spending)
    → str_eq c.key k ≡ true
    → utc_day c.at ≡ d
    → accepted k d b (c ∷ cs) ≡ (
        if (run_spend c b).0
        then c.bytes + accepted k d (run_spend c b).1 cs
        else accepted k d (run_spend c b).1 cs)
unfolding accepted
accepted_today k d b c cs e f = ground arith

accepted_ne :
    (k : String) (d : ℕ) (b : ByteBudget) (c : Spending) (cs : List Spending)
    → str_eq c.key k ≡ false
    → accepted k d b (c ∷ cs) ≡ accepted k d (run_spend c b).1 cs
unfolding accepted
accepted_ne k d b c cs e = ground arith

accepted_other_day :
    (k : String) (d : ℕ) (b : ByteBudget) (c : Spending) (cs : List Spending)
    → utc_day c.at ≢ d
    → accepted k d b (c ∷ cs) ≡ accepted k d (run_spend c b).1 cs
unfolding accepted
accepted_other_day k d b c cs e = ground arith

day_cases : (a b : ℕ) → (a ≡ b) ⊎ (a < b) ⊎ (b < a)
day_cases a b = omega arith

-- What is accepted from now on and what is booked already keep within the cap.
accepted-add-booked :
    (k : String) (cap d day u : ℕ) (b : ByteBudget) (cs : List Spending)
    → 0 < cap
    → IsHistory k cap day cs
    → DayLe b.day day
    → booked k d b ≡ pos u
    → u ≤ cap
    → accepted k d b cs + u ≤ cap
accepted-add-booked k cap d day u b [] p w late e h = unfold accepted in omega arith
accepted-add-booked k cap d day u b (c ∷ cs) p w late e h =
    let b' = (run_spend c b).1 in
    let late' = DayLe-spend c day b late w.2 in
    let rest : (v : ℕ) → booked k d b' ≡ pos v → v ≤ cap → accepted k d b' cs + v ≤ cap =
      λ v f g. accepted-add-booked k cap d (utc_day c.at) v b' cs p w.3 late' f g in
    elim (day_cases (utc_day c.at) d) [
      | inl today ↦ elim (Bool-cases (str_eq c.key k)) [
        | inl same ↦
            let key = (eq_iff c.key k).0 same in
            let one = run_spend_self k d cap u c b key (w.0 key) today e h p w.1 in
            rw (accepted_today k d b c cs same today)
              (ground (arith, one, rest (u + c.bytes), rest u))
        | inr ne ↦ rw (accepted_ne k d b c cs ne) (rest u (booked-spend_ne k d c b ne today ∙ e) h)
      ]
      | inr (inl before) ↦ rw (accepted_other_day k d b c cs (λ x. omega arith)) (
          ground (
            arith,
            rest 0 (booked_before k d (utc_day c.at) b' late' before),
            booked_before k d day b late (omega arith),
          ))
      | inr (inr later) ↦
          rw (accepted_other_day k d b c cs (λ x. omega arith))
            (omega (arith, accepted_over k cap d (utc_day c.at) b' cs later w.3))
    ]

-- On no UTC day does the budget accept more bytes for a key than the key's cap, however the calls of
-- all keys interleave. The budget starts with no bytes used, every call of the key has the cap,
-- which is positive, no sum of a call and its cap leaves the range of an int64, and the days of the calls do
-- not fall.
pub accepted_bound :
    (k : String) (cap d day : ℕ) (cs : List Spending)
    → 0 < cap
    → IsHistory k cap day cs
    → accepted k d new_byte_budget cs ≤ cap
accepted_bound k cap d day cs p w =
    let total =
      accepted-add-booked k cap d day 0 new_byte_budget cs p w tt
        (unfold booked roll_over lookup in refl) (omega arith) in
    omega (arith, total)
