-- ===== src/Server/Create/Clamp.antt =====
-- internal/server/handlers.go: clampTTL and the clamp to the end of an upstream credential.
use agent_cred_broker.Prelude.{
  ℕ, suc, ◌-◌, ◌*◌, ◌/◌, ◌<◌, ◌≤◌, ◌≡◌, refl, true, false, Option, none, some, ℤ, pos, negsuc,
  pos_part, ◌≤ℤ◌, ◌<ℤ◌, ◌*ℤ◌, ltb_ℤ, min, IsInt64, int64_limit, wrap64, arith, Bool-cases,
  if◌then◌else◌, ap, inl, inr, zero,
}
use agent_cred_broker.Time.{Instant, Duration, second, add, max_duration}
use agent_cred_broker.Policy.{Grant, IssueWindow}
use agent_cred_broker.Server.Create.{clamp_ttl, clamp_upstream}

-- The ttls of a grant that Parse lets through.
pub record IsTtlPair (g : Grant IssueWindow) : Type 0 where
  pub default_positive : pos 0 <ℤ g.ttl_default
  pub default_bounded : g.ttl_default ≤ℤ g.ttl_max
  pub max_fits : IsInt64 g.ttl_max

-- Seconds back to nanoseconds, when they fit.
times_second : (r : ℕ) → r * second < int64_limit → wrap64 (pos r *ℤ pos second) ≡ pos (r * second)
unfolding ◌*ℤ◌
times_second r h = ground arith

-- A request of r seconds, against a maximum of m nanoseconds.
capped_seconds : ℕ → ℕ → ℤ
capped_seconds r m = if ltb_ℤ (pos (m / second)) (pos r) then pos (m / second) else pos r

capped :
    (r m : ℕ)
    → m < int64_limit
    → wrap64 (capped_seconds r m *ℤ pos second) ≡ pos (min r (m / second) * second)
unfolding capped_seconds
capped r m h = elim (Bool-cases (ltb_ℤ (pos (m / second)) (pos r))) [
  | inl y ↦
      let e : min r (m / second) ≡ m / second = ground arith in
      rw (y, e) (times_second (m / second) (ground arith))
  | inr n ↦
      let e : min r (m / second) ≡ r = ground arith in rw (n, e) (times_second r (ground arith))
]

-- What clampTTL promises: a refusal of a negative request, the default for none, and otherwise the
-- request, cut to the whole seconds of the maximum.
abbrev pub IsClamped : ℤ → Grant IssueWindow → Option Duration → Type 0
IsClamped (negsuc n) g t = t ≡ none
IsClamped (pos zero) g t = t ≡ some g.ttl_default
IsClamped (pos (suc n)) g t = t ≡ some (pos (min (suc n) (pos_part g.ttl_max / second) * second))

-- A grant that Parse let through has a positive maximum.
max_pos : (m d : ℤ) → pos 0 <ℤ d → d ≤ℤ m → m ≡ pos (pos_part m)
max_pos (pos m) d h h' = refl
max_pos (negsuc m) (pos d) h h' = ground arith
max_pos (negsuc m) (negsuc d) h h' = ground arith

negative_request : (n : ℕ) (g : Grant IssueWindow) → clamp_ttl (negsuc n) g ≡ none
unfolding clamp_ttl
negative_request n g = let e : ltb_ℤ (negsuc n) (pos 0) ≡ true = ground arith in rw (e, clamp_ttl)

positive_request :
    (n m : ℕ) (g : Grant IssueWindow)
    → g.ttl_max ≡ pos m
    → m < int64_limit
    → clamp_ttl (pos (suc n)) g ≡ some (pos (min (suc n) (m / second) * second))
unfolding clamp_ttl capped_seconds
positive_request n m g e h =
    let a : ltb_ℤ (pos (suc n)) (pos 0) ≡ false = ground arith in
    let b : ltb_ℤ (pos 0) (pos (suc n)) ≡ true = ground arith in
    rw (a, b, e, clamp_ttl) (ap some (capped (suc n) m h))

-- For a grant that Parse lets through, clampTTL refuses a negative request, gives the default for 0,
-- and for any other request the smaller of it and the whole seconds of the maximum, however large the
-- request: nothing overflows.
pub clamp_ttl-IsClamped :
    (r : ℤ) (g : Grant IssueWindow) → IsTtlPair g → IsClamped r g (clamp_ttl r g)
unfolding clamp_ttl
clamp_ttl-IsClamped (negsuc n) g ok = negative_request n g
clamp_ttl-IsClamped (pos zero) g ok = refl
clamp_ttl-IsClamped (pos (suc n)) g ok =
    positive_request n (pos_part g.ttl_max) g
      (max_pos g.ttl_max g.ttl_default ok.default_positive ok.default_bounded) (ok.max_fits.0)

-- A credential that lives at least one instant past now, and less than 292 years, ends no earlier than
-- a lease of the clamped ttl that starts now.
pub clamp_upstream_bounds :
    (expires_at now : Instant) (ttl : Duration)
    → now < expires_at
    → expires_at - now ≤ max_duration
    → pos 0 ≤ℤ ttl
    → add now (clamp_upstream expires_at now ttl) ≤ expires_at
unfolding clamp_upstream
clamp_upstream_bounds expires_at now (pos ttl) alive near h = ground arith
clamp_upstream_bounds expires_at now (negsuc ttl) alive near h = ground arith
