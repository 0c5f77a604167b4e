-- ===== src/RateLimit.antt =====
-- internal/ratelimit/ratelimit.go: the token buckets and the daily byte budget. Both take the time
-- as an argument. A float64 number of tokens is a number of parts, 60 * 10^9 to a token, so that a
-- rate per minute is a whole number of parts per nanosecond; rounding of floats is not modelled.
pub mod Window
pub mod Spending
pub mod Budget
use agent_cred_broker.Prelude.{
  ℕ, ◌+◌, ◌-◌, ◌*◌, Bool, true, false, Option, none, some, ◌==◌, ltb, ltb_ℤ, leb_ℤ, ℤ, pos, ◌+ℤ◌,
  wrap64, Assoc, lookup, insert, String, [], min, if◌then◌else◌,
}
use agent_cred_broker.Time.{Instant, utc_day}

pub record Bucket : Type 0 where
  pub tokens : ℕ
  pub last : Instant

pub record Limiter : Type 0 where
  pub buckets : Assoc Bucket
  pub rate : ℕ
  pub burst : ℕ

-- The parts of one token.
abbrev pub token : ℕ
token = 60000000000

unfoldable pub new : ℕ → ℕ → Limiter
new rate_per_minute burst = record { buckets = []; rate = rate_per_minute; burst = burst * token }

-- The bucket of a key: a full one if the key is new.
unfoldable pub bucket_of : Limiter → String → Instant → Bucket
bucket_of l key now = elim (lookup key l.buckets) [
  | none ↦ record { tokens = l.burst; last = now }
  | some b ↦ b
]

-- The tokens after the time since the last call, at most a burst.
unfoldable pub refill : Limiter → Bucket → Instant → ℕ
refill l b now = min (b.tokens + (now - b.last) * l.rate) l.burst

put_bucket : Limiter → String → ℕ → Instant → Limiter
put_bucket l key tokens now = record l {
  buckets = insert key (record { tokens = tokens; last = now }) l.buckets;
}

unfoldable pub allow : String → Instant → Limiter → Bool × Limiter
unfolding put_bucket
allow key now l =
    let tokens = refill l (bucket_of l key now) now in
    if ltb tokens token
    then (false, put_bucket l key tokens now)
    else (true, put_bucket l key (tokens - token) now)

pub record ByteBudget : Type 0 where
  pub used : Assoc ℤ
  pub day : Option ℕ

abbrev pub new_byte_budget : ByteBudget
new_byte_budget = record { used = []; day = none }

-- Reading a key that a map of int64 lacks gives 0.
abbrev pub used_by : Assoc ℤ → String → ℤ
used_by used key = elim (lookup key used) [ none ↦ pos 0 | some u ↦ u ]

abbrev same_day : Option ℕ → ℕ → Bool
same_day none d = false
same_day (some c) d = c == d

-- A new day starts with no bytes used.
unfoldable pub roll_over : ℕ → ByteBudget → ByteBudget
roll_over d b = if same_day b.day d then b else record { used = []; day = some d }

unfoldable pub charge : String → ℤ → ℤ → ByteBudget → Bool × ByteBudget
charge key n limit b =
    let total = wrap64 (used_by b.used key +ℤ n) in
    if ltb_ℤ limit total then (false, b) else (true, record b { used = insert key total b.used })

unfoldable pub spend : String → ℤ → ℤ → Instant → ByteBudget → Bool × ByteBudget
spend key n limit now b =
    if leb_ℤ limit (pos 0) then (true, b) else charge key n limit (roll_over (utc_day now) b)
