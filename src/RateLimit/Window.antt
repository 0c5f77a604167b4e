-- ===== src/RateLimit/Window.antt =====
-- internal/ratelimit/ratelimit.go: what the token buckets grant over a stretch of time, with the
-- calls of all keys interleaved.
use agent_cred_broker.Prelude.{
  ℕ, ◌+◌, ◌-◌, ◌*◌, ◌≤◌, ◌≡◌, ◌≢◌, Bool, true, false, arith, String, lookup, lookup-insert, List,
  [], ◌∷◌, str_eq, eq_refl, eq_iff, Option-cases, subst, ◌≢◌, str_ne, sym, Bool-cases, inl, inr,
  if◌then◌else◌, suc,
}
use agent_cred_broker.Time.{Instant}
use agent_cred_broker.RateLimit.{Limiter, Bucket, token, bucket_of, refill, put_bucket, allow}

abbrev pub Call : Type 0
Call = String × Instant

-- How many calls of the key are allowed, when the limiter serves the calls in turn.
unfoldable pub granted : String → Limiter → List Call → ℕ
granted k l [] = 0
granted k l ((j, t) ∷ cs) =
    let rest = granted k (allow j t l).1 cs in
    if str_eq j k then (if (allow j t l).0 then suc rest else rest) else rest

-- The calls come in order, none before `start` and none after `stop`.
abbrev pub Within : Instant → Instant → List Call → Type 0
Within start stop [] = start ≤ stop
Within start stop ((j, t) ∷ cs) = (start ≤ t) × Within t stop cs

pub Within-le : (start stop : Instant) (cs : List Call) → Within start stop cs → start ≤ stop
Within-le start stop [] w = w
Within-le start stop ((j, t) ∷ cs) w = omega (arith, Within-le t stop cs w.1, w.0)

elapsed_split : (a b c r : ℕ) → a ≤ b → b ≤ c → (c - a) * r ≡ (b - a) * r + (c - b) * r
elapsed_split a b c r h k = let e : c - a ≡ (b - a) + (c - b) = omega arith in rw e (omega arith)

refill_later :
    (l : Limiter) (b : Bucket) (t u : Instant)
    → b.last ≤ t
    → t ≤ u
    → refill l b u ≤ refill l b t + (u - t) * l.rate
unfolding refill
refill_later l b t u h k = omega (arith, elapsed_split b.last t u l.rate h k)

bucket_of-put :
    (l : Limiter) (key : String) (n : ℕ) (t u : Instant)
    → bucket_of (put_bucket l key n t) key u ≡ record { tokens = n; last = t }
unfolding bucket_of put_bucket
bucket_of-put l key n t u =
    ground (arith, lookup-insert key key (record { tokens = n; last = t }) l.buckets, eq_refl key)

allow-bucket_of_ne :
    (j k : String) (t u : Instant) (l : Limiter)
    → str_eq j k ≡ false
    → bucket_of (allow j t l).1 k u ≡ bucket_of l k u
unfolding bucket_of allow
allow-bucket_of_ne j k t u l ne = ground (
  arith,
  lookup-insert j k (record { tokens = refill l (bucket_of l j t) t; last = t }) l.buckets,
  lookup-insert j k (record { tokens = refill l (bucket_of l j t) t - token; last = t }) l.buckets,
)

rate-allow : (j : String) (t : Instant) (l : Limiter) → (allow j t l).1.rate ≡ l.rate
unfolding allow
rate-allow j t l = ground arith

burst-allow : (j : String) (t : Instant) (l : Limiter) → (allow j t l).1.burst ≡ l.burst
unfolding allow
burst-allow j t l = ground arith

-- The bucket that a call leaves behind.
after_allowed :
    (k : String) (t : Instant) (l : Limiter)
    → (allow k t l).0 ≡ true
    → (token ≤ refill l (bucket_of l k t) t)
      × (bucket_of (allow k t l).1 k t
          ≡ record { tokens = refill l (bucket_of l k t) t - token; last = t })
unfolding allow
after_allowed k t l h = ground (arith, bucket_of-put l k (refill l (bucket_of l k t) t - token) t t)

after_refused :
    (k : String) (t : Instant) (l : Limiter)
    → (allow k t l).0 ≡ false
    → bucket_of (allow k t l).1 k t ≡ record { tokens = refill l (bucket_of l k t) t; last = t }
unfolding allow
after_refused k t l h = ground (arith, bucket_of-put l k (refill l (bucket_of l k t) t) t t)

-- The tokens that a key has at an instant, in parts.
abbrev pub available : String → Limiter → Instant → ℕ
available k l t = refill l (bucket_of l k t) t

-- The key was not seen later than the instant.
abbrev pub IsBefore : String → Limiter → Instant → Type 0
IsBefore k l t = (bucket_of l k t).last ≤ t

bucket_of-IsBefore :
    (k : String) (l : Limiter) (t u : Instant) → t ≤ u → IsBefore k l t → IsBefore k l u
unfolding bucket_of
bucket_of-IsBefore k l t u h b = ground arith

available_wait :
    (k : String) (l : Limiter) (t u : Instant)
    → t ≤ u
    → IsBefore k l t
    → available k l u ≤ available k l t + (u - t) * l.rate
unfolding bucket_of
available_wait k l t u h b = elim (Option-cases (lookup k l.buckets)) [
  | inl e ↦ rw (e, bucket_of) (unfold refill in omega arith)
  | inr (c, e) ↦ rw (e, bucket_of) (refill_later l c t u (ground arith) h)
]

abbrev cost : Bool → ℕ
cost true = token
cost false = 0

available-allow_self :
    (k : String) (t : Instant) (l : Limiter)
    → available k (allow k t l).1 t + cost (allow k t l).0 ≡ available k l t
unfolding refill
available-allow_self k t l = elim (Bool-cases (allow k t l).0) [
  | inl e ↦ rw e (ground (arith, after_allowed k t l e, rate-allow k t l, burst-allow k t l))
  | inr e ↦ rw e (ground (arith, after_refused k t l e, rate-allow k t l, burst-allow k t l))
]

IsBefore-allow_self : (k : String) (t : Instant) (l : Limiter) → IsBefore k (allow k t l).1 t
IsBefore-allow_self k t l = elim (Bool-cases (allow k t l).0) [
  | inl e ↦ ground (arith, after_allowed k t l e)
  | inr e ↦ ground (arith, after_refused k t l e)
]

available-allow_ne :
    (j k : String) (t : Instant) (l : Limiter)
    → str_eq j k ≡ false
    → available k (allow j t l).1 t ≡ available k l t
unfolding refill
available-allow_ne j k t l ne =
    ground (arith, allow-bucket_of_ne j k t t l ne, rate-allow j t l, burst-allow j t l)

abbrev spent : String → String → Bool → ℕ
spent j k ok = if str_eq j k then cost ok else 0

available-allow :
    (j k : String) (t : Instant) (l : Limiter)
    → available k (allow j t l).1 t + spent j k (allow j t l).0 ≡ available k l t
available-allow j k t l = elim (Bool-cases (str_eq j k)) [
  | inl same ↦
      subst (λ i. available k (allow i t l).1 t + spent i k (allow i t l).0 ≡ available k l t)
        (sym ((eq_iff j k).0 same)) (rw (eq_refl k) (available-allow_self k t l))
  | inr ne ↦ rw ne (omega (arith, available-allow_ne j k t l ne))
]

IsBefore-allow :
    (j k : String) (t : Instant) (l : Limiter) → IsBefore k l t → IsBefore k (allow j t l).1 t
IsBefore-allow j k t l b = elim (Bool-cases (str_eq j k)) [
  | inl same ↦
      subst (λ i. IsBefore k (allow i t l).1 t) (sym ((eq_iff j k).0 same))
        (IsBefore-allow_self k t l)
  | inr ne ↦ rw (allow-bucket_of_ne j k t t l ne) b
]

granted_step :
    (j k : String) (t : Instant) (l : Limiter) (cs : List Call)
    → granted k l ((j, t) ∷ cs) * token
      ≡ granted k (allow j t l).1 cs * token + spent j k (allow j t l).0
unfolding granted
granted_step j k t l cs = ground arith

granted-le-available :
    (k : String) (l : Limiter) (start stop : Instant) (cs : List Call)
    → Within start stop cs
    → IsBefore k l start
    → granted k l cs * token ≤ available k l start + (stop - start) * l.rate
granted-le-available k l start stop [] w b = unfold granted in omega arith
granted-le-available k l start stop ((j, t) ∷ cs) w b =
    let before = bucket_of-IsBefore k l start t w.0 b in
    let rest =
      granted-le-available k (allow j t l).1 t stop cs w.1 (IsBefore-allow j k t l before) in
    let rest' = rw (rate-allow j t l) at rest in
    omega (
      arith,
      granted_step j k t l cs,
      available-allow j k t l,
      available_wait k l start t w.0 b,
      elapsed_split start t stop l.rate w.0 (Within-le t stop cs w.1),
      rest',
    )

available-le-burst : (k : String) (l : Limiter) (t : Instant) → available k l t ≤ l.burst
unfolding refill
available-le-burst k l t = omega arith

-- However the calls of all keys interleave, between two instants a key is allowed no more calls
-- than a burst and what the rate adds in that time. The calls come in the order of time, and the
-- limiter has not seen the key after the first instant.
pub granted_bound :
    (k : String) (l : Limiter) (start stop : Instant) (cs : List Call)
    → Within start stop cs
    → IsBefore k l start
    → granted k l cs * token ≤ l.burst + (stop - start) * l.rate
granted_bound k l start stop cs w b =
    omega (arith, granted-le-available k l start stop cs w b, available-le-burst k l start)

-- A call of one key changes no decision about another key, then or later.
pub allow_isolation :
    (j k : String) (t u : Instant) (l : Limiter)
    → j ≢ k
    → (allow k u (allow j t l).1).0 ≡ (allow k u l).0
allow_isolation j k t u l h =
    let ne = str_ne j k h in
    unfold refill allow in
    ground (arith, allow-bucket_of_ne j k t u l ne, rate-allow j t l, burst-allow j t l)

-- A key whose last call is a token's time ago is allowed, if the burst is at least one token: being
-- throttled does not last.
pub allow_after_wait :
    (k : String) (t : Instant) (l : Limiter)
    → token ≤ l.burst
    → token ≤ (t - (bucket_of l k t).last) * l.rate
    → (allow k t l).0 ≡ true
unfolding allow refill
allow_after_wait k t l full waited = ground arith
