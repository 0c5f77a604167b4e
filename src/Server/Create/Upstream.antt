-- ===== src/Server/Create/Upstream.antt =====
-- internal/server/handlers.go, handleLeaseCreate: a lease against the end of its upstream credential.
use agent_cred_broker.Prelude.{
  ℕ, ◌≡◌, ◌≢◌, refl, ◌⊎◌, inl, inr, true, false, Option, none, some, ◌==◌, ℤ, pos, negsuc, ltb_ℤ,
  ◌<ℤ◌, ◌≤ℤ◌, Bool-cases, arith,
}
use agent_cred_broker.Time.{Instant, Duration, sub, rfc3339}
use agent_cred_broker.Server.Create.{clamp_upstream, upstream_expiry}

-- The ttl that is allowed, or the time that the credential has left, if that is shorter and not over. A
-- credential whose end is the zero Time has none.
abbrev pub IsCut : Instant → Instant → Duration → Duration → Type 0
IsCut end now allowed ttl =
    ((end ≡ 0) × (ttl ≡ allowed))
    ⊎ ((end ≢ 0)
        × ((((pos 0 <ℤ sub end now) × (sub end now <ℤ allowed)) × (ttl ≡ sub end now))
            ⊎ (((sub end now ≤ℤ pos 0) ⊎ (allowed ≤ℤ sub end now)) × (ttl ≡ allowed))))

-- The end of the credential as the answer tells it.
abbrev pub IsTold : Instant → Option ℕ → Type 0
IsTold end told = ((end ≡ 0) × (told ≡ none)) ⊎ ((end ≢ 0) × (told ≡ some (rfc3339 end)))

ltb_ℤ→lt : (a b : ℤ) → ltb_ℤ a b ≡ true → a <ℤ b
ltb_ℤ→lt (pos a) (pos b) h = ground arith
ltb_ℤ→lt (pos a) (negsuc b) h = ground arith
ltb_ℤ→lt (negsuc a) (pos b) h = ground arith
ltb_ℤ→lt (negsuc a) (negsuc b) h = ground arith

ltb_ℤ-le : (a b : ℤ) → ltb_ℤ a b ≡ false → b ≤ℤ a
ltb_ℤ-le (pos a) (pos b) h = ground arith
ltb_ℤ-le (pos a) (negsuc b) h = ground arith
ltb_ℤ-le (negsuc a) (pos b) h = ground arith
ltb_ℤ-le (negsuc a) (negsuc b) h = ground arith

pub clamp_upstream-IsCut :
    (end now : Instant) (allowed : Duration)
    → IsCut end now allowed (clamp_upstream end now allowed)
unfolding clamp_upstream
clamp_upstream-IsCut end now allowed = elim (Bool-cases (end == 0)) [
  | inl none_given ↦ inl (ground arith, rw none_given refl)
  | inr given ↦
      let apart : end ≢ 0 = λ e. ground arith in
      elim (Bool-cases (ltb_ℤ (pos 0) (sub end now))) [
        | inl live ↦ elim (Bool-cases (ltb_ℤ (sub end now) allowed)) [
          | inl short ↦ inr (
            apart,
            inl (
              (ltb_ℤ→lt (pos 0) (sub end now) live, ltb_ℤ→lt (sub end now) allowed short),
              rw (given, live, short) refl,
            ),
          )
          | inr long ↦
              inr (
                apart,
                inr (inr (ltb_ℤ-le (sub end now) allowed long), rw (given, live, long) refl),
              )
        ]
        | inr over ↦
            inr (apart, inr (inl (ltb_ℤ-le (pos 0) (sub end now) over), rw (given, over) refl))
      ]
]

pub upstream_expiry-IsTold : (end : Instant) → IsTold end (upstream_expiry end)
unfolding upstream_expiry
upstream_expiry-IsTold end = elim (Bool-cases (end == 0)) [
  | inl none_given ↦ inl (ground arith, rw none_given refl)
  | inr given ↦ inr ((λ e. ground arith), rw given refl)
]
