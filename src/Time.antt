-- ===== src/Time.antt =====
-- What the broker uses of Go's package time. An instant is a number of nanoseconds since the zero
-- Time (1 January of the year 1), a duration an int64 of nanoseconds. Clocks give instants after
-- 1970 and a duration is shorter than 293 years, so no sum of the two falls before the zero Time.
use agent_cred_broker.Prelude.{
  ℕ, ◌+◌, ◌-◌, ◌/◌, Bool, ℤ, pos, negsuc, pos_part, neg_part, leb, ltb, ◌==◌, min, if◌then◌else◌,
}

abbrev pub Instant : Type 0
Instant = ℕ

abbrev pub Duration : Type 0
Duration = ℤ

-- time.Second
abbrev pub second : ℕ
second = 1000000000

abbrev pub day_length : ℕ
day_length = 86400000000000

-- Time.IsZero
abbrev pub is_zero : Instant → Bool
is_zero t = t == 0

-- Time.Add
abbrev pub add : Instant → Duration → Instant
add t d = t + pos_part d - neg_part d

-- Time.After
abbrev pub after : Instant → Instant → Bool
after t u = ltb u t

abbrev pub max_duration : ℕ
max_duration = 9223372036854775807

-- Time.Sub, which saturates at the ends of an int64.
abbrev pub sub : Instant → Instant → Duration
sub t u = if leb u t then pos (min (t - u) max_duration) else negsuc (min (u - t - 1) max_duration)

-- int64(d.Seconds()): whole seconds, cut towards zero.
abbrev pub seconds : Duration → ℤ
seconds (pos n) = pos (n / second)
seconds (negsuc n) = if ltb n 999999999 then pos 0 else negsuc ((n + 1) / second - 1)

-- Format(time.RFC3339) in UTC shows the whole seconds: the text is modelled by their number.
abbrev pub rfc3339 : Instant → ℕ
rfc3339 t = t / second

-- Format("2006-01-02") in UTC: the text is modelled by the number of the day.
abbrev pub utc_day : Instant → ℕ
utc_day t = t / day_length

-- Time.Unix: whole seconds since 1970, rounded down.
abbrev pub unix : Instant → ℤ
unix t =
    if leb 62135596800 (t / second)
    then pos (t / second - 62135596800)
    else negsuc (62135596800 - t / second - 1)
