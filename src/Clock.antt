-- ===== src/Clock.antt =====
-- The package time of Go's standard library, as far as the program uses it. An instant counts nanoseconds
-- from Go's zero time, 0001-01-01T00:00:00Z; instants before it and time zones are not modelled.
use fast_tv_playout_core.Base.{
  ℕ, ◌+◌, ◌-◌, ◌*◌, ◌/◌, ◌%◌, ◌^◌, ◌≤◌, ◌<◌, ◌≡◌, Bool, arith, ltb, ◌==◌, not, if◌then◌else◌, ℤ,
  pos, negsuc, pos_part, neg_part, sub_ℕ, wrap64, wrap64_pos, wrap64_negative, ◌*ℤ◌, ◌-ℤ◌,
}

abbrev pub Instant : Type 0
Instant = ℕ

-- A signed 64-bit count of nanoseconds.
abbrev pub Duration : Type 0
Duration = ℤ

-- time.Second
abbrev pub second : ℕ
second = 1000000000

abbrev pub is_zero : Instant → Bool
is_zero t = t == 0

-- t.Nanosecond() != 0
abbrev pub has_fraction : Instant → Bool
has_fraction t = not (t % second == 0)

abbrev pub before : Instant → Instant → Bool
before a b = ltb a b

abbrev pub after : Instant → Instant → Bool
after a b = ltb b a

-- t.Add(d)
abbrev pub add : Instant → Duration → Instant
add t d = t + pos_part d - neg_part d

-- time.Duration(n) * time.Second, with the overflow of 64-bit integers
unfoldable pub seconds : ℤ → Duration
seconds n = wrap64 (n *ℤ pos second)

-- t.Sub(u), which stops at the least and the greatest duration
unfoldable pub sub : Instant → Instant → Duration
sub t u =
    if ltb (t - u) (2 ^ 63)
    then (if ltb (2 ^ 63) (u - t) then negsuc (2 ^ 63 - 1) else sub_ℕ t u)
    else pos (2 ^ 63 - 1)

pub seconds_pos : (n : ℕ) → n < 2 ^ 32 → seconds (pos n) ≡ pos (n * second)
unfolding seconds ◌*ℤ◌
seconds_pos n h = ground (arith, wrap64_pos (n * second))

pub sub_pos : (t u : ℕ) → u ≤ t → t < u + 2 ^ 63 → sub t u ≡ pos (t - u)
unfolding sub
sub_pos t u h k = ground arith

-- Where the count of nanoseconds passes 2^63 it turns negative.
pub seconds_wrapped :
    (n : ℕ)
    → 2 ^ 63 ≤ n * second
    → n * second < 2 ^ 64
    → seconds (pos n) ≡ negsuc (2 ^ 64 - n * second - 1)
unfolding seconds ◌*ℤ◌
seconds_wrapped n h k = ground (arith, wrap64_negative (n * second))

-- t.Unix(): the seconds from 1970 to the instant
abbrev pub unix : Instant → ℤ
unix t = sub_ℕ (t / second) 62135596800

-- -d
unfoldable pub minus : Duration → Duration
minus d = wrap64 (pos 0 -ℤ d)
