-- ===== src/Prelude/Time.antt =====
-- Aware UTC datetimes as microseconds. Only differences, sums with a duration and comparisons occur.
use Prim.Native.Nat.{ℕ, ◌+◌, ◌-◌, ◌*◌, ◌/◌, ◌≤◌}
use native.Mathlib.Omega.{arith}

abbrev pub DateTime : Type 0
DateTime = ℕ

abbrev pub TimeDelta : Type 0
TimeDelta = ℕ

abbrev pub second : TimeDelta
second = 1_000_000

-- timedelta(seconds=n)
abbrev pub seconds : ℕ → TimeDelta
seconds n = n * second

-- max(0, int((end - start).total_seconds())): a negative difference is cut off at 0 by both.
abbrev pub seconds_between : DateTime → DateTime → ℕ
seconds_between start end = (end - start) / second

-- Whole seconds of consecutive intervals add up to no more than those of the whole.
pub seconds_between-add :
    (a b c : DateTime)
    → a ≤ b
    → b ≤ c
    → seconds_between a b + seconds_between b c ≤ seconds_between a c
seconds_between-add a b c p q = omega arith

-- A later end gives no fewer seconds.
pub seconds_between_mono : (a b c : DateTime) → b ≤ c → seconds_between a b ≤ seconds_between a c
seconds_between_mono a b c p = omega arith
