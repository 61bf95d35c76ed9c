-- ===== src/Schedule.antt =====
-- app/domain/screenshots/scheduling.py: captures at `scheduled_start + (n + 1) * interval`.
pub mod Catchup
use employee_monitoring_app.Prelude.{
  ℕ, zero, suc, ◌+◌, ◌-◌, ◌*◌, ◌≤◌, Bool, true, false, Option, none, some, List, [], ◌∷◌, DateTime,
  TimeDelta, leb, ◌==◌, if◌then◌else◌, second,
}

-- The value of next_capture_at where it does not raise.
abbrev pub target : DateTime → TimeDelta → ℕ → DateTime
target start interval n = start + interval * (n + 1)

-- next_capture_at; `none` is the ValueError of an interval that is not positive. The index is a
-- natural number and the start is aware, so the other two guards pass.
unfoldable pub next_capture_at : DateTime → TimeDelta → ℕ → Option DateTime
next_capture_at start interval n = if interval == 0 then none else some (target start interval n)

-- is_due; without a tolerance it is one second. `now >= target - tolerance`, with no difference.
unfoldable pub is_due : DateTime → DateTime → Option TimeDelta → Bool
is_due now at none = leb at (now + second)
is_due now at (some tolerance) = leb at (now + tolerance)

-- The `while True` of captures_due, by the number of indices that may still be appended: five at
-- first, and the loop breaks where none is left.
unfoldable pub captures_from : ℕ → DateTime → TimeDelta → DateTime → ℕ → List ℕ
captures_from zero start interval now n = []
captures_from (suc room) start interval now n =
    let rest = captures_from room start interval now (n + 1) in
    if leb (target start interval n) now then n ∷ rest else []

-- captures_due, with `first` for `last_n + 1`, which is 0 where nothing was emitted yet
unfoldable pub captures_due : DateTime → TimeDelta → DateTime → ℕ → Option (List ℕ)
unfolding captures_from
captures_due start interval now first =
    if interval == 0 then none else some (captures_from 5 start interval now first)
