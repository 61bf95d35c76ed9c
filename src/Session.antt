-- ===== src/Session.antt =====
-- app/domain/sessions/session.py: a check-in to check-out cycle, its breaks and its durations.
use employee_monitoring_app.Prelude.{
  ℕ, ◌+◌, ◌-◌, Bool, true, false, Option, none, some, List, [], ◌∷◌, DateTime, seconds_between,
  is_none,
}

-- `BREAK` is `on_break`.
pub data WorkSessionStatus : Type 0 where
  working on_break completed : WorkSessionStatus

pub record Break : Type 0 where
  pub session_id : ℕ
  pub started_at : DateTime
  pub ended_at : Option DateTime
  pub duration_seconds : ℕ
  pub id : Option ℕ

pub record WorkSession : Type 0 where
  pub user_id : ℕ
  pub started_at : DateTime
  pub status : WorkSessionStatus
  pub id : Option ℕ
  pub ended_at : Option DateTime
  pub total_work_seconds : ℕ
  pub breaks : List Break

-- Break.is_open
abbrev pub is_open : Break → Bool
is_open b = is_none b.ended_at

-- Break.close; `none` is the ValueError of a break that is closed already.
unfoldable pub close : Break → DateTime → Option Break
close b at = elim b.ended_at [
  | some _ ↦ none
  | none ↦
      some (record b { ended_at = some at; duration_seconds = seconds_between b.started_at at })
]

unfoldable pub sum_durations : List Break → ℕ
sum_durations [] = 0
sum_durations (b ∷ bs) = b.duration_seconds + sum_durations bs

-- WorkSession.accumulated_break_seconds
unfoldable pub accumulated_break_seconds : WorkSession → ℕ
accumulated_break_seconds s = sum_durations s.breaks

-- WorkSession._elapsed_at; the outer max(0, ...) is the cut of `-` at 0.
unfoldable pub elapsed_at : WorkSession → DateTime → ℕ
elapsed_at s now = seconds_between s.started_at now - accumulated_break_seconds s

-- The test of elapsed_work_seconds for a session that is closed.
abbrev pub is_frozen : WorkSessionStatus → Option DateTime → Bool
is_frozen completed (some _) = true
is_frozen _ _ = false

-- WorkSession.elapsed_work_seconds
unfoldable pub elapsed_work_seconds : WorkSession → DateTime → ℕ
elapsed_work_seconds s now = elim (is_frozen s.status s.ended_at) [
  | true ↦ s.total_work_seconds
  | false ↦ elapsed_at s now
]

-- WorkSession.live_elapsed: the clock is called once.
unfoldable pub live_elapsed : WorkSession → (Unit {0} → DateTime) → ℕ
live_elapsed s utc = elapsed_work_seconds s (utc tt)

-- WorkSession.checkout
unfoldable pub checkout : WorkSession → DateTime → WorkSession
checkout s now = record s {
  total_work_seconds = elapsed_at s now;
  ended_at = some now;
  status = completed;
}

-- WorkSession.is_active
abbrev pub is_active : WorkSession → Bool
is_active s = elim s.status [ completed ↦ false | _ ↦ true ]

-- create_session, and the constructor call of SessionMachine.apply
unfoldable pub create_session : ℕ → DateTime → WorkSession
create_session user_id started_at = record {
  user_id = user_id;
  started_at = started_at;
  status = working;
  id = none;
  ended_at = none;
  total_work_seconds = 0;
  breaks = [];
}
