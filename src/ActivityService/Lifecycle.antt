-- ===== src/ActivityService/Lifecycle.antt =====
-- start, pause, resume, stop, restore and shutdown.
use employee_monitoring_app.Prelude.{
  ℕ, ◌-◌, true, false, Option, none, some, List, [], ◌∷◌, DateTime, TimeDelta, ◌==◌, ◌&&◌,
  if◌then◌else◌,
}
use employee_monitoring_app.Timeline.{active}
use employee_monitoring_app.Db.{ActivityPeriodRecord, Db}
use employee_monitoring_app.Repositories.Activity.{open_for_session, list_for_session}
use employee_monitoring_app.ActivityService.Base.{
  ActivityService, Tracker, Env, add_period, close_period, close_open_locked, is_idle,
  maybe_transition_to_idle_locked,
}

-- Switching sessions: the previous one is flushed.
unfoldable pub flush_previous : Env → ℕ → DateTime → Tracker → Option ℕ → Tracker
flush_previous env session_id at t none = t
flush_previous env session_id at t (some previous) =
    if previous == session_id then t else close_open_locked env env.flushed previous at t

-- The last activity that an open period stands for.
abbrev pub inferred : TimeDelta → ActivityPeriodRecord → DateTime
inferred th r = if is_idle r.state then r.started_at - th else r.started_at

unfoldable pub start_transaction :
    Env → ℕ → DateTime → Option ActivityPeriodRecord → Tracker → Tracker
start_transaction env session_id at (some r) t = record t {
  service = record t.service { last_activity_at = some (inferred t.service.idle_threshold r) };
}
start_transaction env session_id at none t = record t {
  db = add_period env session_id active at none t.db;
}

-- start
unfoldable pub start : Env → ℕ → DateTime → Tracker → Tracker
start env session_id at t =
    let f = flush_previous env session_id at t t.service.session_id in
    let bound : Tracker = record f {
      service = record f.service {
        session_id = some session_id;
        paused = false;
        last_activity_at = some at;
      };
    } in
    if bound.service.session_factory && env.stored
    then start_transaction env session_id at (open_for_session session_id bound.db.activity_periods)
        bound
    else bound

-- The session that is tracked and not paused.
abbrev pub tracked : ActivityService → Option ℕ
tracked s = if s.paused then none else s.session_id

-- The idle check and then the end of the open period, as pause, stop and shutdown make them.
unfoldable pub end_tracking : Env → DateTime → ℕ → Tracker → Tracker
end_tracking env at session_id t =
    let checked =
      maybe_transition_to_idle_locked env env.flushed at t t.service.session_id
        t.service.last_activity_at in
    close_open_locked env env.stored session_id at checked.0

-- pause
unfoldable pub pause : Env → DateTime → Tracker → Tracker
unfolding end_tracking
pause env at t = elim (tracked t.service) [
  | none ↦ t
  | some session_id ↦
      let e = end_tracking env at session_id t in
      record e { service = record e.service { paused = true } }
]

-- The transaction of resume: a stray open period is closed, a fresh one begins.
unfoldable pub resume_transaction : Env → ℕ → DateTime → Db → Db
resume_transaction env session_id at db =
    add_period env session_id active at none (close_period env session_id at db)

unfoldable pub resume_session : Env → DateTime → ℕ → Tracker → Tracker
resume_session env at session_id t =
    let s = record t.service { paused = false; last_activity_at = some at } in
    record t {
      service = s;
      db =
          if s.session_factory && env.stored
          then resume_transaction env session_id at t.db
          else t.db;
    }

-- resume
unfoldable pub resume : Env → DateTime → Tracker → Tracker
resume env at t = elim t.service.session_id [
  | none ↦ t
  | some session_id ↦ resume_session env at session_id t
]

-- stop
unfoldable pub stop : Env → DateTime → Tracker → Tracker
unfolding end_tracking
stop env at t = elim t.service.session_id [
  | none ↦ t
  | some session_id ↦
      let e = end_tracking env at session_id t in
      record e {
        service = record e.service { session_id = none; last_activity_at = none; paused = false };
      }
]

-- shutdown
unfoldable pub shutdown : Env → DateTime → Tracker → Tracker
unfolding end_tracking
shutdown env at t = elim (tracked t.service) [
  | none ↦ t
  | some session_id ↦ end_tracking env at session_id t
]

abbrev last_row : List ActivityPeriodRecord → Option ActivityPeriodRecord
last_row [] = none
last_row (r ∷ []) = some r
last_row (r ∷ s ∷ rs) = last_row (s ∷ rs)

-- The last activity by the last period, which is closed; an open one leaves the mirror as it was.
abbrev closed_activity : TimeDelta → Option DateTime → ActivityPeriodRecord → Option DateTime
closed_activity th before r = elim r.ended_at [
  | none ↦ before
  | some e ↦ some (if is_idle r.state then r.started_at - th else e)
]

restore_rows :
    DateTime
    → Option ActivityPeriodRecord
    → Option ActivityPeriodRecord
    → ActivityService
    → ActivityService
restore_rows at (some r) last s = record s { last_activity_at = some (inferred s.idle_threshold r) }
restore_rows at none (some r) s = record s {
  last_activity_at = closed_activity s.idle_threshold s.last_activity_at r;
  paused = true;
}
restore_rows at none none s = record s { last_activity_at = some at }

-- restore; a database that raises leaves the time of the call as the last activity.
unfoldable pub restore : Env → ℕ → DateTime → Tracker → Tracker
unfolding restore_rows
restore env session_id at t =
    let s = record t.service { session_id = some session_id; paused = false } in
    let rows = t.db.activity_periods in
    record t {
      service =
          if s.session_factory && env.stored
          then restore_rows at (open_for_session session_id rows)
              (last_row (list_for_session session_id rows)) s
          else record s { last_activity_at = some at };
    }
