-- ===== src/ActivityService/Ticks.antt =====
-- on_activity and check_idle, and the queries current_state and get_breakdown.
use employee_monitoring_app.Prelude.{
  ℕ, ◌+◌, Bool, Option, none, some, List, [], ◌∷◌, DateTime, TimeDelta, leb, ◌&&◌, if◌then◌else◌,
  seconds_between, is_none, opt_eq, not,
}
use employee_monitoring_app.Timeline.{ActivityState, active, idle, end_or}
use employee_monitoring_app.Db.{ActivityPeriodRecord, Db}
use employee_monitoring_app.Repositories.Activity.{open_for_session, list_for_session}
use employee_monitoring_app.ActivityService.Base.{
  ActivityService, Tracker, Env, add_period, close_period, is_idle, maybe_transition_to_idle_locked,
}
use employee_monitoring_app.ActivityService.Lifecycle.{tracked}

-- Waking from idle: the IDLE period ends at `at`, and an ACTIVE one begins.
unfoldable pub wake : Env → ℕ → DateTime → Db → Db
wake env session_id at db =
    add_period env session_id active at none (close_period env session_id at db)

-- An idle time that no check saw: the ACTIVE period ends at `idle_start`, an IDLE one fills the time
-- up to `at`, and an ACTIVE one begins there.
unfoldable pub synthesize_idle : Env → ℕ → DateTime → DateTime → Db → Db
synthesize_idle env session_id idle_start at db = add_period env session_id active at none (
    add_period env session_id idle idle_start (some at) (close_period env session_id idle_start db))

-- While ACTIVE, by the previous activity.
unfoldable pub on_active :
    Env → ℕ → DateTime → TimeDelta → Option DateTime → Db → Db × Option ActivityState
on_active env session_id at th none db = (db, none)
on_active env session_id at th (some previous) db =
    if leb (previous + th) at
    then (synthesize_idle env session_id (previous + th) at db, some active)
    else (db, none)

-- The transaction of on_activity, by the open period.
unfoldable pub activity_transaction :
    Env
    → ℕ
    → DateTime
    → TimeDelta
    → Option DateTime
    → Option ActivityPeriodRecord
    → Db
    → Db × Option ActivityState
activity_transaction env session_id at th previous none db =
    (add_period env session_id active at none db, some active)
activity_transaction env session_id at th previous (some r) db =
    if is_idle r.state
    then (wake env session_id at db, some active)
    else on_active env session_id at th previous db

unfoldable pub on_activity_in : Env → DateTime → ℕ → Tracker → Tracker × Option ActivityState
on_activity_in env at session_id t =
    let s = record t.service { last_activity_at = some at } in
    let (db, r) =
      activity_transaction env session_id at s.idle_threshold t.service.last_activity_at
        (open_for_session session_id t.db.activity_periods) t.db in
    if s.session_factory
    then (if env.stored
        then (record { service = s; db = db }, r)
        else (record t { service = s }, none))
    else (record t { service = s }, some active)

-- on_activity
unfoldable pub on_activity : Env → DateTime → Tracker → Tracker × Option ActivityState
on_activity env at t = elim (tracked t.service) [
  | none ↦ (t, none)
  | some session_id ↦ on_activity_in env at session_id t
]

-- check_idle
unfoldable pub check_idle : Env → DateTime → Tracker → Tracker × Option ActivityState
check_idle env at t =
    if t.service.paused
    then (t, none)
    else maybe_transition_to_idle_locked env env.stored at t t.service.session_id
        t.service.last_activity_at

abbrev state_of_open : Option ActivityPeriodRecord → ActivityState
state_of_open none = active
state_of_open (some r) = if is_idle r.state then idle else active

state_by_rows : Bool → ActivityService → ℕ → Db → ActivityState
state_by_rows readable s session_id db =
    if s.session_factory && readable
    then state_of_open (open_for_session session_id db.activity_periods)
    else active

state_at : Bool → DateTime → ActivityService → Db → ℕ → Option DateTime → ActivityState
unfolding state_by_rows
state_at readable at s db session_id none = active
state_at readable at s db session_id (some last) =
    if leb (last + s.idle_threshold) at then idle else state_by_rows readable s session_id db

-- current_state; `readable` is false where the query raises.
unfoldable pub current_state : Bool → DateTime → Tracker → ActivityState
unfolding state_at
current_state readable at t = elim (tracked t.service) [
  | none ↦ active
  | some session_id ↦ state_at readable at t.service t.db session_id t.service.last_activity_at
]

-- The end at which a trailing open ACTIVE period is clipped, if it is.
abbrev clipped_end :
    DateTime → ActivityService → ℕ → ActivityPeriodRecord → Option DateTime → Option DateTime
clipped_end at s session_id r none = none
clipped_end at s session_id r (some last) =
    if is_none r.ended_at
      && not (is_idle r.state)
      && opt_eq s.session_id (some session_id)
      && leb (last + s.idle_threshold) at
    then some (last + s.idle_threshold)
    else none

abbrev add_pair : ℕ × ℕ → ℕ × ℕ → ℕ × ℕ
add_pair (a, b) (c, d) = (a + c, b + d)

-- The active and the idle seconds of one row.
row_seconds : DateTime → ActivityPeriodRecord → Option DateTime → ℕ × ℕ
row_seconds at r (some clipped) = (seconds_between r.started_at clipped, seconds_between clipped at)
row_seconds at r none =
    let secs = seconds_between r.started_at (end_or at r.ended_at) in
    if is_idle r.state then (0, secs) else (secs, 0)

unfoldable pub sum_rows : DateTime → ActivityService → ℕ → List ActivityPeriodRecord → ℕ × ℕ
unfolding row_seconds
sum_rows at s session_id [] = (0, 0)
sum_rows at s session_id (r ∷ rs) =
    add_pair (row_seconds at r (clipped_end at s session_id r s.last_activity_at))
      (sum_rows at s session_id rs)

-- get_breakdown: the active and the idle seconds of a session.
unfoldable pub get_breakdown : Bool → ℕ → DateTime → Tracker → ℕ × ℕ
get_breakdown readable session_id at t =
    if t.service.session_factory && readable
    then sum_rows at t.service session_id (list_for_session session_id t.db.activity_periods)
    else (0, 0)
