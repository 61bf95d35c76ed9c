-- ===== src/ActivityService/Base.antt =====
-- The state of the service, and the two internal operations on the open period.
use employee_monitoring_app.Prelude.{
  ℕ, ◌+◌, Bool, true, false, Option, none, some, DateTime, TimeDelta, seconds, leb, ◌==◌,
  if◌then◌else◌,
}
use employee_monitoring_app.Timeline.{ActivityState, active, idle}
use employee_monitoring_app.Outbox.{SyncOperation, create, update, activity_period}
use employee_monitoring_app.Db.{ActivityPeriodRecord, Db, KeySource, period_row}
use employee_monitoring_app.Db.Table.{keys}
use employee_monitoring_app.Repositories.Activity.{append, open_for_session, close_open_for_session}
use employee_monitoring_app.Repositories.Queue.{enqueue}

-- ActivityService; `session_factory` is false where none is bound.
pub record ActivityService : Type 0 where
  pub session_factory : Bool
  pub idle_threshold : TimeDelta
  pub session_id : Option ℕ
  pub last_activity_at : Option DateTime
  pub paused : Bool

-- The service and the database that it writes to.
pub record Tracker : Type 0 where
  pub service : ActivityService
  pub db : Db

-- What surrounds one call: the keys of new rows, the time that new rows are stamped with, and
-- whether the transactions of the call go through. A method has at most two, `flushed` the first of
-- two and `stored` the last; one that fails raises before it reads.
pub record Env : Type 0 where
  pub ids : KeySource
  pub now : DateTime
  pub flushed : Bool
  pub stored : Bool

-- The constructor, and set_idle_threshold; `none` is the ValueError.
unfoldable pub new_service : Bool → ℕ → Option ActivityService
new_service session_factory idle_threshold_seconds =
    if idle_threshold_seconds == 0
    then none
    else some (record {
      session_factory = session_factory;
      idle_threshold = seconds idle_threshold_seconds;
      session_id = none;
      last_activity_at = none;
      paused = false;
    })

unfoldable pub set_idle_threshold : ℕ → ActivityService → Option ActivityService
set_idle_threshold n s = if n == 0 then none else some (record s { idle_threshold = seconds n })

-- _enqueue_period; a failure there is logged and passed over, and is not modelled apart.
unfoldable pub enqueue_period : Env → ℕ → SyncOperation → Db → Db
enqueue_period env period_id operation db = record db {
  sync_queue = enqueue env.ids env.now activity_period period_id operation db.sync_queue;
}

-- A new period with its outbox row: append, then _enqueue_period with CREATE.
unfoldable pub add_period : Env → ℕ → ActivityState → DateTime → Option DateTime → Db → Db
add_period env session_id state started_at ended_at db =
    enqueue_period env (env.ids.next (keys db.activity_periods)) create (record db {
      activity_periods = append env.ids session_id state started_at ended_at db.activity_periods;
    })

-- An UPDATE for the period that was closed, if one was.
unfoldable pub enqueue_closed : Env → Option ActivityPeriodRecord → Db → Db
enqueue_closed env none db = db
enqueue_closed env (some r) db = enqueue_period env r.id update db

-- The open period of a session closed, with its outbox row.
unfoldable pub close_period : Env → ℕ → DateTime → Db → Db
close_period env session_id ended_at db =
    let (rows, closed) = close_open_for_session session_id ended_at db.activity_periods in
    enqueue_closed env closed (record db { activity_periods = rows })

-- _close_open_locked
unfoldable pub close_open_locked : Env → Bool → ℕ → DateTime → Tracker → Tracker
close_open_locked env stored session_id at t =
    if t.service.session_factory
    then (if stored then record t { db = close_period env session_id at t.db } else t)
    else t

abbrev pub is_idle : ActivityState → Bool
is_idle idle = true
is_idle active = false

-- The ACTIVE period of a session ends at `idle_start`, and an IDLE one begins there.
unfoldable pub turn_idle : Env → ℕ → DateTime → Db → Db
turn_idle env session_id idle_start db =
    add_period env session_id idle idle_start none (close_period env session_id idle_start db)

-- The transaction of _maybe_transition_to_idle_locked, by the open period, with its return value.
unfoldable pub idle_transaction :
    Env → ℕ → DateTime → Option ActivityPeriodRecord → Db → Db × Option ActivityState
idle_transaction env session_id idle_start none db = (db, none)
idle_transaction env session_id idle_start (some r) db =
    if is_idle r.state then (db, none) else (turn_idle env session_id idle_start db, some idle)

idle_check : Env → DateTime → Tracker → ℕ → Tracker × Option ActivityState
unfolding idle_transaction
idle_check env idle_start t session_id =
    let (db, r) =
      idle_transaction env session_id idle_start (open_for_session session_id t.db.activity_periods)
        t.db in
    (record t { db = db }, r)

-- _maybe_transition_to_idle_locked at the session and the last activity
unfoldable pub maybe_idle :
    Env → Bool → DateTime → Tracker → ℕ → DateTime → Tracker × Option ActivityState
unfolding idle_check
maybe_idle env stored at t session_id last =
    let idle_start = last + t.service.idle_threshold in
    if leb idle_start at
    then (if t.service.session_factory
        then (if stored then idle_check env idle_start t session_id else (t, none))
        else (t, some idle))
    else (t, none)

unfoldable pub maybe_transition_to_idle_locked :
    Env → Bool → DateTime → Tracker → Option ℕ → Option DateTime → Tracker × Option ActivityState
maybe_transition_to_idle_locked env stored at t (some session_id) (some last) =
    maybe_idle env stored at t session_id last
maybe_transition_to_idle_locked env stored at t _ _ = (t, none)
