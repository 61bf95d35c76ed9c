-- ===== src/Repositories/Activity.antt =====
-- ActivityRepository: the periods of the sessions.
use employee_monitoring_app.Prelude.{
  ℕ, Option, none, some, List, [], ◌∷◌, ◌++◌, DateTime, ◌==◌, ◌&&◌, if◌then◌else◌, is_none,
  seconds_between, map,
}
use employee_monitoring_app.Timeline.{ActivityState}
use employee_monitoring_app.Db.{ActivityPeriodRecord, KeySource, period_row}
use employee_monitoring_app.Db.Table.{select, first, order_by, modify, keys}

abbrev pub duration_of : DateTime → Option DateTime → ℕ
duration_of started_at none = 0
duration_of started_at (some e) = seconds_between started_at e

abbrev pub new_row :
    KeySource
    → ℕ
    → ActivityState
    → DateTime
    → Option DateTime
    → List ActivityPeriodRecord
    → ActivityPeriodRecord
new_row ids session_id state started_at ended_at rows = record {
  id = ids.next (keys rows);
  session_id = session_id;
  started_at = started_at;
  ended_at = ended_at;
  state = state;
  duration_seconds = duration_of started_at ended_at;
}

-- append; the last row is the one that it returns.
unfoldable pub append :
    KeySource
    → ℕ
    → ActivityState
    → DateTime
    → Option DateTime
    → List ActivityPeriodRecord
    → List ActivityPeriodRecord
append ids session_id state started_at ended_at rows =
    rows ++ new_row ids session_id state started_at ended_at rows ∷ []

abbrev pub end_row : DateTime → ActivityPeriodRecord → ActivityPeriodRecord
end_row ended_at r = record r {
  ended_at = some ended_at;
  duration_seconds = seconds_between r.started_at ended_at;
}

abbrev pub end_if_open : DateTime → ActivityPeriodRecord → ActivityPeriodRecord
end_if_open ended_at r = if is_none r.ended_at then end_row ended_at r else r

-- close_open: the rows, and those that were open
unfoldable pub close_open :
    DateTime → List ActivityPeriodRecord → List ActivityPeriodRecord × List ActivityPeriodRecord
close_open ended_at rows = (
  map (end_if_open ended_at) rows,
  map (end_row ended_at) (select (λ r. is_none r.ended_at) rows),
)

-- open_for_session
unfoldable pub open_for_session : ℕ → List ActivityPeriodRecord → Option ActivityPeriodRecord
open_for_session session_id rows =
    first (select (λ r. r.session_id == session_id && is_none r.ended_at) rows)

-- close_open_for_session: the rows, and the one that was closed
unfoldable pub close_open_for_session :
    ℕ
    → DateTime
    → List ActivityPeriodRecord
    → List ActivityPeriodRecord × Option ActivityPeriodRecord
unfolding open_for_session
close_open_for_session session_id ended_at rows = elim (open_for_session session_id rows) [
  | none ↦ (rows, none)
  | some r ↦ (modify r.id (end_row ended_at) rows, some (end_row ended_at r))
]

-- list_for_session
unfoldable pub list_for_session : ℕ → List ActivityPeriodRecord → List ActivityPeriodRecord
unfolding order_by
list_for_session session_id rows =
    order_by (λ (r : ActivityPeriodRecord). r.started_at)
      (select (λ r. r.session_id == session_id) rows)
