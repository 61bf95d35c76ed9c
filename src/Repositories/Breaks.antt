-- ===== src/Repositories/Breaks.antt =====
-- BreakRepository: the breaks of the sessions.
use employee_monitoring_app.Prelude.{
  ℕ, ◌+◌, Option, none, some, List, [], ◌∷◌, ◌++◌, DateTime, ◌==◌, ◌&&◌, if◌then◌else◌, is_none,
  seconds_between,
}
use employee_monitoring_app.Db.{BreakRecord, KeySource, break_row}
use employee_monitoring_app.Db.Table.{select, first, order_by, modify, keys}

abbrev pub new_row : KeySource → ℕ → DateTime → List BreakRecord → BreakRecord
new_row ids session_id started_at rows = record {
  id = ids.next (keys rows);
  session_id = session_id;
  started_at = started_at;
  ended_at = none;
  duration_seconds = 0;
}

-- start; the last row is the one that it returns.
unfoldable pub start : KeySource → ℕ → DateTime → List BreakRecord → List BreakRecord
start ids session_id started_at rows = rows ++ new_row ids session_id started_at rows ∷ []

-- A row that has an end is returned as it is.
abbrev pub end_row : DateTime → BreakRecord → BreakRecord
end_row ended_at r =
    if is_none r.ended_at
    then record r {
      ended_at = some ended_at;
      duration_seconds = seconds_between r.started_at ended_at;
    }
    else r

-- end_open
unfoldable pub end_open : ℕ → DateTime → List BreakRecord → List BreakRecord
end_open break_id ended_at rows = modify break_id (end_row ended_at) rows

-- open_for_session
unfoldable pub open_for_session : ℕ → List BreakRecord → Option BreakRecord
open_for_session session_id rows =
    first (select (λ r. r.session_id == session_id && is_none r.ended_at) rows)

unfoldable pub sum_seconds : List BreakRecord → ℕ
sum_seconds [] = 0
sum_seconds (r ∷ rs) = r.duration_seconds + sum_seconds rs

-- accumulate_seconds
unfoldable pub accumulate_seconds : ℕ → List BreakRecord → ℕ
unfolding sum_seconds
accumulate_seconds session_id rows = sum_seconds (select (λ r. r.session_id == session_id) rows)

-- list_for_session
unfoldable pub list_for_session : ℕ → List BreakRecord → List BreakRecord
unfolding order_by
list_for_session session_id rows =
    order_by (λ (r : BreakRecord). r.started_at) (select (λ r. r.session_id == session_id) rows)
