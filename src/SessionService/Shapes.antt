-- ===== src/SessionService/Shapes.antt =====
-- The service and its rows, between two actions: at work, on a break, or with no session under way.
use employee_monitoring_app.Prelude.{
  ℕ, ◌≤◌, ◌≡◌, ◌≢◌, Bool, true, false, none, some, List, [], ◌∷◌, ◌++◌, DateTime, ◌==◌, ◌&&◌, All,
  map, is_none,
}
use employee_monitoring_app.Session.{WorkSessionStatus, Break, WorkSession, is_open}
use employee_monitoring_app.Machine.{AppState, SessionMachine}
use employee_monitoring_app.Db.{SessionRow, BreakRecord, Db, IsFresh, session_row, break_row}
use employee_monitoring_app.Db.Table.{select, keys}
use employee_monitoring_app.Repositories.Sessions.{is_unfinished}
use employee_monitoring_app.SessionService.Persist.{SessionService}
use employee_monitoring_app.SessionService.Restore.{break_of_row}
use employee_monitoring_app.SessionService.Lists.{Sorted, Before}

abbrev pub unfinished_of : ℕ → SessionRow → Bool
unfinished_of u r = r.user_id == u && is_unfinished r.status

abbrev pub break_of : ℕ → BreakRecord → Bool
break_of n r = r.session_id == n

abbrev pub open_break_of : ℕ → BreakRecord → Bool
open_break_of n r = r.session_id == n && is_none r.ended_at

-- The session `n` of user `u` from `started`, with the breaks `bs` behind it; `old` are the rows
-- before its own, `tables` the other tables.
pub record Live : Type 0 where
  pub u : ℕ
  pub n : ℕ
  pub started : DateTime
  pub bs : List Break
  pub old : List SessionRow
  pub tables : Db

abbrev pub live_row : Live → WorkSessionStatus → SessionRow
live_row v status = record {
  id = v.n;
  user_id = v.u;
  started_at = v.started;
  ended_at = none;
  status = status;
  total_work_seconds = 0;
}

abbrev pub live_session : Live → WorkSessionStatus → List Break → WorkSession
live_session v status bs = record {
  user_id = v.u;
  started_at = v.started;
  status = status;
  id = some v.n;
  ended_at = none;
  total_work_seconds = 0;
  breaks = bs;
}

abbrev pub live_service :
    Live → AppState → WorkSessionStatus → List Break → List BreakRecord → SessionService
live_service v state status bs rows = record {
  session_factory = true;
  user_id = some v.u;
  machine = record { state = state; session = some (live_session v status bs) };
  db = record v.tables { work_sessions = v.old ++ live_row v status ∷ []; breaks = rows };
}

-- The break that began at `at`, as a row.
abbrev pub open_row : ℕ → ℕ → DateTime → BreakRecord
open_row k n at = record {
  id = k;
  session_id = n;
  started_at = at;
  ended_at = none;
  duration_seconds = 0;
}

abbrev pub at_work : Live → List BreakRecord → SessionService
at_work v rows = live_service v AppState.working WorkSessionStatus.working v.bs rows

abbrev pub on_a_break : Live → List BreakRecord → ℕ → DateTime → SessionService
on_a_break v rows k at =
    live_service v AppState.on_break WorkSessionStatus.on_break
      (v.bs ++ break_of_row (open_row k v.n at) ∷ []) (rows ++ open_row k v.n at ∷ [])

-- A key that no session has is no break's session.
abbrev pub Referenced : List SessionRow → List BreakRecord → Type 0
Referenced sessions rows = (k : ℕ) → IsFresh k (keys sessions) → select (break_of k) rows ≡ []

-- The rows `rows` of the breaks behind the session are the breaks in memory, closed and in order, and
-- no other session of the user is unfinished.
pub record Mirrored (t : DateTime) (v : Live) (rows : List BreakRecord) : Type 0 where
  pub fresh : IsFresh v.n (keys v.old)
  pub only : select (unfinished_of v.u) v.old ≡ []
  pub mirror : map break_of_row (select (break_of v.n) rows) ≡ v.bs
  pub none_open : select (open_break_of v.n) rows ≡ []
  pub closed : All (λ (b : Break). is_open b ≡ false) v.bs
  pub sorted : Sorted v.bs
  pub past : Before t v.bs
  pub referenced : (k : ℕ) → IsFresh k (keys v.old) → v.n ≢ k → select (break_of k) rows ≡ []

-- The service with no session under way.
abbrev pub at_rest : ℕ → SessionMachine → Db → SessionService
at_rest u m db = record { session_factory = true; user_id = some u; machine = m; db = db }

pub record AtRest (u : ℕ) (db : Db) : Type 0 where
  pub only : select (unfinished_of u) db.work_sessions ≡ []
  pub referenced : Referenced db.work_sessions db.breaks

-- The shapes of the service of user `u` at time `t`.
pub data Shape (u : ℕ) (t : DateTime) (a : SessionService) : Type 0 where
  ready :
      (db : Db)
      → AtRest u db
      → a ≡ at_rest u (record { state = AppState.ready; session = none }) db
      → Shape u t a
  completed :
      (s : WorkSession) (db : Db)
      → s.status ≡ WorkSessionStatus.completed
      → AtRest u db
      → a ≡ at_rest u (record { state = AppState.completed; session = some s }) db
      → Shape u t a
  working :
      (v : Live) (rows : List BreakRecord)
      → v.u ≡ u
      → Mirrored t v rows
      → a ≡ at_work v rows
      → Shape u t a
  on_break :
      (v : Live) (rows : List BreakRecord) (k : ℕ) (at : DateTime)
      → v.u ≡ u
      → Mirrored at v rows
      → at ≤ t
      → IsFresh k (keys rows)
      → a ≡ on_a_break v rows k at
      → Shape u t a
