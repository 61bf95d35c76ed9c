-- ===== src/SessionService/Restore.antt =====
-- restore_session: the machine rebuilt from the rows at startup.
use employee_monitoring_app.Prelude.{
  ℕ, Bool, true, false, Option, none, some, List, ◌==◌, map, ◌&&◌, if◌then◌else◌,
}
use employee_monitoring_app.Session.{Break, WorkSession}
use employee_monitoring_app.Machine.{restore}
use employee_monitoring_app.Db.{SessionRow, BreakRecord}
use employee_monitoring_app.Db.Table.{select, order_by}
use employee_monitoring_app.Repositories.Sessions.{get_active}
use employee_monitoring_app.SessionService.Persist.{SessionService}

abbrev pub break_of_row : BreakRecord → Break
break_of_row r = record {
  session_id = r.session_id;
  started_at = r.started_at;
  ended_at = r.ended_at;
  duration_seconds = r.duration_seconds;
  id = some r.id;
}

-- _orm_to_domain, with the rows of the relation `breaks`
unfoldable pub orm_to_domain : SessionRow → List BreakRecord → WorkSession
orm_to_domain r breaks = record {
  user_id = r.user_id;
  started_at = r.started_at;
  status = r.status;
  id = some r.id;
  ended_at = r.ended_at;
  total_work_seconds = r.total_work_seconds;
  breaks =
      order_by (λ (b : Break). b.started_at)
        (map break_of_row (select (λ b. b.session_id == r.id) breaks));
}

unfoldable pub restore_row : SessionService → Option SessionRow → SessionService × Bool
unfolding orm_to_domain
restore_row a none = (a, false)
restore_row a (some r) = (record a { machine = restore (orm_to_domain r a.db.breaks) }, true)

unfoldable pub restore_user : Bool → SessionService → Option ℕ → SessionService × Bool
unfolding restore_row
restore_user readable a none = (a, false)
restore_user readable a (some u) =
    if a.session_factory && readable
    then restore_row a (get_active u a.db.work_sessions)
    else (a, false)

-- restore_session, without its calls of the activity and the screenshot service; `readable` is false
-- where the query raises.
unfoldable pub restore_session : Bool → SessionService → SessionService × Bool
unfolding restore_user
restore_session readable a = restore_user readable a a.user_id
