-- ===== src/Tests/Restart.antt =====
-- A day of the session service at concrete inputs.
use employee_monitoring_app.Prelude.{
  inl, ℕ, ◌≡◌, refl, true, false, none, [], ◌∷◌, List, seconds, arith,
}
use employee_monitoring_app.Machine.{AppState, apply}
use employee_monitoring_app.Db.{Db}
use employee_monitoring_app.SessionService.Persist.{
  SessionService, Env, check_in, take_break, resume, check_out, persist_check_in,
  persist_take_break, persist_resume, persist_check_out,
}
use employee_monitoring_app.SessionService.Unsaved.{unsaved_check_in_lem}
use employee_monitoring_app.SessionService.Restore.{restore_session}
use employee_monitoring_app.SessionService.Shapes.{at_rest}
use employee_monitoring_app.SessionService.Restart.{restarted}
use employee_monitoring_app.SessionService.Days.{
  Event, run, check_in_call, take_break_call, resume_call, check_out_call, perform, restart_lem,
}
use employee_monitoring_app.Tests.Keys.{summed_keys}

abbrev empty : Db
empty = record {
  users = [];
  work_sessions = [];
  breaks = [];
  activity_periods = [];
  screenshots = [];
  sync_queue = [];
}

abbrev committed : ℕ → Env
committed n = record { ids = summed_keys; now = seconds n; stored = true }

-- A first session that is checked out, and a second one with a break behind it and one under way.
abbrev two_sessions : List Event
two_sessions =
    record { env = committed 10; at = seconds 10; call = check_in_call }
    ∷ record { env = committed 20; at = seconds 20; call = check_out_call }
    ∷ record { env = committed 30; at = seconds 30; call = check_in_call }
    ∷ record { env = committed 40; at = seconds 40; call = take_break_call }
    ∷ record { env = committed 50; at = seconds 50; call = resume_call }
    ∷ record { env = committed 60; at = seconds 60; call = take_break_call }
    ∷ []

abbrev break_and_out : List Event
break_and_out =
    record { env = committed 20; at = seconds 20; call = take_break_call }
    ∷ record { env = committed 30; at = seconds 30; call = resume_call }
    ∷ record { env = committed 40; at = seconds 40; call = check_out_call }
    ∷ []

abbrev logged_in : SessionService
logged_in = at_rest 7 (record { state = AppState.ready; session = none }) empty

restart_lem_example :
    restore_session true (restarted (run two_sessions logged_in))
    ≡ (run two_sessions logged_in, true)
unfolding run perform check_in take_break resume check_out apply persist_check_in persist_take_break
    persist_resume persist_check_out restore_session
restart_lem_example =
    restart_lem two_sessions 7 0 (seconds 70) empty (ground arith)
      (record { only = refl; referenced = λ k f. refl })

abbrev unsaved : Env
unsaved = record { ids = summed_keys; now = 0; stored = false }

-- A check-in whose transaction fails, and the rest of that session.
unsaved_check_in_lem_example :
    ((check_in unsaved (seconds 10) logged_in).1 ≡ none)
    × ((check_in unsaved (seconds 10) logged_in).0.machine.state ≡ AppState.working)
    × ((run break_and_out (check_in unsaved (seconds 10) logged_in).0).db ≡ empty)
unsaved_check_in_lem_example =
    unsaved_check_in_lem unsaved 0 (seconds 10) logged_in break_and_out 7 refl refl (inl refl) tt
      (tt, (tt, (tt, tt)))
