-- ===== src/Tests/Tracking.antt =====
-- The activity service at concrete inputs.
use employee_monitoring_app.Prelude.{
  ◌≡◌, refl, true, false, none, some, List, [], ◌∷◌, seconds, arith,
}
use employee_monitoring_app.Timeline.{active}
use employee_monitoring_app.Db.{Db}
use employee_monitoring_app.ActivityService.Base.{Tracker, Env}
use employee_monitoring_app.ActivityService.Lifecycle.{pause}
use employee_monitoring_app.ActivityService.Ticks.{on_activity, check_idle}
use employee_monitoring_app.ActivityService.Open.{AtMostOne, open_count}
use employee_monitoring_app.ActivityService.SingleOpen.{
  Event, start_op, pause_op, resume_op, activity_op, idle_op, run, run-AtMostOne,
}
use employee_monitoring_app.ActivityService.Pause.{pause_ends_tracking}
use employee_monitoring_app.Tests.Keys.{summed_keys}

abbrev empty : Db
empty = record {
  users = [];
  work_sessions = [];
  breaks = [];
  activity_periods = [];
  screenshots = [];
  sync_queue = [];
}

abbrev idle_service : Tracker
idle_service = record {
  service = record {
    session_factory = true;
    idle_threshold = seconds 300;
    session_id = none;
    last_activity_at = none;
    paused = false;
  };
  db = empty;
}

abbrev smooth : Env
smooth = record { ids = summed_keys; now = 0; flushed = true; stored = true }

-- Tracking starts, the user goes idle and comes back, and takes a break.
abbrev morning : List Event
morning =
    record { env = smooth; at = seconds 10; op = start_op 7 }
    ∷ record { env = smooth; at = seconds 400; op = idle_op }
    ∷ record { env = smooth; at = seconds 500; op = activity_op }
    ∷ record { env = record smooth { stored = false }; at = seconds 600; op = pause_op }
    ∷ record { env = smooth; at = seconds 700; op = resume_op }
    ∷ []

run-AtMostOne_example : AtMostOne (run morning idle_service).db
run-AtMostOne_example = run-AtMostOne morning idle_service (λ n. omega arith)

abbrev tracking : Tracker
tracking = record {
  service = record {
    session_factory = true;
    idle_threshold = seconds 300;
    session_id = some 7;
    last_activity_at = some (seconds 20);
    paused = false;
  };
  db = record empty {
    activity_periods =
        record {
          id = 1;
          session_id = 7;
          started_at = seconds 10;
          ended_at = none;
          state = active;
          duration_seconds = 0;
        }
        ∷ [];
  };
}

pause_ends_tracking_example :
    let p = pause smooth (seconds 60) tracking in
    (open_count 7 p.db.activity_periods ≡ 0)
    × (on_activity smooth (seconds 90) p ≡ (p, none))
    × (check_idle smooth (seconds 90) p ≡ (p, none))
pause_ends_tracking_example =
    pause_ends_tracking smooth smooth (seconds 60) (seconds 90) 7 tracking refl refl refl
      (λ n. ground arith)
