-- ===== src/Tests/Workers.antt =====
-- The sync worker and the lifecycle at concrete inputs.
use employee_monitoring_app.Prelude.{
  ◌≡◌, ◌⊎◌, ◌<◌, ◌≤◌, ◌+◌, ◌-◌, ◌*◌, refl, true, false, List, [], ◌∷◌, ◌++◌, if◌then◌else◌,
  DateTime, String, Option, none, some, ltb, second, seconds, arith,
}
use employee_monitoring_app.Worker.{raised}
use employee_monitoring_app.Worker.Requests.{
  Step, start_call, request_call, kick_fires, drain_ends, run, new_run, sync_worker_run,
}
use employee_monitoring_app.ActivityWorker
use employee_monitoring_app.ActivityWorker.{ActivityWorker, delay_after}
use employee_monitoring_app.ActivityWorker.Restarts.{calls_made, start_ends}
use employee_monitoring_app.ScreenshotWorker
use employee_monitoring_app.ScreenshotWorker.{Shot, Ticked, taken, nothing, tick, set_schedule}
use employee_monitoring_app.ScreenshotWorker.Slots.{calls, paths, slots_of, tick_uses_slots}
use employee_monitoring_app.ScreenshotWorker.Wiring.{start_worker}
use employee_monitoring_app.ScreenshotWorker.Wiring.Idle.{
  Event, poll_fires, break_ended, run as run_idle, restored_break_never_captures,
}
use employee_monitoring_app.Session.{WorkSessionStatus, WorkSession}
use employee_monitoring_app.ScreenshotService.Capture.{capture_once}
use employee_monitoring_app.Db.{Db}
use employee_monitoring_app.Tests.Screens.{empty, on_screen, camera, old_files}
use employee_monitoring_app.Lifecycle
use employee_monitoring_app.Lifecycle.{new_lifecycle, hooks, reversed, start, shutdown}
use employee_monitoring_app.Lifecycle.Order.{starts_of, start_then_shutdown}

-- A request comes during the first drain, which raises.
abbrev busy : List Step
busy = start_call ∷ kick_fires ∷ request_call ∷ drain_ends raised ∷ []

sync_worker_run_example :
    let r = run busy new_run in
    (r.drains ≡ (if r.worker.draining then 1 else 0))
    × ((r.waiting ≡ false)
        ⊎ ((r.worker.running ≡ true)
            × (r.worker.paused ≡ false)
            × ((r.worker.debouncing ≡ true)
                ⊎ (0 < r.worker.kicks)
                ⊎ ((r.worker.draining ≡ true) × (r.worker.pending_tick ≡ true)))))
    × (r.worker.delayed ≡ [])
    × (r.worker.attempt ≡ 0)
sync_worker_run_example = sync_worker_run busy

abbrev two_steps : List Lifecycle.Step
two_steps =
    record { name = "database"; starts = true; has_shutdown = true }
    ∷ record { name = "auth"; starts = true; has_shutdown = true }
    ∷ []

abbrev bad_step : Lifecycle.Step
bad_step = record { name = "ui"; starts = false; has_shutdown = true }

start_then_shutdown_example :
    let whole = start (new_lifecycle two_steps) in
    let failed = start (new_lifecycle (two_steps ++ bad_step ∷ [])) in
    (whole.1 ≡ true)
    × ((shutdown whole.0).calls ≡ starts_of two_steps ++ hooks (reversed two_steps))
    × (failed.1 ≡ false)
    × (failed.0.calls ≡ starts_of two_steps ++ hooks (reversed two_steps))
    × ((shutdown failed.0).calls
        ≡ starts_of two_steps ++ hooks (reversed two_steps) ++ hooks (reversed two_steps))
start_then_shutdown_example =
    start_then_shutdown two_steps [] bad_step (refl, (refl, tt)) refl (refl, tt)

abbrev Storage : Type 0
Storage = Db × List String

abbrev shot_of : Option String → Shot
shot_of none = nothing
shot_of (some path) = taken path

-- The service at work, with a camera that never fails.
abbrev service_capture : DateTime → Storage → Storage × Shot
service_capture at s =
    let out = capture_once (on_screen (some 1)) camera at s.0 s.1 in
    ((out.db, out.files), shot_of out.path)

-- A schedule from 10 s on, every 60 s.
abbrev scheduled : Ticked Storage
scheduled = record {
  worker = record ScreenshotWorker.new_worker {
    running = true;
    scheduled_start = some (seconds 10);
    interval = some (seconds 60);
  };
  service = (empty, old_files);
  emitted = [];
}

-- At 200 s three slots have passed: 70 s, 130 s and 190 s.
tick_uses_slots_example :
    let u = tick service_capture (seconds 200) scheduled in
    let shot = (service_capture (seconds 200) (empty, old_files)).1 in
    let k =
      if ltb (seconds 200 + 2 * second) (seconds 10 + seconds 60 * (0 + 1))
      then 0
      else slots_of shot (seconds 10) (seconds 60) (seconds 200) 0 in
    (u.worker.next ≡ 0 + k)
    × (u.service ≡ calls service_capture k (seconds 200) (empty, old_files))
    × (u.emitted ≡ [] ++ paths service_capture k (seconds 200) (empty, old_files))
tick_uses_slots_example =
    tick_uses_slots service_capture (seconds 10) (seconds 60) (seconds 200) scheduled (omega arith)
      refl refl refl refl

abbrev on_break_session : WorkSession
on_break_session = record {
  user_id = 7;
  started_at = seconds 10;
  status = WorkSessionStatus.on_break;
  id = some 1;
  ended_at = none;
  total_work_seconds = 0;
  breaks = [];
}

-- The break ends, and a day passes.
abbrev after_the_break : List Event
after_the_break = break_ended (seconds 100) ∷ poll_fires (seconds 86_400) ∷ []

restored_break_never_captures_example :
    let w = start_worker (seconds 50) 60 (some on_break_session) in
    let t =
      run_idle service_capture after_the_break
        (record { worker = w; service = (empty, old_files); emitted = [] }) in
    (t.service ≡ (empty, old_files)) × (t.emitted ≡ []) × (t.worker.scheduled_start ≡ none)
restored_break_never_captures_example =
    restored_break_never_captures service_capture (seconds 50) 60 on_break_session
      (empty, old_files) after_the_break refl

-- A provider that never starts
start_ends_example :
    (v : ActivityWorker) × (ActivityWorker.start 5 (λ n. false) ActivityWorker.new_worker ≡ some v)
    × (ActivityWorker.start 2 (λ n. false) ActivityWorker.new_worker ≡ some v)
    × (v.calls ≡ 0 + calls_made (λ n. false) ActivityWorker.new_worker)
    × (((false ≡ true) × (v.running ≡ true) × (v.attempt ≡ 0) × (v.delayed ≡ []))
        ⊎ ((false ≡ false)
            × (v.running ≡ false)
            × (v.attempt ≡ 0 + (v.calls - 0))
            × (30 ≤ delay_after v.attempt)
            × (v.delayed ≡ [] ++ delay_after v.attempt ∷ [])))
start_ends_example = start_ends 3 (λ n. false) ActivityWorker.new_worker refl
