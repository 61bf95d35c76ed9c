-- ===== src/ScreenshotWorker/Wiring.antt =====
-- app/main.py: what the start of the program and the session's actions tell the screenshot worker. A
-- call of the supervisor is queued to the worker's thread; the calls arrive in their order.
pub mod Idle
use employee_monitoring_app.Prelude.{ℕ, Option, none, some, is_none, not, if◌then◌else◌, DateTime}
use employee_monitoring_app.Session.{WorkSessionStatus, WorkSession}
use employee_monitoring_app.ScreenshotWorker.{
  ScreenshotWorker, new_worker, start, pause, resume, set_schedule,
}

unfoldable pub schedule_restored :
    DateTime → ℕ → WorkSessionStatus → WorkSession → ScreenshotWorker → ScreenshotWorker
schedule_restored now interval WorkSessionStatus.working s w = set_schedule s.started_at interval w
schedule_restored now interval WorkSessionStatus.on_break s w = pause now w
schedule_restored now interval WorkSessionStatus.completed s w = w

-- The start of the worker, with the session that was restored before
unfoldable pub start_worker : DateTime → ℕ → Option WorkSession → ScreenshotWorker
unfolding schedule_restored start
start_worker now interval none = start new_worker
start_worker now interval (some s) =
    if is_none s.id
    then start new_worker
    else schedule_restored now interval s.status s (start new_worker)

-- check_in_wrapper, after the check-in, with the session that the machine has then
unfoldable pub after_check_in :
    DateTime → ℕ → Option WorkSession → ScreenshotWorker → ScreenshotWorker
after_check_in now interval none w = w
after_check_in now interval (some s) w = resume now (set_schedule s.started_at interval w)

-- break_wrapper, and checkout_wrapper
unfoldable pub after_break : DateTime → ScreenshotWorker → ScreenshotWorker
unfolding pause
after_break now w = pause now w

-- resume_wrapper
unfoldable pub after_resume : DateTime → ScreenshotWorker → ScreenshotWorker
unfolding resume
after_resume now w = resume now w
