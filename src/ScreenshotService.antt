-- ===== src/ScreenshotService.antt =====
-- app/services/screenshot_service.py: when a session is captured, and whether a capture is allowed.
pub mod Capture
pub mod Recovery
pub mod Pipeline
pub mod Captured
pub mod Reconciled
use employee_monitoring_app.Prelude.{ℕ, Bool, true, false, Option, none, some, not, is_none, ◌&&◌}

-- ScreenshotService; `session_factory` and `data_dir` are false where none is bound.
pub record ScreenshotService : Type 0 where
  pub session_factory : Bool
  pub data_dir : Bool
  pub interval_seconds : ℕ
  pub session_id : Option ℕ
  pub paused : Bool

-- start
unfoldable pub start : ℕ → ScreenshotService → ScreenshotService
start session_id s = record s { session_id = some session_id; paused = false }

-- pause
unfoldable pub pause : ScreenshotService → ScreenshotService
pause s = record s { paused = true }

-- resume
unfoldable pub resume : Option ℕ → ScreenshotService → ScreenshotService
resume none s = record s { paused = false }
resume (some n) s = record s { session_id = some n; paused = false }

-- stop
unfoldable pub stop : ScreenshotService → ScreenshotService
stop s = record s { session_id = none; paused = false }

-- can_capture
unfoldable pub can_capture : ScreenshotService → Bool
can_capture s = not (is_none s.session_id) && not s.paused
