-- ===== src/SyncService/Due.antt =====
-- The backoff check before an attempt, and the payload of an outbox row.
use employee_monitoring_app.Prelude.{
  ℕ, suc, ◌+◌, Bool, true, Option, none, some, DateTime, seconds, String, leb, ◌==◌, if◌then◌else◌,
}
use employee_monitoring_app.Outbox.{
  SyncStatus, SyncOperation, SyncEntityType, user, work_session, break_, activity_period,
  screenshot, other, backoff_for_attempt,
}
use employee_monitoring_app.Session.{WorkSessionStatus}
use employee_monitoring_app.Timeline.{ActivityState}
use employee_monitoring_app.Db.{
  UserRow, SessionRow, BreakRecord, ActivityPeriodRecord, ScreenshotMetadata, SyncQueueItem, Db,
  user_row, session_row, break_row, period_row, screenshot_row,
}
use employee_monitoring_app.Db.Table.{get}

-- backoff_for_attempt of an attempt that is at least 1
abbrev delay_of : Option ℕ → ℕ
delay_of none = 0
delay_of (some d) = d

-- _is_due and _is_due_screenshot, which are alike: by the last attempt and the attempts so far
unfoldable pub is_due : Option DateTime → ℕ → DateTime → Bool
unfolding backoff_for_attempt
is_due none attempt_count at = true
is_due (some last) attempt_count at =
    let delay = delay_of (backoff_for_attempt (suc attempt_count)) in
    if delay == 0 then true else leb (last + seconds delay) at

-- app/domain/sync/payloads.py: the fields of each payload; a timestamp stands for its ISO text.
pub data Payload : Type 0 where
  user_payload : Option String → String → Option String → Option String → Payload
  work_session_payload : ℕ → ℕ → DateTime → Option DateTime → WorkSessionStatus → ℕ → Payload
  break_payload : ℕ → ℕ → DateTime → Option DateTime → ℕ → Payload
  activity_period_payload : ℕ → ℕ → DateTime → Option DateTime → ActivityState → ℕ → Payload
  screenshot_payload :
      ℕ → ℕ → DateTime → ActivityState → Option ℕ → Option String → SyncStatus → Payload
  bare_payload : SyncEntityType → ℕ → SyncOperation → Payload

build_user : Payload → Option UserRow → Payload
build_user bare none = bare
build_user bare (some u) = user_payload u.external_user_id u.email u.display_name u.workspace_name

build_work_session : Payload → Option SessionRow → Payload
build_work_session bare none = bare
build_work_session bare (some w) =
    work_session_payload w.id w.user_id w.started_at w.ended_at w.status w.total_work_seconds

build_break : Payload → Option BreakRecord → Payload
build_break bare none = bare
build_break bare (some b) =
    break_payload b.id b.session_id b.started_at b.ended_at b.duration_seconds

build_activity_period : Payload → Option ActivityPeriodRecord → Payload
build_activity_period bare none = bare
build_activity_period bare (some p) =
    activity_period_payload p.id p.session_id p.started_at p.ended_at p.state p.duration_seconds

-- build_screenshot_payload at the fields of a row
unfoldable pub screenshot_metadata : ScreenshotMetadata → Payload
screenshot_metadata m =
    screenshot_payload m.id m.session_id m.captured_at m.activity_state m.file_size m.checksum
      m.sync_status

build_screenshot : Payload → Option ScreenshotMetadata → Payload
unfolding screenshot_metadata
build_screenshot bare none = bare
build_screenshot bare (some m) = screenshot_metadata m

build_for : SyncEntityType → ℕ → SyncOperation → Db → Payload → Payload
unfolding build_user build_work_session build_break build_activity_period build_screenshot
build_for work_session n op db bare = build_work_session bare (get n db.work_sessions)
build_for break_ n op db bare = build_break bare (get n db.breaks)
build_for activity_period n op db bare = build_activity_period bare (get n db.activity_periods)
build_for user n op db bare = build_user bare (get n db.users)
build_for screenshot n op db bare = build_screenshot bare (get n db.screenshots)
build_for other n op db bare = bare

-- _build_payload_for_item
unfoldable pub build_payload_for_item : Db → SyncQueueItem → Payload
unfolding build_for
build_payload_for_item db item =
    build_for item.entity_type item.entity_id item.operation db
      (bare_payload item.entity_type item.entity_id item.operation)
