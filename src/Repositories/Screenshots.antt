-- ===== src/Repositories/Screenshots.antt =====
-- ScreenshotRepository: the metadata rows of captures.
use employee_monitoring_app.Prelude.{
  ℕ, ◌+◌, Bool, true, false, Option, none, some, List, [], ◌∷◌, ◌++◌, DateTime, String, take,
  length, map, if◌then◌else◌,
}
use employee_monitoring_app.Outbox.{SyncStatus, pending, syncing, synced, failed}
use employee_monitoring_app.Timeline.{ActivityState}
use employee_monitoring_app.Db.{ScreenshotMetadata, KeySource, screenshot_row}
use employee_monitoring_app.Db.Table.{select, order_by, modify, keys}
use employee_monitoring_app.Repositories.Queue.{is_waiting, is_syncing, is_synced}

-- add
unfoldable pub add :
    KeySource
    → DateTime
    → ℕ
    → DateTime
    → ActivityState
    → String
    → Option ℕ
    → Option String
    → List ScreenshotMetadata
    → List ScreenshotMetadata
add ids now session_id captured_at activity_state file_path file_size checksum rows =
    rows
    ++ record {
      id = ids.next (keys rows);
      session_id = session_id;
      captured_at = captured_at;
      activity_state = activity_state;
      file_path = file_path;
      file_size = file_size;
      checksum = checksum;
      sync_status = pending;
      attempt_count = 0;
      last_attempt_at = none;
      synced_at = none;
      created_at = now;
    }
      ∷ []

abbrev is_pending : SyncStatus → Bool
is_pending pending = true
is_pending _ = false

-- pending_batch
unfoldable pub pending_batch : ℕ → List ScreenshotMetadata → List ScreenshotMetadata
unfolding order_by
pending_batch limit rows = take limit (
    order_by (λ (r : ScreenshotMetadata). r.created_at)
      (select (λ r. is_pending r.sync_status) rows))

-- pending_with_failed_batch
unfoldable pub pending_with_failed_batch : ℕ → List ScreenshotMetadata → List ScreenshotMetadata
unfolding order_by
pending_with_failed_batch limit rows = take limit (
    order_by (λ (r : ScreenshotMetadata). r.created_at)
      (select (λ r. is_waiting r.sync_status) rows))

-- record_attempt
unfoldable pub record_attempt : ℕ → DateTime → List ScreenshotMetadata → List ScreenshotMetadata
record_attempt screenshot_id at rows =
    modify screenshot_id
      (λ r. record r { attempt_count = r.attempt_count + 1; last_attempt_at = some at }) rows

-- mark_sync_started
unfoldable pub mark_sync_started : ℕ → List ScreenshotMetadata → List ScreenshotMetadata
mark_sync_started screenshot_id rows =
    modify screenshot_id (λ r. record r { sync_status = syncing }) rows

-- mark_failed
unfoldable pub mark_failed : ℕ → List ScreenshotMetadata → List ScreenshotMetadata
mark_failed screenshot_id rows = modify screenshot_id (λ r. record r { sync_status = failed }) rows

-- mark_synced
unfoldable pub mark_synced : ℕ → DateTime → List ScreenshotMetadata → List ScreenshotMetadata
mark_synced screenshot_id at rows =
    modify screenshot_id (λ r. record r { sync_status = synced; synced_at = some at }) rows

abbrev pub reset_row : ScreenshotMetadata → ScreenshotMetadata
reset_row r = if is_syncing r.sync_status then record r { sync_status = pending } else r

-- reset_stale_syncing: the rows, and how many were reset.
unfoldable pub reset_stale_syncing : List ScreenshotMetadata → List ScreenshotMetadata × ℕ
reset_stale_syncing rows =
    (map reset_row rows, length (select (λ r. is_syncing r.sync_status) rows))

abbrev time_or_zero : Option DateTime → DateTime
time_or_zero none = 0
time_or_zero (some t) = t

-- synced_batch; SQLite orders NULL before every text.
unfoldable pub synced_batch : ℕ → List ScreenshotMetadata → List ScreenshotMetadata
unfolding order_by
synced_batch limit rows = take limit (
    order_by (λ (r : ScreenshotMetadata). time_or_zero r.synced_at)
      (select (λ r. is_synced r.sync_status) rows))
