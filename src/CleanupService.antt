-- ===== src/CleanupService.antt =====
-- app/services/cleanup_service.py: the deletion of synced outbox rows and of old synced screenshots.
pub mod Rules
use employee_monitoring_app.Prelude.{
  ℕ, suc, ◌+◌, ◌*◌, Bool, true, false, Option, none, some, List, [], ◌∷◌, DateTime, TimeDelta,
  String, seconds, leb, ltb, length, if◌then◌else◌,
}
use employee_monitoring_app.Db.{SyncQueueItem, ScreenshotMetadata, Db}
use employee_monitoring_app.Repositories.Queue
use employee_monitoring_app.Repositories.Queue.{delete_after_confirmed}
use employee_monitoring_app.Repositories.Screenshots
use employee_monitoring_app.SyncService.Screenshots.{contains, without}

-- CleanupService; `session_factory` is false where none is bound.
pub record CleanupService : Type 0 where
  pub session_factory : Bool
  pub retention_days : ℕ

-- Whether each batch can be read, whether the deletion of the rows is committed, and which files can
-- be unlinked.
pub record Environment : Type 0 where
  pub queue_read : Bool
  pub queue_stored : Bool
  pub shots_read : Bool
  pub unlinked : String → Bool

pub record Outcome : Type 0 where
  pub db : Db
  pub files : List String
  pub deleted_files : ℕ
  pub deleted_queue : ℕ
  pub deleted_records : ℕ

abbrev pub days : ℕ → TimeDelta
days n = seconds (86400 * n)

-- The loop over the synced outbox rows.
unfoldable pub delete_rows : List SyncQueueItem → List SyncQueueItem → List SyncQueueItem
delete_rows [] rows = rows
delete_rows (item ∷ items) rows = delete_rows items (delete_after_confirmed item.id rows)

-- The rows after the first step and its counter, which counts before the commit.
unfoldable pub clean_queue : Environment → List SyncQueueItem → List SyncQueueItem × ℕ
clean_queue env rows =
    let synced = Queue.synced_batch 200 rows in
    if env.queue_read
    then (if env.queue_stored
        then (delete_rows synced rows, length synced)
        else (rows, length synced))
    else (rows, 0)

-- A row that was synced at least the retention ago.
unfoldable pub is_expired : DateTime → ℕ → Option DateTime → Bool
is_expired at retention_days none = false
is_expired at retention_days (some synced_at) = leb (synced_at + days retention_days) at

-- The files without the file of a row, and how many were deleted; a failure is logged.
unfoldable pub delete_file : Environment → String → List String × ℕ → List String × ℕ
delete_file env path (files, n) =
    if contains files path
    then (if env.unlinked path then (without path files, suc n) else (files, n))
    else (files, n)

-- The loop over the synced screenshots.
unfoldable pub delete_files :
    Environment → DateTime → ℕ → List ScreenshotMetadata → List String × ℕ → List String × ℕ
unfolding is_expired delete_file
delete_files env at retention_days [] acc = acc
delete_files env at retention_days (shot ∷ shots) acc = delete_files env at retention_days shots (
    if is_expired at retention_days shot.synced_at then delete_file env shot.file_path acc else acc)

unfoldable pub clean_files :
    Environment → DateTime → ℕ → List ScreenshotMetadata → List String → List String × ℕ
clean_files env at retention_days rows files =
    if env.shots_read
    then delete_files env at retention_days (Screenshots.synced_batch 200 rows) (files, 0)
    else (files, 0)

-- run_once; the third step only logs.
unfoldable pub run_once : CleanupService → Environment → DateTime → Db → List String → Outcome
run_once s env at db files =
    let q = clean_queue env db.sync_queue in
    let f = clean_files env at s.retention_days db.screenshots files in
    if s.session_factory
    then record {
      db = record db { sync_queue = q.0 };
      files = f.0;
      deleted_files = f.1;
      deleted_queue = q.1;
      deleted_records = 0;
    }
    else record {
      db = db;
      files = files;
      deleted_files = 0;
      deleted_queue = 0;
      deleted_records = 0;
    }

abbrev pub min_free_bytes : ℕ
min_free_bytes = 200 * 1024 * 1024

-- low_disk; `free` is `none` where no directory is bound or the query raises.
unfoldable pub low_disk : Option ℕ → Bool
low_disk none = false
low_disk (some free) = ltb free min_free_bytes
