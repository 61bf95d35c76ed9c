-- ===== src/Db.antt =====
-- app/infrastructure/database/models.py: the rows of the tables. Texts of a fixed vocabulary are data
-- types; `updated_at`, and `created_at` where no query reads it, are left out.
pub mod Table
use employee_monitoring_app.Prelude.{ℕ, ◌≢◌, Option, List, [], ◌∷◌, DateTime, String}
use employee_monitoring_app.Session.{WorkSessionStatus}
use employee_monitoring_app.Timeline.{ActivityState}
use employee_monitoring_app.Outbox.{SyncStatus, SyncOperation, SyncEntityType}
use Table.{Row}

pub record UserRow : Type 0 where
  pub id : ℕ
  pub external_user_id : Option String
  pub email : String
  pub display_name : Option String
  pub workspace_name : Option String

pub record SessionRow : Type 0 where
  pub id : ℕ
  pub user_id : ℕ
  pub started_at : DateTime
  pub ended_at : Option DateTime
  pub status : WorkSessionStatus
  pub total_work_seconds : ℕ

pub record BreakRecord : Type 0 where
  pub id : ℕ
  pub session_id : ℕ
  pub started_at : DateTime
  pub ended_at : Option DateTime
  pub duration_seconds : ℕ

pub record ActivityPeriodRecord : Type 0 where
  pub id : ℕ
  pub session_id : ℕ
  pub started_at : DateTime
  pub ended_at : Option DateTime
  pub state : ActivityState
  pub duration_seconds : ℕ

pub record ScreenshotMetadata : Type 0 where
  pub id : ℕ
  pub session_id : ℕ
  pub captured_at : DateTime
  pub activity_state : ActivityState
  pub file_path : String
  pub file_size : Option ℕ
  pub checksum : Option String
  pub sync_status : SyncStatus
  pub attempt_count : ℕ
  pub last_attempt_at : Option DateTime
  pub synced_at : Option DateTime
  pub created_at : DateTime

pub record SyncQueueItem : Type 0 where
  pub id : ℕ
  pub entity_type : SyncEntityType
  pub entity_id : ℕ
  pub operation : SyncOperation
  pub status : SyncStatus
  pub attempt_count : ℕ
  pub last_attempt_at : Option DateTime
  pub last_error : Option String
  pub created_at : DateTime

instance abbrev pub user_row : Row UserRow
user_row = record { key = λ r. r.id }

instance abbrev pub session_row : Row SessionRow
session_row = record { key = λ r. r.id }

instance abbrev pub break_row : Row BreakRecord
break_row = record { key = λ r. r.id }

instance abbrev pub period_row : Row ActivityPeriodRecord
period_row = record { key = λ r. r.id }

instance abbrev pub screenshot_row : Row ScreenshotMetadata
screenshot_row = record { key = λ r. r.id }

instance abbrev pub queue_row : Row SyncQueueItem
queue_row = record { key = λ r. r.id }

pub record Db : Type 0 where
  pub users : List UserRow
  pub work_sessions : List SessionRow
  pub breaks : List BreakRecord
  pub activity_periods : List ActivityPeriodRecord
  pub screenshots : List ScreenshotMetadata
  pub sync_queue : List SyncQueueItem

-- No row has the key `n`.
abbrev pub IsFresh : ℕ → List ℕ → Type 0
IsFresh n [] = Unit
IsFresh n (k ∷ ks) = (k ≢ n) × IsFresh n ks

-- What the database is relied on for when it numbers a new row: a key that no row of the table has.
pub record KeySource : Type 0 where
  pub next : List ℕ → ℕ
  pub next_fresh : (ks : List ℕ) → IsFresh (next ks) ks
