-- ===== src/Repositories/Queue.antt =====
-- SyncQueueRepository: the outbox.
use employee_monitoring_app.Prelude.{
  ℕ, zero, suc, ◌+◌, Bool, true, false, none, some, List, [], ◌∷◌, ◌++◌, DateTime, String, take,
  length, map, if◌then◌else◌,
}
use employee_monitoring_app.Outbox.{
  SyncStatus, pending, syncing, synced, failed, SyncOperation, SyncEntityType,
}
use employee_monitoring_app.Db.{SyncQueueItem, KeySource, queue_row}
use employee_monitoring_app.Db.Table.{select, order_by, modify, delete, keys}

-- status IN (PENDING, FAILED)
abbrev pub is_waiting : SyncStatus → Bool
is_waiting pending = true
is_waiting failed = true
is_waiting _ = false

abbrev pub is_syncing : SyncStatus → Bool
is_syncing syncing = true
is_syncing _ = false

abbrev pub is_synced : SyncStatus → Bool
is_synced synced = true
is_synced _ = false

-- enqueue; `now` is the default of created_at. The last row is the one that it returns.
unfoldable pub enqueue :
    KeySource
    → DateTime
    → SyncEntityType
    → ℕ
    → SyncOperation
    → List SyncQueueItem
    → List SyncQueueItem
enqueue ids now entity_type entity_id operation rows =
    rows
    ++ record {
      id = ids.next (keys rows);
      entity_type = entity_type;
      entity_id = entity_id;
      operation = operation;
      status = pending;
      attempt_count = 0;
      last_attempt_at = none;
      last_error = none;
      created_at = now;
    }
      ∷ []

-- pending_batch
unfoldable pub pending_batch : ℕ → List SyncQueueItem → List SyncQueueItem
unfolding order_by
pending_batch limit rows =
    take limit
      (order_by (λ (r : SyncQueueItem). r.created_at) (select (λ r. is_waiting r.status) rows))

-- record_attempt
unfoldable pub record_attempt : ℕ → DateTime → List SyncQueueItem → List SyncQueueItem
record_attempt queue_id at rows =
    modify queue_id
      (λ r. record r { attempt_count = r.attempt_count + 1; last_attempt_at = some at }) rows

-- mark_sync_started
unfoldable pub mark_sync_started : ℕ → List SyncQueueItem → List SyncQueueItem
mark_sync_started queue_id rows = modify queue_id (λ r. record r { status = syncing }) rows

-- message[:n]
abbrev pub cut : ℕ → String → String
cut zero text = ""
cut (suc n) String.[] = ""
cut (suc n) (String.◌∷◌ c text) = String.◌∷◌ c (cut n text)

keep : String → String
keep message = cut 1024 message

-- record_error
unfoldable pub record_error : ℕ → String → List SyncQueueItem → List SyncQueueItem
unfolding keep
record_error queue_id message rows =
    modify queue_id (λ r. record r { status = failed; last_error = some (keep message) }) rows

-- mark_synced
unfoldable pub mark_synced : ℕ → List SyncQueueItem → List SyncQueueItem
mark_synced queue_id rows = modify queue_id (λ r. record r { status = synced }) rows

-- delete_after_confirmed
unfoldable pub delete_after_confirmed : ℕ → List SyncQueueItem → List SyncQueueItem
delete_after_confirmed queue_id rows = delete queue_id rows

abbrev pub reset_row : SyncQueueItem → SyncQueueItem
reset_row r = if is_syncing r.status then record r { status = pending } else r

-- reset_stale_syncing: the rows, and how many were reset.
unfoldable pub reset_stale_syncing : List SyncQueueItem → List SyncQueueItem × ℕ
reset_stale_syncing rows = (map reset_row rows, length (select (λ r. is_syncing r.status) rows))

-- synced_batch
unfoldable pub synced_batch : ℕ → List SyncQueueItem → List SyncQueueItem
unfolding order_by
synced_batch limit rows =
    take limit
      (order_by (λ (r : SyncQueueItem). r.created_at) (select (λ r. is_synced r.status) rows))
