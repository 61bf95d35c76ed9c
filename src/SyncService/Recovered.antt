-- ===== src/SyncService/Recovered.antt =====
-- recover_stale: what the recovery at startup makes of the rows that a crash left SYNCING.
use mathlib.Core.Path.{fun_ext}
use employee_monitoring_app.Prelude.{
  ℕ, ◌+◌, ◌-◌, ◌≡◌, ◌∙◌, ap, refl, true, false, Bool, List, [], ◌∷◌, arith, map, length, min,
  length-take,
}
use employee_monitoring_app.Outbox.{SyncStatus}
use employee_monitoring_app.Db.{SyncQueueItem, ScreenshotMetadata, Db}
use employee_monitoring_app.Db.Table.{select, order_by, length-order_by}
use employee_monitoring_app.Repositories.Queue
use employee_monitoring_app.Repositories.Queue.{is_waiting, pending_batch}
use employee_monitoring_app.Repositories.Screenshots
use employee_monitoring_app.SyncService.Cycle.{SyncService, recover_stale}

-- The status that a row has after the recovery, by the one that the crash left.
abbrev pub after_crash : SyncStatus → SyncStatus
after_crash SyncStatus.pending = SyncStatus.pending
after_crash SyncStatus.syncing = SyncStatus.pending
after_crash SyncStatus.synced = SyncStatus.synced
after_crash SyncStatus.failed = SyncStatus.failed

abbrev pub recovered_item : SyncQueueItem → SyncQueueItem
recovered_item r = record r { status = after_crash r.status }

abbrev pub recovered_shot : ScreenshotMetadata → ScreenshotMetadata
recovered_shot r = record r { sync_status = after_crash r.sync_status }

abbrev pub left_syncing : SyncStatus → Bool
left_syncing SyncStatus.syncing = true
left_syncing _ = false

abbrev pub unsynced : SyncStatus → Bool
unsynced SyncStatus.synced = false
unsynced _ = true

-- The number of rows whose status passes a test
abbrev pub count : (SyncStatus → Bool) → List SyncQueueItem → ℕ
count p rows = length (select (λ r. p r.status) rows)

abbrev pub count_shots : (SyncStatus → Bool) → List ScreenshotMetadata → ℕ
count_shots p rows = length (select (λ r. p r.sync_status) rows)

reset-item :
    (st : SyncStatus) (r : SyncQueueItem) → r.status ≡ st → Queue.reset_row r ≡ recovered_item r
reset-item SyncStatus.pending r e = ground arith
reset-item SyncStatus.syncing r e = ground arith
reset-item SyncStatus.synced r e = ground arith
reset-item SyncStatus.failed r e = ground arith

reset-shot :
    (st : SyncStatus) (r : ScreenshotMetadata)
    → r.sync_status ≡ st
    → Screenshots.reset_row r ≡ recovered_shot r
reset-shot SyncStatus.pending r e = ground arith
reset-shot SyncStatus.syncing r e = ground arith
reset-shot SyncStatus.synced r e = ground arith
reset-shot SyncStatus.failed r e = ground arith

batch-length :
    (limit : ℕ) (rows : List SyncQueueItem)
    → length (pending_batch limit rows) ≡ min limit (count is_waiting rows)
unfolding pending_batch
batch-length limit rows =
    let waiting = select (λ (r : SyncQueueItem). is_waiting r.status) rows in
    let key = λ (r : SyncQueueItem). r.created_at in
    length-take limit (order_by key waiting) ∙ ap (min limit) (length-order_by key waiting)

map_items : (rows : List SyncQueueItem) → map Queue.reset_row rows ≡ map recovered_item rows
map_items rows = ap (λ f. map f rows) (fun_ext (λ r. reset-item r.status r refl))

map_shots :
    (rows : List ScreenshotMetadata) → map Screenshots.reset_row rows ≡ map recovered_shot rows
map_shots rows = ap (λ f. map f rows) (fun_ext (λ r. reset-shot r.sync_status r refl))

-- A second recovery finds the rows as the first left them.
twice : (st : SyncStatus) → after_crash (after_crash st) ≡ after_crash st
twice SyncStatus.pending = refl
twice SyncStatus.syncing = refl
twice SyncStatus.synced = refl
twice SyncStatus.failed = refl

recovered_twice :
    (rows : List SyncQueueItem)
    → map recovered_item (map recovered_item rows) ≡ map recovered_item rows
recovered_twice [] = refl
recovered_twice (r ∷ rows) = rw (twice r.status, recovered_twice rows) refl

shots_twice :
    (rows : List ScreenshotMetadata)
    → map recovered_shot (map recovered_shot rows) ≡ map recovered_shot rows
shots_twice [] = refl
shots_twice (r ∷ rows) = rw (twice r.sync_status, shots_twice rows) refl

count-recovered :
    (p : SyncStatus → Bool) (rows : List SyncQueueItem)
    → count p (map recovered_item rows) ≡ count (λ st. p (after_crash st)) rows
count-recovered p [] = refl
count-recovered p (r ∷ rows) = ground (arith, count-recovered p rows)

none_left : (st : SyncStatus) → left_syncing (after_crash st) ≡ false
none_left SyncStatus.pending = refl
none_left SyncStatus.syncing = refl
none_left SyncStatus.synced = refl
none_left SyncStatus.failed = refl

no_items_left : (rows : List SyncQueueItem) → count left_syncing (map recovered_item rows) ≡ 0
no_items_left [] = refl
no_items_left (r ∷ rows) = ground (arith, none_left r.status, no_items_left rows)

no_shots_left :
    (rows : List ScreenshotMetadata) → count_shots left_syncing (map recovered_shot rows) ≡ 0
no_shots_left [] = refl
no_shots_left (r ∷ rows) = ground (arith, none_left r.sync_status, no_shots_left rows)

all_wait : (st : SyncStatus) → is_waiting (after_crash st) ≡ unsynced st
all_wait SyncStatus.pending = refl
all_wait SyncStatus.syncing = refl
all_wait SyncStatus.synced = refl
all_wait SyncStatus.failed = refl

waiting_or_syncing :
    (rows : List SyncQueueItem)
    → count is_waiting rows + count left_syncing rows ≡ count unsynced rows
waiting_or_syncing [] = omega arith
waiting_or_syncing (r ∷ rows) = ground (arith, waiting_or_syncing rows)

recover_stored :
    (s : SyncService) (db : Db)
    → s.session_factory ≡ true
    → recover_stale s true db ≡ (
      record db {
        sync_queue = map recovered_item db.sync_queue;
        screenshots = map recovered_shot db.screenshots;
      },
      count left_syncing db.sync_queue,
      count_shots left_syncing db.screenshots,
    )
unfolding recover_stale Queue.reset_stale_syncing Screenshots.reset_stale_syncing
recover_stored s db e = simp (e, map_items db.sync_queue, map_shots db.screenshots) refl

-- A recovery that is stored sets each row that a crash left SYNCING to PENDING, in the outbox and among
-- the screenshots, and changes nothing else of any row, nor the other tables; it counts these rows. A
-- batch of the outbox has as many rows as its limit or, where there are fewer, as are neither SYNCED
-- nor SYNCING before the recovery, and as were not SYNCED after it. A second recovery finds nothing
-- and changes nothing.
pub recover_stale_lem :
    (s : SyncService) (db : Db) (limit : ℕ)
    → s.session_factory ≡ true
    → let out = recover_stale s true db in
      let stale = count left_syncing db.sync_queue in
      (out.0 ≡ record db {
        sync_queue = map recovered_item db.sync_queue;
        screenshots = map recovered_shot db.screenshots;
      })
      × (out.1 ≡ stale)
      × (out.2 ≡ count_shots left_syncing db.screenshots)
      × (length (pending_batch limit db.sync_queue)
          ≡ min limit (count unsynced db.sync_queue - stale))
      × (length (pending_batch limit out.0.sync_queue) ≡ min limit (count unsynced db.sync_queue))
      × (recover_stale s true out.0 ≡ (out.0, 0, 0))
recover_stale_lem s db limit e =
    let rows = db.sync_queue in
    let after : count is_waiting (map recovered_item rows) ≡ count unsynced rows =
      count-recovered is_waiting rows ∙ ap (λ p. count p rows) (fun_ext all_wait) in
    let before : count is_waiting rows ≡ count unsynced rows - count left_syncing rows =
      omega (arith, waiting_or_syncing rows) in
    rw (recover_stored s db e) (
      refl,
      refl,
      refl,
      batch-length limit rows ∙ ap (min limit) before,
      batch-length limit (map recovered_item rows) ∙ ap (min limit) after,
      rw
          (
            recover_stored s _ e,
            recovered_twice rows,
            shots_twice db.screenshots,
            no_items_left rows,
            no_shots_left db.screenshots,
          )
          refl,
    )
