-- ===== src/SyncService/Counts.antt =====
-- What the counters of the outbox drain add up to.
use employee_monitoring_app.Prelude.{
  ℕ, suc, ◌+◌, ◌≤◌, ◌≡◌, ◌⊎◌, true, false, List, [], ◌∷◌, DateTime, arith, length, length-take-le,
}
use employee_monitoring_app.Outbox.{ConnectivityState}
use employee_monitoring_app.Db.{SyncQueueItem, Db}
use employee_monitoring_app.Repositories.Queue.{pending_batch}
use employee_monitoring_app.SyncService.Drain.{Reply, Counts}
use employee_monitoring_app.SyncService.Queue.{
  QueueDrain, settle, attempt, drain_item, drain_items, drain_queue,
}

abbrev pub sum_counts : Counts → ℕ
sum_counts c = c.synced + c.failed + c.skipped_backoff

-- With `left` rows to go: no row is counted twice, and while the loop runs every row was counted.
record Counted (total left : ℕ) (st : QueueDrain) : Type 0 where
  pub exact : st.running ≡ true → sum_counts st.counts + left ≡ total
  pub bounded : sum_counts st.counts ≤ total

drain_item-Counted :
    (db : Db) (at : DateTime) (total left : ℕ) (replies : ℕ → Reply) (item : SyncQueueItem)
    (st : QueueDrain)
    → Counted total (suc left) st
    → Counted total left (drain_item db at total replies item st)
unfolding drain_item attempt settle
drain_item-Counted db at total left replies item st h = ground arith

drain_items-Counted :
    (db : Db) (at : DateTime) (total : ℕ) (replies : ℕ → Reply) (items : List SyncQueueItem)
    (st : QueueDrain)
    → Counted total (length items) st
    → Counted total 0 (drain_items db at total replies items st)
unfolding drain_items
drain_items-Counted db at total replies [] st h = h
drain_items-Counted db at total replies (item ∷ items) st h =
    drain_items-Counted db at total replies items (drain_item db at total replies item st)
      (drain_item-Counted db at total (length items) replies item st h)

length-pending_batch :
    (limit : ℕ) (rows : List SyncQueueItem) → length (pending_batch limit rows) ≤ limit
unfolding pending_batch
length-pending_batch limit rows = length-take-le limit _

-- In a drain of the outbox at most `limit` rows are tried, synced, failed and skipped rows are never
-- more than the batch, and they are the whole batch where the loop was not left early.
pub drain_queue_counts :
    (db : Db) (at : DateTime) (limit : ℕ) (replies : ℕ → Reply) (c : ConnectivityState)
    → let st = drain_queue db at limit replies c in
      let n = length (pending_batch limit db.sync_queue) in
      (n ≤ limit) × (sum_counts st.counts ≤ n) × ((st.running ≡ false) ⊎ (sum_counts st.counts ≡ n))
unfolding drain_queue
drain_queue_counts db at limit replies c =
    let h : Counted (length (pending_batch limit db.sync_queue)) 0
        (drain_queue db at limit replies c) =
      drain_items-Counted db at (length (pending_batch limit db.sync_queue)) replies
        (pending_batch limit db.sync_queue) _
        (record { exact = λ _. omega arith; bounded = omega arith }) in
    (length-pending_batch limit db.sync_queue, h.bounded, ground (arith, h.exact))
