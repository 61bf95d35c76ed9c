-- ===== src/SyncService/Progress.antt =====
-- A drain that the backend confirms row by row empties its batch.
use employee_monitoring_app.Prelude.{
  ℕ, ◌+◌, ◌≡◌, refl, ap, ◌∙◌, true, none, some, List, [], ◌∷◌, DateTime, arith, length, All, ◌==◌,
  if-case,
}
use employee_monitoring_app.Outbox.{ConnectivityState, SyncStatus}
use employee_monitoring_app.Db.{SyncQueueItem, Db, queue_row}
use employee_monitoring_app.Db.Table.{get, modify, get-delete}
use employee_monitoring_app.Repositories.Queue.{
  pending_batch, record_attempt, mark_sync_started, mark_synced, delete_after_confirmed,
}
use employee_monitoring_app.SyncService.Due.{is_due}
use employee_monitoring_app.SyncService.Drain.{Reply, result_of, Counts}
use employee_monitoring_app.SyncService.Queue.{
  QueueDrain, settle, attempt, drain_item, drain_items, drain_queue,
}

-- Both commits go through, and the call succeeds.
abbrev pub Confirms : (ℕ → Reply) → Type 0
Confirms replies =
    (n : ℕ)
    → ((replies n).marked ≡ true)
      × ((replies n).stored ≡ true)
      × ((result_of (replies n).answer).success ≡ true)

abbrev pub IsDue : DateTime → SyncQueueItem → Type 0
IsDue at item = is_due item.last_attempt_at item.attempt_count at ≡ true

abbrev Gone : ℕ → List SyncQueueItem → Type 0
Gone n rows = get n rows ≡ none

modify-Gone :
    (n j : ℕ) (f : SyncQueueItem → SyncQueueItem) (rows : List SyncQueueItem)
    → ((r : SyncQueueItem) → (f r).id ≡ r.id)
    → Gone j rows
    → Gone j (modify n f rows)
modify-Gone n j f [] k h = refl
modify-Gone n j f (r ∷ rs) k h = ground (arith, modify-Gone n j f rs k, k r)

confirmed_rows : DateTime → ℕ → List SyncQueueItem → List SyncQueueItem
confirmed_rows at n rows =
    delete_after_confirmed n (mark_synced n (mark_sync_started n (record_attempt n at rows)))

confirmed_rows-Gone :
    (at : DateTime) (n j : ℕ) (rows : List SyncQueueItem)
    → Gone j rows
    → Gone j (confirmed_rows at n rows)
unfolding confirmed_rows delete_after_confirmed mark_synced mark_sync_started record_attempt
confirmed_rows-Gone at n j rows h =
    let started = mark_sync_started n (record_attempt n at rows) in
    let a =
      modify-Gone n j
        (λ r. record r { attempt_count = r.attempt_count + 1; last_attempt_at = some at }) rows
        (λ r. refl) h in
    let b =
      modify-Gone n j (λ r. record r { status = SyncStatus.syncing }) (record_attempt n at rows)
        (λ r. refl) a in
    let c = modify-Gone n j (λ r. record r { status = SyncStatus.synced }) started (λ r. refl) b in
    rw (get-delete n j (mark_synced n started)) (if-case (λ o. o ≡ none) (n == j) _ _ refl c)

confirmed_rows_self :
    (at : DateTime) (n : ℕ) (rows : List SyncQueueItem) → Gone n (confirmed_rows at n rows)
unfolding confirmed_rows delete_after_confirmed
confirmed_rows_self at n rows =
    rw (get-delete n n (mark_synced n (mark_sync_started n (record_attempt n at rows))))
      (ground arith)

-- One round: the row is gone, and no row that was gone comes back.
confirmed_round :
    (db : Db) (at : DateTime) (total : ℕ) (replies : ℕ → Reply) (item : SyncQueueItem)
    (st : QueueDrain)
    → Confirms replies
    → IsDue at item
    → st.running ≡ true
    → let out = drain_item db at total replies item st in
      (out.running ≡ true)
      × (out.rows ≡ confirmed_rows at item.id st.rows)
      × (out.counts ≡ record st.counts { synced = st.counts.synced + 1 })
unfolding drain_item attempt settle confirmed_rows
confirmed_round db at total replies item st c d r =
    let (m, s, k) = c item.id in rw (r, d, m, s, k) (refl, refl, refl)

abbrev Done : List SyncQueueItem → QueueDrain → QueueDrain → Type 0
Done items st out =
    (out.running ≡ true)
    × (out.counts ≡ record st.counts { synced = st.counts.synced + length items })
    × All (λ (i : SyncQueueItem). Gone i.id out.rows) items
    × ((j : ℕ) → Gone j st.rows → Gone j out.rows)

confirmed_loop :
    (db : Db) (at : DateTime) (total : ℕ) (replies : ℕ → Reply) (items : List SyncQueueItem)
    (st : QueueDrain)
    → Confirms replies
    → All (IsDue at) items
    → st.running ≡ true
    → Done items st (drain_items db at total replies items st)
unfolding drain_items
confirmed_loop db at total replies [] st c d r = (r, ground arith, tt, λ j h. h)
confirmed_loop db at total replies (item ∷ items) st c d r =
    let next = drain_item db at total replies item st in
    let (up, rows, counts) = confirmed_round db at total replies item st c d.0 r in
    let (a, b, e, f) = confirmed_loop db at total replies items next c d.1 up in
    (
      a,
      b
          ∙ ap (λ (k : Counts). record k { synced = k.synced + length items }) counts
          ∙ ap (λ n. record st.counts { synced = n }) (omega arith),
      (f item.id (rw rows (confirmed_rows_self at item.id st.rows)), e),
      λ j h. f j (rw rows (confirmed_rows-Gone at item.id j st.rows h)),
    )

-- Where every row of the batch is due, every commit goes through and every call succeeds, a drain goes
-- through the whole batch: no row of it is left in the outbox, and all of them are counted as synced,
-- none as failed or skipped.
pub drain_queue_empties :
    (db : Db) (at : DateTime) (limit : ℕ) (replies : ℕ → Reply) (c : ConnectivityState)
    → Confirms replies
    → All (IsDue at) (pending_batch limit db.sync_queue)
    → let batch = pending_batch limit db.sync_queue in
      let st = drain_queue db at limit replies c in
      (st.running ≡ true)
      × (st.counts ≡ record { synced = length batch; failed = 0; skipped_backoff = 0 })
      × All (λ (i : SyncQueueItem). get i.id st.rows ≡ none) batch
unfolding drain_queue
drain_queue_empties db at limit replies c h d =
    let batch = pending_batch limit db.sync_queue in
    let r = confirmed_loop db at (length batch) replies batch _ h d refl in
    (r.0, r.1 ∙ ap (λ n. record { synced = n; failed = 0; skipped_backoff = 0 }) (omega arith), r.2)
