-- ===== src/SyncService/Queue.antt =====
-- _drain_queue: every row of the batch in turn, until the loop breaks or the database raises.
use employee_monitoring_app.Prelude.{
  ℕ, ◌+◌, ◌-◌, Bool, true, false, List, [], ◌∷◌, DateTime, String, length, leb, if◌then◌else◌, ◌&&◌,
}
use employee_monitoring_app.Outbox.{
  ConnectivityState, offline, backend_unavailable, authentication_required, SyncResult,
}
use employee_monitoring_app.Db.{SyncQueueItem, Db}
use employee_monitoring_app.Repositories.Queue.{
  pending_batch, record_attempt, mark_sync_started, record_error, mark_synced,
  delete_after_confirmed,
}
use employee_monitoring_app.SyncService.Due.{is_due, build_payload_for_item}
use employee_monitoring_app.SyncService.Drain.{Reply, result_of, Call, error_or, Counts, no_counts}

-- The outbox, the counters and the connectivity; `calls` lists the calls made, the last one first,
-- and `running` is false once the loop has been left.
pub record QueueDrain : Type 0 where
  pub rows : List SyncQueueItem
  pub counts : Counts
  pub connectivity : ConnectivityState
  pub calls : List Call
  pub running : Bool

abbrev pub is_unreachable : ConnectivityState → Bool
is_unreachable offline = true
is_unreachable backend_unavailable = true
is_unreachable _ = false

abbrev pub is_auth_required : ConnectivityState → Bool
is_auth_required authentication_required = true
is_auth_required _ = false

abbrev pub failure_message : SyncResult → String
failure_message result =
    error_or result.error
      (if result.retryable then "sync failed" else "sync failed (non-retryable)")

-- The outcome of a failed call; `total` is len(items).
on_failure : ℕ → SyncQueueItem → SyncResult → QueueDrain → QueueDrain
on_failure total item result st =
    let rows = record_error item.id (failure_message result) st.rows in
    let c = st.counts in
    let failed = c.failed + 1 in
    if is_auth_required result.connectivity
    then record st {
      rows = rows;
      counts = record c { failed = failed };
      connectivity = result.connectivity;
      running = false;
    }
    else (if is_unreachable result.connectivity && leb 1 failed
        then record st {
          rows = rows;
          counts = record c {
            failed = failed;
            skipped_backoff = c.skipped_backoff + (total - (c.synced + failed + c.skipped_backoff));
          };
          running = false;
        }
        else record st { rows = rows; counts = record c { failed = failed } })

-- The outcome of a call that succeeded: only now the row is deleted.
on_success : SyncQueueItem → QueueDrain → QueueDrain
on_success item st = record st {
  rows = delete_after_confirmed item.id (mark_synced item.id st.rows);
  counts = record st.counts { synced = st.counts.synced + 1 };
}

unfoldable pub settle : ℕ → SyncQueueItem → SyncResult → QueueDrain → QueueDrain
unfolding on_failure on_success
settle total item result st =
    if result.success then on_success item st else on_failure total item result st

-- The attempt at a row that is due.
unfoldable pub attempt : Db → DateTime → ℕ → SyncQueueItem → Reply → QueueDrain → QueueDrain
unfolding settle
attempt db at total item reply st =
    let result = result_of reply.answer in
    let called : QueueDrain = record st {
      rows = mark_sync_started item.id (record_attempt item.id at st.rows);
      calls =
          record { row = item.id; payload = build_payload_for_item db item; result = result }
          ∷ st.calls;
    } in
    if reply.marked
    then (if reply.stored
        then settle total item result called
        else record called { running = false })
    else record st { running = false }

-- One round of the loop.
unfoldable pub drain_item :
    Db → DateTime → ℕ → (ℕ → Reply) → SyncQueueItem → QueueDrain → QueueDrain
drain_item db at total replies item st =
    if st.running
    then (if is_due item.last_attempt_at item.attempt_count at
        then attempt db at total item (replies item.id) st
        else record st {
          counts = record st.counts { skipped_backoff = st.counts.skipped_backoff + 1 };
        })
    else st

unfoldable pub drain_items :
    Db → DateTime → ℕ → (ℕ → Reply) → List SyncQueueItem → QueueDrain → QueueDrain
drain_items db at total replies [] st = st
drain_items db at total replies (item ∷ items) st =
    drain_items db at total replies items (drain_item db at total replies item st)

-- _drain_queue; `replies` is what happens in the round of a row, by its key.
unfoldable pub drain_queue : Db → DateTime → ℕ → (ℕ → Reply) → ConnectivityState → QueueDrain
drain_queue db at limit replies connectivity =
    let items = pending_batch limit db.sync_queue in
    drain_items db at (length items) replies items (record {
      rows = db.sync_queue;
      counts = no_counts;
      connectivity = connectivity;
      calls = [];
      running = true;
    })
