-- ===== src/SyncService/Deletion.antt =====
-- The outbox loses a row only after the provider confirmed it.
use mathlib.Core.Option
use employee_monitoring_app.Prelude.{
  ℕ, ◌≡◌, ◌⊎◌, refl, inl, inr, Bool, true, false, some, List, [], ◌∷◌, DateTime, String, arith,
  Bool-cases, ◌==◌, ap, ◌∙◌, if◌then◌else◌, ◌&&◌,
}
use employee_monitoring_app.Outbox.{ConnectivityState, SyncResult}
use employee_monitoring_app.Db.{SyncQueueItem, Db, queue_row}
use employee_monitoring_app.Db.Table.{
  get, modify, delete, get-delete, get-modify_ne, get-modify_self,
}
use employee_monitoring_app.Repositories.Queue.{
  record_attempt, mark_sync_started, record_error, mark_synced, delete_after_confirmed,
  pending_batch,
}
use employee_monitoring_app.SyncService.Drain.{Reply, Call, confirmed, result_of}
use employee_monitoring_app.SyncService.Due.{is_due, Payload}
use employee_monitoring_app.SyncService.Queue.{
  failure_message, QueueDrain, settle, attempt, drain_item, drain_items, drain_queue,
}

-- What a row is about, whatever its progress.
pub record SameEntity (r s : SyncQueueItem) : Type 0 where
  pub id : s.id ≡ r.id
  pub entity_type : s.entity_type ≡ r.entity_type
  pub entity_id : s.entity_id ≡ r.entity_id
  pub operation : s.operation ≡ r.operation
  pub created_at : s.created_at ≡ r.created_at

-- The rows hold the row of key `j`, about what `r` is about.
pub record Survives (j : ℕ) (r : SyncQueueItem) (rows : List SyncQueueItem) : Type 0 where
  pub row : SyncQueueItem
  pub found : get j rows ≡ some row
  pub same : SameEntity r row

Survives-modify :
    (j n : ℕ) (r : SyncQueueItem) (f : SyncQueueItem → SyncQueueItem) (rows : List SyncQueueItem)
    → ((s : SyncQueueItem) → SameEntity s (f s))
    → Survives j r rows
    → Survives j r (modify n f rows)
Survives-modify j n r f rows k v = elim (Bool-cases (n == j)) [
  | inl e ↦
      let same : n ≡ j = ground arith in
      record {
        row = f v.row;
        found = rw same (get-modify_self j f rows (λ s. (k s).id) ∙ ap (Option.map f) v.found);
        same = ground (arith, k v.row, v.same);
      }
  | inr e ↦ record {
    row = v.row;
    found = get-modify_ne n j f rows (λ s. (k s).id) e ∙ v.found;
    same = v.same;
  }
]

Survives-delete :
    (j n : ℕ) (r : SyncQueueItem) (rows : List SyncQueueItem)
    → (n == j) ≡ false
    → Survives j r rows
    → Survives j r (delete n rows)
Survives-delete j n r rows e v = record {
  row = v.row;
  found = get-delete n j rows ∙ rw e v.found;
  same = v.same;
}

Survives-record_attempt :
    (j n : ℕ) (at : DateTime) (r : SyncQueueItem) (rows : List SyncQueueItem)
    → Survives j r rows
    → Survives j r (record_attempt n at rows)
unfolding record_attempt
Survives-record_attempt j n at r rows v = Survives-modify j n r _ rows (λ s. ground arith) v

Survives-mark_sync_started :
    (j n : ℕ) (r : SyncQueueItem) (rows : List SyncQueueItem)
    → Survives j r rows
    → Survives j r (mark_sync_started n rows)
unfolding mark_sync_started
Survives-mark_sync_started j n r rows v = Survives-modify j n r _ rows (λ s. ground arith) v

Survives-mark_synced :
    (j n : ℕ) (r : SyncQueueItem) (rows : List SyncQueueItem)
    → Survives j r rows
    → Survives j r (mark_synced n rows)
unfolding mark_synced
Survives-mark_synced j n r rows v = Survives-modify j n r _ rows (λ s. ground arith) v

Survives-record_error :
    (j n : ℕ) (message : String) (r : SyncQueueItem) (rows : List SyncQueueItem)
    → Survives j r rows
    → Survives j r (record_error n message rows)
unfolding record_error
Survives-record_error j n message r rows v = Survives-modify j n r _ rows (λ s. ground arith) v

Survives-delete_after_confirmed :
    (j n : ℕ) (r : SyncQueueItem) (rows : List SyncQueueItem)
    → (n == j) ≡ false
    → Survives j r rows
    → Survives j r (delete_after_confirmed n rows)
unfolding delete_after_confirmed
Survives-delete_after_confirmed j n r rows e v = Survives-delete j n r rows e v

-- Confirmed by a call, or still there.
abbrev pub Kept : ℕ → SyncQueueItem → QueueDrain → Type 0
Kept j r st = (confirmed j st.calls ≡ true) ⊎ Survives j r st.rows

calls-settle :
    (total : ℕ) (item : SyncQueueItem) (result : SyncResult) (st : QueueDrain)
    → (settle total item result st).calls ≡ st.calls
unfolding settle
calls-settle total item result st = ground arith

rows-settle :
    (total : ℕ) (item : SyncQueueItem) (result : SyncResult) (st : QueueDrain)
    → (settle total item result st).rows ≡ (
        if result.success
        then delete_after_confirmed item.id (mark_synced item.id st.rows)
        else record_error item.id (failure_message result) st.rows)
unfolding settle
rows-settle total item result st = ground arith

-- The outcome of a call drops no row but the one that the call confirmed.
settle-Survives :
    (j total : ℕ) (r item : SyncQueueItem) (result : SyncResult) (st : QueueDrain)
    → ((item.id == j) && result.success) ≡ false
    → Survives j r st.rows
    → Survives j r (settle total item result st).rows
settle-Survives j total r item result st h v = elim (Bool-cases result.success) [
  | inl s ↦
      rw (rows-settle total item result st, s)
        (Survives-delete_after_confirmed j item.id r _ (ground arith)
          (Survives-mark_synced j item.id r st.rows v))
  | inr s ↦
      rw (rows-settle total item result st, s)
        (Survives-record_error j item.id (failure_message result) r st.rows v)
]

settle-Kept :
    (j total : ℕ) (r item : SyncQueueItem) (result : SyncResult) (p : Payload) (st : QueueDrain)
    (calls : List Call)
    → Survives j r st.rows
    → st.calls ≡ record { row = item.id; payload = p; result = result } ∷ calls
    → Kept j r (settle total item result st)
settle-Kept j total r item result p st calls v e =
    elim (Bool-cases ((item.id == j) && result.success)) [
      | inl c ↦ inl (rw (calls-settle total item result st, e, c) refl)
      | inr c ↦ inr (settle-Survives j total r item result st c v)
    ]

-- The row, marked as an attempt.
attempt_rows-Survives :
    (j n : ℕ) (at : DateTime) (r : SyncQueueItem) (rows : List SyncQueueItem)
    → Survives j r rows
    → Survives j r (mark_sync_started n (record_attempt n at rows))
attempt_rows-Survives j n at r rows v =
    Survives-mark_sync_started j n r _ (Survives-record_attempt j n at r rows v)

attempt-confirmed :
    (db : Db) (at : DateTime) (j total : ℕ) (item : SyncQueueItem) (reply : Reply) (st : QueueDrain)
    → confirmed j st.calls ≡ true
    → confirmed j (attempt db at total item reply st).calls ≡ true
unfolding attempt
attempt-confirmed db at j total item reply st c =
    ground (arith, calls-settle total item (result_of reply.answer))

attempt-Kept :
    (db : Db) (at : DateTime) (j total : ℕ) (r item : SyncQueueItem) (reply : Reply)
    (st : QueueDrain)
    → Kept j r st
    → Kept j r (attempt db at total item reply st)
unfolding attempt
attempt-Kept db at j total r item reply st (inl c) =
    inl (attempt-confirmed db at j total item reply st c)
attempt-Kept db at j total r item reply st (inr v) = elim (Bool-cases reply.marked) [
  | inr e ↦ rw e (inr v)
  | inl e ↦ elim (Bool-cases reply.stored) [
    | inr f ↦ rw (e, f) (inr (attempt_rows-Survives j item.id at r st.rows v))
    | inl f ↦
        rw (e, f)
          (settle-Kept j total r item (result_of reply.answer) _ _ st.calls
            (attempt_rows-Survives j item.id at r st.rows v) refl)
  ]
]

Kept-if :
    (j : ℕ) (r : SyncQueueItem) (b : Bool) (x y : QueueDrain)
    → Kept j r x
    → Kept j r y
    → Kept j r (if b then x else y)
Kept-if j r true x y p q = p
Kept-if j r false x y p q = q

drain_item-Kept :
    (db : Db) (at : DateTime) (j total : ℕ) (replies : ℕ → Reply) (r item : SyncQueueItem)
    (st : QueueDrain)
    → Kept j r st
    → Kept j r (drain_item db at total replies item st)
unfolding drain_item
drain_item-Kept db at j total replies r item st k =
    Kept-if j r st.running _ st
      (Kept-if j r (is_due item.last_attempt_at item.attempt_count at) _ _
        (attempt-Kept db at j total r item (replies item.id) st k) k)
      k

drain_items-Kept :
    (db : Db) (at : DateTime) (j total : ℕ) (replies : ℕ → Reply) (r : SyncQueueItem)
    (items : List SyncQueueItem) (st : QueueDrain)
    → Kept j r st
    → Kept j r (drain_items db at total replies items st)
unfolding drain_items
drain_items-Kept db at j total replies r [] st k = k
drain_items-Kept db at j total replies r (item ∷ items) st k =
    drain_items-Kept db at j total replies r items (drain_item db at total replies item st)
      (drain_item-Kept db at j total replies r item st k)

-- Whatever the provider and the database do in a drain of the outbox, each of its rows was confirmed
-- by a successful call for it in this drain, or is still there, about the same entity and operation.
pub drain_queue-Kept :
    (db : Db) (at : DateTime) (limit : ℕ) (replies : ℕ → Reply) (c : ConnectivityState) (j : ℕ)
    (r : SyncQueueItem)
    → get j db.sync_queue ≡ some r
    → Kept j r (drain_queue db at limit replies c)
unfolding drain_queue
drain_queue-Kept db at limit replies c j r h =
    drain_items-Kept db at j _ replies r (pending_batch limit db.sync_queue) _
      (inr (record { row = r; found = h; same = ground arith }))
