-- ===== src/SyncService/Rules.antt =====
-- What a whole cycle may remove: rows of the outbox, and local files.
use employee_monitoring_app.Prelude.{
  ℕ, ◌≡◌, ◌⊎◌, inl, inr, true, some, List, DateTime, String, arith, if-case, Bool-cases,
}
use employee_monitoring_app.Outbox.{syncing}
use employee_monitoring_app.Db.{SyncQueueItem, Db, queue_row, screenshot_row}
use employee_monitoring_app.Db.Table.{get}
use employee_monitoring_app.Repositories.Screenshots.{pending_with_failed_batch}
use employee_monitoring_app.SyncService.Drain.{confirmed}
use employee_monitoring_app.SyncService.Screenshots.{contains}
use employee_monitoring_app.SyncService.Cycle.{
  SyncService, Environment, Outcome, sync_once, is_blocked, state_of, drain_both, queue_phase,
  shot_phase,
}
use employee_monitoring_app.SyncService.Deletion.{Survives, drain_queue-Kept}
use employee_monitoring_app.SyncService.Files.{Uploaded, drain_screenshots-Safe}

module _ (s : SyncService) (env : Environment) (at : DateTime) (db : Db) (files : List String) where
  drain_both-row :
      (j : ℕ) (r : SyncQueueItem)
      → get j db.sync_queue ≡ some r
      → let out = drain_both s env at db files in
        (confirmed j out.queue_calls ≡ true) ⊎ Survives j r out.db.sync_queue
  unfolding drain_both queue_phase
  drain_both-row j r h = elim (Bool-cases env.queue_read) [
    | inl e ↦ rw e (drain_queue-Kept db at s.batch_limit env.queue_replies syncing j r h)
    | inr e ↦ rw e (inr (record { row = r; found = h; same = ground arith }))
  ]

  -- Whatever the environment does in a cycle, each row of the outbox was confirmed by a successful
  -- call of the cycle for it, or is still in the outbox, about the same entity and operation.
  pub sync_once_deletion_rule :
      (j : ℕ) (r : SyncQueueItem)
      → get j db.sync_queue ≡ some r
      → let out = sync_once s env at db files in
        (confirmed j out.queue_calls ≡ true) ⊎ Survives j r out.db.sync_queue
  unfolding sync_once
  sync_once_deletion_rule j r h =
      let Kept : Outcome → Type 0 =
        λ out. (confirmed j out.queue_calls ≡ true) ⊎ Survives j r out.db.sync_queue in
      let here : Survives j r db.sync_queue = record { row = r; found = h; same = ground arith } in
      if-case Kept s.session_factory _ _
        (if-case Kept (is_blocked (state_of env.reachable)) _ _ (inr here) (drain_both-row j r h))
        (inr here)

  drain_both-file :
      (p : String)
      → contains files p ≡ true
      → let out = drain_both s env at db files in
        Uploaded p (pending_with_failed_batch s.batch_limit db.screenshots) out.shot_calls
        ⊎ (contains out.files p ≡ true)
  unfolding drain_both shot_phase
  drain_both-file p h = elim (Bool-cases env.shots_read) [
    | inl e ↦ rw e (drain_screenshots-Safe _ files at s.batch_limit env.shot_replies _ p h)
    | inr e ↦ rw e (inr h)
  ]

  -- Whatever the environment does in a cycle, a local file that was there is still there, or the
  -- upload of a row of the batch with its path was confirmed in the cycle.
  pub sync_once_file_rule :
      (p : String)
      → contains files p ≡ true
      → let out = sync_once s env at db files in
        Uploaded p (pending_with_failed_batch s.batch_limit db.screenshots) out.shot_calls
        ⊎ (contains out.files p ≡ true)
  unfolding sync_once
  sync_once_file_rule p h =
      let Safe : Outcome → Type 0 = λ out.
        Uploaded p (pending_with_failed_batch s.batch_limit db.screenshots) out.shot_calls
        ⊎ (contains out.files p ≡ true) in
      if-case Safe s.session_factory _ _
        (if-case Safe (is_blocked (state_of env.reachable)) _ _ (inr h) (drain_both-file p h))
        (inr h)
