-- ===== src/Tests/Sync.antt =====
-- The sync service at concrete inputs.
use employee_monitoring_app.Prelude.{
  ℕ, ◌+◌, ◌≤◌, ◌≡◌, ◌⊎◌, ◌-◌, min, map, refl, ◌&&◌, if◌then◌else◌, true, false, none, some, [], ◌∷◌,
  seconds, length, All,
}
use employee_monitoring_app.Outbox.{
  SyncStatus, online, syncing, pending, authentication_required, ok_result, auth_required_result,
  create, work_session,
}
use employee_monitoring_app.Timeline.{active}
use employee_monitoring_app.Db.{SyncQueueItem, ScreenshotMetadata, Db, queue_row}
use employee_monitoring_app.Db.Table.{get, order_by}
use employee_monitoring_app.Repositories.Queue.{pending_batch}
use employee_monitoring_app.Repositories.Screenshots.{pending_with_failed_batch}
use employee_monitoring_app.SyncService.Drain.{Reply, answered, confirmed, result_of}
use employee_monitoring_app.SyncService.Due.{is_due}
use employee_monitoring_app.SyncService.Queue.{
  drain_queue, drain_items, drain_item, attempt, settle,
}
use employee_monitoring_app.SyncService.Screenshots.{contains}
use employee_monitoring_app.SyncService.Cycle.{
  SyncService, Environment, sync_once, recover_stale, queue_phase,
}
use employee_monitoring_app.SyncService.Deletion.{Survives}
use employee_monitoring_app.SyncService.Files.{Uploaded}
use employee_monitoring_app.SyncService.Progress.{Confirms, IsDue, drain_queue_empties}
use employee_monitoring_app.SyncService.Counts.{sum_counts, drain_queue_counts}
use employee_monitoring_app.SyncService.Rules.{sync_once_deletion_rule, sync_once_file_rule}
use employee_monitoring_app.SyncService.Gate.{is_open, sync_once_gate}
use employee_monitoring_app.SyncService.Uploads.{IsDueShot, auth_stop_still_uploads}
use employee_monitoring_app.SyncService.Recovered.{
  recovered_item, recovered_shot, left_syncing, unsynced, count, count_shots, recover_stale_lem,
}
use employee_monitoring_app.Network.Http.{Wire, answer, timed_out, is_reachable}
use employee_monitoring_app.Network.Sync.{check_connectivity}

abbrev queued : ℕ → SyncQueueItem
queued n = record {
  id = n;
  entity_type = work_session;
  entity_id = 5;
  operation = create;
  status = pending;
  attempt_count = 0;
  last_attempt_at = none;
  last_error = none;
  created_at = seconds n;
}

abbrev shot : ScreenshotMetadata
shot = record {
  id = 1;
  session_id = 5;
  captured_at = 0;
  activity_state = active;
  file_path = "a.jpg";
  file_size = some 10;
  checksum = none;
  sync_status = pending;
  attempt_count = 0;
  last_attempt_at = none;
  synced_at = none;
  created_at = 0;
}

abbrev stored_data : Db
stored_data = record {
  users = [];
  work_sessions = [];
  breaks = [];
  activity_periods = [];
  screenshots = shot ∷ [];
  sync_queue = queued 1 ∷ queued 2 ∷ [];
}

abbrev service : SyncService
service = record { session_factory = true; batch_limit = 20; connectivity = online }

abbrev reply_ok : Reply
reply_ok = record { marked = true; answer = answered ok_result; stored = true; unlinked = true }

abbrev reply_auth : Reply
reply_auth = record {
  marked = true;
  answer = answered (auth_required_result "login");
  stored = true;
  unlinked = true;
}

abbrev good : Environment
good = record {
  reachable = some online;
  queue_read = true;
  queue_replies = λ _. reply_ok;
  shots_read = true;
  shot_replies = λ _. reply_ok;
  counted = true;
}

-- A row that a crash left SYNCING.
abbrev crashed_data : Db
crashed_data = record stored_data {
  sync_queue = record (queued 3) { status = SyncStatus.syncing } ∷ queued 1 ∷ [];
}

sync_once_deletion_rule_example :
    (confirmed 2 (sync_once service good 9 stored_data ("a.jpg" ∷ [])).queue_calls ≡ true)
    ⊎ Survives 2 (queued 2) (sync_once service good 9 stored_data ("a.jpg" ∷ [])).db.sync_queue
sync_once_deletion_rule_example =
    sync_once_deletion_rule service good 9 stored_data ("a.jpg" ∷ []) 2 (queued 2) refl

sync_once_file_rule_example :
    Uploaded "a.jpg"
      (pending_with_failed_batch 20 (shot ∷ []))
      (sync_once service good 9 stored_data ("a.jpg" ∷ [])).shot_calls
    ⊎ (contains (sync_once service good 9 stored_data ("a.jpg" ∷ [])).files "a.jpg" ≡ true)
sync_once_file_rule_example =
    sync_once_file_rule service good 9 stored_data ("a.jpg" ∷ []) "a.jpg" refl

-- No token is held, and the identity request is not made.
abbrev no_token : Environment
no_token = record good { reachable = some authentication_required }

abbrev probed : Wire (Unit {0})
probed = answer (record { status_code = 200; body = none })

no_token-reachable : no_token.reachable ≡ some (check_connectivity probed timed_out none)
unfolding check_connectivity is_reachable
no_token-reachable = refl

sync_once_gate_example :
    let out = sync_once service no_token 9 stored_data ("a.jpg" ∷ []) in
    (((true && is_open probed timed_out none) ≡ true)
      × (out.stats.skipped_offline ≡ 0)
      × (out.service.connectivity ≡ online))
    ⊎ (((true && is_open probed timed_out none) ≡ false)
        × (out.db ≡ stored_data)
        × (out.files ≡ "a.jpg" ∷ [])
        × (out.queue_calls ≡ [])
        × (out.shot_calls ≡ [])
        × (out.stats.synced + out.stats.failed + out.stats.skipped_backoff ≡ 0)
        × (out.stats.skipped_offline ≡ (if true then 1 else 0))
        × (out.service.connectivity
            ≡ (if true then check_connectivity probed timed_out none else service.connectivity)))
sync_once_gate_example =
    sync_once_gate service no_token 9 stored_data ("a.jpg" ∷ []) probed timed_out none
      no_token-reachable

recover_stale_lem_example :
    let out = recover_stale service true crashed_data in
    let stale = count left_syncing crashed_data.sync_queue in
    (out.0 ≡ record crashed_data {
      sync_queue = map recovered_item crashed_data.sync_queue;
      screenshots = map recovered_shot crashed_data.screenshots;
    })
    × (out.1 ≡ stale)
    × (out.2 ≡ count_shots left_syncing crashed_data.screenshots)
    × (length (pending_batch 10 crashed_data.sync_queue)
        ≡ min 10 (count unsynced crashed_data.sync_queue - stale))
    × (length (pending_batch 10 out.0.sync_queue) ≡ min 10 (count unsynced crashed_data.sync_queue))
    × (recover_stale service true out.0 ≡ (out.0, 0, 0))
recover_stale_lem_example = recover_stale_lem service crashed_data 10 refl

drain_queue_counts_example :
    let st = drain_queue stored_data 9 1 (λ _. reply_ok) syncing in
    let n = length (pending_batch 1 stored_data.sync_queue) in
    (n ≤ 1) × (sum_counts st.counts ≤ n) × ((st.running ≡ false) ⊎ (sum_counts st.counts ≡ n))
drain_queue_counts_example = drain_queue_counts stored_data 9 1 (λ _. reply_ok) syncing

-- A backend that confirms every row.
abbrev confirming : ℕ → Reply
confirming n = record { marked = true; answer = answered ok_result; stored = true; unlinked = true }

confirming-Confirms : Confirms confirming
unfolding result_of ok_result
confirming-Confirms n = (refl, refl, refl)

both-IsDue : All (IsDue (seconds 50)) (pending_batch 10 stored_data.sync_queue)
unfolding pending_batch is_due order_by
both-IsDue = (refl, (refl, tt))

drain_queue_empties_example :
    let batch = pending_batch 10 stored_data.sync_queue in
    let st = drain_queue stored_data (seconds 50) 10 confirming online in
    (st.running ≡ true)
    × (st.counts ≡ record { synced = length batch; failed = 0; skipped_backoff = 0 })
    × All (λ (i : SyncQueueItem). get i.id st.rows ≡ none) batch
drain_queue_empties_example =
    drain_queue_empties stored_data (seconds 50) 10 confirming online confirming-Confirms both-IsDue

-- The outbox is refused for the token, and the uploads go through.
abbrev refusing : Environment
refusing = record good { queue_replies = λ _. reply_auth; shot_replies = confirming }

refusing-stops :
    (queue_phase service refusing (seconds 50) stored_data).connectivity ≡ authentication_required
unfolding queue_phase drain_queue pending_batch drain_items drain_item attempt settle is_due
    result_of auth_required_result order_by
refusing-stops = refl

shots-IsDue : All (IsDueShot (seconds 50)) (pending_with_failed_batch 20 stored_data.screenshots)
unfolding pending_with_failed_batch is_due order_by
shots-IsDue = (refl, tt)

auth_stop_still_uploads_example :
    let out = sync_once service refusing (seconds 50) stored_data ("a.jpg" ∷ []) in
    (out.service.connectivity ≡ online)
    × All
        (λ (i : ScreenshotMetadata). confirmed i.id out.shot_calls ≡ true)
        (pending_with_failed_batch 20 stored_data.screenshots)
auth_stop_still_uploads_example =
    auth_stop_still_uploads service refusing (seconds 50) stored_data ("a.jpg" ∷ []) refl refl refl
      refusing-stops confirming-Confirms shots-IsDue
