-- ===== src/Tests/Cleanup.antt =====
-- The recovery of orphans and the cleanup at concrete inputs.
use mathlib.Core.List.{Memᴰ}
use employee_monitoring_app.Prelude.{
  ℕ, ◌+◌, ◌≡◌, ◌↔◌, ◌⊎◌, refl, true, none, some, [], ◌∷◌, seconds, length,
}
use employee_monitoring_app.Outbox.{SyncStatus, SyncEntityType, online, create}
use employee_monitoring_app.Timeline.{active}
use employee_monitoring_app.Db.{SyncQueueItem, ScreenshotMetadata, Db, queue_row}
use employee_monitoring_app.Db.Table.{get}
use employee_monitoring_app.SyncService.Cycle.{SyncService}
use employee_monitoring_app.SyncService.Orphans.{recover_orphans, Present, recover_orphans_lem}
use employee_monitoring_app.SyncService.Screenshots.{contains}
use employee_monitoring_app.CleanupService.{CleanupService, Environment, days, run_once}
use employee_monitoring_app.CleanupService.Rules.{
  IsConfirmed, Expired, run_once_row_rule, run_once_file_rule,
}

abbrev item : ℕ → SyncStatus → SyncEntityType → SyncQueueItem
item n status entity_type = record {
  id = n;
  entity_type = entity_type;
  entity_id = n;
  operation = create;
  status = status;
  attempt_count = 1;
  last_attempt_at = none;
  last_error = none;
  created_at = seconds n;
}

abbrev shot : ScreenshotMetadata
shot = record {
  id = 1;
  session_id = 5;
  captured_at = 0;
  activity_state = active;
  file_path = "a.jpg";
  file_size = some 10;
  checksum = none;
  sync_status = SyncStatus.synced;
  attempt_count = 1;
  last_attempt_at = none;
  synced_at = some (seconds 3);
  created_at = 0;
}

-- Row 1 is about a screenshot that is there, row 2 about a session that is gone.
abbrev data_left : Db
data_left = record {
  users = [];
  work_sessions = [];
  breaks = [];
  activity_periods = [];
  screenshots = shot ∷ [];
  sync_queue =
      item 1 SyncStatus.synced SyncEntityType.screenshot
      ∷ item 2 SyncStatus.pending SyncEntityType.work_session
      ∷ [];
}

abbrev service : SyncService
service = record { session_factory = true; batch_limit = 20; connectivity = online }

recover_orphans_lem_example :
    let out = recover_orphans service true data_left in
    ((r : SyncQueueItem)
      → Memᴰ r out.0.sync_queue
        ↔ ((Memᴰ r data_left.sync_queue) × Present data_left r.entity_type r.entity_id))
    × (out.0 ≡ record data_left { sync_queue = out.0.sync_queue })
    × (out.1 + length out.0.sync_queue ≡ 2)
    × ((recover_orphans service true out.0).1 ≡ 0)
recover_orphans_lem_example = recover_orphans_lem service data_left refl

abbrev cleanup : CleanupService
cleanup = record { session_factory = true; retention_days = 7 }

abbrev smooth : Environment
smooth = record { queue_read = true; queue_stored = true; shots_read = true; unlinked = λ _. true }

run_once_row_rule_example :
    ((r : SyncQueueItem) × IsConfirmed data_left.sync_queue r × (r.id ≡ 2))
    ⊎ (get 2 (run_once cleanup smooth (days 9) data_left ("a.jpg" ∷ [])).db.sync_queue
        ≡ get 2 data_left.sync_queue)
run_once_row_rule_example = run_once_row_rule cleanup smooth (days 9) data_left ("a.jpg" ∷ []) 2

run_once_file_rule_example :
    let out = run_once cleanup smooth (days 9) data_left ("a.jpg" ∷ []) in
    (Expired (days 9) 7 data_left.screenshots "a.jpg" ⊎ (contains out.files "a.jpg" ≡ true))
    × (out.db.screenshots ≡ data_left.screenshots)
run_once_file_rule_example =
    run_once_file_rule cleanup smooth (days 9) data_left ("a.jpg" ∷ []) "a.jpg" refl
