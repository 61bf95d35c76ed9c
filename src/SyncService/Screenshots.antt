-- ===== src/SyncService/Screenshots.antt =====
-- _drain_screenshots: the upload of the captured files, and the local file dropped once confirmed.
use text.Mathlib.Text.{◌==◌ as str_eq}
use employee_monitoring_app.Prelude.{
  ℕ, ◌+◌, Bool, true, false, List, [], ◌∷◌, DateTime, String, if◌then◌else◌,
}
use employee_monitoring_app.Outbox.{ConnectivityState, SyncResult}
use employee_monitoring_app.Db.{ScreenshotMetadata, Db}
use employee_monitoring_app.Repositories.Screenshots.{
  pending_with_failed_batch, record_attempt, mark_sync_started, mark_failed, mark_synced,
}
use employee_monitoring_app.SyncService.Due.{is_due, screenshot_metadata}
use employee_monitoring_app.SyncService.Drain.{Reply, result_of, Call, Counts, no_counts}
use employee_monitoring_app.SyncService.Queue.{is_auth_required}

-- The rows, the paths of the files on the disk, the counters, the calls made and the connectivity.
pub record ScreenshotDrain : Type 0 where
  pub rows : List ScreenshotMetadata
  pub files : List String
  pub counts : Counts
  pub connectivity : ConnectivityState
  pub calls : List Call
  pub running : Bool

abbrev pub contains : List String → String → Bool
contains [] path = false
contains (p ∷ ps) path = if str_eq p path then true else contains ps path

abbrev pub without : String → List String → List String
without path [] = []
without path (p ∷ ps) = let rest = without path ps in if str_eq p path then rest else p ∷ rest

-- _discard_local_file: the files left, and whether one was removed; `unlinked` is false where unlink
-- raises an OSError.
unfoldable pub discard_local_file : Bool → String → List String → List String × Bool
discard_local_file unlinked path files =
    if contains files path
    then (if unlinked then (without path files, true) else (files, false))
    else (files, false)

-- The outcome of a failed upload: FAILED, whether it is retryable or not.
unfoldable pub shot_failure : ScreenshotMetadata → SyncResult → ScreenshotDrain → ScreenshotDrain
shot_failure shot result st =
    let failed : ScreenshotDrain = record st {
      rows = mark_failed shot.id st.rows;
      counts = record st.counts { failed = st.counts.failed + 1 };
    } in
    if is_auth_required result.connectivity
    then record failed { connectivity = result.connectivity; running = false }
    else failed

-- The outcome of a confirmed upload: SYNCED is committed, then the file goes.
unfoldable pub shot_success :
    DateTime → Bool → ScreenshotMetadata → ScreenshotDrain → ScreenshotDrain
unfolding discard_local_file
shot_success at unlinked shot st = record st {
  rows = mark_synced shot.id at st.rows;
  files = (discard_local_file unlinked shot.file_path st.files).0;
  counts = record st.counts { synced = st.counts.synced + 1 };
}

unfoldable pub settle_shot :
    DateTime → Bool → ScreenshotMetadata → SyncResult → ScreenshotDrain → ScreenshotDrain
settle_shot at unlinked shot result st =
    if result.success then shot_success at unlinked shot st else shot_failure shot result st

unfoldable pub attempt_shot :
    DateTime → ScreenshotMetadata → Reply → ScreenshotDrain → ScreenshotDrain
attempt_shot at shot reply st =
    let result = result_of reply.answer in
    let called : ScreenshotDrain = record st {
      rows = mark_sync_started shot.id (record_attempt shot.id at st.rows);
      calls =
          record { row = shot.id; payload = screenshot_metadata shot; result = result } ∷ st.calls;
    } in
    if reply.marked
    then (if reply.stored
        then settle_shot at reply.unlinked shot result called
        else record called { running = false })
    else record st { running = false }

-- One round of the loop.
unfoldable pub drain_shot :
    DateTime → (ℕ → Reply) → ScreenshotMetadata → ScreenshotDrain → ScreenshotDrain
drain_shot at replies shot st =
    if st.running
    then (if is_due shot.last_attempt_at shot.attempt_count at
        then attempt_shot at shot (replies shot.id) st
        else record st {
          counts = record st.counts { skipped_backoff = st.counts.skipped_backoff + 1 };
        })
    else st

unfoldable pub drain_shots :
    DateTime → (ℕ → Reply) → List ScreenshotMetadata → ScreenshotDrain → ScreenshotDrain
drain_shots at replies [] st = st
drain_shots at replies (shot ∷ shots) st =
    drain_shots at replies shots (drain_shot at replies shot st)

-- _drain_screenshots
unfoldable pub drain_screenshots :
    Db → List String → DateTime → ℕ → (ℕ → Reply) → ConnectivityState → ScreenshotDrain
drain_screenshots db files at limit replies connectivity =
    drain_shots at replies (pending_with_failed_batch limit db.screenshots) (record {
      rows = db.screenshots;
      files = files;
      counts = no_counts;
      connectivity = connectivity;
      calls = [];
      running = true;
    })
