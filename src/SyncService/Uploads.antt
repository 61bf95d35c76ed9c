-- ===== src/SyncService/Uploads.antt =====
-- The uploads of a cycle whose first loop stopped because the backend asks for a new login.
use employee_monitoring_app.Prelude.{
  ℕ, ◌≡◌, refl, true, some, List, [], ◌∷◌, DateTime, String, arith, All,
}
use employee_monitoring_app.Outbox.{online, authentication_required}
use employee_monitoring_app.Db.{ScreenshotMetadata, Db, screenshot_row}
use employee_monitoring_app.Repositories.Screenshots.{pending_with_failed_batch}
use employee_monitoring_app.SyncService.Due.{is_due, screenshot_metadata}
use employee_monitoring_app.SyncService.Drain.{Reply, result_of, confirmed}
use employee_monitoring_app.SyncService.Screenshots.{
  ScreenshotDrain, settle_shot, shot_success, attempt_shot, drain_shot, drain_shots,
  drain_screenshots,
}
use employee_monitoring_app.SyncService.Cycle.{
  SyncService, Environment, sync_once, drain_both, queue_phase, shot_phase,
}
use employee_monitoring_app.SyncService.Progress.{Confirms}

abbrev pub IsDueShot : DateTime → ScreenshotMetadata → Type 0
IsDueShot at shot = is_due shot.last_attempt_at shot.attempt_count at ≡ true

-- One round: the call of the row is the last one.
uploaded_round :
    (at : DateTime) (replies : ℕ → Reply) (shot : ScreenshotMetadata) (st : ScreenshotDrain)
    → Confirms replies
    → IsDueShot at shot
    → st.running ≡ true
    → let out = drain_shot at replies shot st in
      (out.running ≡ true)
      × (out.calls
          ≡ record {
            row = shot.id;
            payload = screenshot_metadata shot;
            result = result_of (replies shot.id).answer;
          }
            ∷ st.calls)
unfolding drain_shot attempt_shot settle_shot shot_success
uploaded_round at replies shot st c d r =
    let (m, s, k) = c shot.id in rw (r, d, m, s, k) (refl, refl)

abbrev Uploads : List ScreenshotMetadata → ScreenshotDrain → ScreenshotDrain → Type 0
Uploads shots st out =
    All (λ (i : ScreenshotMetadata). confirmed i.id out.calls ≡ true) shots
    × ((j : ℕ) → confirmed j st.calls ≡ true → confirmed j out.calls ≡ true)

uploaded_loop :
    (at : DateTime) (replies : ℕ → Reply) (shots : List ScreenshotMetadata) (st : ScreenshotDrain)
    → Confirms replies
    → All (IsDueShot at) shots
    → st.running ≡ true
    → Uploads shots st (drain_shots at replies shots st)
unfolding drain_shots
uploaded_loop at replies [] st c d r = (tt, λ j h. h)
uploaded_loop at replies (shot ∷ shots) st c d r =
    let next = drain_shot at replies shot st in
    let (up, calls) = uploaded_round at replies shot st c d.0 r in
    let (m, s, k) = c shot.id in
    let (all, kept) = uploaded_loop at replies shots next c d.1 up in
    (
      (kept shot.id (rw calls (ground (arith, k))), all),
      λ j h. kept j (rw calls (ground (arith, h))),
    )

-- In a cycle that finds the backend online, the drain of the outbox may stop because the backend asks
-- for a new login. Where the batch of screenshots can be read, every row of it is due, and the uploads
-- would succeed with every commit going through, each row of that batch is uploaded all the same, and
-- the service reports that it is online.
pub auth_stop_still_uploads :
    (s : SyncService) (env : Environment) (at : DateTime) (db : Db) (files : List String)
    → s.session_factory ≡ true
    → env.reachable ≡ some online
    → env.shots_read ≡ true
    → (queue_phase s env at db).connectivity ≡ authentication_required
    → Confirms env.shot_replies
    → All (IsDueShot at) (pending_with_failed_batch s.batch_limit db.screenshots)
    → let out = sync_once s env at db files in
      (out.service.connectivity ≡ online)
      × All
          (λ (i : ScreenshotMetadata). confirmed i.id out.shot_calls ≡ true)
          (pending_with_failed_batch s.batch_limit db.screenshots)
unfolding sync_once drain_both shot_phase drain_screenshots
auth_stop_still_uploads s env at db files f o r a c d =
    let shots = pending_with_failed_batch s.batch_limit db.screenshots in
    rw (f, o, r) (refl, (uploaded_loop at env.shot_replies shots _ c d refl).0)
