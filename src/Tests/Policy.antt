-- ===== src/Tests/Policy.antt =====
-- The policy service at concrete inputs.
use employee_monitoring_app.Prelude.{ℕ, ◌≡◌, refl, true, false, none, some, seconds, arith}
use employee_monitoring_app.ActivityService.Base.{ActivityService}
use employee_monitoring_app.PolicyService.{ServerPolicy, is_valid, current_policy, refresh}
use employee_monitoring_app.PolicyService.Refresh.{bound, refresh_lem, zero_threshold_lem}

abbrev policy_of : ℕ → ℕ → ServerPolicy
policy_of interval threshold = record {
  screenshot_interval_seconds = interval;
  idle_threshold_seconds = threshold;
  local_retention_megabytes = 512;
  sync_poll_seconds = 30;
  cleanup_poll_seconds = 300;
  sync_batch_limit = 20;
  retention_days = 7;
}

abbrev activity : ActivityService
activity = record {
  session_factory = true;
  idle_threshold = seconds 300;
  session_id = none;
  last_activity_at = none;
  paused = false;
}

refresh_lem_example :
    let q = current_policy (policy_of 60 300) (some (policy_of 90 120)) in
    refresh q (bound (policy_of 60 300) 60 activity) ≡ (
      bound q q.screenshot_interval_seconds
          (record activity { idle_threshold = seconds q.idle_threshold_seconds }),
      false,
    )
unfolding current_policy
refresh_lem_example =
    refresh_lem (policy_of 60 300) (policy_of 60 300) (some (policy_of 90 120)) activity
      (unfold is_valid in refl) (ground arith) refl

zero_threshold_lem_example :
    let s = (refresh (policy_of 90 0) (bound (policy_of 60 300) 60 activity)).0 in
    ((refresh (policy_of 90 0) (bound (policy_of 60 300) 60 activity)).1 ≡ true)
    × (s.policy ≡ policy_of 90 0)
    × (s.activity ≡ some activity)
    × (refresh (policy_of 90 0) s ≡ (s, false))
zero_threshold_lem_example =
    zero_threshold_lem (policy_of 60 300) (policy_of 90 0) 60 activity (unfold is_valid in refl)
      refl (ground arith)
