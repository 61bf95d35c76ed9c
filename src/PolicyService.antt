-- ===== src/PolicyService.antt =====
-- app/services/policy_service.py, with ServerPolicy of app/config/settings.py, current_policy of
-- app/infrastructure/network/config_adapter.py, and set_interval of the screenshot service.
pub mod Refresh
use employee_monitoring_app.Prelude.{
  ℕ, Bool, true, false, Option, none, some, leb, ltb, ◌==◌, ◌&&◌, ◌||◌, not, if◌then◌else◌,
}
use employee_monitoring_app.ActivityService.Base.{ActivityService, set_idle_threshold}

-- ServerPolicy; a negative number, which the validators of the other fields refuse, is no value here.
pub record ServerPolicy : Type 0 where
  pub screenshot_interval_seconds : ℕ
  pub idle_threshold_seconds : ℕ
  pub local_retention_megabytes : ℕ
  pub sync_poll_seconds : ℕ
  pub cleanup_poll_seconds : ℕ
  pub sync_batch_limit : ℕ
  pub retention_days : ℕ

-- The validators: none of them is about the idle threshold.
unfoldable pub is_valid : ServerPolicy → Bool
is_valid p = leb 60 p.screenshot_interval_seconds && leb 1 p.sync_batch_limit

-- ApiConfigProvider.current_policy; `merged` is the fallback with the fields that the backend sent,
-- and `none` where there is no token, no answer or no field that is known.
unfoldable pub current_policy : ServerPolicy → Option ServerPolicy → ServerPolicy
current_policy fallback none = fallback
current_policy fallback (some merged) = if is_valid merged then merged else fallback

-- PolicyService with the interval of the screenshot service and the activity service, where bound.
pub record PolicyService : Type 0 where
  pub policy : ServerPolicy
  pub interval : Option ℕ
  pub activity : Option ActivityService

-- ScreenshotService.set_interval; `none` is the ValueError.
unfoldable pub set_interval : ℕ → Option ℕ
set_interval n = if ltb n 60 then none else some n

apply_interval_at : ℕ → PolicyService → Option ℕ → PolicyService × Bool
unfolding set_interval
apply_interval_at n s none = (s, false)
apply_interval_at n s (some _) = elim (set_interval n) [
  | none ↦ (s, true)
  | some i ↦ (record s { interval = some i }, false)
]

apply_interval : Bool → ℕ → PolicyService → PolicyService × Bool
unfolding apply_interval_at
apply_interval changed n s = if changed then apply_interval_at n s s.interval else (s, false)

apply_threshold_at : ℕ → PolicyService → Option ActivityService → PolicyService × Bool
unfolding set_idle_threshold
apply_threshold_at n s none = (s, false)
apply_threshold_at n s (some a) = elim (set_idle_threshold n a) [
  | none ↦ (s, true)
  | some b ↦ (record s { activity = some b }, false)
]

apply_threshold : Bool → ℕ → PolicyService → PolicyService × Bool
unfolding apply_threshold_at
apply_threshold changed n s = if changed then apply_threshold_at n s s.activity else (s, false)

-- The two setters, one after the other; a raise of the first keeps the second from its call. The
-- Boolean is true where one raised.
unfoldable pub push : Bool → Bool → ServerPolicy → PolicyService → PolicyService × Bool
unfolding apply_interval apply_threshold
push interval_changed threshold_changed p s =
    let (t, raised) = apply_interval interval_changed p.screenshot_interval_seconds s in
    if raised then (t, true) else apply_threshold threshold_changed p.idle_threshold_seconds t

-- refresh, with what the provider returned: the policy is recorded before the setters are called.
unfoldable pub refresh : ServerPolicy → PolicyService → PolicyService × Bool
unfolding push
refresh incoming s =
    push (not (incoming.screenshot_interval_seconds == s.policy.screenshot_interval_seconds))
      (not (incoming.idle_threshold_seconds == s.policy.idle_threshold_seconds)) incoming
      (record s { policy = incoming })

-- apply
unfoldable pub adopt : ServerPolicy → PolicyService → PolicyService × Bool
unfolding push
adopt p s = push true true p (record s { policy = p })
