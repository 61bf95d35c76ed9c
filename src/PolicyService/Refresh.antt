-- ===== src/PolicyService/Refresh.antt =====
-- What a refresh leaves behind.
use employee_monitoring_app.Prelude.{
  ℕ, ◌<◌, ◌≡◌, ◌≢◌, true, false, Option, none, some, arith, seconds, Bool-cases, inl, inr,
}
use employee_monitoring_app.ActivityService.Base.{ActivityService, set_idle_threshold}
use employee_monitoring_app.PolicyService.{
  ServerPolicy, PolicyService, is_valid, current_policy, set_interval, refresh,
}

-- A provider never hands out a policy that its validators refuse, where the fallback is valid.
current_policy-valid :
    (fallback : ServerPolicy) (merged : Option ServerPolicy)
    → is_valid fallback ≡ true
    → is_valid (current_policy fallback merged) ≡ true
unfolding current_policy
current_policy-valid fallback none h = h
current_policy-valid fallback (some m) h = elim (Bool-cases (is_valid m)) [
  | inl e ↦ rw e e
  | inr e ↦ rw e h
]

-- The services of a policy service, where both are bound.
abbrev pub bound : ServerPolicy → ℕ → ActivityService → PolicyService
bound p n a = record { policy = p; interval = some n; activity = some a }

refresh-valid :
    (p q : ServerPolicy) (a : ActivityService)
    → is_valid q ≡ true
    → 0 < q.idle_threshold_seconds
    → a.idle_threshold ≡ seconds p.idle_threshold_seconds
    → refresh q (bound p p.screenshot_interval_seconds a) ≡ (
      bound q q.screenshot_interval_seconds
          (record a { idle_threshold = seconds q.idle_threshold_seconds }),
      false,
    )
unfolding refresh is_valid set_interval set_idle_threshold
refresh-valid p q a v h e = ground arith

-- Whatever the backend sent, where the fallback is valid and the idle threshold handed out is positive:
-- a refresh raises nothing, and takes services that run by the old policy to services that run by the
-- new one.
pub refresh_lem :
    (p fallback : ServerPolicy) (merged : Option ServerPolicy) (a : ActivityService)
    → is_valid fallback ≡ true
    → 0 < (current_policy fallback merged).idle_threshold_seconds
    → a.idle_threshold ≡ seconds p.idle_threshold_seconds
    → let q = current_policy fallback merged in
      refresh q (bound p p.screenshot_interval_seconds a) ≡ (
        bound q q.screenshot_interval_seconds
            (record a { idle_threshold = seconds q.idle_threshold_seconds }),
        false,
      )
refresh_lem p fallback merged a v h e =
    refresh-valid p (current_policy fallback merged) a (current_policy-valid fallback merged v) h e

-- A valid policy with the idle threshold 0 makes a refresh raise, after it was recorded; the next
-- refresh finds no change and raises nothing, and the activity service runs on by the old threshold.
pub zero_threshold_lem :
    (p q : ServerPolicy) (n : ℕ) (a : ActivityService)
    → is_valid q ≡ true
    → q.idle_threshold_seconds ≡ 0
    → p.idle_threshold_seconds ≢ 0
    → let s = (refresh q (bound p n a)).0 in
      ((refresh q (bound p n a)).1 ≡ true)
      × (s.policy ≡ q)
      × (s.activity ≡ some a)
      × (refresh q s ≡ (s, false))
unfolding refresh is_valid set_interval set_idle_threshold
zero_threshold_lem p q n a v z h = ground arith
