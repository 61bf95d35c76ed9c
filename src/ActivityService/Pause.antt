-- ===== src/ActivityService/Pause.antt =====
-- A break: once tracking is paused no period is open, and no call writes one.
use employee_monitoring_app.Timeline.{ActivityState}
use employee_monitoring_app.Prelude.{
  Bool, if-case, leb, ◌+◌, ap, ◌∙◌, ℕ, ◌≡◌, refl, true, none, some, Option, DateTime, arith,
}
use employee_monitoring_app.ActivityService.Base.{
  ActivityService, Tracker, Env, maybe_idle, close_period, close_open_locked,
  maybe_transition_to_idle_locked,
}
use employee_monitoring_app.ActivityService.Lifecycle.{pause, end_tracking, tracked}
use employee_monitoring_app.ActivityService.Ticks.{on_activity, check_idle}
use employee_monitoring_app.ActivityService.Open.{AtMostOne, open_count, close_period-none_open}
use employee_monitoring_app.ActivityService.SingleOpen.{maybe_transition-AtMostOne}

paused-pause :
    (env : Env) (at : DateTime) (n : ℕ) (t : Tracker)
    → tracked t.service ≡ some n
    → (pause env at t).service.paused ≡ true
unfolding pause
paused-pause env at n t h = rw (h, pause) refl

idle_check-service :
    (env : Env) (stored : Bool) (at : DateTime) (t : Tracker) (n : ℕ) (last : DateTime)
    → (maybe_idle env stored at t n last).0.service ≡ t.service
unfolding maybe_idle
idle_check-service env stored at t n last =
    let P : Tracker × Option ActivityState → Type 0 = λ p. p.0.service ≡ t.service in
    if-case P (leb (last + t.service.idle_threshold) at) _ _
      (if-case P t.service.session_factory _ _ (if-case P stored _ _ refl refl) refl) refl

maybe_transition-service :
    (env : Env) (stored : Bool) (at : DateTime) (t : Tracker) (o : Option ℕ) (l : Option DateTime)
    → (maybe_transition_to_idle_locked env stored at t o l).0.service ≡ t.service
unfolding maybe_transition_to_idle_locked
maybe_transition-service env stored at t (some n) (some l) = idle_check-service env stored at t n l
maybe_transition-service env stored at t _ _ = refl

db-close_open_locked :
    (env : Env) (n : ℕ) (at : DateTime) (t : Tracker)
    → t.service.session_factory ≡ true
    → (close_open_locked env true n at t).db ≡ close_period env n at t.db
unfolding close_open_locked
db-close_open_locked env n at t h = ground arith

end_tracking-none_open :
    (env : Env) (at : DateTime) (n : ℕ) (t : Tracker)
    → t.service.session_factory ≡ true
    → env.stored ≡ true
    → AtMostOne t.db
    → open_count n (end_tracking env at n t).db.activity_periods ≡ 0
unfolding end_tracking
end_tracking-none_open env at n t f st h =
    let m =
      maybe_transition_to_idle_locked env env.flushed at t t.service.session_id
        t.service.last_activity_at in
    let e =
      maybe_transition-service env env.flushed at t t.service.session_id
        t.service.last_activity_at in
    simp st (
      rw (db-close_open_locked env n at m.0 (ap (λ (s : ActivityService). s.session_factory) e ∙ f))
        (close_period-none_open env n at m.0.db (
          maybe_transition-AtMostOne env env.flushed at t t.service.session_id
            t.service.last_activity_at h)))

pause-db :
    (env : Env) (at : DateTime) (n : ℕ) (t : Tracker)
    → tracked t.service ≡ some n
    → (pause env at t).db ≡ (end_tracking env at n t).db
unfolding pause
pause-db env at n t h = rw (h, pause) refl

-- A pause whose transactions go through leaves no open period of the tracked session, where no
-- session had two, and neither an input nor an idle check after it, at any time, changes the service
-- or the database.
pub pause_ends_tracking :
    (env env' : Env) (at at' : DateTime) (n : ℕ) (t : Tracker)
    → tracked t.service ≡ some n
    → t.service.session_factory ≡ true
    → env.stored ≡ true
    → AtMostOne t.db
    → let p = pause env at t in
      (open_count n p.db.activity_periods ≡ 0)
      × (on_activity env' at' p ≡ (p, none))
      × (check_idle env' at' p ≡ (p, none))
unfolding on_activity check_idle
pause_ends_tracking env env' at at' n t h f st o =
    let q = paused-pause env at n t h in
    (
      rw (pause-db env at n t h) (end_tracking-none_open env at n t f st o),
      ground arith,
      ground arith,
    )
