-- ===== src/ActivityService/SingleOpen.antt =====
-- Whatever the service does and whichever transactions fail, no session has two open periods.
use employee_monitoring_app.Prelude.{TimeDelta, refl, option-case}
use employee_monitoring_app.Prelude.{
  ℕ, ◌+◌, ◌≡◌, Bool, Option, none, some, List, [], ◌∷◌, DateTime, leb, if-case, ◌&&◌, ◌==◌,
}
use employee_monitoring_app.Timeline.{ActivityState, active}
use employee_monitoring_app.Db.{ActivityPeriodRecord, Db}
use employee_monitoring_app.Repositories.Activity.{open_for_session}
use employee_monitoring_app.ActivityService.Base.{
  Tracker, Env, is_idle, close_open_locked, idle_transaction, maybe_idle,
  maybe_transition_to_idle_locked,
}
use employee_monitoring_app.ActivityService.Lifecycle.{
  flush_previous, start_transaction, resume_session, start, pause, resume, stop, shutdown, restore,
  end_tracking, resume_transaction, tracked,
}
use employee_monitoring_app.ActivityService.Ticks.{
  wake, on_active, on_activity_in, on_activity, check_idle, activity_transaction,
}
use employee_monitoring_app.ActivityService.Open.{
  AtMostOne, open_count-none, close_period-AtMostOne, add_period-AtMostOne, turn_idle-AtMostOne,
  restart-AtMostOne, synthesize_idle-AtMostOne,
}

-- The calls of the service.
pub data Op : Type 0 where
  start_op : ℕ → Op
  pause_op resume_op stop_op shutdown_op activity_op idle_op : Op
  restore_op : ℕ → Op

unfoldable pub perform : Env → DateTime → Op → Tracker → Tracker
perform env at (start_op n) t = start env n at t
perform env at pause_op t = pause env at t
perform env at resume_op t = resume env at t
perform env at stop_op t = stop env at t
perform env at shutdown_op t = shutdown env at t
perform env at activity_op t = (on_activity env at t).0
perform env at idle_op t = (check_idle env at t).0
perform env at (restore_op n) t = restore env n at t

pub record Event : Type 0 where
  pub env : Env
  pub at : DateTime
  pub op : Op

unfoldable pub run : List Event → Tracker → Tracker
run [] t = t
run (e ∷ es) t = run es (perform e.env e.at e.op t)

close_open_locked-AtMostOne :
    (env : Env) (stored : Bool) (sid : ℕ) (at : DateTime) (t : Tracker)
    → AtMostOne t.db
    → AtMostOne (close_open_locked env stored sid at t).db
unfolding close_open_locked
close_open_locked-AtMostOne env stored sid at t h =
    if-case (λ (u : Tracker). AtMostOne u.db) t.service.session_factory _ t
      (if-case (λ (u : Tracker). AtMostOne u.db) stored _ t
        (close_period-AtMostOne env sid at t.db h) h)
      h

idle_transaction-AtMostOne :
    (env : Env) (sid : ℕ) (at : DateTime) (o : Option ActivityPeriodRecord) (db : Db)
    → AtMostOne db
    → AtMostOne (idle_transaction env sid at o db).0
unfolding idle_transaction
idle_transaction-AtMostOne env sid at none db h = h
idle_transaction-AtMostOne env sid at (some r) db h =
    if-case (λ (p : Db × Option ActivityState). AtMostOne p.0) (is_idle r.state) _ _ h
      (turn_idle-AtMostOne env sid at db h)

maybe_idle-AtMostOne :
    (env : Env) (stored : Bool) (at : DateTime) (t : Tracker) (sid : ℕ) (last : DateTime)
    → AtMostOne t.db
    → AtMostOne (maybe_idle env stored at t sid last).0.db
unfolding maybe_idle
maybe_idle-AtMostOne env stored at t sid last h =
    let P = λ (p : Tracker × Option ActivityState). AtMostOne p.0.db in
    if-case P (leb (last + t.service.idle_threshold) at) _ _
      (if-case P t.service.session_factory _ _
        (if-case P stored _ _
          (idle_transaction-AtMostOne env sid (last + t.service.idle_threshold) _ t.db h) h)
        h)
      h

pub maybe_transition-AtMostOne :
    (env : Env) (stored : Bool) (at : DateTime) (t : Tracker) (sid : Option ℕ)
    (last : Option DateTime)
    → AtMostOne t.db
    → AtMostOne (maybe_transition_to_idle_locked env stored at t sid last).0.db
unfolding maybe_transition_to_idle_locked
maybe_transition-AtMostOne env stored at t (some sid) (some last) h =
    maybe_idle-AtMostOne env stored at t sid last h
maybe_transition-AtMostOne env stored at t _ _ h = h

end_tracking-AtMostOne :
    (env : Env) (at : DateTime) (sid : ℕ) (t : Tracker)
    → AtMostOne t.db
    → AtMostOne (end_tracking env at sid t).db
unfolding end_tracking
end_tracking-AtMostOne env at sid t h = close_open_locked-AtMostOne env env.stored sid at _ (
    maybe_transition-AtMostOne env env.flushed at t t.service.session_id t.service.last_activity_at
      h)

flush_previous-AtMostOne :
    (env : Env) (sid : ℕ) (at : DateTime) (t : Tracker) (o : Option ℕ)
    → AtMostOne t.db
    → AtMostOne (flush_previous env sid at t o).db
unfolding flush_previous
flush_previous-AtMostOne env sid at t none h = h
flush_previous-AtMostOne env sid at t (some p) h =
    if-case (λ (u : Tracker). AtMostOne u.db) (p == sid) t _ h
      (close_open_locked-AtMostOne env env.flushed p at t h)

start_transaction-AtMostOne :
    (env : Env) (sid : ℕ) (at : DateTime) (o : Option ActivityPeriodRecord) (t : Tracker)
    → open_for_session sid t.db.activity_periods ≡ o
    → AtMostOne t.db
    → AtMostOne (start_transaction env sid at o t).db
unfolding start_transaction
start_transaction-AtMostOne env sid at (some r) t e h = h
start_transaction-AtMostOne env sid at none t e h =
    add_period-AtMostOne env sid active at none t.db h (open_count-none sid t.db.activity_periods e)

start-AtMostOne :
    (env : Env) (sid : ℕ) (at : DateTime) (t : Tracker)
    → AtMostOne t.db
    → AtMostOne (start env sid at t).db
unfolding start
start-AtMostOne env sid at t h =
    let f = flush_previous-AtMostOne env sid at t t.service.session_id h in
    if-case (λ (u : Tracker). AtMostOne u.db) _ _ _
      (start_transaction-AtMostOne env sid at _ _ refl f) f

resume_session-AtMostOne :
    (env : Env) (at : DateTime) (sid : ℕ) (t : Tracker)
    → AtMostOne t.db
    → AtMostOne (resume_session env at sid t).db
unfolding resume_session resume_transaction
resume_session-AtMostOne env at sid t h =
    if-case AtMostOne (t.service.session_factory && env.stored) _ t.db
      (restart-AtMostOne env sid at t.db h) h

on_active-AtMostOne :
    (env : Env) (sid : ℕ) (at : DateTime) (th : TimeDelta) (previous : Option DateTime) (db : Db)
    → AtMostOne db
    → AtMostOne (on_active env sid at th previous db).0
unfolding on_active
on_active-AtMostOne env sid at th none db h = h
on_active-AtMostOne env sid at th (some p) db h =
    if-case (λ (q : Db × Option ActivityState). AtMostOne q.0) (leb (p + th) at) _ _
      (synthesize_idle-AtMostOne env sid (p + th) at db h) h

activity_transaction-AtMostOne :
    (env : Env) (sid : ℕ) (at : DateTime) (th : TimeDelta) (previous : Option DateTime)
    (o : Option ActivityPeriodRecord) (db : Db)
    → open_for_session sid db.activity_periods ≡ o
    → AtMostOne db
    → AtMostOne (activity_transaction env sid at th previous o db).0
unfolding activity_transaction wake
activity_transaction-AtMostOne env sid at th previous none db e h =
    add_period-AtMostOne env sid active at none db h (open_count-none sid db.activity_periods e)
activity_transaction-AtMostOne env sid at th previous (some r) db e h =
    if-case (λ (q : Db × Option ActivityState). AtMostOne q.0) (is_idle r.state) _ _
      (restart-AtMostOne env sid at db h) (on_active-AtMostOne env sid at th previous db h)

on_activity_in-AtMostOne :
    (env : Env) (at : DateTime) (sid : ℕ) (t : Tracker)
    → AtMostOne t.db
    → AtMostOne (on_activity_in env at sid t).0.db
unfolding on_activity_in
on_activity_in-AtMostOne env at sid t h =
    let P = λ (p : Tracker × Option ActivityState). AtMostOne p.0.db in
    if-case P t.service.session_factory _ _
      (if-case P env.stored _ _
        (activity_transaction-AtMostOne env sid at t.service.idle_threshold
          t.service.last_activity_at _ t.db refl h)
        h)
      h

perform-AtMostOne :
    (env : Env) (at : DateTime) (op : Op) (t : Tracker)
    → AtMostOne t.db
    → AtMostOne (perform env at op t).db
unfolding perform pause resume stop shutdown restore on_activity check_idle
perform-AtMostOne env at (start_op n) t h = start-AtMostOne env n at t h
perform-AtMostOne env at pause_op t h =
    option-case (λ (u : Tracker). AtMostOne u.db) (tracked t.service) t _ h
      (λ n. end_tracking-AtMostOne env at n t h)
perform-AtMostOne env at resume_op t h =
    option-case (λ (u : Tracker). AtMostOne u.db) t.service.session_id t _ h
      (λ n. resume_session-AtMostOne env at n t h)
perform-AtMostOne env at stop_op t h =
    option-case (λ (u : Tracker). AtMostOne u.db) t.service.session_id t _ h
      (λ n. end_tracking-AtMostOne env at n t h)
perform-AtMostOne env at shutdown_op t h =
    option-case (λ (u : Tracker). AtMostOne u.db) (tracked t.service) t _ h
      (λ n. end_tracking-AtMostOne env at n t h)
perform-AtMostOne env at activity_op t h =
    option-case (λ (p : Tracker × Option ActivityState). AtMostOne p.0.db) (tracked t.service)
      (t, none) _ h (λ n. on_activity_in-AtMostOne env at n t h)
perform-AtMostOne env at idle_op t h =
    if-case (λ (p : Tracker × Option ActivityState). AtMostOne p.0.db) t.service.paused _ _ h
      (maybe_transition-AtMostOne env env.stored at t t.service.session_id
        t.service.last_activity_at h)
perform-AtMostOne env at (restore_op n) t h = h

-- From a database in which no session has two open periods, any sequence of calls, at any times,
-- whichever of their transactions fail, ends in such a database: no session has two open periods.
pub run-AtMostOne : (es : List Event) (t : Tracker) → AtMostOne t.db → AtMostOne (run es t).db
unfolding run
run-AtMostOne [] t h = h
run-AtMostOne (e ∷ es) t h =
    run-AtMostOne es (perform e.env e.at e.op t) (perform-AtMostOne e.env e.at e.op t h)
