-- ===== src/SessionService/Whole.antt =====
-- The whole service: the actions with their calls of the activity and the screenshot service.
use employee_monitoring_app.Prelude.{
  ℕ, Bool, true, false, Option, none, some, DateTime, if◌then◌else◌,
}
use employee_monitoring_app.Session.{WorkSessionStatus, WorkSession}
use employee_monitoring_app.Machine.{Error}
use employee_monitoring_app.ActivityService.Base.{ActivityService, Tracker}
use employee_monitoring_app.ActivityService.Base
use employee_monitoring_app.ActivityService.Lifecycle
use employee_monitoring_app.ScreenshotService.{ScreenshotService}
use employee_monitoring_app.ScreenshotService
use employee_monitoring_app.SessionService.Persist.{SessionService}
use employee_monitoring_app.SessionService.Persist
use employee_monitoring_app.SessionService.Restore.{restore_session}

-- The session service, and the two services where they are bound.
pub record App : Type 0 where
  pub session : SessionService
  pub activity : Option ActivityService
  pub screenshots : Option ScreenshotService

-- What surrounds an action: for its own transaction, and for those of the activity service.
pub record Env : Type 0 where
  pub persist : Persist.Env
  pub tracking : Base.Env

-- The key of a session that has a row.
abbrev pub session_key : Option WorkSession → Option ℕ
session_key none = none
session_key (some s) = s.id

-- A call of the activity service, on the database that the services share.
unfoldable pub tracked_by : (Tracker → Tracker) → App → Option ActivityService → App
tracked_by f a none = a
tracked_by f a (some s) =
    let t = f (record { service = s; db = a.session.db }) in
    record a { session = record a.session { db = t.db }; activity = some t.service }

unfoldable pub with_tracker : (Tracker → Tracker) → App → App
unfolding tracked_by
with_tracker f a = tracked_by f a a.activity

-- _activity_start at the key of the session
unfoldable pub activity_start : Env → DateTime → Option ℕ → App → App
unfolding with_tracker
activity_start env at none a = a
activity_start env at (some n) a = with_tracker (Lifecycle.start env.tracking n at) a

-- A call of the screenshot service.
unfoldable pub with_screenshots : (ScreenshotService → ScreenshotService) → App → App
with_screenshots f a = record a {
  screenshots = elim a.screenshots [ none ↦ none | some s ↦ some (f s) ];
}

-- _screenshot_start at the key of the session
unfoldable pub screenshot_start : Option ℕ → App → App
unfolding with_screenshots
screenshot_start none a = a
screenshot_start (some n) a = with_screenshots (ScreenshotService.start n) a

-- What follows a check-in that was not refused.
unfoldable pub begin_session : Env → DateTime → App → App
unfolding activity_start screenshot_start
begin_session env at a =
    let key = session_key a.session.machine.session in
    screenshot_start key (activity_start env at key a)

-- The calls that follow an action, unless it was refused.
abbrev pub follow : (App → App) → App → SessionService × Option Error → App × Option Error
follow f a (s, none) = (f (record a { session = s }), none)
follow f a (s, some e) = (record a { session = s }, some e)

-- check_in
unfoldable pub check_in : Env → DateTime → App → App × Option Error
unfolding begin_session
check_in env at a = follow (begin_session env at) a (Persist.check_in env.persist at a.session)

unfoldable pub pause_session : Env → DateTime → App → App
unfolding with_tracker with_screenshots
pause_session env at a =
    with_screenshots ScreenshotService.pause (with_tracker (Lifecycle.pause env.tracking at) a)

-- take_break
unfoldable pub take_break : Env → DateTime → App → App × Option Error
unfolding pause_session
take_break env at a = follow (pause_session env at) a (Persist.take_break env.persist at a.session)

unfoldable pub resume_session : Env → DateTime → App → App
unfolding with_tracker with_screenshots
resume_session env at a =
    with_screenshots (ScreenshotService.resume none)
      (with_tracker (Lifecycle.resume env.tracking at) a)

-- resume
unfoldable pub resume : Env → DateTime → App → App × Option Error
unfolding resume_session
resume env at a = follow (resume_session env at) a (Persist.resume env.persist at a.session)

unfoldable pub end_session : Env → DateTime → App → App
unfolding with_tracker with_screenshots
end_session env at a =
    with_screenshots ScreenshotService.stop (with_tracker (Lifecycle.stop env.tracking at) a)

-- check_out: the two services stop first, also where the machine then refuses.
unfoldable pub check_out : Env → DateTime → App → App × Option Error
unfolding end_session
check_out env at a =
    let ended = end_session env at a in
    follow (λ b. b) ended (Persist.check_out env.persist at ended.session)

-- The activity mirror after a restoration; on a break it is paused.
unfoldable pub reattach_activity : Env → DateTime → WorkSessionStatus → ℕ → App → App
unfolding with_tracker
reattach_activity env at WorkSessionStatus.working n a =
    with_tracker (Lifecycle.restore env.tracking n at) a
reattach_activity env at WorkSessionStatus.on_break n a =
    with_tracker
      (λ t.
        let r = Lifecycle.restore env.tracking n at t in
        record r { service = record r.service { paused = true } })
      a
reattach_activity env at WorkSessionStatus.completed n a = a

unfoldable pub reattach_screenshots : WorkSessionStatus → ℕ → App → App
unfolding with_screenshots
reattach_screenshots WorkSessionStatus.working n a = with_screenshots (ScreenshotService.start n) a
reattach_screenshots WorkSessionStatus.on_break n a =
    with_screenshots (λ s. ScreenshotService.pause (ScreenshotService.start n s)) a
reattach_screenshots WorkSessionStatus.completed n a = a

unfoldable pub reattach : Env → DateTime → Option (WorkSession × ℕ) → App → App
unfolding reattach_activity reattach_screenshots
reattach env at none a = a
reattach env at (some (s, n)) a =
    reattach_screenshots s.status n (reattach_activity env at s.status n a)

-- restore_session; `readable` is false where the query raises.
unfoldable pub restore : Env → Bool → DateTime → App → App × Bool
unfolding reattach
restore env readable at a =
    let (s, restored) = restore_session readable a.session in
    let b : App = record a { session = s } in
    if restored then (reattach env at (Persist.key_of s.machine.session) b, true) else (b, false)
