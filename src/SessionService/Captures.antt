-- ===== src/SessionService/Captures.antt =====
-- What the gate shows of the captures: a session's screen is captured only while it is at work.
use employee_monitoring_app.Prelude.{
  ℕ, ◌≡◌, ◌≢◌, ◌⊎◌, inl, inr, refl, Bool, true, false, Option, none, some, List, [], ◌∷◌, DateTime,
  arith, not, is_none, ◌&&◌, if◌then◌else◌, if-case,
}
use employee_monitoring_app.Session.{WorkSessionStatus, WorkSession}
use employee_monitoring_app.Machine.{
  AppState, SessionAction, SessionMachine, new_machine, state_of_status, apply, step,
}
use employee_monitoring_app.Repositories.Sessions.{is_unfinished, Holds, get_active-Holds}
use employee_monitoring_app.Db.{SessionRow}
use employee_monitoring_app.ActivityService.Lifecycle
use employee_monitoring_app.ScreenshotService.{ScreenshotService, can_capture}
use employee_monitoring_app.ScreenshotService
use employee_monitoring_app.SessionService.Persist.{SessionService, key_of}
use employee_monitoring_app.SessionService.Restore.{
  restore_session, restore_user, restore_row, orm_to_domain,
}
use employee_monitoring_app.SessionService.Whole.{
  App, Env, session_key, check_in, take_break, resume, check_out, restore, reattach,
  reattach_activity, reattach_screenshots,
}
use employee_monitoring_app.SessionService.Gate.{
  GateAt, Gate, IsGated, on_screens, both_called, Stopped, Stopped-Gate, Gate-Stopped, Gate-start,
  check_in-IsGated, take_break-IsGated, resume-IsGated, check_out-IsGated,
}

-- What restore_session leaves: nothing changed, or the machine at the session of an unfinished row.
abbrev Restored : SessionService → SessionService × Bool → Type 0
Restored s r =
    ((r.1 ≡ false) × (r.0 ≡ s))
    ⊎ ((r.1 ≡ true)
        × (w : WorkSession) × (n : ℕ) × (key_of r.0.machine.session ≡ some (w, n))
        × (session_key r.0.machine.session ≡ some n)
        × (r.0.machine.state ≡ state_of_status w.status)
        × (is_unfinished w.status ≡ true))

restore_row-Restored :
    (s : SessionService) (o : Option SessionRow)
    → Holds (λ r. is_unfinished r.status ≡ true) o
    → Restored s (restore_row s o)
unfolding restore_row orm_to_domain employee_monitoring_app.Machine.restore
restore_row-Restored s none h = inl (refl, refl)
restore_row-Restored s (some r) h =
    inr (refl, orm_to_domain r s.db.breaks, r.id, refl, refl, refl, h)

restore_user-Restored :
    (readable : Bool) (s : SessionService) (u : Option ℕ) → Restored s (restore_user readable s u)
unfolding restore_user
restore_user-Restored readable s none = inl (refl, refl)
restore_user-Restored readable s (some u) =
    if-case (Restored s) (s.session_factory && readable) _ _
      (restore_row-Restored s _ (get_active-Holds u s.db.work_sessions)) (inl (refl, refl))

-- A screenshot service that is started and paused in one call.
Gate-start_paused :
    (n : ℕ) (o : Option ScreenshotService)
    → Gate AppState.on_break
        (some n)
        (on_screens (λ s. ScreenshotService.pause (ScreenshotService.start n s)) o)
unfolding on_screens ScreenshotService.pause ScreenshotService.start
Gate-start_paused n none = tt
Gate-start_paused n (some s) = (refl, inl refl)

reattached-IsGated :
    (env : Env) (at : DateTime) (st : WorkSessionStatus) (n : ℕ) (a : App)
    → session_key a.session.machine.session ≡ some n
    → a.session.machine.state ≡ state_of_status st
    → is_unfinished st ≡ true
    → IsGated (reattach_screenshots st n (reattach_activity env at st n a))
unfolding reattach_activity reattach_screenshots
reattached-IsGated env at WorkSessionStatus.working n a k e u =
    let b = both_called (ScreenshotService.start n) (Lifecycle.restore env.tracking n at) a in
    rw (b.0, b.1, k, e) (Gate-start n a.screenshots)
reattached-IsGated env at WorkSessionStatus.on_break n a k e u =
    let b =
      both_called (λ s. ScreenshotService.pause (ScreenshotService.start n s))
        (λ t.
          let r = Lifecycle.restore env.tracking n at t in
          record r { service = record r.service { paused = true } })
        a in
    rw (b.0, b.1, k, e) (Gate-start_paused n a.screenshots)
reattached-IsGated env at WorkSessionStatus.completed n a k e u = cc

after_restore-IsGated :
    (env : Env) (at : DateTime) (a : App) (r : SessionService × Bool)
    → IsGated a
    → Restored a.session r
    → IsGated
        (if◌then◌else◌ {A = App × Bool} r.1
          (reattach env at (key_of r.0.machine.session) (record a { session = r.0 }), true)
          (record a { session = r.0 }, false)).0
unfolding reattach
after_restore-IsGated env at a (s, false) h (inl c) = rw c.1 h
after_restore-IsGated env at a (s, true) h (inl c) = cc
after_restore-IsGated env at a (s, false) h (inr c) = cc
after_restore-IsGated env at a (s, true) h (inr (_, w, n, o, k, e, u)) =
    rw o (reattached-IsGated env at w.status n (record a { session = s }) k e u)

restore-IsGated :
    (env : Env) (readable : Bool) (at : DateTime) (a : App)
    → IsGated a
    → IsGated (restore env readable at a).0
unfolding restore restore_session
restore-IsGated env readable at a h =
    after_restore-IsGated env at a (restore_session readable a.session) h
      (restore_user-Restored readable a.session a.session.user_id)

-- The login or the logout of the auth service, on the machine that it shares.
unfoldable pub sign : SessionAction → DateTime → App → App
unfolding step
sign action at a = record a {
  session = record a.session { machine = step a.session.machine action at none };
}

sign-cases :
    (action : SessionAction) (at : DateTime) (m : SessionMachine)
    → (action ≡ SessionAction.login) ⊎ (action ≡ SessionAction.logout)
    → (step m action at none ≡ m)
      ⊎ (((m.state ≢ AppState.working) × (m.state ≢ AppState.on_break))
          × ((step m action at none).state ≢ AppState.working)
          × ((step m action at none).state ≢ AppState.on_break))
unfolding step apply
sign-cases action at m l = ground arith

sign-IsGated :
    (action : SessionAction) (at : DateTime) (a : App)
    → (action ≡ SessionAction.login) ⊎ (action ≡ SessionAction.logout)
    → IsGated a
    → IsGated (sign action at a)
unfolding sign
sign-IsGated action at a l h = elim (sign-cases action at a.session.machine l) [
  | inl e ↦ rw e h
  | inr c ↦ Stopped-Gate _ _ _ (Gate-Stopped _ _ _ h c.0) (inl (c.1, c.2))
]

-- A call of the session service, or a login or logout.
pub data Call : Type 0 where
  login_call logout_call check_in_call take_break_call resume_call check_out_call : Call
  restore_call : Bool → Call

pub record Event : Type 0 where
  pub env : Env
  pub at : DateTime
  pub call : Call

unfoldable pub perform : Env → DateTime → Call → App → App
unfolding sign
perform env at login_call a = sign SessionAction.login at a
perform env at logout_call a = sign SessionAction.logout at a
perform env at check_in_call a = (check_in env at a).0
perform env at take_break_call a = (take_break env at a).0
perform env at resume_call a = (resume env at a).0
perform env at check_out_call a = (check_out env at a).0
perform env at (restore_call readable) a = (restore env readable at a).0

perform-IsGated :
    (env : Env) (at : DateTime) (call : Call) (a : App)
    → IsGated a
    → IsGated (perform env at call a)
unfolding perform
perform-IsGated env at login_call a h = sign-IsGated SessionAction.login at a (inl refl) h
perform-IsGated env at logout_call a h = sign-IsGated SessionAction.logout at a (inr refl) h
perform-IsGated env at check_in_call a h = check_in-IsGated env at a h
perform-IsGated env at take_break_call a h = take_break-IsGated env at a h
perform-IsGated env at resume_call a h = resume-IsGated env at a h
perform-IsGated env at check_out_call a h = check_out-IsGated env at a
perform-IsGated env at (restore_call readable) a h = restore-IsGated env readable at a h

-- The services after some calls, refused ones among them.
unfoldable pub run : List Event → App → App
unfolding perform
run [] a = a
run (e ∷ es) a = run es (perform e.env e.at e.call a)

run-IsGated : (es : List Event) (a : App) → IsGated a → IsGated (run es a)
unfolding run
run-IsGated [] a h = h
run-IsGated (e ∷ es) a h = run-IsGated es _ (perform-IsGated e.env e.at e.call a h)

abbrev pub is_working : AppState → Bool
is_working AppState.working = true
is_working _ = false

gate-can_capture :
    (st : AppState) (key : Option ℕ) (s : ScreenshotService)
    → GateAt st key s
    → (can_capture s ≡ (is_working st && not (is_none key)))
      × ((can_capture s ≡ false) ⊎ (s.session_id ≡ key))
unfolding can_capture
gate-can_capture st key s h = ground arith

Gate-some :
    (st : AppState) (key : Option ℕ) (o : Option ScreenshotService) (s : ScreenshotService)
    → o ≡ some s
    → Gate st key o
    → GateAt st key s
Gate-some st key none s e h = cc
Gate-some st key (some r) s e h = let k : r ≡ s = cc in rw (← k) h

-- From a machine that is logged out and a screenshot service that has not started, after any logins,
-- logouts, check-ins, breaks, resumes, check-outs and restorations, refused ones and those whose
-- transaction fails included: a capture is allowed exactly while the machine is in the state WORKING
-- with a session that has a key, and the session it is taken for is then that session.
pub captures_only_at_work :
    (es : List Event) (a : App) (s : ScreenshotService)
    → a.session.machine ≡ new_machine
    → Stopped a.screenshots
    → (run es a).screenshots ≡ some s
    → let m = (run es a).session.machine in
      (can_capture s ≡ (is_working m.state && not (is_none (session_key m.session))))
      × ((can_capture s ≡ false) ⊎ (s.session_id ≡ session_key m.session))
captures_only_at_work es a s n st e =
    gate-can_capture _ _ s
      (Gate-some _ _ _ s e (run-IsGated es a (Stopped-Gate _ _ _ st (inr (rw n refl)))))
