-- ===== src/SessionService/Gate.antt =====
-- When the screen may be captured: the gate of the screenshot service follows the machine.
use employee_monitoring_app.Prelude.{
  ℕ, ◌≡◌, ◌≢◌, ◌⊎◌, inl, inr, refl, ap, true, false, Option, none, some, DateTime, arith,
  Option-cases,
}
use employee_monitoring_app.Machine.{AppState, Error, apply}
use employee_monitoring_app.ActivityService.Base.{Tracker}
use employee_monitoring_app.ActivityService.Lifecycle
use employee_monitoring_app.ScreenshotService.{ScreenshotService, can_capture}
use employee_monitoring_app.ScreenshotService
use employee_monitoring_app.SessionService.Persist.{
  SessionService, persist_check_in, persist_take_break, persist_resume, persist_check_out,
}
use employee_monitoring_app.SessionService.Persist
use employee_monitoring_app.SessionService.Whole.{
  App, Env, session_key, with_tracker, with_screenshots, follow, begin_session, pause_session,
  activity_start, screenshot_start, resume_session, end_session, check_in, take_break, resume,
  check_out,
}

-- What the gate is in each state of the machine, for a session with the key `key`.
abbrev pub GateAt : AppState → Option ℕ → ScreenshotService → Type 0
GateAt AppState.working key s = (s.session_id ≡ key) × (s.paused ≡ false)
GateAt AppState.on_break key s = (s.session_id ≡ key) × ((s.paused ≡ true) ⊎ (key ≡ none))
GateAt _ key s = (s.session_id ≡ none) × (s.paused ≡ false)

abbrev pub Gate : AppState → Option ℕ → Option ScreenshotService → Type 0
Gate st key none = Unit
Gate st key (some s) = GateAt st key s

abbrev pub IsGated : App → Type 0
IsGated a = Gate a.session.machine.state (session_key a.session.machine.session) a.screenshots

pub machine-with_tracker :
    (f : Tracker → Tracker) (a : App)
    → ((with_tracker f a).session.machine ≡ a.session.machine)
      × ((with_tracker f a).screenshots ≡ a.screenshots)
unfolding with_tracker
machine-with_tracker f a = elim (Option-cases a.activity) [
  | inl e ↦ rw e (refl, refl)
  | inr (s, e) ↦ rw e (refl, refl)
]

check_in-cases :
    (env : Persist.Env) (at : DateTime) (s : SessionService)
    → let r = Persist.check_in env at s in
      ((r.1 ≢ none) × (r.0 ≡ s))
      ⊎ ((r.1 ≡ none)
          × ((s.machine.state ≡ AppState.ready) ⊎ (s.machine.state ≡ AppState.completed))
          × (r.0.machine.state ≡ AppState.working))
unfolding Persist.check_in apply persist_check_in
check_in-cases env at s = ground arith

take_break-cases :
    (env : Persist.Env) (at : DateTime) (s : SessionService)
    → let r = Persist.take_break env at s in
      ((r.1 ≢ none) × (r.0 ≡ s))
      ⊎ ((r.1 ≡ none)
          × (s.machine.state ≡ AppState.working)
          × (r.0.machine.state ≡ AppState.on_break)
          × (session_key r.0.machine.session ≡ session_key s.machine.session))
unfolding Persist.take_break apply persist_take_break
take_break-cases env at s = ground arith

resume-cases :
    (env : Persist.Env) (at : DateTime) (s : SessionService)
    → let r = Persist.resume env at s in
      ((r.1 ≢ none) × (r.0 ≡ s))
      ⊎ ((r.1 ≡ none)
          × (s.machine.state ≡ AppState.on_break)
          × (r.0.machine.state ≡ AppState.working)
          × (session_key r.0.machine.session ≡ session_key s.machine.session))
unfolding Persist.resume apply persist_resume
resume-cases env at s = ground arith

check_out-cases :
    (env : Persist.Env) (at : DateTime) (s : SessionService)
    → let r = Persist.check_out env at s in
      ((r.1 ≢ none)
        × (r.0 ≡ s)
        × (((s.machine.state ≢ AppState.working) × (s.machine.state ≢ AppState.on_break))
            ⊎ (session_key s.machine.session ≡ none)))
      ⊎ ((r.1 ≡ none) × (r.0.machine.state ≡ AppState.completed))
unfolding Persist.check_out apply persist_check_out
check_out-cases env at s = ground arith

-- Nothing is captured while the service is stopped.
abbrev pub Stopped : Option ScreenshotService → Type 0
Stopped none = Unit
Stopped (some s) = (s.session_id ≡ none) × (s.paused ≡ false)

pub Stopped-Gate :
    (st : AppState) (key : Option ℕ) (o : Option ScreenshotService)
    → Stopped o
    → ((st ≢ AppState.working) × (st ≢ AppState.on_break)) ⊎ (key ≡ none)
    → Gate st key o
Stopped-Gate st key none h k = tt
Stopped-Gate AppState.working key (some s) h k = ground arith
Stopped-Gate AppState.on_break key (some s) h k = ground arith
Stopped-Gate AppState.logged_out key (some s) h k = h
Stopped-Gate AppState.ready key (some s) h k = h
Stopped-Gate AppState.completed key (some s) h k = h

pub Gate-Stopped :
    (st : AppState) (key : Option ℕ) (o : Option ScreenshotService)
    → Gate st key o
    → (st ≢ AppState.working) × (st ≢ AppState.on_break)
    → Stopped o
Gate-Stopped st key none h k = tt
Gate-Stopped AppState.working key (some s) h k = absurd (k.0 refl)
Gate-Stopped AppState.on_break key (some s) h k = absurd (k.1 refl)
Gate-Stopped AppState.logged_out key (some s) h k = h
Gate-Stopped AppState.ready key (some s) h k = h
Gate-Stopped AppState.completed key (some s) h k = h

-- What a call does to the gate, where the service is bound.
unfoldable pub on_screens :
    (ScreenshotService → ScreenshotService) → Option ScreenshotService → Option ScreenshotService
on_screens f o = elim o [ none ↦ none | some s ↦ some (f s) ]

-- A call of both services leaves the session service's machine, and the gate goes through `f`.
pub both_called :
    (f : ScreenshotService → ScreenshotService) (g : Tracker → Tracker) (a : App)
    → let b = with_screenshots f (with_tracker g a) in
      (b.session.machine ≡ a.session.machine) × (b.screenshots ≡ on_screens f a.screenshots)
unfolding with_screenshots on_screens
both_called f g a =
    let e = machine-with_tracker g a in
    (e.0, ap (λ o. elim o [ none ↦ none | some s ↦ some (f s) ]) e.1)

-- The gate at a state that is known.
pub Gate-state :
    (st st' : AppState) (key : Option ℕ) (o : Option ScreenshotService)
    → st ≡ st'
    → Gate st key o
    → Gate st' key o
Gate-state st st' key o e h = rw (← e) h

pub Gate-start :
    (n : ℕ) (o : Option ScreenshotService)
    → Gate AppState.working (some n) (on_screens (ScreenshotService.start n) o)
unfolding on_screens ScreenshotService.start
Gate-start n none = tt
Gate-start n (some s) = (refl, refl)

pub Gate-pause :
    (key : Option ℕ) (o : Option ScreenshotService)
    → Gate AppState.working key o
    → Gate AppState.on_break key (on_screens ScreenshotService.pause o)
unfolding on_screens ScreenshotService.pause
Gate-pause key none h = tt
Gate-pause key (some s) h = (h.0, inl refl)

Gate-resume :
    (key : Option ℕ) (o : Option ScreenshotService)
    → Gate AppState.on_break key o
    → Gate AppState.working key (on_screens (ScreenshotService.resume none) o)
unfolding on_screens ScreenshotService.resume
Gate-resume key none h = tt
Gate-resume key (some s) h = (h.0, refl)

Stopped-stop : (o : Option ScreenshotService) → Stopped (on_screens ScreenshotService.stop o)
unfolding on_screens ScreenshotService.stop
Stopped-stop none = tt
Stopped-stop (some s) = (refl, refl)

begin_session-IsGated :
    (env : Env) (at : DateTime) (a : App)
    → a.session.machine.state ≡ AppState.working
    → Stopped a.screenshots
    → IsGated (begin_session env at a)
unfolding begin_session activity_start screenshot_start
begin_session-IsGated env at a w st = elim (Option-cases (session_key a.session.machine.session)) [
  | inl e ↦ rw (e, w) (Stopped-Gate AppState.working _ _ st (inr e))
  | inr (n, e) ↦
      let b = both_called (ScreenshotService.start n) (Lifecycle.start env.tracking n at) a in
      rw (e, b.0, b.1, w, e) (Gate-start n a.screenshots)
]

-- An action keeps the gate when it is refused with nothing changed, and when what follows it does.
follow-IsGated :
    (f : App → App) (a : App) (r : SessionService × Option Error)
    → ((r.1 ≢ none) × (r.0 ≡ a.session) × IsGated a)
      ⊎ ((r.1 ≡ none) × IsGated (f (record a { session = r.0 })))
    → IsGated (follow f a r).0
follow-IsGated f a (s, none) (inl c) = absurd (c.0 refl)
follow-IsGated f a (s, none) (inr c) = c.1
follow-IsGated f a (s, some e) (inl c) = rw c.1 c.2
follow-IsGated f a (s, some e) (inr c) = cc

pub check_in-IsGated :
    (env : Env) (at : DateTime) (a : App) → IsGated a → IsGated (check_in env at a).0
unfolding check_in
check_in-IsGated env at a h =
    let r = Persist.check_in env.persist at a.session in
    follow-IsGated (begin_session env at) a r (elim (check_in-cases env.persist at a.session) [
      | inl c ↦ inl (c.0, c.1, h)
      | inr c ↦ inr (
        c.0,
        begin_session-IsGated env at (record a { session = r.0 }) c.2
            (Gate-Stopped _ _ _ h (elim c.1 [ inl e ↦ rw e (cc, cc) | inr e ↦ rw e (cc, cc) ])),
      )
    ])

pub take_break-IsGated :
    (env : Env) (at : DateTime) (a : App) → IsGated a → IsGated (take_break env at a).0
unfolding take_break pause_session
take_break-IsGated env at a h =
    let r = Persist.take_break env.persist at a.session in
    follow-IsGated (pause_session env at) a r (elim (take_break-cases env.persist at a.session) [
      | inl c ↦ inl (c.0, c.1, h)
      | inr c ↦
          let b =
            both_called ScreenshotService.pause (Lifecycle.pause env.tracking at)
              (record a { session = r.0 }) in
          inr (c.0, rw (b.0, b.1, c.2, c.3) (Gate-pause _ _ (Gate-state _ _ _ _ c.1 h)))
    ])

pub resume-IsGated : (env : Env) (at : DateTime) (a : App) → IsGated a → IsGated (resume env at a).0
unfolding resume resume_session
resume-IsGated env at a h =
    let r = Persist.resume env.persist at a.session in
    follow-IsGated (resume_session env at) a r (elim (resume-cases env.persist at a.session) [
      | inl c ↦ inl (c.0, c.1, h)
      | inr c ↦
          let b =
            both_called (ScreenshotService.resume none) (Lifecycle.resume env.tracking at)
              (record a { session = r.0 }) in
          inr (c.0, rw (b.0, b.1, c.2, c.3) (Gate-resume _ _ (Gate-state _ _ _ _ c.1 h)))
    ])

pub check_out-IsGated : (env : Env) (at : DateTime) (a : App) → IsGated (check_out env at a).0
unfolding check_out end_session
check_out-IsGated env at a =
    let b = both_called ScreenshotService.stop (Lifecycle.stop env.tracking at) a in
    let ended = end_session env at a in
    let st : Stopped ended.screenshots = rw b.1 (Stopped-stop a.screenshots) in
    let r = Persist.check_out env.persist at ended.session in
    follow-IsGated (λ b. b) ended r
      (elim (check_out-cases env.persist at ended.session) [
        | inl c ↦ inl (c.0, c.1, Stopped-Gate _ _ _ st c.2)
        | inr c ↦ inr (c.0, Stopped-Gate _ _ _ st (inl (rw c.1 (cc, cc))))
      ])
