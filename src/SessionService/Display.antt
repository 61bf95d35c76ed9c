-- ===== src/SessionService/Display.antt =====
-- What the view shows: the buttons, and the two timers on a break.
use employee_monitoring_app.Prelude.{
  ℕ, ◌+◌, ◌-◌, Bool, false, ◌≤◌, ◌≡◌, ◌∙◌, refl, Option, none, some, List, DateTime, arith,
  seconds_between,
}
use employee_monitoring_app.Session.{
  WorkSessionStatus, is_frozen, sum_durations, close, Break, WorkSession, accumulated_break_seconds,
  elapsed_at, elapsed_work_seconds, is_active,
}
use employee_monitoring_app.Machine.{
  AppState, SessionAction, SessionMachine, can, ok, apply, close_open_break,
}
use employee_monitoring_app.Machine.Breaks.{OneOpen, close_open_break-Closed, sum_durations-Closed}
use employee_monitoring_app.Machine.Invariant.{Fits, IsConsistent, IsOnBreak}
use employee_monitoring_app.Machine.Table.{accepts, can-accepts}
use employee_monitoring_app.Timeline.{ActivityState}
use employee_monitoring_app.SessionService.Whole.{App}
use employee_monitoring_app.SessionService.View.{
  SessionView, Reads, is_under_way, tick, view_of, resolve_activity_state, completed_view,
  working_view, break_view, last_open, open_break_elapsed,
}

abbrev Shows : SessionMachine → SessionView → Type 0
Shows m v =
    (v.state ≡ m.state)
    × (v.can_check_in ≡ can m SessionAction.check_in)
    × (v.can_take_break ≡ can m SessionAction.take_break)
    × (v.can_resume ≡ can m SessionAction.resume)
    × (v.can_check_out ≡ can m SessionAction.check_out)
    × (v.ticking ≡ is_under_way m.state)

view_of-Shows :
    (reads : Reads) (now : DateTime) (activity : ActivityState) (st : AppState)
    (o : Option WorkSession) (a : App)
    → st ≡ a.session.machine.state
    → Shows a.session.machine (view_of reads now activity st o a)
unfolding view_of completed_view working_view break_view can
view_of-Shows reads now activity AppState.completed (some s) a e =
    rw (← e) (refl, refl, refl, refl, refl, refl)
view_of-Shows reads now activity AppState.working (some s) a e =
    rw (← e) (refl, refl, refl, refl, refl, refl)
view_of-Shows reads now activity AppState.on_break (some s) a e =
    rw (← e) (refl, refl, refl, refl, refl, refl)
view_of-Shows reads now activity AppState.logged_out o a e = (refl, refl, refl, refl, refl, refl)
view_of-Shows reads now activity AppState.ready o a e = (refl, refl, refl, refl, refl, refl)
view_of-Shows reads now activity st none a e = (refl, refl, refl, refl, refl, refl)

abbrev pub has_active : Option WorkSession → Bool
has_active none = false
has_active (some s) = is_active s

is_under_way-has_active :
    (t : DateTime) (st : AppState) (o : Option WorkSession)
    → Fits t st o
    → is_under_way st ≡ has_active o
is_under_way-has_active t AppState.logged_out none f = refl
is_under_way-has_active t AppState.logged_out (some s) f = absurd f
is_under_way-has_active t AppState.ready none f = refl
is_under_way-has_active t AppState.ready (some s) f = rw f.status refl
is_under_way-has_active t AppState.working none f = absurd f
is_under_way-has_active t AppState.working (some s) f = rw f.status refl
is_under_way-has_active t AppState.on_break none f = absurd f
is_under_way-has_active t AppState.on_break (some s) f = rw f.status refl
is_under_way-has_active t AppState.completed none f = absurd f
is_under_way-has_active t AppState.completed (some s) f = rw f.status refl

-- With a consistent machine, whatever the periods and the reads of them are, the view has the
-- machine's state, each of its four flags is on exactly when `apply` of that action, at any time and
-- for any user, does not raise, and it ticks exactly while the machine has a session that is not
-- completed.
pub tick_flags :
    (reads : Reads) (now : DateTime) (a : App) (t at : DateTime) (u : ℕ)
    → IsConsistent t a.session.machine
    → let m = a.session.machine in
      let v = tick reads now a in
      (v.state ≡ m.state)
      × (v.can_check_in ≡ accepts (apply m SessionAction.check_in at (some u)))
      × (v.can_take_break ≡ accepts (apply m SessionAction.take_break at (some u)))
      × (v.can_resume ≡ accepts (apply m SessionAction.resume at (some u)))
      × (v.can_check_out ≡ accepts (apply m SessionAction.check_out at (some u)))
      × (v.ticking ≡ has_active m.session)
unfolding tick
tick_flags reads now a t at u f =
    let m = a.session.machine in
    let accepted = λ (x : SessionAction). can-accepts t m x at u f in
    let (s, i, b, r, o, k) =
      view_of-Shows reads now (resolve_activity_state reads.state now m.state a) m.state m.session a
        refl in
    (
      s,
      i ∙ accepted SessionAction.check_in,
      b ∙ accepted SessionAction.take_break,
      r ∙ accepted SessionAction.resume,
      o ∙ accepted SessionAction.check_out,
      k ∙ is_under_way-has_active t m.state m.session f,
    )

-- Closing the open break adds what the view shows of it.
sum_durations-close_open_break :
    {hi lo : DateTime} {bs : List Break} (now : DateTime)
    → OneOpen hi lo bs
    → hi ≤ now
    → (b : Break) × (last_open bs ≡ some b)
      × (sum_durations (close_open_break bs now)
          ≡ sum_durations bs + seconds_between b.started_at now)
unfolding last_open close_open_break sum_durations close
sum_durations-close_open_break now (OneOpen.last {b = b} p q e d) h =
    (b, rw e refl, rw e (omega arith))
sum_durations-close_open_break now (OneOpen.cons p q e d c) h =
    let (b, l, k) = sum_durations-close_open_break now c h in
    (b, rw l refl, rw e (omega (arith, k)))

abbrev pub with_machine : SessionMachine → App → App
with_machine m a = record a { session = record a.session { machine = m } }

abbrev resumed : WorkSession → DateTime → WorkSession
resumed s now = record s {
  breaks = close_open_break s.breaks now;
  status = WorkSessionStatus.working;
}

elapsed-unfrozen :
    (s : WorkSession) (now : DateTime)
    → is_frozen s.status s.ended_at ≡ false
    → elapsed_work_seconds s now ≡ seconds_between s.started_at now - sum_durations s.breaks
unfolding elapsed_work_seconds elapsed_at accumulated_break_seconds
elapsed-unfrozen s now e = rw (e, elapsed_work_seconds) refl

open_break_elapsed-last :
    (s : WorkSession) (now : DateTime) (b : Break)
    → last_open s.breaks ≡ some b
    → open_break_elapsed s now ≡ seconds_between b.started_at now
unfolding open_break_elapsed
open_break_elapsed-last s now b e = rw (e, open_break_elapsed) refl

break_ends :
    (s : WorkSession) (t now : DateTime)
    → IsOnBreak t s
    → t ≤ now
    → (elapsed_work_seconds (resumed s now) now + open_break_elapsed s now
        ≡ elapsed_work_seconds s now)
      × (elapsed_work_seconds s now + accumulated_break_seconds s
          ≡ seconds_between s.started_at now)
unfolding accumulated_break_seconds
break_ends s t now b h =
    let (br, l, k) = sum_durations-close_open_break now b.breaks h in
    let c = sum_durations-Closed (close_open_break-Closed h b.breaks) in
    let shown = elapsed-unfrozen s now (rw b.status refl) in
    rw (elapsed-unfrozen (resumed s now) now refl, open_break_elapsed-last s now br l, shown)
      (omega (arith, c, k), omega (arith, c, k))

-- The session of a consistent machine on a break.
session_on_break :
    (st : AppState) (o : Option WorkSession) (t : DateTime)
    → Fits t st o
    → st ≡ AppState.on_break
    → (s : WorkSession) × (o ≡ some s) × IsOnBreak t s
session_on_break AppState.on_break (some s) t f h = (s, refl, f)
session_on_break AppState.on_break none t f h = absurd f
session_on_break _ o t f h = cc

resume_on_break :
    (m : SessionMachine) (s : WorkSession) (now : DateTime)
    → m.state ≡ AppState.on_break
    → m.session ≡ some s
    → apply m SessionAction.resume now none
      ≡ ok (record { state = AppState.working; session = some (resumed s now) })
unfolding apply
resume_on_break m s now h k = ground arith

-- In a consistent machine on a break, the work time shown goes on with the clock: with the breaks
-- that ended before it fills the span from the check-in to now. A resume at that time is accepted,
-- and the work time shown after it is what was shown before, less the time shown for the break.
pub tick_on_break :
    (reads : Reads) (t now : DateTime) (a : App)
    → IsConsistent t a.session.machine
    → t ≤ now
    → a.session.machine.state ≡ AppState.on_break
    → (s : WorkSession) × (m : SessionMachine) × (a.session.machine.session ≡ some s)
      × (apply a.session.machine SessionAction.resume now none ≡ ok m)
      × (let v = tick reads now a in
          let v' = tick reads now (with_machine m a) in
          (v.elapsed_work_seconds + accumulated_break_seconds s ≡ seconds_between s.started_at now)
          × (v'.state ≡ AppState.working)
          × (v'.elapsed_work_seconds + v.elapsed_break_seconds ≡ v.elapsed_work_seconds))
unfolding tick view_of break_view working_view
tick_on_break reads t now a c o h =
    let (s, e, b) = session_on_break a.session.machine.state a.session.machine.session t c h in
    let q = break_ends s t now b o in
    (
      s,
      record { state = AppState.working; session = some (resumed s now) },
      e,
      resume_on_break a.session.machine s now h e,
      rw (h, e) (q.1, refl, q.0),
    )
