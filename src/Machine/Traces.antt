-- ===== src/Machine/Traces.antt =====
-- Sequences of actions, and the accounting of working time over them.
use employee_monitoring_app.Prelude.{
  ℕ, ◌+◌, ◌≤◌, ◌≡◌, refl, Option, none, some, List, [], ◌∷◌, ◌++◌, DateTime, arith, seconds_between,
}
use employee_monitoring_app.Session.{
  WorkSessionStatus, Break, WorkSession, checkout, accumulated_break_seconds, elapsed_at,
}
use employee_monitoring_app.Machine.{
  AppState, SessionAction, SessionMachine, id_or_zero, new_machine, ok, apply, step,
}
use employee_monitoring_app.Machine.Breaks.{sum_durations-Closed, sum_durations-append}
use employee_monitoring_app.Machine.Invariant.{
  Fits, IsWorking-mono, IsConsistent, IsConsistent-mono, IsWorking, step-IsConsistent,
}

pub record Event : Type 0 where
  pub action : SessionAction
  pub at : DateTime
  pub user : Option ℕ

-- The machine after some actions; a raise leaves it as it was.
unfoldable pub run : SessionMachine → List Event → SessionMachine
run m [] = m
run m (e ∷ es) = run (step m e.action e.at e.user) es

-- The clock readings of the events do not fall, from `t` to `t'`.
abbrev pub InOrder : DateTime → List Event → DateTime → Type 0
InOrder t [] t' = t ≤ t'
InOrder t (e ∷ es) t' = (t ≤ e.at) × InOrder e.at es t'

-- From a consistent machine, any actions in the order of time leave a consistent one: the status of
-- the session is that of the state, while working every break is closed, and on a break exactly the
-- last one is open; both have no end. In COMPLETED, and in READY where a session is left, it is
-- completed: it ended at some time before now, its breaks are closed but for the last one perhaps, and
-- its frozen total and its closed breaks fill the span from its start to its end. In LOGGED_OUT there
-- is no session.
pub run-IsConsistent :
    (m : SessionMachine) (es : List Event) (t t' : DateTime)
    → InOrder t es t'
    → IsConsistent t m
    → IsConsistent t' (run m es)
unfolding run
run-IsConsistent m [] t t' o h = IsConsistent-mono m o h
run-IsConsistent m (e ∷ es) t t' o h =
    run-IsConsistent (step m e.action e.at e.user) es e.at t' o.1
      (step-IsConsistent m e.action e.at e.user o.0 h)

-- A working session: worked seconds and breaks fill the span from the start, nothing is cut at 0.
pub elapsed-add-breaks :
    (s : WorkSession) (t : DateTime)
    → IsWorking t s
    → elapsed_at s t + accumulated_break_seconds s ≡ seconds_between s.started_at t
unfolding elapsed_at accumulated_break_seconds
elapsed-add-breaks s t w = omega (arith, sum_durations-Closed w.breaks)

-- The session of a consistent machine that works.
working_session :
    (st : AppState) (o : Option WorkSession) (t : DateTime)
    → Fits t st o
    → st ≡ AppState.working
    → (s : WorkSession) × (o ≡ some s) × IsWorking t s
working_session AppState.working (some s) t f h = (s, refl, f)
working_session AppState.working none t f h = absurd f
working_session _ o t f h = cc

check_out_working :
    (m : SessionMachine) (s : WorkSession) (t : DateTime) (u : Option ℕ)
    → m.state ≡ AppState.working
    → m.session ≡ some s
    → apply m SessionAction.check_out t u
      ≡ ok (record { state = AppState.completed; session = some (checkout s t) })
unfolding apply checkout
check_out_working m s t u h k = ground arith

-- After any actions in the order of time that leave the machine working, a check-out completes the
-- session, and its frozen total and its breaks fill the whole span from the check-in.
pub check_out_accounts :
    (es : List Event) (t : DateTime) (u : Option ℕ)
    → InOrder 0 es t
    → (run new_machine es).state ≡ AppState.working
    → (s : WorkSession) × (apply (run new_machine es) SessionAction.check_out t u
        ≡ ok (record { state = AppState.completed; session = some s }))
      × (s.total_work_seconds + accumulated_break_seconds s ≡ seconds_between s.started_at t)
      × (s.ended_at ≡ some t)
unfolding checkout accumulated_break_seconds
check_out_accounts es t u o h =
    let m = run new_machine es in
    let (s, e, w) =
      working_session m.state m.session t (run-IsConsistent new_machine es 0 t o tt) h in
    (checkout s t, check_out_working m s t u h e, elapsed-add-breaks s t w, refl)

-- The session with a break that begins at `t`.
abbrev with_break : WorkSession → DateTime → WorkSession
with_break s t =
    let b : Break = record {
      session_id = id_or_zero s.id;
      started_at = t;
      ended_at = none;
      duration_seconds = 0;
      id = none;
    } in
    record s { breaks = s.breaks ++ b ∷ []; status = WorkSessionStatus.on_break }

step-take_break :
    (m : SessionMachine) (s : WorkSession) (t : DateTime) (u : Option ℕ)
    → m.state ≡ AppState.working
    → m.session ≡ some s
    → step m SessionAction.take_break t u
      ≡ record { state = AppState.on_break; session = some (with_break s t) }
unfolding step
step-take_break m s t u h k = ground arith

break_then_check_out :
    (m : SessionMachine) (s : WorkSession) (t t' : DateTime) (u : Option ℕ)
    → m.state ≡ AppState.working
    → m.session ≡ some s
    → step (step m SessionAction.take_break t u) SessionAction.check_out t' u
      ≡ record { state = AppState.completed; session = some (checkout (with_break s t) t') }
break_then_check_out m s t t' u h k = rw (step-take_break m s t u h k) (unfold step in refl)

elapsed-with_break :
    (s : WorkSession) (t t' : DateTime) → elapsed_at (with_break s t) t' ≡ elapsed_at s t'
unfolding elapsed_at accumulated_break_seconds
elapsed-with_break s t t' = omega (arith, sum_durations-append)

-- A check-out on a break counts the break as work: in a consistent machine that works, the total
-- frozen by a check-out at `t'` on a break that began at `t` and the breaks that ended before fill
-- the whole span from the check-in to `t'`.
pub check_out_on_break_counts_it :
    (m : SessionMachine) (t t' : DateTime) (u : Option ℕ)
    → IsConsistent t m
    → t ≤ t'
    → m.state ≡ AppState.working
    → (s r : WorkSession) × (m.session ≡ some s)
      × (step (step m SessionAction.take_break t u) SessionAction.check_out t' u
          ≡ record { state = AppState.completed; session = some r })
      × (r.total_work_seconds + accumulated_break_seconds s ≡ seconds_between s.started_at t')
unfolding checkout
check_out_on_break_counts_it m t t' u c o h =
    let (s, e, w) = working_session m.state m.session t c h in
    (
      s,
      checkout (with_break s t) t',
      e,
      break_then_check_out m s t t' u h e,
      rw (elapsed-with_break s t t') (elapsed-add-breaks s t' (IsWorking-mono o w)),
    )
