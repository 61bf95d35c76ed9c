-- ===== src/Machine/Invariant.antt =====
-- What holds of the machine between two actions, when the clock does not run backwards.
use employee_monitoring_app.Prelude.{
  sym, ℕ, ◌+◌, ◌≤◌, ◌≡◌, ◌⊎◌, inl, inr, refl, Option, none, some, DateTime, arith, seconds_between,
}
use mathlib.Core.Path.{subst}
use employee_monitoring_app.Session.{
  WorkSessionStatus, WorkSession, checkout, create_session, elapsed_at, accumulated_break_seconds,
  sum_durations,
}
use employee_monitoring_app.Machine.{AppState, SessionAction, SessionMachine, transitions, step}
use employee_monitoring_app.Machine.Breaks.{
  Closed, OneOpen, nil, Closed-mono, OneOpen-mono, OneOpen-append, close_open_break-Closed,
  sum_durations-Closed, sum_durations-OneOpen,
}

-- The session under way: its status is the state's, it has no end, and its breaks are in order.
pub record IsWorking (t : DateTime) (s : WorkSession) : Type 0 where
  pub status : s.status ≡ WorkSessionStatus.working
  pub unended : s.ended_at ≡ none
  pub breaks : Closed t s.started_at s.breaks

pub record IsOnBreak (t : DateTime) (s : WorkSession) : Type 0 where
  pub status : s.status ≡ WorkSessionStatus.on_break
  pub unended : s.ended_at ≡ none
  pub breaks : OneOpen t s.started_at s.breaks

-- The session that was checked out at `ended`: a break may have been left open, and the frozen total
-- and the closed breaks fill the span from the check-in.
pub record IsCompleted (t : DateTime) (s : WorkSession) : Type 0 where
  pub status : s.status ≡ WorkSessionStatus.completed
  pub ended : DateTime
  pub ended_at : s.ended_at ≡ some ended
  pub past : ended ≤ t
  pub breaks : Closed ended s.started_at s.breaks ⊎ OneOpen ended s.started_at s.breaks
  pub total :
      s.total_work_seconds + accumulated_break_seconds s ≡ seconds_between s.started_at ended

-- The state and the session fit together at time `t`.
abbrev pub Fits : DateTime → AppState → Option WorkSession → Type 0
Fits t AppState.logged_out none = Unit
Fits t AppState.logged_out (some s) = ⊥
Fits t AppState.ready none = Unit
Fits t AppState.ready (some s) = IsCompleted t s
Fits t AppState.working none = ⊥
Fits t AppState.working (some s) = IsWorking t s
Fits t AppState.on_break none = ⊥
Fits t AppState.on_break (some s) = IsOnBreak t s
Fits t AppState.completed none = ⊥
Fits t AppState.completed (some s) = IsCompleted t s

abbrev pub IsConsistent : DateTime → SessionMachine → Type 0
IsConsistent t m = Fits t m.state m.session

pub IsWorking-mono : {t at : DateTime} {s : WorkSession} → t ≤ at → IsWorking t s → IsWorking at s
IsWorking-mono h w = record {
  status = w.status;
  unended = w.unended;
  breaks = Closed-mono h w.breaks;
}

IsCompleted-mono : {t at : DateTime} {s : WorkSession} → t ≤ at → IsCompleted t s → IsCompleted at s
IsCompleted-mono h c = record {
  status = c.status;
  ended = c.ended;
  ended_at = c.ended_at;
  past = omega (arith, h, c.past);
  breaks = c.breaks;
  total = c.total;
}

Fits-mono :
    {t at : DateTime} (st : AppState) (s : Option WorkSession) → t ≤ at → Fits t st s → Fits at st s
Fits-mono AppState.logged_out none h f = f
Fits-mono AppState.logged_out (some s) h f = f
Fits-mono AppState.ready none h f = f
Fits-mono AppState.ready (some s) h f = IsCompleted-mono h f
Fits-mono AppState.working none h f = f
Fits-mono AppState.working (some s) h f = record {
  status = f.status;
  unended = f.unended;
  breaks = Closed-mono h f.breaks;
}
Fits-mono AppState.on_break none h f = f
Fits-mono AppState.on_break (some s) h f = record {
  status = f.status;
  unended = f.unended;
  breaks = OneOpen-mono h f.breaks;
}
Fits-mono AppState.completed none h f = f
Fits-mono AppState.completed (some s) h f = IsCompleted-mono h f

pub IsConsistent-mono :
    {t at : DateTime} (m : SessionMachine) → t ≤ at → IsConsistent t m → IsConsistent at m
IsConsistent-mono m h f = Fits-mono m.state m.session h f

IsWorking-create_session : (u : ℕ) (at : DateTime) → IsWorking at (create_session u at)
unfolding create_session
IsWorking-create_session u at = record { status = refl; unended = refl; breaks = nil (omega arith) }

-- A check-out whose breaks last no longer than the time since the check-in
checkout-IsCompleted :
    (s : WorkSession) (at : DateTime)
    → Closed at s.started_at s.breaks ⊎ OneOpen at s.started_at s.breaks
    → sum_durations s.breaks ≤ seconds_between s.started_at at
    → IsCompleted at (checkout s at)
unfolding checkout elapsed_at accumulated_break_seconds
checkout-IsCompleted s at b h = record {
  status = refl;
  ended = at;
  ended_at = refl;
  past = omega arith;
  breaks = b;
  total = omega (arith, h);
}

working-IsCompleted :
    {t : DateTime} (s : WorkSession) (at : DateTime)
    → t ≤ at
    → IsWorking t s
    → IsCompleted at (checkout s at)
working-IsCompleted s at h w =
    let c = Closed-mono h w.breaks in checkout-IsCompleted s at (inl c) (sum_durations-Closed c)

on_break-IsCompleted :
    {t : DateTime} (s : WorkSession) (at : DateTime)
    → t ≤ at
    → IsOnBreak t s
    → IsCompleted at (checkout s at)
on_break-IsCompleted s at h w =
    let c = OneOpen-mono h w.breaks in checkout-IsCompleted s at (inr c) (sum_durations-OneOpen c).1

-- Without a user the check-in after a completed session raises.
step-check_in_refused :
    (st : AppState) (s : WorkSession) (at : DateTime)
    → s.status ≡ WorkSessionStatus.completed
    → let m : SessionMachine = record { state = st; session = some s } in
      step m SessionAction.check_in at none ≡ m
unfolding step
step-check_in_refused st s at h = ground arith

-- With a user it starts a distinct session.
step-check_in_fresh :
    (st : AppState) (s : WorkSession) (at : DateTime) (u : ℕ)
    → s.status ≡ WorkSessionStatus.completed
    → transitions st SessionAction.check_in ≡ some AppState.working
    → step (record { state = st; session = some s }) SessionAction.check_in at (some u)
      ≡ record { state = AppState.working; session = some (create_session u at) }
unfolding step
step-check_in_fresh st s at u h k = ground arith

-- One action at a later time keeps the fit, accepted or not.
step-Fits :
    (st : AppState) (s : Option WorkSession) (a : SessionAction) {t : DateTime} (at : DateTime)
    (u : Option ℕ)
    → t ≤ at
    → Fits t st s
    → IsConsistent at (step (record { state = st; session = s }) a at u)
unfolding step
step-Fits AppState.logged_out s SessionAction.login at u h f = tt
step-Fits AppState.ready none SessionAction.check_in at none h f = tt
step-Fits AppState.ready none SessionAction.check_in at (some u) h f = IsWorking-create_session u at
step-Fits AppState.ready (some s) SessionAction.check_in at none h f =
    subst (IsConsistent at) (sym (step-check_in_refused AppState.ready s at f.status))
      (IsCompleted-mono h f)
step-Fits AppState.ready (some s) SessionAction.check_in at (some u) h f =
    subst (IsConsistent at) (sym (step-check_in_fresh AppState.ready s at u f.status refl))
      (IsWorking-create_session u at)
step-Fits AppState.ready s SessionAction.logout at u h f = tt
step-Fits AppState.working none a at u h f = absurd f
step-Fits AppState.working (some s) SessionAction.check_out at u h f = working-IsCompleted s at h f
step-Fits AppState.working (some s) SessionAction.take_break at u h f = record {
  status = refl;
  unended = f.unended;
  breaks = OneOpen-append _ refl refl refl h f.breaks;
}
step-Fits AppState.on_break none a at u h f = absurd f
step-Fits AppState.on_break (some s) SessionAction.check_out at u h f =
    on_break-IsCompleted s at h f
step-Fits AppState.on_break (some s) SessionAction.resume at u h f = record {
  status = refl;
  unended = f.unended;
  breaks = close_open_break-Closed h f.breaks;
}
step-Fits AppState.completed none a at u h f = absurd f
step-Fits AppState.completed (some s) SessionAction.check_in at none h f =
    subst (IsConsistent at) (sym (step-check_in_refused AppState.completed s at f.status))
      (IsCompleted-mono h f)
step-Fits AppState.completed (some s) SessionAction.check_in at (some u) h f =
    subst (IsConsistent at) (sym (step-check_in_fresh AppState.completed s at u f.status refl))
      (IsWorking-create_session u at)
step-Fits AppState.completed s SessionAction.logout at u h f = tt
step-Fits st s _ at u h f = Fits-mono st s h f

pub step-IsConsistent :
    (m : SessionMachine) (a : SessionAction) {t : DateTime} (at : DateTime) (u : Option ℕ)
    → t ≤ at
    → IsConsistent t m
    → IsConsistent at (step m a at u)
step-IsConsistent m a at u h f = step-Fits m.state m.session a at u h f
