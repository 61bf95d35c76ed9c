-- ===== src/SessionService/View.antt =====
-- The projection: SessionView, tick, and the three methods that it asks.
use employee_monitoring_app.Prelude.{
  ℕ, ◌/◌, Bool, true, false, Option, none, some, List, [], ◌∷◌, DateTime, seconds_between, ◌==◌,
  ◌&&◌, if◌then◌else◌,
}
use employee_monitoring_app.Session.{
  Break, WorkSession, is_open, accumulated_break_seconds, elapsed_work_seconds,
}
use employee_monitoring_app.Machine.{AppState, SessionAction, SessionMachine, can}
use employee_monitoring_app.Timeline.{ActivityState, active}
use employee_monitoring_app.ActivityService.Base.{ActivityService, Tracker}
use employee_monitoring_app.ActivityService.Ticks.{current_state, get_breakdown}
use employee_monitoring_app.SessionService.Whole.{App}

pub record SessionView : Type 0 where
  pub state : AppState
  pub activity_state : ActivityState
  pub elapsed_work_seconds : ℕ
  pub elapsed_break_seconds : ℕ
  pub checked_out_at : Option DateTime
  pub active_minutes : ℕ
  pub idle_minutes : ℕ
  pub break_minutes : ℕ
  pub can_check_in : Bool
  pub can_take_break : Bool
  pub can_resume : Bool
  pub can_check_out : Bool
  pub ticking : Bool

-- Whether the two queries of the activity service go through.
pub record Reads : Type 0 where
  pub state : Bool
  pub rows : Bool

abbrev pub tracker_of : ActivityService → App → Tracker
tracker_of s a = record { service = s; db = a.session.db }

-- _resolve_activity_state
unfoldable pub resolve_activity_state : Bool → DateTime → AppState → App → ActivityState
resolve_activity_state readable now AppState.working a = elim a.activity [
  | none ↦ active
  | some s ↦ current_state readable now (tracker_of s a)
]
resolve_activity_state readable now _ a = active

-- The minutes without periods: those of the total, where there is one.
abbrev pub minutes_of_total : Option ℕ → ℕ × ℕ
minutes_of_total none = (0, 0)
minutes_of_total (some total) = (total / 60, 0)

abbrev pub minutes_of_periods : Option ℕ → ℕ × ℕ → ℕ × ℕ
minutes_of_periods none (active_s, idle_s) = (active_s / 60, idle_s / 60)
minutes_of_periods (some total) (active_s, idle_s) =
    if (active_s == 0) && (idle_s == 0) then (total / 60, 0) else (active_s / 60, idle_s / 60)

breakdown_of : Bool → DateTime → Option ℕ → Option ActivityService → Option ℕ → App → ℕ × ℕ
breakdown_of readable now total none id a = minutes_of_total total
breakdown_of readable now total (some s) none a = minutes_of_total total
breakdown_of readable now total (some s) (some n) a =
    minutes_of_periods total (get_breakdown readable n now (tracker_of s a))

-- _resolve_breakdown; the last argument but one is `total_override`.
unfoldable pub resolve_breakdown : Bool → WorkSession → DateTime → Option ℕ → App → ℕ × ℕ
unfolding breakdown_of
resolve_breakdown readable s now total a = breakdown_of readable now total a.activity s.id a

-- The first open break of the reversed list.
unfoldable pub last_open : List Break → Option Break
last_open [] = none
last_open (b ∷ bs) = elim (last_open bs) [
  | none ↦ if is_open b then some b else none
  | some c ↦ some c
]

-- _open_break_elapsed
unfoldable pub open_break_elapsed : WorkSession → DateTime → ℕ
unfolding last_open
open_break_elapsed s now = elim (last_open s.breaks) [
  | none ↦ 0
  | some b ↦ seconds_between b.started_at now
]

abbrev pub is_under_way : AppState → Bool
is_under_way AppState.working = true
is_under_way AppState.on_break = true
is_under_way _ = false

-- The view without a session.
abbrev pub bare_view : ActivityState → SessionMachine → SessionView
bare_view activity m = record {
  state = m.state;
  activity_state = activity;
  elapsed_work_seconds = 0;
  elapsed_break_seconds = 0;
  checked_out_at = none;
  active_minutes = 0;
  idle_minutes = 0;
  break_minutes = 0;
  can_check_in = can m SessionAction.check_in;
  can_take_break = can m SessionAction.take_break;
  can_resume = can m SessionAction.resume;
  can_check_out = can m SessionAction.check_out;
  ticking = is_under_way m.state;
}

unfoldable pub completed_view :
    Reads → DateTime → ActivityState → SessionMachine → WorkSession → App → SessionView
unfolding resolve_breakdown
completed_view reads now activity m s a =
    let (active_m, idle_m) = resolve_breakdown reads.rows s now (some s.total_work_seconds) a in
    record (bare_view activity m) {
      elapsed_work_seconds = s.total_work_seconds;
      checked_out_at = s.ended_at;
      active_minutes = active_m;
      idle_minutes = idle_m;
      break_minutes = accumulated_break_seconds s / 60;
      can_take_break = false;
      can_resume = false;
      can_check_out = false;
      ticking = false;
    }

unfoldable pub working_view :
    Reads → DateTime → ActivityState → SessionMachine → WorkSession → App → SessionView
unfolding resolve_breakdown
working_view reads now activity m s a =
    let (active_m, idle_m) = resolve_breakdown reads.rows s now none a in
    record (bare_view activity m) {
      elapsed_work_seconds = elapsed_work_seconds s now;
      active_minutes = active_m;
      idle_minutes = idle_m;
      can_check_in = false;
      can_resume = false;
      ticking = true;
    }

unfoldable pub break_view : DateTime → ActivityState → SessionMachine → WorkSession → SessionView
unfolding open_break_elapsed
break_view now activity m s = record (bare_view activity m) {
  elapsed_work_seconds = elapsed_work_seconds s now;
  elapsed_break_seconds = open_break_elapsed s now;
  can_check_in = false;
  can_take_break = false;
  ticking = true;
}

unfoldable pub view_of :
    Reads → DateTime → ActivityState → AppState → Option WorkSession → App → SessionView
unfolding completed_view working_view break_view
view_of reads now activity AppState.completed (some s) a =
    completed_view reads now activity a.session.machine s a
view_of reads now activity AppState.working (some s) a =
    working_view reads now activity a.session.machine s a
view_of reads now activity AppState.on_break (some s) a =
    break_view now activity a.session.machine s
view_of reads now activity _ _ a = bare_view activity a.session.machine

-- tick
unfoldable pub tick : Reads → DateTime → App → SessionView
unfolding view_of resolve_activity_state
tick reads now a =
    let m = a.session.machine in
    view_of reads now (resolve_activity_state reads.state now m.state a) m.state m.session a
