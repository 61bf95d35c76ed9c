-- ===== src/Tests/Sessions.antt =====
-- The machine, the schedule and the timeline at concrete inputs.
use employee_monitoring_app.Prelude.{
  ℕ, ◌+◌, ◌≤◌, ◌≡◌, refl, none, some, List, [], ◌∷◌, seconds, seconds_between, arith,
}
use employee_monitoring_app.Session.{WorkSession, accumulated_break_seconds}
use employee_monitoring_app.Machine.{
  AppState, SessionAction, SessionMachine, new_machine, ok, transitions, apply, step,
}
use employee_monitoring_app.Machine.Table.{
  apply_follows_table, error_of, expected_error, apply_errors,
}
use employee_monitoring_app.Machine.Invariant.{IsConsistent}
use employee_monitoring_app.Machine.Traces.{
  Event, run, run-IsConsistent, check_out_accounts, check_out_on_break_counts_it,
}
use employee_monitoring_app.Schedule.{captures_due}
use employee_monitoring_app.Schedule.Catchup.{range_from, captures_due_lem}
use employee_monitoring_app.Outbox.{backoff_for_attempt}
use employee_monitoring_app.Outbox.Backoff.{backoff_mono}
use employee_monitoring_app.Timeline.{
  ActivityEvent, ActivityPeriod, input_activity_detected, idle_started, derive_timeline,
  close_open_period, sort_events,
}
use employee_monitoring_app.Timeline.Tiling.{Tiles, timeline-Tiles, total_seconds}

abbrev event : SessionAction → ℕ → Event
event a n = record { action = a; at = seconds n; user = some 7 }

-- A day with one break of 60 seconds, that is still going on.
abbrev day : List Event
day =
    event SessionAction.login 10
    ∷ event SessionAction.check_in 100
    ∷ event SessionAction.take_break 200
    ∷ event SessionAction.resume 260
    ∷ []

abbrev working_day : SessionMachine
working_day = run new_machine day

day_works : working_day.state ≡ AppState.working
unfolding run step
day_works = refl

run-IsConsistent_example : IsConsistent (seconds 300) working_day
run-IsConsistent_example = run-IsConsistent new_machine day 0 (seconds 300) (omega arith) tt

-- 200 seconds from check-in to check-out, 60 of them on a break.
check_out_accounts_example :
    (s : WorkSession) × (apply working_day SessionAction.check_out (seconds 300) none
      ≡ ok (record { state = AppState.completed; session = some s }))
    × (s.total_work_seconds + accumulated_break_seconds s
        ≡ seconds_between s.started_at (seconds 300))
    × (s.ended_at ≡ some (seconds 300))
check_out_accounts_example = check_out_accounts day (seconds 300) none (omega arith) day_works

check_out_on_break_counts_it_example :
    (s r : WorkSession) × (working_day.session ≡ some s)
    × (step
          (step working_day SessionAction.take_break (seconds 300) none)
          SessionAction.check_out
          (seconds 900)
          none
        ≡ record { state = AppState.completed; session = some r })
    × (r.total_work_seconds + accumulated_break_seconds s
        ≡ seconds_between s.started_at (seconds 900))
check_out_on_break_counts_it_example =
    check_out_on_break_counts_it working_day (seconds 300) (seconds 900) none
      run-IsConsistent_example (omega arith) day_works

apply_follows_table_example :
    transitions working_day.state SessionAction.take_break ≡ some AppState.on_break
unfolding run apply step
apply_follows_table_example =
    apply_follows_table working_day SessionAction.take_break (seconds 300) none
      {m' = step working_day SessionAction.take_break (seconds 300) none} refl

apply_errors_example :
    error_of (apply working_day SessionAction.resume (seconds 300) none)
    ≡ expected_error working_day.state SessionAction.resume none
apply_errors_example =
    apply_errors (seconds 300) working_day SessionAction.resume (seconds 300) none
      run-IsConsistent_example

-- After eight missed minutes five captures are asked for, from the next index on.
captures_due_lem_example :
    captures_due (seconds 1000) (seconds 60) (seconds 1600) 2 ≡ some (range_from 2 5)
captures_due_lem_example =
    captures_due_lem (seconds 1000) (seconds 1600) (seconds 60) 2 (omega arith)

captures_run : captures_due (seconds 1000) (seconds 60) (seconds 1200) 1 ≡ some (1 ∷ 2 ∷ [])
unfolding captures_due
captures_run = refl

backoff_mono_example :
    (d e : ℕ) × (backoff_for_attempt 3 ≡ some d)
    × (backoff_for_attempt 4 ≡ some e)
    × (d ≤ e)
    × (e ≤ 900)
backoff_mono_example = backoff_mono 2

abbrev input : ℕ → ActivityEvent
input n = record { name = input_activity_detected; happened_at = seconds n }

abbrev inputs : List ActivityEvent
inputs =
    input 400 ∷ record { name = idle_started; happened_at = seconds 350 } ∷ input 10 ∷ input 20 ∷ []

timeline-Tiles_example :
    (tl : List ActivityPeriod) × (derive_timeline inputs (seconds 300) ≡ some tl)
    × Tiles
        (seconds 900)
        (seconds 10)
        (close_open_period tl 0 (seconds 400) (seconds 900) (seconds 300))
    × (total_seconds (close_open_period tl 0 (seconds 400) (seconds 900) (seconds 300))
        ≤ seconds_between (seconds 10) (seconds 900))
unfolding sort_events
timeline-Tiles_example =
    timeline-Tiles inputs (seconds 300) 0 (seconds 10) (seconds 400) (seconds 900) (omega arith)
      refl refl (omega arith)
