-- ===== src/ActivityService/Open.antt =====
-- How many periods of a session are open, before and after the statements of the service.
use employee_monitoring_app.Prelude.{
  ℕ, ◌+◌, ◌≤◌, ◌≡◌, refl, inl, inr, Bool, Option, none, some, List, [], ◌∷◌, ◌++◌, DateTime, arith,
  length, is_none, ◌==◌, ◌&&◌, if◌then◌else◌, Bool-cases, Option-cases,
}
use employee_monitoring_app.Timeline.{ActivityState, active, idle}
use employee_monitoring_app.Db.{ActivityPeriodRecord, Db, period_row}
use employee_monitoring_app.Db.Table.{select, modify}
use employee_monitoring_app.Repositories.Activity.{
  append, end_row, open_for_session, close_open_for_session,
}
use employee_monitoring_app.ActivityService.Base.{
  Env, enqueue_period, add_period, enqueue_closed, close_period, turn_idle,
}
use employee_monitoring_app.ActivityService.Ticks.{synthesize_idle}

-- The open periods of a session.
abbrev pub is_open_of : ℕ → ActivityPeriodRecord → Bool
is_open_of j r = r.session_id == j && is_none r.ended_at

abbrev pub open_count : ℕ → List ActivityPeriodRecord → ℕ
open_count j rows = length (select (is_open_of j) rows)

-- No session has two open periods.
abbrev pub AtMostOne : Db → Type 0
AtMostOne db = (j : ℕ) → open_count j db.activity_periods ≤ 1

open_count-append :
    (j : ℕ) (rows : List ActivityPeriodRecord) (r : ActivityPeriodRecord)
    → open_count j (rows ++ r ∷ []) ≡ open_count j rows + (if is_open_of j r then 1 else 0)
open_count-append j [] r = ground arith
open_count-append j (s ∷ rows) r = ground (arith, open_count-append j rows r)

-- Ending rows opens none.
open_count-modify :
    (j n : ℕ) (at : DateTime) (rows : List ActivityPeriodRecord)
    → open_count j (modify n (end_row at) rows) ≤ open_count j rows
open_count-modify j n at [] = omega arith
open_count-modify j n at (r ∷ rows) = ground (arith, open_count-modify j n at rows)

pub open_count-none :
    (j : ℕ) (rows : List ActivityPeriodRecord)
    → open_for_session j rows ≡ none
    → open_count j rows ≡ 0
unfolding open_for_session
open_count-none j [] h = refl
open_count-none j (r ∷ rows) h = ground (arith, open_count-none j rows)

-- Ending the first open row of a session that has at most one leaves none.
open_count-end_first :
    (j : ℕ) (at : DateTime) (rows : List ActivityPeriodRecord) (r : ActivityPeriodRecord)
    → open_for_session j rows ≡ some r
    → open_count j rows ≤ 1
    → open_count j (modify r.id (end_row at) rows) ≡ 0
unfolding open_for_session
open_count-end_first j at [] r h c = cc
open_count-end_first j at (s ∷ rows) r h c = elim (Bool-cases (is_open_of j s)) [
  | inl o ↦ ground (arith, open_count-modify j r.id at rows)
  | inr o ↦ ground (arith, open_count-end_first j at rows r)
]

-- The end of the open period of a session.
open_count-close :
    (j k : ℕ) (at : DateTime) (rows : List ActivityPeriodRecord)
    → open_count k (close_open_for_session j at rows).0 ≤ open_count k rows
unfolding close_open_for_session
open_count-close j k at rows = elim (Option-cases (open_for_session j rows)) [
  | inl e ↦ rw (e, close_open_for_session) (omega arith)
  | inr (r, e) ↦ rw (e, close_open_for_session) (open_count-modify k r.id at rows)
]

open_count-close_self :
    (j : ℕ) (at : DateTime) (rows : List ActivityPeriodRecord)
    → open_count j rows ≤ 1
    → open_count j (close_open_for_session j at rows).0 ≡ 0
unfolding close_open_for_session
open_count-close_self j at rows c = elim (Option-cases (open_for_session j rows)) [
  | inl e ↦ rw (e, close_open_for_session) (open_count-none j rows e)
  | inr (r, e) ↦ rw (e, close_open_for_session) (open_count-end_first j at rows r e c)
]

activity_periods-enqueue_closed :
    (env : Env) (o : Option ActivityPeriodRecord) (db : Db)
    → (enqueue_closed env o db).activity_periods ≡ db.activity_periods
unfolding enqueue_closed enqueue_period
activity_periods-enqueue_closed env none db = refl
activity_periods-enqueue_closed env (some r) db = refl

activity_periods-close_period :
    (env : Env) (sid : ℕ) (at : DateTime) (db : Db)
    → (close_period env sid at db).activity_periods
      ≡ (close_open_for_session sid at db.activity_periods).0
unfolding close_period
activity_periods-close_period env sid at db = activity_periods-enqueue_closed env _ _

pub close_period-AtMostOne :
    (env : Env) (sid : ℕ) (at : DateTime) (db : Db)
    → AtMostOne db
    → AtMostOne (close_period env sid at db)
close_period-AtMostOne env sid at db h j =
    rw (activity_periods-close_period env sid at db)
      (omega (arith, open_count-close sid j at db.activity_periods, h j))

pub close_period-none_open :
    (env : Env) (sid : ℕ) (at : DateTime) (db : Db)
    → AtMostOne db
    → open_count sid (close_period env sid at db).activity_periods ≡ 0
close_period-none_open env sid at db h =
    rw (activity_periods-close_period env sid at db)
      (open_count-close_self sid at db.activity_periods (h sid))

open_count-add_period :
    (env : Env) (sid j : ℕ) (st : ActivityState) (a : DateTime) (e : Option DateTime) (db : Db)
    → open_count j (add_period env sid st a e db).activity_periods
      ≡ open_count j db.activity_periods + (if sid == j && is_none e then 1 else 0)
unfolding add_period enqueue_period append
open_count-add_period env sid j st a e db = open_count-append j db.activity_periods _

-- A new period of a session with no open one.
pub add_period-AtMostOne :
    (env : Env) (sid : ℕ) (st : ActivityState) (a : DateTime) (e : Option DateTime) (db : Db)
    → AtMostOne db
    → open_count sid db.activity_periods ≡ 0
    → AtMostOne (add_period env sid st a e db)
add_period-AtMostOne env sid st a e db h z j =
    rw (open_count-add_period env sid j st a e db) (elim (Bool-cases (sid == j)) [
      | inl q ↦
          let same : sid ≡ j = ground arith in
          let z' : open_count j db.activity_periods ≡ 0 = rw same at z in ground arith
      | inr q ↦ ground (arith, h j)
    ])

pub turn_idle-AtMostOne :
    (env : Env) (sid : ℕ) (at : DateTime) (db : Db)
    → AtMostOne db
    → AtMostOne (turn_idle env sid at db)
unfolding turn_idle
turn_idle-AtMostOne env sid at db h =
    add_period-AtMostOne env sid idle at none (close_period env sid at db)
      (close_period-AtMostOne env sid at db h) (close_period-none_open env sid at db h)

-- The end of the open period and the start of an ACTIVE one.
pub restart-AtMostOne :
    (env : Env) (sid : ℕ) (at : DateTime) (db : Db)
    → AtMostOne db
    → AtMostOne (add_period env sid active at none (close_period env sid at db))
restart-AtMostOne env sid at db h =
    add_period-AtMostOne env sid active at none (close_period env sid at db)
      (close_period-AtMostOne env sid at db h) (close_period-none_open env sid at db h)

pub synthesize_idle-AtMostOne :
    (env : Env) (sid : ℕ) (start at : DateTime) (db : Db)
    → AtMostOne db
    → AtMostOne (synthesize_idle env sid start at db)
unfolding synthesize_idle
synthesize_idle-AtMostOne env sid start at db h =
    let c = close_period env sid start db in
    let z = close_period-none_open env sid start db h in
    add_period-AtMostOne env sid active at none (add_period env sid idle start (some at) c)
      (add_period-AtMostOne env sid idle start (some at) c
        (close_period-AtMostOne env sid start db h) z)
      (ground (arith, open_count-add_period env sid sid idle start (some at) c))
