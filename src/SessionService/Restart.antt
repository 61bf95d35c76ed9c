-- ===== src/SessionService/Restart.antt =====
-- A restart: the machine that restore_session rebuilds is the one that was lost.
use employee_monitoring_app.Prelude.{
  ℕ, ◌≡◌, refl, Bool, true, false, some, List, [], ◌∷◌, ◌++◌, DateTime, arith, map, if◌then◌else◌,
}
use employee_monitoring_app.Session.{WorkSessionStatus, Break}
use employee_monitoring_app.Machine.{AppState, SessionMachine, new_machine, restore}
use employee_monitoring_app.Db.{BreakRecord, Db, session_row, break_row}
use employee_monitoring_app.Db.Table.{select}
use employee_monitoring_app.Repositories.Sessions.{is_unfinished, get_active, latest}
use employee_monitoring_app.SessionService.Persist.{SessionService}
use employee_monitoring_app.SessionService.Restore.{break_of_row, restore_session, orm_to_domain}
use employee_monitoring_app.SessionService.Lists.{
  Sorted, select-append, map-append, ==-refl, Sorted-snoc, order_by-Sorted,
}
use employee_monitoring_app.SessionService.Shapes.{
  Live, live_row, live_session, live_service, open_row, AtRest, at_rest, Shape, ready, completed,
  working, on_break, unfinished_of, break_of,
}

-- The service of a new process: the user and the database, and a machine that has seen nothing.
abbrev pub restarted : SessionService → SessionService
restarted a = record a { machine = new_machine }

unfinished_of-live :
    (v : Live) (status : WorkSessionStatus)
    → is_unfinished status ≡ true
    → unfinished_of v.u (live_row v status) ≡ true
unfinished_of-live v status h = ground arith

get_active-live :
    (v : Live) (status : WorkSessionStatus)
    → is_unfinished status ≡ true
    → select (unfinished_of v.u) v.old ≡ []
    → get_active v.u (v.old ++ live_row v status ∷ []) ≡ some (live_row v status)
unfolding get_active latest
get_active-live v status h o =
    rw
      (
        select-append (unfinished_of v.u) v.old (live_row v status ∷ []),
        o,
        unfinished_of-live v status h,
      )
      refl

orm_to_domain-live :
    (v : Live) (status : WorkSessionStatus) (bs : List Break) (rows : List BreakRecord)
    → map break_of_row (select (break_of v.n) rows) ≡ bs
    → Sorted bs
    → orm_to_domain (live_row v status) rows ≡ live_session v status bs
unfolding orm_to_domain
orm_to_domain-live v status bs rows m s = rw (m, order_by-Sorted bs s) refl

restore-live :
    (v : Live) (state : AppState) (status : WorkSessionStatus) (bs : List Break)
    (rows : List BreakRecord)
    → is_unfinished status ≡ true
    → select (unfinished_of v.u) v.old ≡ []
    → map break_of_row (select (break_of v.n) rows) ≡ bs
    → Sorted bs
    → let a = live_service v state status bs rows in
      restore_session true (restarted a)
      ≡ (record a { machine = restore (live_session v status bs) }, true)
unfolding restore_session
restore-live v state status bs rows h o m s =
    rw (get_active-live v status h o, orm_to_domain-live v status bs rows m s) refl

-- On a break the last row is that of the break, which began after the others.
map-break_of-last :
    (v : Live) (rows : List BreakRecord) (k : ℕ) (at : DateTime)
    → map break_of_row (select (break_of v.n) rows) ≡ v.bs
    → map break_of_row (select (break_of v.n) (rows ++ open_row k v.n at ∷ []))
      ≡ v.bs ++ break_of_row (open_row k v.n at) ∷ []
map-break_of-last v rows k at m =
    rw
      (
        select-append (break_of v.n) rows (open_row k v.n at ∷ []),
        ==-refl v.n,
        map-append break_of_row (select (break_of v.n) rows) (open_row k v.n at ∷ []),
        m,
      )
      refl

abbrev pub under_way : AppState → Bool
under_way AppState.working = true
under_way AppState.on_break = true
under_way _ = false

restore-AtRest :
    (u : ℕ) (m : SessionMachine) (db : Db)
    → AtRest u db
    → restore_session true (restarted (at_rest u m db)) ≡ (restarted (at_rest u m db), false)
unfolding restore_session get_active latest
restore-AtRest u m db r = rw r.only refl

-- What a restart finds in each shape.
pub restore-Shape :
    (u : ℕ) (t : DateTime) (a : SessionService)
    → Shape u t a
    → restore_session true (restarted a)
      ≡ (if under_way a.machine.state then (a, true) else (restarted a, false))
unfolding restore
restore-Shape u t a (ready db r e) = rw (e, restore-AtRest u _ db r) refl
restore-Shape u t a (completed s db c r e) = rw (e, restore-AtRest u _ db r) refl
restore-Shape u t a (working v rows w m e) =
    rw
      (
        e,
        restore-live v AppState.working WorkSessionStatus.working v.bs rows refl m.only m.mirror
            m.sorted,
      )
      refl
restore-Shape u t a (on_break v rows k at w m h f e) =
    rw
      (
        e,
        restore-live v AppState.on_break WorkSessionStatus.on_break _ _ refl m.only
            (map-break_of-last v rows k at m.mirror) (Sorted-snoc v.bs _ m.sorted m.past),
      )
      refl
