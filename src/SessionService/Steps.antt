-- ===== src/SessionService/Steps.antt =====
-- What a check-in, a break and its end make of each shape, when the transaction is committed.
use employee_monitoring_app.Prelude.{
  ℕ, ◌≤◌, ◌≡◌, ◌≢◌, refl, ap, Bool, true, false, some, List, [], ◌∷◌, ◌++◌, DateTime, arith, map,
  is_none, seconds_between,
}
use employee_monitoring_app.Session.{WorkSessionStatus, close, create_session}
use employee_monitoring_app.Machine.{
  AppState, SessionAction, SessionMachine, ok, apply, close_open_break,
}
use employee_monitoring_app.Outbox.{create, update, work_session, break_}
use employee_monitoring_app.Db.{BreakRecord, Db, IsFresh, session_row, break_row}
use employee_monitoring_app.Db.Table.{select, keys}
use employee_monitoring_app.Repositories.Sessions
use employee_monitoring_app.Repositories.Breaks
use employee_monitoring_app.SessionService.Persist.{
  Env, announce, create_row, store_break, end_break, store_resume, persist_check_in,
  persist_take_break, persist_resume, check_in, take_break, resume,
}
use employee_monitoring_app.SessionService.Restore.{break_of_row}
use employee_monitoring_app.SessionService.Lists.{
  select-append, select-and, modify-last, set_last_id-append, close_open_break-append, Sorted-snoc,
  Before-snoc, Before-mono, closed-snoc, ==-refl, map-append,
}
use employee_monitoring_app.SessionService.Shapes.{
  Live, live_row, at_work, on_a_break, open_row, Mirrored, AtRest, at_rest, break_of, open_break_of,
}

pub Mirrored-later :
    (t at : DateTime) (v : Live) (rows : List BreakRecord) (tables : Db)
    → t ≤ at
    → Mirrored t v rows
    → Mirrored at (record v { tables = tables }) rows
Mirrored-later t at v rows tables p m = record {
  fresh = m.fresh;
  only = m.only;
  mirror = m.mirror;
  none_open = m.none_open;
  closed = m.closed;
  sorted = m.sorted;
  past = Before-mono t at v.bs p m.past;
  referenced = m.referenced;
}

module _ (env : Env) (at : DateTime) (stored : env.stored ≡ true) where
  -- A check-in of a user with no session under way.
  abbrev pub started_live : ℕ → Db → Live
  started_live u db =
      let n = env.ids.next (keys db.work_sessions) in
      record {
        u = u;
        n = n;
        started = at;
        bs = [];
        old = db.work_sessions;
        tables = record db { sync_queue = announce env work_session n create db.sync_queue };
      }

  pub check_in-AtRest :
      (u : ℕ) (m : SessionMachine) (db : Db)
      → apply m SessionAction.check_in at (some u)
        ≡ ok (record { state = AppState.working; session = some (create_session u at) })
      → (check_in env at (at_rest u m db)).0 ≡ at_work (started_live u db) db.breaks
  unfolding check_in persist_check_in create_row Sessions.create create_session apply
  check_in-AtRest u m db h = rw (h, stored, ==-refl u) refl

  pub Mirrored-started : (u : ℕ) (db : Db) → AtRest u db → Mirrored at (started_live u db) db.breaks
  Mirrored-started u db r =
      let f = env.ids.next_fresh (keys db.work_sessions) in
      let none_yet = r.referenced (started_live u db).n f in
      record {
        fresh = f;
        only = r.only;
        mirror = ap (map break_of_row) none_yet;
        none_open =
            select-and (break_of (started_live u db).n) (λ b. is_none b.ended_at) _ none_yet;
        closed = tt;
        sorted = tt;
        past = tt;
        referenced = λ k f ne. r.referenced k f;
      }

  update_status-live :
      (v : Live) (s s' : WorkSessionStatus)
      → IsFresh v.n (keys v.old)
      → Sessions.update_status v.n s' (v.old ++ live_row v s ∷ []) ≡ v.old ++ live_row v s' ∷ []
  unfolding Sessions.update_status
  update_status-live v s s' f = modify-last v.n _ v.old (live_row v s) refl f

  -- A break begins.
  abbrev pub paused_live : Live → List BreakRecord → Live
  paused_live v rows = record v {
    tables = record v.tables {
      sync_queue =
          announce env break_ (env.ids.next (keys rows)) create
            (announce env work_session v.n update v.tables.sync_queue);
    };
  }

  pub take_break-working :
      (t : DateTime) (v : Live) (rows : List BreakRecord)
      → Mirrored t v rows
      → (take_break env at (at_work v rows)).0
        ≡ on_a_break (paused_live v rows) rows (env.ids.next (keys rows)) at
  unfolding take_break apply persist_take_break store_break Breaks.start
  take_break-working t v rows m =
      rw (stored, set_last_id-append, update_status-live v WorkSessionStatus.working _ m.fresh) refl

  -- A break ends.
  abbrev pub ended_row : ℕ → ℕ → DateTime → BreakRecord
  ended_row k n start = record {
    id = k;
    session_id = n;
    started_at = start;
    ended_at = some at;
    duration_seconds = seconds_between start at;
  }

  pub open_for_session-last :
      (v : Live) (rows : List BreakRecord) (k : ℕ) (start : DateTime)
      → select (open_break_of v.n) rows ≡ []
      → Breaks.open_for_session v.n (rows ++ open_row k v.n start ∷ [])
        ≡ some (open_row k v.n start)
  unfolding Breaks.open_for_session
  open_for_session-last v rows k start h =
      rw (select-append (open_break_of v.n) rows (open_row k v.n start ∷ []), h, ==-refl v.n) refl

  pub end_open-last :
      (rows : List BreakRecord) (k n : ℕ) (start : DateTime)
      → IsFresh k (keys rows)
      → Breaks.end_open k at (rows ++ open_row k n start ∷ []) ≡ rows ++ ended_row k n start ∷ []
  unfolding Breaks.end_open
  end_open-last rows k n start f = modify-last k (Breaks.end_row at) rows _ refl f

  abbrev pub resumed_live : Live → ℕ → DateTime → Live
  resumed_live v k start = record v {
    bs = v.bs ++ break_of_row (ended_row k v.n start) ∷ [];
    tables = record v.tables {
      sync_queue =
          announce env work_session v.n update (announce env break_ k update v.tables.sync_queue);
    };
  }

  pub resume-on_break :
      (v : Live) (rows : List BreakRecord) (k : ℕ) (start : DateTime)
      → Mirrored start v rows
      → IsFresh k (keys rows)
      → (resume env at (on_a_break v rows k start)).0
        ≡ at_work (resumed_live v k start) (rows ++ ended_row k v.n start ∷ [])
  unfolding resume apply persist_resume store_resume end_break close
  resume-on_break v rows k start m f =
      rw
        (
          stored,
          open_for_session-last v rows k start m.none_open,
          end_open-last rows k v.n start f,
          update_status-live v WorkSessionStatus.on_break _ m.fresh,
          close_open_break-append at v.bs (break_of_row (open_row k v.n start)) m.closed,
        )
        (unfold close_open_break in refl)

  pub select-ended :
      (p : BreakRecord → Bool) (rows : List BreakRecord) (r : BreakRecord)
      → select p rows ≡ []
      → p r ≡ false
      → select p (rows ++ r ∷ []) ≡ []
  select-ended p rows r h e = rw (select-append p rows (r ∷ []), h, e) refl

  pub other_session :
      (v : Live) (k j : ℕ) (start : DateTime) → v.n ≢ j → break_of j (ended_row k v.n start) ≡ false
  other_session v k j start h = ground arith

  pub not_open : (n k : ℕ) (start : DateTime) → open_break_of n (ended_row k n start) ≡ false
  not_open n k start = ground arith

  pub Mirrored-resumed :
      (v : Live) (rows : List BreakRecord) (k : ℕ) (start : DateTime)
      → start ≤ at
      → Mirrored start v rows
      → Mirrored at (resumed_live v k start) (rows ++ ended_row k v.n start ∷ [])
  Mirrored-resumed v rows k start p m =
      let b = break_of_row (ended_row k v.n start) in
      record {
        fresh = m.fresh;
        only = m.only;
        mirror =
            rw
              (
                select-append (break_of v.n) rows (ended_row k v.n start ∷ []),
                ==-refl v.n,
                map-append break_of_row (select (break_of v.n) rows) (ended_row k v.n start ∷ []),
                m.mirror,
              )
              refl;
        none_open = select-ended (open_break_of v.n) rows _ m.none_open (not_open v.n k start);
        closed = closed-snoc v.bs b m.closed refl;
        sorted = Sorted-snoc v.bs b m.sorted m.past;
        past = Before-snoc at v.bs b (Before-mono start at v.bs p m.past) p;
        referenced = λ j f ne.
            select-ended (break_of j) rows _ (m.referenced j f ne) (other_session v k j start ne);
      }
