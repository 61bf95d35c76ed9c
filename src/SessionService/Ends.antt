-- ===== src/SessionService/Ends.antt =====
-- The check-out, from work or from a break, when its transaction is committed.
use employee_monitoring_app.Prelude.{
  ℕ, ◌≡◌, ◌≢◌, refl, true, none, some, List, [], ◌∷◌, ◌++◌, DateTime, arith,
}
use employee_monitoring_app.Session.{WorkSessionStatus, WorkSession, checkout}
use employee_monitoring_app.Machine.{AppState, SessionMachine, apply}
use employee_monitoring_app.Outbox.{update, work_session, break_}
use employee_monitoring_app.Db.{
  SessionRow, BreakRecord, SyncQueueItem, IsFresh, session_row, break_row,
}
use employee_monitoring_app.Db.Table.{select, keys}
use employee_monitoring_app.Repositories.Sessions
use employee_monitoring_app.Repositories.Breaks
use employee_monitoring_app.SessionService.Persist.{
  Env, announce, end_break, store_check_out, persist_check_out, check_out,
}
use employee_monitoring_app.SessionService.Restore.{break_of_row}
use employee_monitoring_app.SessionService.Lists.{select-append, modify-last, IsFresh-append}
use employee_monitoring_app.SessionService.Steps.{ended_row, open_for_session-last, end_open-last}
use employee_monitoring_app.SessionService.Shapes.{
  Live, live_row, live_session, at_work, on_a_break, open_row, Mirrored, AtRest, at_rest,
  unfinished_of, break_of, open_break_of,
}

module _ (env : Env) (at : DateTime) (stored : env.stored ≡ true) where
  -- The session ends.
  abbrev pub done_row : Live → ℕ → SessionRow
  done_row v total = record {
    id = v.n;
    user_id = v.u;
    started_at = v.started;
    ended_at = some at;
    status = WorkSessionStatus.completed;
    total_work_seconds = total;
  }

  checkout-live :
      (v : Live) (s : WorkSessionStatus) (total : ℕ)
      → IsFresh v.n (keys v.old)
      → Sessions.checkout v.n at total (v.old ++ live_row v s ∷ []) ≡ v.old ++ done_row v total ∷ []
  unfolding Sessions.checkout
  checkout-live v s total f = modify-last v.n _ v.old (live_row v s) refl f

  pub AtRest-done :
      (v : Live) (total : ℕ) (rows : List BreakRecord) (queue : List SyncQueueItem)
      → select (unfinished_of v.u) v.old ≡ []
      → ((k : ℕ) → IsFresh k (keys v.old) → v.n ≢ k → select (break_of k) rows ≡ [])
      → AtRest v.u (record v.tables {
        work_sessions = v.old ++ done_row v total ∷ [];
        breaks = rows;
        sync_queue = queue;
      })
  AtRest-done v total rows queue o r = record {
    only = rw (select-append (unfinished_of v.u) v.old (done_row v total ∷ []), o) (ground arith);
    referenced = λ k f. let (a, b) = IsFresh-append k v.old (done_row v total) f in r k a b;
  }

  abbrev pub done_session : WorkSession → WorkSession
  done_session s = record (checkout s at) { status = WorkSessionStatus.completed }

  abbrev pub done_machine : WorkSession → SessionMachine
  done_machine s = record { state = AppState.completed; session = some (done_session s) }

  open_for_session-none :
      (n : ℕ) (rows : List BreakRecord)
      → select (open_break_of n) rows ≡ []
      → Breaks.open_for_session n rows ≡ none
  unfolding Breaks.open_for_session
  open_for_session-none n rows h = rw h refl

  pub check_out-working :
      (t : DateTime) (v : Live) (rows : List BreakRecord)
      → Mirrored t v rows
      → let s = live_session v WorkSessionStatus.working v.bs in
        (check_out env at (at_work v rows)).0
        ≡ at_rest v.u (done_machine s) (record v.tables {
          work_sessions = v.old ++ done_row v (checkout s at).total_work_seconds ∷ [];
          breaks = rows;
          sync_queue = announce env work_session v.n update v.tables.sync_queue;
        })
  unfolding check_out apply persist_check_out store_check_out end_break checkout
  check_out-working t v rows m =
      rw
        (
          stored,
          open_for_session-none v.n rows m.none_open,
          checkout-live v WorkSessionStatus.working _ m.fresh,
        )
        refl

  pub check_out-on_break :
      (v : Live) (rows : List BreakRecord) (k : ℕ) (start : DateTime)
      → Mirrored start v rows
      → IsFresh k (keys rows)
      → let s =
          live_session v WorkSessionStatus.on_break
            (v.bs ++ break_of_row (open_row k v.n start) ∷ []) in
        (check_out env at (on_a_break v rows k start)).0
        ≡ at_rest v.u (done_machine s) (record v.tables {
          work_sessions = v.old ++ done_row v (checkout s at).total_work_seconds ∷ [];
          breaks = rows ++ ended_row env at stored k v.n start ∷ [];
          sync_queue =
              announce env work_session v.n update
                (announce env break_ k update v.tables.sync_queue);
        })
  unfolding check_out apply persist_check_out store_check_out end_break checkout
  check_out-on_break v rows k start m f =
      rw
        (
          stored,
          open_for_session-last env at stored v rows k start m.none_open,
          end_open-last env at stored rows k v.n start f,
          checkout-live v WorkSessionStatus.on_break _ m.fresh,
        )
        refl
