-- ===== src/SessionService/Persist.antt =====
-- The four actions and their _persist_ methods.
use employee_monitoring_app.Prelude.{
  ℕ, Bool, false, Option, none, some, List, [], ◌∷◌, DateTime, is_none, not, opt_eq, if◌then◌else◌,
}
use employee_monitoring_app.Session.{WorkSessionStatus, Break, WorkSession}
use employee_monitoring_app.Machine.{
  SessionAction, SessionMachine, Error, ok, err, requires_user, apply,
}
use employee_monitoring_app.Outbox.{
  SyncOperation, SyncEntityType, create, update, work_session, break_,
}
use employee_monitoring_app.Db.{BreakRecord, SyncQueueItem, Db, KeySource, session_row, break_row}
use employee_monitoring_app.Db.Table.{get, keys}
use employee_monitoring_app.Repositories.Queue.{enqueue}
use employee_monitoring_app.Repositories.Sessions
use employee_monitoring_app.Repositories.Breaks

-- SessionService with the database that it writes to; `session_factory` is false where none is bound.
pub record SessionService : Type 0 where
  pub session_factory : Bool
  pub user_id : Option ℕ
  pub machine : SessionMachine
  pub db : Db

-- The keys of new rows, the time they are stamped with, and whether the transaction is committed.
pub record Env : Type 0 where
  pub ids : KeySource
  pub now : DateTime
  pub stored : Bool

abbrev pub announce :
    Env → SyncEntityType → ℕ → SyncOperation → List SyncQueueItem → List SyncQueueItem
announce env entity n op rows = enqueue env.ids env.now entity n op rows

abbrev pub with_session : SessionService → WorkSession → SessionService
with_session a s = record a { machine = record a.machine { session = some s } }

-- Has the session a row already?
abbrev pub is_stored : Option ℕ → Db → Bool
is_stored none db = false
is_stored (some n) db = not (is_none (get n db.work_sessions))

-- A row for the session, with its outbox row; the session takes the key.
unfoldable pub create_row : Env → DateTime → WorkSession → SessionService → SessionService
create_row env at s a =
    let n = env.ids.next (keys a.db.work_sessions) in
    with_session
      (record a {
        db = record a.db {
          work_sessions = Sessions.create env.ids s.user_id at a.db.work_sessions;
          sync_queue = announce env work_session n create a.db.sync_queue;
        };
      })
      (record s { id = some n })

check_in_session : Env → DateTime → Option WorkSession → SessionService → SessionService
unfolding create_row
check_in_session env at none a = a
check_in_session env at (some s) a =
    if opt_eq (some s.user_id) a.user_id
    then (if is_stored s.id a.db then a else create_row env at s a)
    else a

-- _persist_check_in
unfoldable pub persist_check_in : Env → DateTime → SessionService → SessionService
unfolding check_in_session
persist_check_in env at a =
    if a.session_factory
    then (if env.stored then check_in_session env at a.machine.session a else a)
    else a

-- The key of the session, if it has one.
abbrev pub key_of : Option WorkSession → Option (WorkSession × ℕ)
key_of none = none
key_of (some s) = elim s.id [ none ↦ none | some n ↦ some (s, n) ]

-- The last break takes the key of its row, if it has none.
abbrev pub with_key : ℕ → Break → Break
with_key k b = elim b.id [ none ↦ record b { id = some k } | some _ ↦ b ]

unfoldable pub set_last_id : ℕ → List Break → List Break
set_last_id k [] = []
set_last_id k (b ∷ []) = with_key k b ∷ []
set_last_id k (b ∷ c ∷ bs) = b ∷ set_last_id k (c ∷ bs)

unfoldable pub store_break : Env → DateTime → WorkSession → ℕ → SessionService → SessionService
unfolding set_last_id
store_break env at s n a =
    let k = env.ids.next (keys a.db.breaks) in
    with_session
      (record a {
        db = record a.db {
          work_sessions = Sessions.update_status n WorkSessionStatus.on_break a.db.work_sessions;
          breaks = Breaks.start env.ids n at a.db.breaks;
          sync_queue =
              announce env break_ k create (announce env work_session n update a.db.sync_queue);
        };
      })
      (record s { breaks = set_last_id k s.breaks })

-- _persist_take_break
unfoldable pub persist_take_break : Env → DateTime → SessionService → SessionService
unfolding store_break
persist_take_break env at a = elim (key_of a.machine.session) [
  | none ↦ a
  | some p ↦
      if a.session_factory then (if env.stored then store_break env at p.0 p.1 a else a) else a
]

-- The open break of a session, if there is one, is ended with its outbox row.
unfoldable pub end_break : Env → DateTime → Option BreakRecord → Db → Db
end_break env at none db = db
end_break env at (some b) db = record db {
  breaks = Breaks.end_open b.id at db.breaks;
  sync_queue = announce env break_ b.id update db.sync_queue;
}

unfoldable pub store_resume : Env → DateTime → ℕ → Db → Db
store_resume env at n db =
    let db' = end_break env at (Breaks.open_for_session n db.breaks) db in
    record db' {
      work_sessions = Sessions.update_status n WorkSessionStatus.working db'.work_sessions;
      sync_queue = announce env work_session n update db'.sync_queue;
    }

-- _persist_resume
unfoldable pub persist_resume : Env → DateTime → SessionService → SessionService
persist_resume env at a = elim (key_of a.machine.session) [
  | none ↦ a
  | some p ↦
      if a.session_factory
      then (if env.stored then record a { db = store_resume env at p.1 a.db } else a)
      else a
]

unfoldable pub store_check_out : Env → DateTime → ℕ → ℕ → Db → Db
store_check_out env at total n db =
    let db' = end_break env at (Breaks.open_for_session n db.breaks) db in
    record db' {
      work_sessions = Sessions.checkout n at total db'.work_sessions;
      sync_queue = announce env work_session n update db'.sync_queue;
    }

-- _persist_check_out
unfoldable pub persist_check_out : Env → DateTime → SessionService → SessionService
persist_check_out env at a = elim (key_of a.machine.session) [
  | none ↦ a
  | some p ↦
      if a.session_factory
      then (if env.stored
          then record a { db = store_check_out env at p.0.total_work_seconds p.1 a.db }
          else a)
      else a
]

-- The machine takes the action, and the rows follow; a raise changes nothing.
drive :
    SessionAction
    → DateTime
    → Option ℕ
    → (SessionService → SessionService)
    → SessionService
    → SessionService × Option Error
drive action at user persist a = elim (apply a.machine action at user) [
  | err e ↦ (a, some e)
  | ok m ↦ (persist (record a { machine = m }), none)
]

-- check_in, without its calls of the activity and the screenshot service
unfoldable pub check_in : Env → DateTime → SessionService → SessionService × Option Error
unfolding drive
check_in env at a = elim a.user_id [
  | none ↦ (a, some requires_user)
  | some u ↦ drive SessionAction.check_in at (some u) (persist_check_in env at) a
]

-- take_break, resume and check_out, likewise
unfoldable pub take_break : Env → DateTime → SessionService → SessionService × Option Error
unfolding drive
take_break env at a = drive SessionAction.take_break at none (persist_take_break env at) a

unfoldable pub resume : Env → DateTime → SessionService → SessionService × Option Error
unfolding drive
resume env at a = drive SessionAction.resume at none (persist_resume env at) a

unfoldable pub check_out : Env → DateTime → SessionService → SessionService × Option Error
unfolding drive
check_out env at a = drive SessionAction.check_out at none (persist_check_out env at) a
