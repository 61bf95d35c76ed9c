-- ===== src/SyncService/Cycle.antt =====
-- sync_once, the two drains in turn, and the recovery of rows that a crash left SYNCING.
use employee_monitoring_app.Prelude.{
  ℕ, ◌+◌, Bool, true, false, Option, none, some, List, [], DateTime, String, length, if◌then◌else◌,
}
use employee_monitoring_app.Outbox.{
  ConnectivityState, online, offline, backend_unavailable, authentication_required, syncing,
}
use employee_monitoring_app.Db.{Db}
use employee_monitoring_app.Db.Table.{select}
use employee_monitoring_app.Repositories.Queue
use employee_monitoring_app.Repositories.Queue.{is_waiting}
use employee_monitoring_app.Repositories.Screenshots
use employee_monitoring_app.SyncService.Drain.{Reply, Call, no_counts}
use employee_monitoring_app.SyncService.Queue.{QueueDrain, drain_queue}
use employee_monitoring_app.SyncService.Screenshots.{ScreenshotDrain, drain_screenshots}

-- SyncService; `session_factory` is false where none is bound.
pub record SyncService : Type 0 where
  pub session_factory : Bool
  pub batch_limit : ℕ
  pub connectivity : ConnectivityState

-- What the environment does in one cycle: the answer of check_connectivity (`none` where it raises),
-- whether each loop can read its batch, the rounds of the two loops, whether the count can be read.
pub record Environment : Type 0 where
  pub reachable : Option ConnectivityState
  pub queue_read : Bool
  pub queue_replies : ℕ → Reply
  pub shots_read : Bool
  pub shot_replies : ℕ → Reply
  pub counted : Bool

pub record Stats : Type 0 where
  pub synced : ℕ
  pub failed : ℕ
  pub skipped_backoff : ℕ
  pub skipped_offline : ℕ
  pub pending : ℕ

-- The world that the service acts on, and what it did there.
pub record Outcome : Type 0 where
  pub service : SyncService
  pub db : Db
  pub files : List String
  pub queue_calls : List Call
  pub shot_calls : List Call
  pub stats : Stats

-- _pending_count
unfoldable pub pending_count : Bool → Db → ℕ
pending_count counted db =
    if counted
    then length (select (λ r. is_waiting r.status) db.sync_queue)
      + length (select (λ r. is_waiting r.sync_status) db.screenshots)
    else 0

abbrev pub state_of : Option ConnectivityState → ConnectivityState
state_of none = backend_unavailable
state_of (some c) = c

-- The states in which sync_once returns before the drains.
abbrev pub is_blocked : ConnectivityState → Bool
is_blocked offline = true
is_blocked backend_unavailable = true
is_blocked authentication_required = true
is_blocked _ = false

-- A loop whose batch cannot be read does nothing.
unread_queue : Db → ConnectivityState → QueueDrain
unread_queue db c = record {
  rows = db.sync_queue;
  counts = no_counts;
  connectivity = c;
  calls = [];
  running = false;
}

unread_shots : Db → List String → ConnectivityState → ScreenshotDrain
unread_shots db files c = record {
  rows = db.screenshots;
  files = files;
  counts = no_counts;
  connectivity = c;
  calls = [];
  running = false;
}

unfoldable pub queue_phase : SyncService → Environment → DateTime → Db → QueueDrain
unfolding unread_queue
queue_phase s env at db =
    if env.queue_read
    then drain_queue db at s.batch_limit env.queue_replies syncing
    else unread_queue db syncing

unfoldable pub shot_phase :
    SyncService → Environment → DateTime → Db → List String → ConnectivityState → ScreenshotDrain
unfolding unread_shots
shot_phase s env at db files c =
    if env.shots_read
    then drain_screenshots db files at s.batch_limit env.shot_replies c
    else unread_shots db files c

-- The cycle once the backend has been found reachable.
unfoldable pub drain_both : SyncService → Environment → DateTime → Db → List String → Outcome
drain_both s env at db files =
    let q = queue_phase s env at db in
    let db' : Db = record db { sync_queue = q.rows } in
    let p = shot_phase s env at db' files q.connectivity in
    let db'' : Db = record db' { screenshots = p.rows } in
    record {
      service = record s { connectivity = online };
      db = db'';
      files = p.files;
      queue_calls = q.calls;
      shot_calls = p.calls;
      stats = record {
        synced = q.counts.synced + p.counts.synced;
        failed = q.counts.failed + p.counts.failed;
        skipped_backoff = q.counts.skipped_backoff + p.counts.skipped_backoff;
        skipped_offline = 0;
        pending = pending_count env.counted db'';
      };
    }

-- A cycle that returns before the drains.
abbrev pub skipped : SyncService → Db → List String → ℕ → ℕ → Outcome
skipped s db files offline_count waiting = record {
  service = s;
  db = db;
  files = files;
  queue_calls = [];
  shot_calls = [];
  stats = record {
    synced = 0;
    failed = 0;
    skipped_backoff = 0;
    skipped_offline = offline_count;
    pending = waiting;
  };
}

-- sync_once
unfoldable pub sync_once : SyncService → Environment → DateTime → Db → List String → Outcome
sync_once s env at db files =
    let state = state_of env.reachable in
    if s.session_factory
    then (if is_blocked state
        then skipped (record s { connectivity = state }) db files 1 (pending_count env.counted db)
        else drain_both s env at db files)
    else skipped s db files 0 0

-- recover_stale: the tables, and how many rows of each were reset; `stored` is false where the
-- transaction raises.
unfoldable pub recover_stale : SyncService → Bool → Db → Db × ℕ × ℕ
recover_stale s stored db =
    let (queue, queue_reset) = Queue.reset_stale_syncing db.sync_queue in
    let (shots, shots_reset) = Screenshots.reset_stale_syncing db.screenshots in
    if s.session_factory
    then (if stored
        then (record db { sync_queue = queue; screenshots = shots }, queue_reset, shots_reset)
        else (db, 0, 0))
    else (db, 0, 0)
