-- ===== src/Worker.antt =====
-- app/workers/sync_worker.py: when the worker drains, and how it restarts. The slots run one after the
-- other on the worker's thread; `_tick` is the two halves before and after the drain, so that calls
-- in between are sequences of steps too.
pub mod Requests
use employee_monitoring_app.Prelude.{
  ℕ, zero, suc, ◌+◌, ◌-◌, Bool, true, false, List, [], ◌∷◌, ◌++◌, min, length, not, ◌&&◌, ◌==◌,
  if◌then◌else◌,
}
use employee_monitoring_app.Outbox.{get_or}

abbrev pub retry_backoff_seconds : List ℕ
retry_backoff_seconds = 0 ∷ 30 ∷ 120 ∷ 300 ∷ 900 ∷ []

-- SyncWorker: `polling` and `debouncing` say whether the two timers run, `kicks` counts the single
-- shots of `_tick` that are under way, `delayed` holds the delays of those of `start`.
pub record SyncWorker : Type 0 where
  pub running : Bool
  pub paused : Bool
  pub attempt : ℕ
  pub polling : Bool
  pub debouncing : Bool
  pub draining : Bool
  pub pending_tick : Bool
  pub kicks : ℕ
  pub delayed : List ℕ

-- The constructor
abbrev pub new_worker : SyncWorker
new_worker = record {
  running = false;
  paused = false;
  attempt = 0;
  polling = false;
  debouncing = false;
  draining = false;
  pending_tick = false;
  kicks = 0;
  delayed = [];
}

-- start; making the timer does not raise.
unfoldable pub start : SyncWorker → SyncWorker
start w = if w.running then w else record w {
  running = true;
  paused = false;
  attempt = 0;
  polling = true;
  kicks = suc w.kicks;
}

-- stop
unfoldable pub stop : SyncWorker → SyncWorker
stop w =
    if w.running
    then record w { running = false; polling = false; debouncing = false; pending_tick = false }
    else w

-- pause, and handle_system_suspend
unfoldable pub pause : SyncWorker → SyncWorker
pause w = record w { paused = true }

-- resume
unfoldable pub resume : SyncWorker → SyncWorker
resume w = record w { paused = false }

-- handle_system_resume
unfoldable pub handle_system_resume : SyncWorker → SyncWorker
unfolding resume
handle_system_resume w = record (resume w) { kicks = suc w.kicks }

-- request_sync
unfoldable pub request_sync : SyncWorker → SyncWorker
request_sync w =
    if w.running && not w.paused
    then (if w.draining then record w { pending_tick = true } else record w { debouncing = true })
    else w

-- _tick up to the call of sync_once, and whether that is made
unfoldable pub begin_tick : SyncWorker → SyncWorker × Bool
begin_tick w =
    if w.running && not w.paused
    then (if w.draining
        then (record w { pending_tick = true }, false)
        else (record w { draining = true }, true))
    else (w, false)

-- _handle_failure
unfoldable pub handle_failure : SyncWorker → SyncWorker
unfolding stop start
handle_failure w =
    let attempt = suc w.attempt in
    let delay =
      get_or retry_backoff_seconds (min (attempt - 1) (length retry_backoff_seconds - 1)) 0 in
    let stopped = stop (record w { attempt = attempt }) in
    if delay == 0 then start stopped else record stopped { delayed = stopped.delayed ++ delay ∷ [] }

-- What sync_once does: it returns its count of synced rows, or raises.
pub data Drained : Type 0 where
  synced : ℕ → Drained
  raised : Drained

unfoldable pub settled : Drained → SyncWorker → SyncWorker
unfolding handle_failure
settled (synced zero) w = w
settled (synced (suc n)) w = record w { attempt = 0 }
settled raised w = handle_failure w

-- The `finally` of _tick.
unfoldable pub rearm : SyncWorker → SyncWorker
rearm w =
    let done = record w { draining = false } in
    if done.pending_tick && (done.running && not done.paused)
    then record done { pending_tick = false; debouncing = true }
    else done

-- _tick after the call of sync_once; the signals and the settings read then change no field here.
unfoldable pub end_tick : Drained → SyncWorker → SyncWorker
unfolding settled rearm
end_tick r w = rearm (settled r w)
