-- ===== src/Worker/Requests.antt =====
-- Drains never overlap, a request is not lost, and the restart after a failure never waits.
use employee_monitoring_app.Prelude.{
  ℕ, zero, suc, ◌-◌, ◌<◌, ◌≡◌, ◌⊎◌, inl, refl, Bool, true, false, List, [], ◌∷◌, arith, not, ◌&&◌,
  if◌then◌else◌, if-case, if-split,
}
use employee_monitoring_app.Worker.{
  SyncWorker, new_worker, start, stop, pause, resume, handle_system_resume, request_sync,
  begin_tick, handle_failure, Drained, synced, raised, settled, rearm, end_tick,
}

-- What happens to the worker: the calls of its slots, a timer that fires, a drain that ends.
pub data Step : Type 0 where
  start_call stop_call pause_call resume_call wake_call request_call : Step
  poll_fires debounce_fires kick_fires : Step
  drain_ends : Drained → Step

-- The worker, how many drains are under way, and whether a request is waiting for a drain to begin.
pub record Run : Type 0 where
  pub worker : SyncWorker
  pub drains : ℕ
  pub waiting : Bool

abbrev begun : ℕ → Bool → SyncWorker × Bool → Run
begun n waiting (w, true) = record { worker = w; drains = suc n; waiting = false }
begun n waiting (w, false) = record { worker = w; drains = n; waiting = waiting }

-- A timer that fires calls _tick.
unfoldable pub fire : SyncWorker → Run → Run
fire w r = begun r.drains r.waiting (begin_tick w)

abbrev is_up : SyncWorker → Bool
is_up w = w.running && not w.paused

-- The first of the single shots, if there is one.
unfoldable pub kicked : ℕ → Run → Run
unfolding fire
kicked zero r = r
kicked (suc n) r = fire (record r.worker { kicks = n }) r

unfoldable pub finish : Drained → Run → Run
finish d r = record { worker = end_tick d r.worker; drains = r.drains - 1; waiting = r.waiting }

-- A timer fires only while it runs, a drain ends only while one is under way, and a stop or a pause
-- drops the requests.
unfoldable pub perform : Step → Run → Run
unfolding fire finish kicked
perform start_call r = record r { worker = start r.worker }
perform stop_call r = record r { worker = stop r.worker; waiting = false }
perform pause_call r = record r { worker = pause r.worker; waiting = false }
perform resume_call r = record r { worker = resume r.worker }
perform wake_call r = record r { worker = handle_system_resume r.worker }
perform request_call r = record r {
  worker = request_sync r.worker;
  waiting = if is_up r.worker then true else r.waiting;
}
perform poll_fires r = if r.worker.polling then fire r.worker r else r
perform debounce_fires r =
    if r.worker.debouncing then fire (record r.worker { debouncing = false }) r else r
perform kick_fires r = kicked r.worker.kicks r
perform (drain_ends d) r = if r.worker.draining then finish d r else r

unfoldable pub run : List Step → Run → Run
unfolding perform
run [] r = r
run (s ∷ ss) r = run ss (perform s r)

-- A request that waits has a timer that will fire, or the end of a drain that will set one.
abbrev pub IsHeld : Run → Type 0
IsHeld r =
    (r.waiting ≡ false)
    ⊎ ((r.worker.running ≡ true)
        × (r.worker.paused ≡ false)
        × ((r.worker.debouncing ≡ true)
            ⊎ (0 < r.worker.kicks)
            ⊎ ((r.worker.draining ≡ true) × (r.worker.pending_tick ≡ true))))

abbrev pub IsSound : Run → Type 0
IsSound r =
    (r.drains ≡ (if r.worker.draining then 1 else 0))
    × (r.worker.attempt ≡ 0)
    × (r.worker.delayed ≡ [])
    × IsHeld r

fire-IsSound :
    (w : SyncWorker) (r : Run)
    → w.draining ≡ r.worker.draining
    → w.running ≡ r.worker.running
    → w.paused ≡ r.worker.paused
    → w.pending_tick ≡ r.worker.pending_tick
    → w.attempt ≡ r.worker.attempt
    → w.delayed ≡ r.worker.delayed
    → IsSound r
    → IsSound (fire w r)
unfolding fire begin_tick
fire-IsSound w r a b c d e f h = ground arith

-- A restart after a failure does not wait, and starts anew.
settled-IsSound :
    (d : Drained) (r : Run) → IsSound r → r.worker.draining ≡ true → IsSound (finish d r)
unfolding finish end_tick settled handle_failure rearm stop start
settled-IsSound (synced zero) r h e = ground arith
settled-IsSound (synced (suc n)) r h e = ground arith
settled-IsSound raised r h e = ground arith

kicked-IsSound : (n : ℕ) (r : Run) → IsSound r → IsSound (kicked n r)
unfolding kicked
kicked-IsSound zero r h = h
kicked-IsSound (suc n) r h =
    fire-IsSound (record r.worker { kicks = n }) r refl refl refl refl refl refl h

perform-IsSound : (s : Step) (r : Run) → IsSound r → IsSound (perform s r)
unfolding perform start stop pause resume handle_system_resume request_sync
perform-IsSound start_call r h = ground arith
perform-IsSound stop_call r h = ground arith
perform-IsSound pause_call r h = ground arith
perform-IsSound resume_call r h = ground arith
perform-IsSound wake_call r h = ground arith
perform-IsSound request_call r h = ground arith
perform-IsSound poll_fires r h =
    if-case IsSound r.worker.polling _ _ (fire-IsSound r.worker r refl refl refl refl refl refl h) h
perform-IsSound debounce_fires r h =
    if-case IsSound r.worker.debouncing _ _
      (fire-IsSound (record r.worker { debouncing = false }) r refl refl refl refl refl refl h) h
perform-IsSound kick_fires r h = kicked-IsSound r.worker.kicks r h
perform-IsSound (drain_ends d) r h =
    if-split IsSound r.worker.draining _ _ (λ e. settled-IsSound d r h e) (λ e. h)

run-IsSound : (ss : List Step) (r : Run) → IsSound r → IsSound (run ss r)
unfolding run
run-IsSound [] r h = h
run-IsSound (s ∷ ss) r h = run-IsSound ss (perform s r) (perform-IsSound s r h)

abbrev pub new_run : Run
new_run = record { worker = new_worker; drains = 0; waiting = false }

-- From a new worker, after any calls of its slots, firings of its timers and ends of drains: at most
-- one drain is under way, exactly where `draining` says so. A request that was taken, with no stop,
-- no pause and no drain begun since, is held: a debounce or a single shot will fire, or a drain is
-- under way that arms the debounce at its end. No restart was ever delayed, and the count of attempts
-- is 0, however often a drain has raised.
pub sync_worker_run :
    (ss : List Step)
    → let r = run ss new_run in
      (r.drains ≡ (if r.worker.draining then 1 else 0))
      × ((r.waiting ≡ false)
          ⊎ ((r.worker.running ≡ true)
              × (r.worker.paused ≡ false)
              × ((r.worker.debouncing ≡ true)
                  ⊎ (0 < r.worker.kicks)
                  ⊎ ((r.worker.draining ≡ true) × (r.worker.pending_tick ≡ true)))))
      × (r.worker.delayed ≡ [])
      × (r.worker.attempt ≡ 0)
sync_worker_run ss =
    let h = run-IsSound ss new_run (refl, refl, refl, inl refl) in (h.0, h.3, h.2, h.1)
