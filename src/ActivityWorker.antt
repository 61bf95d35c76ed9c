-- ===== src/ActivityWorker.antt =====
-- app/workers/activity_worker.py: how the worker starts and restarts, and what its slots ask of the
-- activity service. A failed start calls itself again through `_handle_failure`, so it runs on fuel.
pub mod Restarts
use employee_monitoring_app.Prelude.{
  ℕ, zero, suc, ◌+◌, ◌-◌, Bool, true, false, Option, none, some, List, [], ◌∷◌, ◌++◌, min, length,
  ◌==◌, if◌then◌else◌, DateTime, TimeDelta, leb,
}
use employee_monitoring_app.Outbox.{get_or}
use employee_monitoring_app.Timeline.{ActivityState}
use employee_monitoring_app.ActivityService.Base.{Tracker, Env, is_idle}
use employee_monitoring_app.ActivityService.Ticks.{on_activity, check_idle, current_state}

abbrev pub retry_backoff_seconds : List ℕ
retry_backoff_seconds = 0 ∷ 30 ∷ 120 ∷ 300 ∷ 900 ∷ []

-- ActivityWorker: a timer is `none` where there is none, else whether it runs; `hooked` says whether
-- the provider has the callback, `calls` counts the calls of its start, and `delayed` holds the
-- delays of the single shots of `start`.
pub record ActivityWorker : Type 0 where
  pub running : Bool
  pub attempt : ℕ
  pub timer : Option Bool
  pub fallback_timer : Option Bool
  pub hooked : Bool
  pub calls : ℕ
  pub delayed : List ℕ

-- The constructor
abbrev pub new_worker : ActivityWorker
new_worker = record {
  running = false;
  attempt = 0;
  timer = none;
  fallback_timer = none;
  hooked = false;
  calls = 0;
  delayed = [];
}

-- stop; what the provider's stop raises is passed over.
unfoldable pub stop : ActivityWorker → ActivityWorker
stop w =
    if w.running
    then record w { running = false; timer = none; fallback_timer = none; hooked = false }
    else w

-- A timer that there is, running or not
abbrev set_active : Bool → Option Bool → Option Bool
set_active b none = none
set_active b (some a) = some b

-- pause, and handle_system_suspend
unfoldable pub pause : ActivityWorker → ActivityWorker
pause w = record w {
  timer = set_active false w.timer;
  fallback_timer = set_active false w.fallback_timer;
}

-- resume_polling
unfoldable pub resume_polling : ActivityWorker → ActivityWorker
resume_polling w =
    if w.running
    then record w {
      timer = set_active true w.timer;
      fallback_timer = set_active true w.fallback_timer;
    }
    else w

abbrev pub delay_after : ℕ → ℕ
delay_after attempt =
    get_or retry_backoff_seconds (min (attempt - 1) (length retry_backoff_seconds - 1)) 0

-- _handle_failure, with the start that it calls
unfoldable pub handle_failure :
    (ActivityWorker → Option ActivityWorker) → ActivityWorker → Option ActivityWorker
unfolding stop
handle_failure again w =
    let attempt = suc w.attempt in
    let stopped = stop (record w { attempt = attempt }) in
    if delay_after attempt == 0
    then again stopped
    else some (record stopped { delayed = stopped.delayed ++ delay_after attempt ∷ [] })

-- start, where `starts n` says whether the n-th call of the provider's start returns; `none` means
-- that the fuel has run out.
unfoldable pub start : ℕ → (ℕ → Bool) → ActivityWorker → Option ActivityWorker
unfolding handle_failure
start zero starts w = none
start (suc fuel) starts w =
    let called = record w { hooked = true; calls = suc w.calls } in
    let failed = handle_failure (start fuel starts) called in
    if w.running
    then some w
    else (if starts w.calls
        then some (record called {
          running = true;
          attempt = 0;
          timer = some true;
          fallback_timer = some true;
        })
        else failed)

-- What a slot did: the service and its rows, and the state that is signalled.
abbrev pub Slot : Type 0
Slot = Tracker × Option ActivityState

-- _on_activity
unfoldable pub hook_called : Env → DateTime → ActivityWorker → Tracker → Slot
hook_called env at w t = if w.running then on_activity env at t else (t, none)

-- _poll_idle
unfoldable pub poll_idle : Env → DateTime → ActivityWorker → Tracker → Slot
poll_idle env at w t = if w.running then check_idle env at t else (t, none)

-- handle_system_resume
unfoldable pub handle_system_resume : Env → DateTime → Tracker → Slot
handle_system_resume env at t = check_idle env at t

-- _poll_fallback, by the idle time of the provider; `none` where it has none, or raises.
unfoldable pub fallback_at : Env → Bool → DateTime → Option TimeDelta → Tracker → Slot
fallback_at env readable at none t = (t, none)
fallback_at env readable at (some idle_time) t =
    if leb t.service.idle_threshold idle_time
    then check_idle env at t
    else (if is_idle (current_state readable at t) then on_activity env at t else (t, none))

unfoldable pub poll_fallback :
    Env → Bool → DateTime → Option TimeDelta → ActivityWorker → Tracker → Slot
unfolding fallback_at
poll_fallback env readable at idle_time w t =
    if w.running then fallback_at env readable at idle_time t else (t, none)
