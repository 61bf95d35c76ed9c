-- ===== src/ScreenshotWorker.antt =====
-- app/workers/screenshot_worker.py: when the worker asks the service for a capture. The slots run one
-- after the other on the worker's thread; the service is a parameter of `_tick`.
pub mod Slots
pub mod Wiring
use employee_monitoring_app.Prelude.{
  ℕ, zero, suc, ◌+◌, ◌-◌, ◌*◌, Bool, true, false, Option, none, some, List, [], ◌∷◌, ◌++◌, min,
  length, not, ◌&&◌, ◌==◌, if◌then◌else◌, DateTime, TimeDelta, String, ltb, leb, second,
}
use employee_monitoring_app.Outbox.{get_or}
use employee_monitoring_app.Schedule.{next_capture_at}

abbrev pub retry_backoff_seconds : List ℕ
retry_backoff_seconds = 0 ∷ 30 ∷ 120 ∷ 300 ∷ 900 ∷ []

-- ScreenshotWorker: `next` is `_n + 1`, `polling` says whether the timer runs, `delayed` holds the
-- delays of the single shots of `start`.
pub record ScreenshotWorker : Type 0 where
  pub running : Bool
  pub paused : Bool
  pub scheduled_start : Option DateTime
  pub interval : Option TimeDelta
  pub next : ℕ
  pub paused_at : Option DateTime
  pub attempt : ℕ
  pub polling : Bool
  pub delayed : List ℕ

-- The constructor
abbrev pub new_worker : ScreenshotWorker
new_worker = record {
  running = false;
  paused = false;
  scheduled_start = none;
  interval = none;
  next = 0;
  paused_at = none;
  attempt = 0;
  polling = false;
  delayed = [];
}

-- start; making the timer does not raise.
unfoldable pub start : ScreenshotWorker → ScreenshotWorker
start w = if w.running then w else record w { running = true; attempt = 0; polling = true }

-- stop
unfoldable pub stop : ScreenshotWorker → ScreenshotWorker
stop w = if w.running then record w { running = false; polling = false } else w

-- pause, and handle_system_suspend
unfoldable pub pause : DateTime → ScreenshotWorker → ScreenshotWorker
pause now w = if w.paused then w else record w { paused = true; paused_at = some now }

-- The shift of the start by the length of the pause, where all three values are set.
unfoldable pub shifted :
    DateTime → Option DateTime → Option DateTime → Option TimeDelta → Option DateTime
shifted now (some paused_at) (some start) (some interval) =
    some (if ltb paused_at now then start + (now - paused_at) else start)
shifted now none start interval = start
shifted now (some paused_at) none interval = none
shifted now (some paused_at) (some start) none = some start

-- resume, and handle_system_resume
unfoldable pub resume : DateTime → ScreenshotWorker → ScreenshotWorker
unfolding shifted
resume now w =
    if w.paused
    then record w {
      scheduled_start = shifted now w.paused_at w.scheduled_start w.interval;
      paused_at = none;
      paused = false;
    }
    else w

-- set_schedule with a payload of the right types
unfoldable pub set_schedule : DateTime → ℕ → ScreenshotWorker → ScreenshotWorker
set_schedule scheduled_start interval_seconds w = record w {
  scheduled_start = some scheduled_start;
  interval = some (interval_seconds * second);
  next = 0;
  paused = false;
  paused_at = none;
}

-- _handle_failure
unfoldable pub handle_failure : ScreenshotWorker → ScreenshotWorker
unfolding stop start
handle_failure w =
    let attempt = suc w.attempt in
    let delay =
      get_or retry_backoff_seconds (min (attempt - 1) (length retry_backoff_seconds - 1)) 0 in
    let stopped = stop (record w { attempt = attempt }) in
    if delay == 0 then start stopped else record stopped { delayed = stopped.delayed ++ delay ∷ [] }

-- What the service's capture_once does: it returns a path, or None, or raises.
pub data Shot : Type 0 where
  taken : String → Shot
  nothing : Shot
  raised : Shot

-- The worker, the service, and the paths of the `captured` signals.
pub record Ticked (S : Type 0) : Type 0 where
  pub worker : ScreenshotWorker
  pub service : S
  pub emitted : List String

module _ {S : Type 0} where
  -- The handler around the body of _tick
  unfoldable pub failed : Ticked S → Ticked S
  unfolding handle_failure
  failed t = record t { worker = handle_failure t.worker }

  unfoldable pub emit : Shot → Ticked S → Ticked S
  emit (taken path) t = record t { emitted = t.emitted ++ path ∷ [] }
  emit nothing t = t
  emit raised t = t

module _ {S : Type 0} (capture_once : DateTime → S → S × Shot) where
  -- One turn of the loop of _tick: the slot is used up, and an exception is passed over.
  unfoldable pub extra : DateTime → Ticked S → Ticked S
  unfolding emit
  extra now t =
      let r = capture_once now t.service in
      emit r.1 (record t { worker = record t.worker { next = suc t.worker.next }; service = r.0 })

  -- The loop of _tick, by the number of turns left
  unfoldable pub catch_up : ℕ → DateTime → TimeDelta → DateTime → Ticked S → Ticked S
  unfolding extra failed
  catch_up zero start interval now t = t
  catch_up (suc left) start interval now t =
      let rest = catch_up left start interval now (extra now t) in
      elim (next_capture_at start interval t.worker.next) [
        | none ↦ failed t
        | some nxt ↦ if leb nxt now then rest else t
      ]

  -- After the first capture; a success resets the backoff.
  unfoldable pub first_taken : Shot → DateTime → TimeDelta → DateTime → Ticked S → Ticked S
  unfolding catch_up emit failed
  first_taken (taken path) start interval now t =
      let e = emit (taken path) t in
      catch_up 4 start interval now (record e { worker = record e.worker { attempt = 0 } })
  first_taken nothing start interval now t = catch_up 4 start interval now t
  first_taken raised start interval now t = failed t

  -- The first slot is used up before its capture.
  unfoldable pub capture_slot : DateTime → TimeDelta → DateTime → Ticked S → Ticked S
  unfolding first_taken
  capture_slot start interval now t =
      let r = capture_once now t.service in
      first_taken r.1 start interval now
        (record t { worker = record t.worker { next = suc t.worker.next }; service = r.0 })

  -- The `try` of _tick, with its tolerance of two seconds
  unfoldable pub tick_scheduled : DateTime → TimeDelta → DateTime → Ticked S → Ticked S
  unfolding capture_slot failed
  tick_scheduled start interval now t = elim (next_capture_at start interval t.worker.next) [
    | none ↦ failed t
    | some target ↦ if ltb (now + 2 * second) target then t else capture_slot start interval now t
  ]

  unfoldable pub tick_from : Option DateTime → Option TimeDelta → DateTime → Ticked S → Ticked S
  unfolding tick_scheduled
  tick_from none interval now t = t
  tick_from (some start) none now t = t
  tick_from (some start) (some interval) now t = tick_scheduled start interval now t

  -- _tick
  unfoldable pub tick : DateTime → Ticked S → Ticked S
  unfolding tick_from
  tick now t =
      if t.worker.running && not t.worker.paused
      then tick_from t.worker.scheduled_start t.worker.interval now t
      else t
