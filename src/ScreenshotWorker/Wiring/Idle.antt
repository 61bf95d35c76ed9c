-- ===== src/ScreenshotWorker/Wiring/Idle.antt =====
-- A program that starts during a break.
use employee_monitoring_app.Prelude.{
  ℕ, ◌≡◌, refl, Option, none, some, List, [], ◌∷◌, DateTime, TimeDelta, arith, if-case, ◌&&◌, not,
}
use employee_monitoring_app.Session.{WorkSessionStatus, WorkSession}
use employee_monitoring_app.ScreenshotWorker.{
  Ticked, Shot, start, pause, resume, shifted, tick, tick_from,
}
use employee_monitoring_app.ScreenshotWorker.Wiring.{
  schedule_restored, start_worker, after_break, after_resume,
}

-- What happens to the worker up to the next check-in; a check-out tells it what a break does.
pub data Event : Type 0 where
  poll_fires break_taken break_ended checked_out : DateTime → Event

module _ {S : Type 0} (capture_once : DateTime → S → S × Shot) where
  unfoldable pub perform : Event → Ticked S → Ticked S
  unfolding tick after_break after_resume
  perform (poll_fires now) t = tick capture_once now t
  perform (break_taken now) t = record t { worker = after_break now t.worker }
  perform (break_ended now) t = record t { worker = after_resume now t.worker }
  perform (checked_out now) t = record t { worker = after_break now t.worker }

  unfoldable pub run : List Event → Ticked S → Ticked S
  unfolding perform
  run [] t = t
  run (e ∷ es) t = run es (perform e t)

  -- No schedule, and nothing was captured.
  abbrev IsBlank : S → Ticked S → Type 0
  IsBlank s t = (t.worker.scheduled_start ≡ none) × (t.service ≡ s) × (t.emitted ≡ [])

  tick_from-none :
      (o : Option DateTime) (i : Option TimeDelta) (now : DateTime) (t : Ticked S)
      → o ≡ none
      → tick_from capture_once o i now t ≡ t
  unfolding tick_from
  tick_from-none o i now t e = rw e refl

  shifted-none :
      (now : DateTime) (p o : Option DateTime) (i : Option TimeDelta)
      → o ≡ none
      → shifted now p o i ≡ none
  unfolding shifted
  shifted-none now none o i e = e
  shifted-none now (some p) o i e = rw e refl

  tick-none :
      (now : DateTime) (t : Ticked S)
      → t.worker.scheduled_start ≡ none
      → tick capture_once now t ≡ t
  unfolding tick
  tick-none now t e =
      if-case (λ u. u ≡ t) (t.worker.running && not t.worker.paused) _ _
        (tick_from-none t.worker.scheduled_start t.worker.interval now t e) refl

  perform-IsBlank : (s : S) (e : Event) (t : Ticked S) → IsBlank s t → IsBlank s (perform e t)
  unfolding perform after_break after_resume pause resume
  perform-IsBlank s (poll_fires now) t h = rw (tick-none now t h.0) h
  perform-IsBlank s (break_taken now) t h = ground arith
  perform-IsBlank s (break_ended now) t h =
      ground
        (arith, shifted-none now t.worker.paused_at t.worker.scheduled_start t.worker.interval h.0)
  perform-IsBlank s (checked_out now) t h = ground arith

  run-IsBlank : (s : S) (es : List Event) (t : Ticked S) → IsBlank s t → IsBlank s (run es t)
  unfolding run
  run-IsBlank s [] t h = h
  run-IsBlank s (e ∷ es) t h = run-IsBlank s es (perform e t) (perform-IsBlank s e t h)

  started-none :
      (now : DateTime) (interval : ℕ) (session : WorkSession)
      → session.status ≡ WorkSessionStatus.on_break
      → (start_worker now interval (some session)).scheduled_start ≡ none
  unfolding start_worker schedule_restored start pause
  started-none now interval session b = rw b (ground arith)

  -- Where the program starts with a restored session that is on a break, then whatever polls of the
  -- worker, breaks, returns to work and check-outs follow, the service is never asked for a capture
  -- and no path is signalled: the return to work shifts a schedule that was never set.
  pub restored_break_never_captures :
      (now : DateTime) (interval : ℕ) (session : WorkSession) (service : S) (es : List Event)
      → session.status ≡ WorkSessionStatus.on_break
      → let w = start_worker now interval (some session) in
        let t = run es (record { worker = w; service = service; emitted = [] }) in
        (t.service ≡ service) × (t.emitted ≡ []) × (t.worker.scheduled_start ≡ none)
  restored_break_never_captures now interval session service es b =
      let w = start_worker now interval (some session) in
      let h =
        run-IsBlank service es (record { worker = w; service = service; emitted = [] })
          (started-none now interval session b, refl, refl) in
      (h.1, h.2, h.0)
