-- ===== src/ScreenshotWorker/Slots.antt =====
-- Which slots a tick uses up, against the whole intervals since the start.
use mathlib.Core.List.{append_assoc, append-nil}
use employee_monitoring_app.Prelude.{
  ℕ, zero, suc, ◌+◌, ◌-◌, ◌*◌, ◌/◌, ◌<◌, ◌≡◌, ◌∙◌, refl, sym, ap, true, false, some, List, [], ◌∷◌,
  ◌++◌, min, ◌&&◌, not, if◌then◌else◌, if-split, DateTime, TimeDelta, String, arith, ltb, leb,
  leb→le, Bool-cases, inl, inr, second,
}
use employee_monitoring_app.Schedule.{target, next_capture_at}
use employee_monitoring_app.Schedule.Catchup.{due_iff}
use employee_monitoring_app.ScreenshotWorker.{
  Ticked, Shot, taken, nothing, raised, emit, extra, catch_up, first_taken, capture_slot, failed,
  handle_failure, stop, start, tick_scheduled, tick_from, tick,
}

-- The time of a slot with a positive interval
next-target :
    (start : DateTime) (interval : TimeDelta) (n : ℕ)
    → 0 < interval
    → next_capture_at start interval n ≡ some (target start interval n)
unfolding next_capture_at
next-target start interval n h = ground arith

-- The paths with that of one more capture before them
unfoldable pub with_path : Shot → List String → List String
with_path (taken path) paths = path ∷ paths
with_path nothing paths = paths
with_path raised paths = paths

emit-with_path :
    {S : Type 0} (r : Shot) (t : Ticked S) (ps : List String)
    → (emit r t).emitted ++ ps ≡ t.emitted ++ with_path r ps
unfolding emit with_path
emit-with_path (taken path) t ps = append_assoc t.emitted (path ∷ []) ps
emit-with_path nothing t ps = refl
emit-with_path raised t ps = refl

emit-rest :
    {S : Type 0} (r : Shot) (t : Ticked S)
    → ((emit r t).worker ≡ t.worker) × ((emit r t).service ≡ t.service)
unfolding emit
emit-rest (taken path) t = (refl, refl)
emit-rest nothing t = (refl, refl)
emit-rest raised t = (refl, refl)

-- The slots of a tick that is due: all whose time has come, but the next one in any case, and no
-- more than five; only one where its capture raises.
abbrev pub slots_of : Shot → DateTime → TimeDelta → DateTime → ℕ → ℕ
slots_of raised start interval now n = 1
slots_of nothing start interval now n = suc (min 4 ((now - start) / interval - suc n))
slots_of (taken path) start interval now n = suc (min 4 ((now - start) / interval - suc n))

module _ {S : Type 0} (capture_once : DateTime → S → S × Shot) where
  -- The service after k captures at one time, and the paths that they return
  unfoldable pub calls : ℕ → DateTime → S → S
  calls zero now s = s
  calls (suc k) now s = calls k now (capture_once now s).0

  unfoldable pub paths : ℕ → DateTime → S → List String
  paths zero now s = []
  paths (suc k) now s = with_path (capture_once now s).1 (paths k now (capture_once now s).0)

  -- From one state to another, k slots are used up, each with one capture.
  abbrev Uses : ℕ → DateTime → Ticked S → Ticked S → Type 0
  Uses k now t u =
      (u.worker.next ≡ t.worker.next + k)
      × (u.service ≡ calls k now t.service)
      × (u.emitted ≡ t.emitted ++ paths k now t.service)

  -- One more slot before
  before-Uses :
      (k : ℕ) (now : DateTime) (t t' u : Ticked S)
      → t'.worker.next ≡ suc t.worker.next
      → t'.service ≡ (capture_once now t.service).0
      → ((ps : List String)
          → t'.emitted ++ ps ≡ t.emitted ++ with_path (capture_once now t.service).1 ps)
      → Uses k now t' u
      → Uses (suc k) now t u
  unfolding calls paths
  before-Uses k now t t' u w v p (n, s, e) = (
    omega (arith, n, w),
    s ∙ ap (λ x. calls k now x) v,
    e ∙ ap (λ x. t'.emitted ++ paths k now x) v ∙ p (paths k now (capture_once now t.service).0),
  )

  extra-next :
      (now : DateTime) (t : Ticked S) → (extra capture_once now t).worker.next ≡ suc t.worker.next
  unfolding extra
  extra-next now t = ap (λ w. w.next) (emit-rest (capture_once now t.service).1 _).0

  extra-Uses :
      (k : ℕ) (now : DateTime) (t u : Ticked S)
      → Uses k now (extra capture_once now t) u
      → Uses (suc k) now t u
  unfolding extra
  extra-Uses k now t u =
      let r = (capture_once now t.service).1 in
      before-Uses k now t (extra capture_once now t) u (extra-next now t) (emit-rest r _).1
        (emit-with_path r _)

  none-Uses : (now : DateTime) (t : Ticked S) → Uses 0 now t t
  unfolding calls paths
  none-Uses now t = (omega arith, refl, sym (append-nil t.emitted))

  Uses-same : {j k : ℕ} (now : DateTime) (t u : Ticked S) → j ≡ k → Uses k now t u → Uses j now t u
  Uses-same now t u e h = rw e h

  catch_up-step :
      (left : ℕ) (start : DateTime) (interval : TimeDelta) (now : DateTime) (t : Ticked S)
      → 0 < interval
      → catch_up capture_once (suc left) start interval now t ≡ (
          if leb (target start interval t.worker.next) now
          then catch_up capture_once left start interval now (extra capture_once now t)
          else t)
  unfolding catch_up
  catch_up-step left start interval now t h =
      rw (catch_up, next-target start interval t.worker.next h) refl

  catch_up-Uses :
      (left : ℕ) (start : DateTime) (interval : TimeDelta) (now : DateTime) (t : Ticked S)
      → 0 < interval
      → Uses
          (min left ((now - start) / interval - t.worker.next))
          now
          t
          (catch_up capture_once left start interval now t)
  unfolding catch_up
  catch_up-Uses zero start interval now t h = Uses-same now t t (omega arith) (none-Uses now t)
  catch_up-Uses (suc left) start interval now t h =
      let q = (now - start) / interval in
      let n = t.worker.next in
      let t' = extra capture_once now t in
      let iff = due_iff start now interval n h in
      let rest = catch_up capture_once left start interval now t' in
      rw (catch_up-step left start interval now t h) (
        if-split (Uses (min (suc left) (q - n)) now t) (leb (target start interval n) now) _ _
          (λ due.
            let le = iff.0 (leb→le _ _ due) in
            Uses-same now t rest (omega (arith, extra-next now t, le))
              (extra-Uses _ now t rest (catch_up-Uses left start interval now t' h)))
          (λ later. Uses-same now t t (ground (arith, iff.1)) (none-Uses now t)))

  abbrev first_called : DateTime → Ticked S → Ticked S
  first_called now t = record t {
    worker = record t.worker { next = suc t.worker.next };
    service = (capture_once now t.service).0;
  }

  abbrev first_emitted : String → DateTime → Ticked S → Ticked S
  first_emitted path now t = record t {
    worker = record t.worker { next = suc t.worker.next; attempt = 0 };
    service = (capture_once now t.service).0;
    emitted = t.emitted ++ path ∷ [];
  }

  failed-next : (t : Ticked S) → (failed t).worker.next ≡ t.worker.next
  unfolding failed handle_failure stop start
  failed-next t = ground arith

  first_taken-Uses :
      (r : Shot) (start : DateTime) (interval : TimeDelta) (now : DateTime) (t : Ticked S)
      → (capture_once now t.service).1 ≡ r
      → 0 < interval
      → Uses
          (slots_of r start interval now t.worker.next)
          now
          t
          (first_taken capture_once r start interval now (first_called now t))
  unfolding first_taken emit with_path failed
  first_taken-Uses (taken path) start interval now t e h =
      let t' = first_emitted path now t in
      before-Uses _ now t t' (catch_up capture_once 4 start interval now t') refl refl
        (λ ps.
          append_assoc t.emitted (path ∷ []) ps ∙ sym (ap (λ r. t.emitted ++ with_path r ps) e))
        (catch_up-Uses 4 start interval now t' h)
  first_taken-Uses nothing start interval now t e h =
      let t' = first_called now t in
      before-Uses _ now t t' (catch_up capture_once 4 start interval now t') refl refl
        (λ ps. sym (ap (λ r. t.emitted ++ with_path r ps) e))
        (catch_up-Uses 4 start interval now t' h)
  first_taken-Uses raised start interval now t e h =
      let t' = failed (first_called now t) in
      before-Uses 0 now t t' t' (failed-next (first_called now t)) refl
        (λ ps. sym (ap (λ r. t.emitted ++ with_path r ps) e)) (none-Uses now t')

  scheduled-Uses :
      (start : DateTime) (interval : TimeDelta) (now : DateTime) (t : Ticked S)
      → 0 < interval
      → Uses
          (if ltb (now + 2 * second) (target start interval t.worker.next)
            then 0
            else slots_of (capture_once now t.service).1 start interval now t.worker.next)
          now
          t
          (tick_scheduled capture_once start interval now t)
  unfolding tick_scheduled capture_slot
  scheduled-Uses start interval now t h =
      let r = (capture_once now t.service).1 in
      let next = next-target start interval t.worker.next h in
      elim (Bool-cases (ltb (now + 2 * second) (target start interval t.worker.next))) [
        | inl early ↦ rw (early, tick_scheduled, next, early) (none-Uses now t)
        | inr due ↦
            rw (due, tick_scheduled, next, due) (first_taken-Uses r start interval now t refl h)
      ]

  tick-scheduled :
      (start : DateTime) (interval : TimeDelta) (now : DateTime) (t : Ticked S)
      → t.worker.running ≡ true
      → t.worker.paused ≡ false
      → t.worker.scheduled_start ≡ some start
      → t.worker.interval ≡ some interval
      → tick capture_once now t ≡ tick_scheduled capture_once start interval now t
  unfolding tick tick_from
  tick-scheduled start interval now t r p s i =
      let up : (t.worker.running && not t.worker.paused) ≡ true = ground arith in
      let from = tick_from capture_once in
      ap (λ b. if b then from t.worker.scheduled_start t.worker.interval now t else t) up
      ∙ ap (λ o. from o t.worker.interval now t) s
      ∙ ap (λ o. from (some start) o now t) i

  -- A tick of a worker that is running and not paused, with a start and a positive interval: more
  -- than two seconds before the time of its next slot it does nothing, and else it uses up the next
  -- slots in order, each with one capture. These are all slots whose time has come, by the whole
  -- intervals since the start, but the next one in any case and no more than five, and only that one
  -- where its capture raises. The service is as after that many captures, and the paths that these
  -- returned are signalled in order.
  pub tick_uses_slots :
      (start : DateTime) (interval : TimeDelta) (now : DateTime) (t : Ticked S)
      → 0 < interval
      → t.worker.running ≡ true
      → t.worker.paused ≡ false
      → t.worker.scheduled_start ≡ some start
      → t.worker.interval ≡ some interval
      → let n = t.worker.next in
        let u = tick capture_once now t in
        let early = ltb (now + 2 * second) (start + interval * (n + 1)) in
        let shot = (capture_once now t.service).1 in
        let k = if early then 0 else slots_of shot start interval now n in
        (u.worker.next ≡ n + k)
        × (u.service ≡ calls k now t.service)
        × (u.emitted ≡ t.emitted ++ paths k now t.service)
  tick_uses_slots start interval now t h r p s i =
      rw (tick-scheduled start interval now t r p s i) (scheduled-Uses start interval now t h)
