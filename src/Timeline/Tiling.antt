-- ===== src/Timeline/Tiling.antt =====
-- The periods of a closed timeline lie end to end.
use mathlib.Core.Path.{subst₂}
use employee_monitoring_app.Prelude.{
  ℕ, ◌+◌, ◌≤◌, ◌<◌, ◌≡◌, refl, Bool, true, false, Option, none, some, List, [], ◌∷◌, ◌++◌, DateTime,
  TimeDelta, arith, seconds_between, leb, ap, leb→le, ◌==◌, if◌then◌else◌, Bool-cases, inl, inr,
}
use employee_monitoring_app.Timeline.{
  ActivityState, active, idle, ActivityEvent, ActivityPeriod, period, Derive, derive_start,
  insert_event, sort_events, on_activity_event, is_activity, derive_step, derive_loop, derive_end,
  derive_timeline, close_tail, close_open_period, duration_seconds,
}

-- Closed periods from `lo` to `hi`: each begins where the one before ends, none ends before it began.
pub data Tiles (hi : DateTime) : DateTime → List ActivityPeriod → Type 0 where
  nil : {lo : DateTime} → lo ≡ hi → Tiles hi lo []
  cons :
      {lo e : DateTime} {p : ActivityPeriod} {ps : List ActivityPeriod}
      → p.started_at ≡ lo
      → p.ended_at ≡ some e
      → lo ≤ e
      → Tiles hi e ps
      → Tiles hi lo (p ∷ ps)

pub Tiles-append :
    {mid hi lo : DateTime} {ps qs : List ActivityPeriod}
    → Tiles mid lo ps
    → Tiles hi mid qs
    → Tiles hi lo (ps ++ qs)
Tiles-append {hi = hi} {qs = qs} (nil e) t = rw e t
Tiles-append (cons a b c t) u = cons a b c (Tiles-append t u)

-- Two periods that meet.
pair :
    (st st' : ActivityState) (a b c : DateTime)
    → a ≤ b
    → b ≤ c
    → Tiles c a (period st a b ∷ period st' b c ∷ [])
pair st st' a b c p q = cons refl refl p (cons refl refl q (nil refl))

-- What the loop knows after its first activity: a closed timeline from the first activity to the
-- start of the run under way, which reaches up to the last activity.
pub record Running (first last : DateTime) (d : Derive) : Type 0 where
  pub start : DateTime
  pub started : d.active_started_at ≡ some start
  pub seen : d.last_activity_at ≡ some last
  pub ordered : start ≤ last
  pub tiles : Tiles start first d.timeline

on_activity_event-Running :
    (th ts first s l : DateTime) (tl : List ActivityPeriod)
    → s ≤ l
    → l ≤ ts
    → Tiles s first tl
    → Running first ts (on_activity_event th ts tl (some l) (some s))
unfolding on_activity_event
on_activity_event-Running th ts first s l tl p q t = elim (Bool-cases (leb (l + th) ts)) [
  | inl gap ↦ rw gap (record {
    start = ts;
    started = refl;
    seen = refl;
    ordered = omega arith;
    tiles = Tiles-append t (pair active idle s (l + th) ts (omega arith) (leb→le _ _ gap));
  })
  | inr near ↦
      rw near (record { start = s; started = refl; seen = refl; ordered = omega arith; tiles = t })
]

-- The time of the last activity, after one at `l`.
abbrev pub last_from : DateTime → List ActivityEvent → DateTime
last_from l [] = l
last_from l (e ∷ es) = last_from (if is_activity e.name then e.happened_at else l) es

abbrev pub first_activity : List ActivityEvent → Option DateTime
first_activity [] = none
first_activity (e ∷ es) =
    let rest = first_activity es in if is_activity e.name then some e.happened_at else rest

abbrev pub last_activity : List ActivityEvent → Option DateTime
last_activity [] = none
last_activity (e ∷ es) =
    let rest = last_activity es in
    if is_activity e.name then some (last_from e.happened_at es) else rest

-- No event is earlier than `t` or than the one before it.
abbrev pub Sorted : DateTime → List ActivityEvent → Type 0
Sorted t [] = Unit
Sorted t (e ∷ es) = (t ≤ e.happened_at) × Sorted e.happened_at es

derive_step-Running :
    (th first last : DateTime) (d : Derive) (e : ActivityEvent)
    → last ≤ e.happened_at
    → Running first last d
    → Running first (if is_activity e.name then e.happened_at else last) (derive_step th d e)
unfolding derive_step
derive_step-Running th first last d e h r = elim (Bool-cases (is_activity e.name)) [
  | inl a ↦
      simp (a, r.started, r.seen)
        (on_activity_event-Running th e.happened_at first r.start last d.timeline r.ordered h
          r.tiles)
  | inr a ↦ simp a r
]

last_le : (t last : DateTime) (b : Bool) → last ≤ t → (if b then t else last) ≤ t
last_le t last b h = ground arith

derive_loop-Running :
    (th first last t : DateTime) (d : Derive) (es : List ActivityEvent)
    → last ≤ t
    → Sorted t es
    → Running first last d
    → Running first (last_from last es) (derive_loop th d es)
unfolding derive_loop
derive_loop-Running th first last t d [] h o r = r
derive_loop-Running th first last t d (e ∷ es) h o r =
    derive_loop-Running th first _ e.happened_at (derive_step th d e) es
      (last_le e.happened_at last (is_activity e.name) (omega arith)) o.1
      (derive_step-Running th first last d e (omega arith) r)

derive_step_first :
    (th : DateTime) (e : ActivityEvent)
    → is_activity e.name ≡ true
    → Running e.happened_at e.happened_at (derive_step th derive_start e)
unfolding derive_step on_activity_event
derive_step_first th e a = simp a (record {
  start = e.happened_at;
  started = refl;
  seen = refl;
  ordered = omega arith;
  tiles = nil refl;
})

derive_loop_all :
    (th t first last : DateTime) (es : List ActivityEvent)
    → Sorted t es
    → first_activity es ≡ some first
    → last_activity es ≡ some last
    → Running first last (derive_loop th derive_start es)
unfolding derive_loop derive_step on_activity_event
derive_loop_all th t first last [] o f l = cc
derive_loop_all th t first last (e ∷ es) o f l = elim (Bool-cases (is_activity e.name)) [
  | inl a ↦
      let f' : e.happened_at ≡ first = ground arith in
      let l' : last_from e.happened_at es ≡ last = ground arith in
      subst₂ (λ x y. Running x y (derive_loop th (derive_step th derive_start e) es)) f' l'
        (derive_loop-Running th e.happened_at e.happened_at e.happened_at
          (derive_step th derive_start e) es (omega arith) o.1 (derive_step_first th e a))
  | inr a ↦ simp a (derive_loop_all th e.happened_at first last es o.1 (rw a at f) (rw a at l))
]

close_open_period-append :
    (tl : List ActivityPeriod) (p : ActivityPeriod) (start last until : DateTime) (th : TimeDelta)
    → close_open_period (tl ++ p ∷ []) start last until th ≡ tl ++ close_tail p start last until th
unfolding close_open_period
close_open_period-append [] p start last until th = refl
close_open_period-append (q ∷ []) p start last until th = refl
close_open_period-append (q ∷ r ∷ tl) p start last until th =
    rw (close_open_period-append (r ∷ tl) p start last until th)

insert_event-Sorted :
    (t : DateTime) (e : ActivityEvent) (es : List ActivityEvent)
    → t ≤ e.happened_at
    → Sorted t es
    → Sorted t (insert_event e es)
unfolding insert_event
insert_event-Sorted t e [] h o = (h, tt)
insert_event-Sorted t e (f ∷ es) h o = ground (arith, insert_event-Sorted f.happened_at e es)

sort_events-Sorted : (es : List ActivityEvent) → Sorted 0 (sort_events es)
unfolding sort_events
sort_events-Sorted [] = tt
sort_events-Sorted (e ∷ es) =
    insert_event-Sorted 0 e (sort_events es) (omega arith) (sort_events-Sorted es)

-- The last period of the timeline, closed: it reaches from where it began to `until`.
close_tail-Tiles :
    (s start last until : DateTime) (th : TimeDelta)
    → s ≤ last
    → last ≤ until
    → Tiles until s (
        close_tail (record { state = active; started_at = s; ended_at = none }) start last until th)
unfolding close_tail
close_tail-Tiles s start last until th p q = elim (Bool-cases (leb (last + th) until)) [
  | inl gap ↦ rw gap (pair active idle s (last + th) until (omega arith) (leb→le _ _ gap))
  | inr near ↦ rw near (cons refl refl (omega arith) (nil refl))
]

derive_end-some :
    (d : Derive) (s : DateTime)
    → d.active_started_at ≡ some s
    → derive_end d ≡ d.timeline ++ record { state = active; started_at = s; ended_at = none } ∷ []
unfolding derive_end
derive_end-some d s h = ground arith

unfoldable pub total_seconds : List ActivityPeriod → ℕ
unfolding duration_seconds
total_seconds [] = 0
total_seconds (p ∷ ps) = duration_seconds p + total_seconds ps

Tiles-le : {hi lo : DateTime} {ps : List ActivityPeriod} → Tiles hi lo ps → lo ≤ hi
Tiles-le (nil e) = omega arith
Tiles-le (cons a b c t) = omega (arith, Tiles-le t)

-- Periods that lie end to end show no more seconds than the time that they fill.
total_seconds-Tiles :
    {hi lo : DateTime} {ps : List ActivityPeriod}
    → Tiles hi lo ps
    → total_seconds ps ≤ seconds_between lo hi
unfolding total_seconds
total_seconds-Tiles (nil e) = omega arith
total_seconds-Tiles (cons a b c t) = simp b (omega (arith, total_seconds-Tiles t, Tiles-le t))

-- For any events, in any order, with some activity among them, and a positive threshold: the
-- timeline derived and then closed at a time not before the last activity consists of closed
-- periods that lie end to end from the first activity to that time, with no gap and no overlap, and
-- their whole seconds add up to no more than those of that time.
pub timeline-Tiles :
    (events : List ActivityEvent) (th : TimeDelta) (start first last until : DateTime)
    → 0 < th
    → first_activity (sort_events events) ≡ some first
    → last_activity (sort_events events) ≡ some last
    → last ≤ until
    → (tl : List ActivityPeriod) × (derive_timeline events th ≡ some tl)
      × Tiles until first (close_open_period tl start last until th)
      × (total_seconds (close_open_period tl start last until th) ≤ seconds_between first until)
unfolding derive_timeline
timeline-Tiles events th start first last until h f l u =
    let es = sort_events events in
    let r = derive_loop_all th 0 first last es (sort_events-Sorted events) f l in
    let d = derive_loop th derive_start es in
    let e : (th == 0) ≡ false = ground arith in
    let open_ : ActivityPeriod = record { state = active; started_at = r.start; ended_at = none } in
    let tiles = Tiles-append r.tiles (close_tail-Tiles r.start start last until th r.ordered u) in
    (
      d.timeline ++ open_ ∷ [],
      rw e (ap some (derive_end-some d r.start r.started)),
      rw (close_open_period-append d.timeline open_ start last until th) tiles,
      rw (close_open_period-append d.timeline open_ start last until th)
          (total_seconds-Tiles tiles),
    )
