-- ===== src/Timeline.antt =====
-- app/domain/activity/activity.py: the active and idle periods that a list of events projects to.
pub mod Tiling
use employee_monitoring_app.Prelude.{
  ℕ, ◌+◌, Bool, true, false, Option, none, some, List, [], ◌∷◌, ◌++◌, DateTime, TimeDelta,
  seconds_between, is_none, leb, ◌==◌, if◌then◌else◌,
}

pub data ActivityState : Type 0 where
  active idle : ActivityState

-- The names in ALLOWED_EVENT_NAMES; an ActivityEvent of another name cannot be made.
pub data EventName : Type 0 where
  input_activity_detected idle_started idle_continued active_resumed : EventName

pub record ActivityEvent : Type 0 where
  pub name : EventName
  pub happened_at : DateTime

pub record ActivityPeriod : Type 0 where
  pub state : ActivityState
  pub started_at : DateTime
  pub ended_at : Option DateTime

-- ActivityPeriod.is_open
abbrev pub is_open : ActivityPeriod → Bool
is_open p = is_none p.ended_at

abbrev pub end_or : DateTime → Option DateTime → DateTime
end_or t none = t
end_or t (some e) = e

-- ActivityPeriod.duration_seconds
unfoldable pub duration_seconds : ActivityPeriod → ℕ
duration_seconds p = seconds_between p.started_at (end_or p.started_at p.ended_at)

-- sorted(events, key=lambda e: e.happened_at): stable, by insertion
unfoldable pub insert_event : ActivityEvent → List ActivityEvent → List ActivityEvent
insert_event e [] = e ∷ []
insert_event e (f ∷ es) =
    let rest = insert_event e es in if leb e.happened_at f.happened_at then e ∷ f ∷ es else f ∷ rest

unfoldable pub sort_events : List ActivityEvent → List ActivityEvent
unfolding insert_event
sort_events [] = []
sort_events (e ∷ es) = insert_event e (sort_events es)

-- The local variables of derive_timeline.
pub record Derive : Type 0 where
  pub timeline : List ActivityPeriod
  pub last_activity_at : Option DateTime
  pub active_started_at : Option DateTime

abbrev pub derive_start : Derive
derive_start = record { timeline = []; last_activity_at = none; active_started_at = none }

-- The test `event.name in (INPUT_ACTIVITY_DETECTED, ACTIVE_RESUMED)`
abbrev pub is_activity : EventName → Bool
is_activity input_activity_detected = true
is_activity active_resumed = true
is_activity _ = false

abbrev pub period : ActivityState → DateTime → DateTime → ActivityPeriod
period st a b = record { state = st; started_at = a; ended_at = some b }

-- The body of the loop for an activity event at `ts`.
unfoldable pub on_activity_event :
    TimeDelta → DateTime → List ActivityPeriod → Option DateTime → Option DateTime → Derive
on_activity_event th ts tl last none = record {
  timeline = tl;
  last_activity_at = some ts;
  active_started_at = some ts;
}
on_activity_event th ts tl none (some s) = record {
  timeline = tl;
  last_activity_at = some ts;
  active_started_at = some s;
}
on_activity_event th ts tl (some l) (some s) =
    if leb (l + th) ts
    then record {
      timeline = tl ++ period active s (l + th) ∷ period idle (l + th) ts ∷ [];
      last_activity_at = some ts;
      active_started_at = some ts;
    }
    else record { timeline = tl; last_activity_at = some ts; active_started_at = some s }

unfoldable pub derive_step : TimeDelta → Derive → ActivityEvent → Derive
unfolding on_activity_event
derive_step th d e =
    if is_activity e.name
    then on_activity_event th e.happened_at d.timeline d.last_activity_at d.active_started_at
    else d

unfoldable pub derive_loop : TimeDelta → Derive → List ActivityEvent → Derive
unfolding derive_step
derive_loop th d [] = d
derive_loop th d (e ∷ es) = derive_loop th (derive_step th d e) es

-- The trailing state stays open.
unfoldable pub derive_end : Derive → List ActivityPeriod
derive_end d = elim d.active_started_at [
  | none ↦ d.timeline
  | some s ↦ d.timeline ++ record { state = active; started_at = s; ended_at = none } ∷ []
]

-- derive_timeline; `none` is the ValueError of a threshold that is not positive.
unfoldable pub derive_timeline : List ActivityEvent → TimeDelta → Option (List ActivityPeriod)
unfolding sort_events derive_loop derive_end
derive_timeline events th =
    if th == 0 then none else some (derive_end (derive_loop th derive_start (sort_events events)))

-- The test `tail.is_open and tail.state is ActivityState.ACTIVE`
abbrev pub is_open_active : ActivityState → Option DateTime → Bool
is_open_active active none = true
is_open_active _ _ = false

-- What becomes of the last period in close_open_period.
unfoldable pub close_tail :
    ActivityPeriod → DateTime → DateTime → DateTime → TimeDelta → List ActivityPeriod
close_tail p start last until th =
    if is_open_active p.state p.ended_at
    then (if leb (last + th) until
        then record p { ended_at = some (last + th) } ∷ period idle (last + th) until ∷ []
        else record p { ended_at = some until } ∷ [])
    else p ∷ period active start until ∷ []

-- close_open_period. `active_started_at` is a datetime, so the fallback of `start` is not taken.
unfoldable pub close_open_period :
    List ActivityPeriod → DateTime → DateTime → DateTime → TimeDelta → List ActivityPeriod
unfolding close_tail
close_open_period [] start last until th = []
close_open_period (p ∷ []) start last until th = close_tail p start last until th
close_open_period (p ∷ q ∷ ps) start last until th =
    p ∷ close_open_period (q ∷ ps) start last until th
