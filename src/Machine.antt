-- ===== src/Machine.antt =====
-- app/domain/sessions/state_machine.py: the transition table and its side effects on the session.
pub mod Breaks
pub mod Table
pub mod Invariant
pub mod Traces
use employee_monitoring_app.Prelude.{
  ℕ, Bool, true, false, not, Option, none, some, List, [], ◌∷◌, ◌++◌, DateTime, is_none,
  if◌then◌else◌,
}
use employee_monitoring_app.Session.{
  WorkSessionStatus, Break, WorkSession, is_open, close, checkout, create_session,
}

pub data AppState : Type 0 where
  logged_out ready working on_break completed : AppState

pub data SessionAction : Type 0 where
  login logout check_in check_out take_break resume : SessionAction

pub data Error : Type 0 where
  invalid_transition requires_user no_active_session : Error

pub data Result {ℓ} (A : Type ℓ) : Type ℓ where
  ok : A → Result A
  err : Error → Result A

pub AppState-discrete : Discrete AppState
AppState-discrete = hlevel

pub SessionAction-discrete : Discrete SessionAction
SessionAction-discrete = hlevel

-- _TRANSITIONS; `none` is a key that is not in the dict.
unfoldable pub transitions : AppState → SessionAction → Option AppState
transitions logged_out login = some ready
transitions ready check_in = some working
transitions ready logout = some logged_out
transitions working check_out = some completed
transitions working take_break = some on_break
transitions on_break resume = some working
transitions on_break check_out = some completed
transitions completed check_in = some working
transitions completed logout = some logged_out
transitions _ _ = none

-- is_valid
unfoldable pub is_valid : AppState → SessionAction → Bool
unfolding transitions
is_valid state action = not (is_none (transitions state action))

pub record SessionMachine : Type 0 where
  pub state : AppState
  pub session : Option WorkSession

abbrev pub new_machine : SessionMachine
new_machine = record { state = logged_out; session = none }

-- SessionMachine.can
unfoldable pub can : SessionMachine → SessionAction → Bool
unfolding transitions
can m action = not (is_none (transitions m.state action))

-- SessionMachine.next_state
unfoldable pub next_state : SessionMachine → SessionAction → Result AppState
unfolding transitions
next_state m action = elim (transitions m.state action) [
  | none ↦ err invalid_transition
  | some s ↦ ok s
]

abbrev pub all_actions : List SessionAction
all_actions = login ∷ logout ∷ check_in ∷ check_out ∷ take_break ∷ resume ∷ []

abbrev select_actions : (SessionAction → Bool) → List SessionAction → List SessionAction
select_actions p [] = []
select_actions p (a ∷ as_) = let rest = select_actions p as_ in if p a then a ∷ rest else rest

-- SessionMachine.available_actions, a frozenset, as a list without repetition
unfoldable pub available_actions : SessionMachine → List SessionAction
unfolding can
available_actions m = select_actions (can m) all_actions

abbrev pub state_of_status : WorkSessionStatus → AppState
state_of_status WorkSessionStatus.working = working
state_of_status WorkSessionStatus.on_break = on_break
state_of_status WorkSessionStatus.completed = ready

-- SessionMachine.restore
unfoldable pub restore : WorkSession → SessionMachine
restore s = record { state = state_of_status s.status; session = some s }

-- The break that `close` returns; the loop calls it on an open break only.
abbrev pub closed_or_same : Break → Option Break → Break
closed_or_same b none = b
closed_or_same b (some c) = c

-- SessionMachine._close_open_break: the first open break is closed, the others stay.
unfoldable pub close_open_break : List Break → DateTime → List Break
unfolding close
close_open_break [] at = []
close_open_break (b ∷ bs) at =
    let rest = close_open_break bs at in
    if is_open b then closed_or_same b (close b at) ∷ bs else b ∷ rest

abbrev pub id_or_zero : Option ℕ → ℕ
id_or_zero none = 0
id_or_zero (some n) = n

abbrev pub is_completed : WorkSessionStatus → Bool
is_completed WorkSessionStatus.completed = true
is_completed _ = false

abbrev start_session : AppState → DateTime → Option ℕ → Result SessionMachine
start_session st at none = err requires_user
start_session st at (some u) = ok (record { state = st; session = some (create_session u at) })

-- The branch of `apply` for CHECK_IN: a completed session is replaced, another is kept.
on_check_in : AppState → Option WorkSession → DateTime → Option ℕ → Result SessionMachine
unfolding create_session
on_check_in st none at user = start_session st at user
on_check_in st (some s) at user =
    if is_completed s.status
    then start_session st at user
    else ok (record { state = st; session = some s })

on_check_out : AppState → Option WorkSession → DateTime → Result SessionMachine
unfolding checkout
on_check_out st none at = err no_active_session
on_check_out st (some s) at = ok (record {
  state = st;
  session = some (record (checkout s at) { status = WorkSessionStatus.completed });
})

on_take_break : AppState → Option WorkSession → DateTime → Result SessionMachine
on_take_break st none at = err no_active_session
on_take_break st (some s) at =
    let b : Break = record {
      session_id = id_or_zero s.id;
      started_at = at;
      ended_at = none;
      duration_seconds = 0;
      id = none;
    } in
    ok (record {
      state = st;
      session =
          some (record s { breaks = s.breaks ++ b ∷ []; status = WorkSessionStatus.on_break });
    })

on_resume : AppState → Option WorkSession → DateTime → Result SessionMachine
unfolding close_open_break
on_resume st none at = ok (record { state = st; session = none })
on_resume st (some s) at = ok (record {
  state = st;
  session =
      some (record s { breaks = close_open_break s.breaks at; status = WorkSessionStatus.working });
})

effect : SessionAction → AppState → Option WorkSession → DateTime → Option ℕ → Result SessionMachine
unfolding on_check_in on_check_out on_take_break on_resume
effect login st s at user = ok (record { state = st; session = none })
effect logout st s at user = ok (record { state = st; session = none })
effect check_in st s at user = on_check_in st s at user
effect check_out st s at user = on_check_out st s at
effect take_break st s at user = on_take_break st s at
effect resume st s at user = on_resume st s at

-- SessionMachine.apply. Each raise stands before the first write, so `err` leaves the machine alone.
unfoldable pub apply : SessionMachine → SessionAction → DateTime → Option ℕ → Result SessionMachine
unfolding next_state effect
apply m action at user = elim (next_state m action) [
  | err e ↦ err e
  | ok st ↦ effect action st m.session at user
]

-- What a caller keeps: the new machine, or the old one where `apply` raised.
unfoldable pub step : SessionMachine → SessionAction → DateTime → Option ℕ → SessionMachine
unfolding apply
step m action at user = elim (apply m action at user) [ ok m' ↦ m' | err _ ↦ m ]
