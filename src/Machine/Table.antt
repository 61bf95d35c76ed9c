-- ===== src/Machine/Table.antt =====
-- The machine and its table: what `apply` accepts, what it raises, and what the buttons show.
use employee_monitoring_app.Prelude.{
  ℕ, ◌≡◌, ◌∙◌, sym, ap, refl, Bool, true, false, Option, none, some, List, [], ◌∷◌, DateTime, arith,
  Option-cases, inl, inr, is_none, ◌&&◌, ◌||◌, if◌then◌else◌,
}
use employee_monitoring_app.Session.{WorkSessionStatus, WorkSession}
use employee_monitoring_app.Machine.{
  AppState, SessionAction, SessionMachine, Error, Result, ok, err, invalid_transition,
  requires_user, transitions, can, apply, effect,
}
use employee_monitoring_app.Machine.Invariant.{Fits, IsConsistent}

-- The state of a machine that `apply` returns is the table's entry.
effect-state :
    (a : SessionAction) (st : AppState) (s : Option WorkSession) (at : DateTime) (u : Option ℕ)
    {m : SessionMachine}
    → effect a st s at u ≡ ok m
    → m.state ≡ st
unfolding effect
effect-state SessionAction.login st s at u h = ground arith
effect-state SessionAction.check_in st s at u h = ground arith
effect-state _ st s at u h = ground arith

-- An action that `apply` accepts is in the table, and the new state is the table's entry.
pub apply_follows_table :
    (m : SessionMachine) (a : SessionAction) (at : DateTime) (u : Option ℕ) {m' : SessionMachine}
    → apply m a at u ≡ ok m'
    → transitions m.state a ≡ some m'.state
unfolding apply
apply_follows_table m a at u h = elim (Option-cases (transitions m.state a)) [
  | inl e ↦ ground arith
  | inr (st, e) ↦ ground (arith, effect-state a st m.session at u)
]

-- The actions of each state, written out.
abbrev pub allowed : AppState → List SessionAction
allowed AppState.logged_out = SessionAction.login ∷ []
allowed AppState.ready = SessionAction.check_in ∷ SessionAction.logout ∷ []
allowed AppState.working = SessionAction.take_break ∷ SessionAction.check_out ∷ []
allowed AppState.on_break = SessionAction.resume ∷ SessionAction.check_out ∷ []
allowed AppState.completed = SessionAction.check_in ∷ SessionAction.logout ∷ []

abbrev pub same_action : SessionAction → SessionAction → Bool
same_action SessionAction.login SessionAction.login = true
same_action SessionAction.logout SessionAction.logout = true
same_action SessionAction.check_in SessionAction.check_in = true
same_action SessionAction.check_out SessionAction.check_out = true
same_action SessionAction.take_break SessionAction.take_break = true
same_action SessionAction.resume SessionAction.resume = true
same_action _ _ = false

abbrev pub is_allowed : SessionAction → List SessionAction → Bool
is_allowed a [] = false
is_allowed a (b ∷ bs) = same_action a b || is_allowed a bs

-- The error of a result, if it is one.
abbrev pub error_of : Result SessionMachine → Option Error
error_of (ok m) = none
error_of (err e) = some e

-- What an action on a consistent machine raises.
abbrev pub expected_error : AppState → SessionAction → Option ℕ → Option Error
expected_error st a user =
    if is_allowed a (allowed st)
    then (if same_action a SessionAction.check_in && is_none user then some requires_user else none)
    else some invalid_transition

-- A check-in where the session is completed
check_in_again :
    (st : AppState) (s : WorkSession) (at : DateTime) (u : Option ℕ)
    → s.status ≡ WorkSessionStatus.completed
    → transitions st SessionAction.check_in ≡ some AppState.working
    → error_of (apply (record { state = st; session = some s }) SessionAction.check_in at u)
      ≡ (if is_none u then some requires_user else none)
unfolding apply
check_in_again st s at none h k = ground arith
check_in_again st s at (some u) h k = ground arith

error_of-apply :
    (t : DateTime) (st : AppState) (s : Option WorkSession) (a : SessionAction) (at : DateTime)
    (u : Option ℕ)
    → Fits t st s
    → error_of (apply (record { state = st; session = s }) a at u) ≡ expected_error st a u
unfolding apply
error_of-apply t AppState.logged_out s SessionAction.login at u f = refl
error_of-apply t AppState.logged_out s SessionAction.logout at u f = refl
error_of-apply t AppState.logged_out s SessionAction.check_in at u f = refl
error_of-apply t AppState.logged_out s SessionAction.check_out at u f = refl
error_of-apply t AppState.logged_out s SessionAction.take_break at u f = refl
error_of-apply t AppState.logged_out s SessionAction.resume at u f = refl
error_of-apply t AppState.ready none SessionAction.login at u f = refl
error_of-apply t AppState.ready none SessionAction.logout at u f = refl
error_of-apply t AppState.ready none SessionAction.check_in at none f = refl
error_of-apply t AppState.ready none SessionAction.check_in at (some u) f = refl
error_of-apply t AppState.ready none SessionAction.check_out at u f = refl
error_of-apply t AppState.ready none SessionAction.take_break at u f = refl
error_of-apply t AppState.ready none SessionAction.resume at u f = refl
error_of-apply t AppState.ready (some s) SessionAction.login at u f = refl
error_of-apply t AppState.ready (some s) SessionAction.logout at u f = refl
error_of-apply t AppState.ready (some s) SessionAction.check_in at u f =
    check_in_again AppState.ready s at u f.status refl
error_of-apply t AppState.ready (some s) SessionAction.check_out at u f = refl
error_of-apply t AppState.ready (some s) SessionAction.take_break at u f = refl
error_of-apply t AppState.ready (some s) SessionAction.resume at u f = refl
error_of-apply t AppState.working none a at u f = absurd f
error_of-apply t AppState.working (some s) SessionAction.login at u f = refl
error_of-apply t AppState.working (some s) SessionAction.logout at u f = refl
error_of-apply t AppState.working (some s) SessionAction.check_in at u f = refl
error_of-apply t AppState.working (some s) SessionAction.check_out at u f = refl
error_of-apply t AppState.working (some s) SessionAction.take_break at u f = refl
error_of-apply t AppState.working (some s) SessionAction.resume at u f = refl
error_of-apply t AppState.on_break none a at u f = absurd f
error_of-apply t AppState.on_break (some s) SessionAction.login at u f = refl
error_of-apply t AppState.on_break (some s) SessionAction.logout at u f = refl
error_of-apply t AppState.on_break (some s) SessionAction.check_in at u f = refl
error_of-apply t AppState.on_break (some s) SessionAction.check_out at u f = refl
error_of-apply t AppState.on_break (some s) SessionAction.take_break at u f = refl
error_of-apply t AppState.on_break (some s) SessionAction.resume at u f = refl
error_of-apply t AppState.completed none a at u f = absurd f
error_of-apply t AppState.completed (some s) SessionAction.login at u f = refl
error_of-apply t AppState.completed (some s) SessionAction.logout at u f = refl
error_of-apply t AppState.completed (some s) SessionAction.check_in at u f =
    check_in_again AppState.completed s at u f.status refl
error_of-apply t AppState.completed (some s) SessionAction.check_out at u f = refl
error_of-apply t AppState.completed (some s) SessionAction.take_break at u f = refl
error_of-apply t AppState.completed (some s) SessionAction.resume at u f = refl

-- In a consistent machine an action raises the transition error exactly where it is none of the
-- state's actions: a login in LOGGED_OUT, a check-in and a logout in READY and COMPLETED, a break and
-- a check-out in WORKING, a resume and a check-out on a break. Of these only a check-in without a user
-- raises, the error of the missing user; the error of a missing session is never raised.
pub apply_errors :
    (t : DateTime) (m : SessionMachine) (a : SessionAction) (at : DateTime) (u : Option ℕ)
    → IsConsistent t m
    → error_of (apply m a at u) ≡ expected_error m.state a u
apply_errors t m a at u f = error_of-apply t m.state m.session a at u f

abbrev pub accepts : Result SessionMachine → Bool
accepts r = is_none (error_of r)

can-expected :
    (u : ℕ) (st : AppState) (s : Option WorkSession) (a : SessionAction)
    → can (record { state = st; session = s }) a ≡ is_none (expected_error st a (some u))
unfolding can
can-expected u AppState.logged_out s SessionAction.login = refl
can-expected u AppState.logged_out s SessionAction.logout = refl
can-expected u AppState.logged_out s SessionAction.check_in = refl
can-expected u AppState.logged_out s SessionAction.check_out = refl
can-expected u AppState.logged_out s SessionAction.take_break = refl
can-expected u AppState.logged_out s SessionAction.resume = refl
can-expected u AppState.ready s SessionAction.login = refl
can-expected u AppState.ready s SessionAction.logout = refl
can-expected u AppState.ready s SessionAction.check_in = refl
can-expected u AppState.ready s SessionAction.check_out = refl
can-expected u AppState.ready s SessionAction.take_break = refl
can-expected u AppState.ready s SessionAction.resume = refl
can-expected u AppState.working s SessionAction.login = refl
can-expected u AppState.working s SessionAction.logout = refl
can-expected u AppState.working s SessionAction.check_in = refl
can-expected u AppState.working s SessionAction.check_out = refl
can-expected u AppState.working s SessionAction.take_break = refl
can-expected u AppState.working s SessionAction.resume = refl
can-expected u AppState.on_break s SessionAction.login = refl
can-expected u AppState.on_break s SessionAction.logout = refl
can-expected u AppState.on_break s SessionAction.check_in = refl
can-expected u AppState.on_break s SessionAction.check_out = refl
can-expected u AppState.on_break s SessionAction.take_break = refl
can-expected u AppState.on_break s SessionAction.resume = refl
can-expected u AppState.completed s SessionAction.login = refl
can-expected u AppState.completed s SessionAction.logout = refl
can-expected u AppState.completed s SessionAction.check_in = refl
can-expected u AppState.completed s SessionAction.check_out = refl
can-expected u AppState.completed s SessionAction.take_break = refl
can-expected u AppState.completed s SessionAction.resume = refl

-- In a consistent machine an action with a user is accepted exactly where the table has it.
pub can-accepts :
    (t : DateTime) (m : SessionMachine) (a : SessionAction) (at : DateTime) (u : ℕ)
    → IsConsistent t m
    → can m a ≡ accepts (apply m a at (some u))
can-accepts t m a at u f =
    can-expected u m.state m.session a ∙ ap is_none (sym (apply_errors t m a at (some u) f))
