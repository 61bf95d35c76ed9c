-- ===== src/SessionService/Unsaved.antt =====
-- A session whose check-in was not committed has no key, and no later action of it is written.
use employee_monitoring_app.Prelude.{
  ℕ, ◌≡◌, ◌⊎◌, inl, inr, refl, ◌∙◌, true, false, Option, none, some, List, [], ◌∷◌, DateTime, arith,
}
use employee_monitoring_app.Session.{WorkSession, checkout, create_session}
use employee_monitoring_app.Machine.{AppState, apply, is_completed}
use employee_monitoring_app.Machine.Invariant.{Fits, IsConsistent}
use employee_monitoring_app.SessionService.Persist.{
  SessionService, Env, key_of, persist_check_in, persist_take_break, persist_resume,
  persist_check_out, check_in, take_break, resume, check_out,
}
use employee_monitoring_app.SessionService.Days.{
  Event, Call, check_in_call, take_break_call, resume_call, check_out_call, perform, run,
}

-- The session in memory, if there is one, has no row.
abbrev pub IsUnsaved : SessionService → Type 0
IsUnsaved a = key_of a.machine.session ≡ none

-- The calls but check_in.
abbrev pub IsLater : Call → Type 0
IsLater check_in_call = ⊥
IsLater _ = Unit

abbrev pub AllLater : List Event → Type 0
AllLater [] = Unit
AllLater (e ∷ es) = IsLater e.call × AllLater es

take_break-IsUnsaved :
    (env : Env) (at : DateTime) (a : SessionService)
    → IsUnsaved a
    → IsUnsaved (take_break env at a).0 × ((take_break env at a).0.db ≡ a.db)
unfolding take_break apply persist_take_break
take_break-IsUnsaved env at a h = ground arith

resume-IsUnsaved :
    (env : Env) (at : DateTime) (a : SessionService)
    → IsUnsaved a
    → IsUnsaved (resume env at a).0 × ((resume env at a).0.db ≡ a.db)
unfolding resume apply persist_resume
resume-IsUnsaved env at a h = ground arith

check_out-IsUnsaved :
    (env : Env) (at : DateTime) (a : SessionService)
    → IsUnsaved a
    → IsUnsaved (check_out env at a).0 × ((check_out env at a).0.db ≡ a.db)
unfolding check_out apply persist_check_out checkout
check_out-IsUnsaved env at a h = ground arith

perform-IsUnsaved :
    (env : Env) (at : DateTime) (c : Call) (a : SessionService)
    → IsLater c
    → IsUnsaved a
    → IsUnsaved (perform env at c a) × ((perform env at c a).db ≡ a.db)
unfolding perform
perform-IsUnsaved env at check_in_call a l h = absurd l
perform-IsUnsaved env at take_break_call a l h = take_break-IsUnsaved env at a h
perform-IsUnsaved env at resume_call a l h = resume-IsUnsaved env at a h
perform-IsUnsaved env at check_out_call a l h = check_out-IsUnsaved env at a h

db-run : (es : List Event) (a : SessionService) → AllLater es → IsUnsaved a → (run es a).db ≡ a.db
unfolding run
db-run [] a l h = refl
db-run (e ∷ es) a l h =
    let (k, d) = perform-IsUnsaved e.env e.at e.call a l.0 h in
    db-run es (perform e.env e.at e.call a) l.1 k ∙ d

-- A consistent machine in READY or COMPLETED has no session, or a completed one.
no_session_under_way :
    (t : DateTime) (st : AppState) (o : Option WorkSession)
    → Fits t st o
    → (st ≡ AppState.ready) ⊎ (st ≡ AppState.completed)
    → (o ≡ none) ⊎ ((s : WorkSession) × (o ≡ some s) × (is_completed s.status ≡ true))
no_session_under_way t AppState.ready none f h = inl refl
no_session_under_way t AppState.ready (some s) f h = inr (s, refl, rw f.status refl)
no_session_under_way t AppState.completed none f h = absurd f
no_session_under_way t AppState.completed (some s) f h = inr (s, refl, rw f.status refl)
no_session_under_way t AppState.logged_out o f (inl h) = cc
no_session_under_way t AppState.logged_out o f (inr h) = cc
no_session_under_way t AppState.working o f (inl h) = cc
no_session_under_way t AppState.working o f (inr h) = cc
no_session_under_way t AppState.on_break o f (inl h) = cc
no_session_under_way t AppState.on_break o f (inr h) = cc

check_in-IsUnsaved :
    (env : Env) (at : DateTime) (a : SessionService) (u : ℕ)
    → a.user_id ≡ some u
    → env.stored ≡ false
    → (a.machine.state ≡ AppState.ready) ⊎ (a.machine.state ≡ AppState.completed)
    → (a.machine.session ≡ none)
      ⊎ ((s : WorkSession) × (a.machine.session ≡ some s) × (is_completed s.status ≡ true))
    → ((check_in env at a).1 ≡ none)
      × IsUnsaved (check_in env at a).0
      × ((check_in env at a).0.machine.state ≡ AppState.working)
      × ((check_in env at a).0.db ≡ a.db)
unfolding check_in apply persist_check_in create_session
check_in-IsUnsaved env at a u h s r (inl n) = ground arith
check_in-IsUnsaved env at a u h s r (inr (c, e, k)) = ground arith

-- A check-in in READY or COMPLETED whose transaction fails raises nothing and the machine works; but
-- until the next check-in no break, resume or check-out changes the database, even where their
-- transactions could be committed: the session is never stored. The machine is any consistent one, so
-- this may be the first session of the day or a later one.
pub unsaved_check_in_lem :
    (env : Env) (t at : DateTime) (a : SessionService) (es : List Event) (u : ℕ)
    → a.user_id ≡ some u
    → env.stored ≡ false
    → (a.machine.state ≡ AppState.ready) ⊎ (a.machine.state ≡ AppState.completed)
    → IsConsistent t a.machine
    → AllLater es
    → ((check_in env at a).1 ≡ none)
      × ((check_in env at a).0.machine.state ≡ AppState.working)
      × ((run es (check_in env at a).0).db ≡ a.db)
unsaved_check_in_lem env t at a es u h s r c l =
    let n = no_session_under_way t a.machine.state a.machine.session c r in
    let (e, k, w, d) = check_in-IsUnsaved env at a u h s r n in
    (e, w, db-run es (check_in env at a).0 l k ∙ d)
