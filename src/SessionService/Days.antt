-- ===== src/SessionService/Days.antt =====
-- Days: sequences of actions whose transactions are committed, and a restart after them.
use employee_monitoring_app.Prelude.{
  ℕ, ◌≤◌, ◌≡◌, refl, ap, ◌∙◌, true, false, none, some, List, [], ◌∷◌, ◌++◌, DateTime, arith,
  if◌then◌else◌,
}
use mathlib.Core.Path.{subst}
use employee_monitoring_app.Session.{WorkSessionStatus, WorkSession, create_session}
use employee_monitoring_app.Machine.{AppState, SessionAction, ok, apply}
use employee_monitoring_app.Db.{Db, break_row}
use employee_monitoring_app.Db.Table.{keys}
use employee_monitoring_app.SessionService.Persist.{
  SessionService, Env, check_in, take_break, resume, check_out,
}
use employee_monitoring_app.SessionService.Restore.{restore_session}
use employee_monitoring_app.SessionService.Shapes.{
  AtRest, at_rest, Shape, ready, completed, break_of, working, on_break,
}
use employee_monitoring_app.SessionService.Steps
use employee_monitoring_app.SessionService.Ends
use employee_monitoring_app.SessionService.Restart.{restarted, under_way, restore-Shape}

pub data Call : Type 0 where
  check_in_call take_break_call resume_call check_out_call : Call

unfoldable pub perform : Env → DateTime → Call → SessionService → SessionService
perform env at check_in_call a = (check_in env at a).0
perform env at take_break_call a = (take_break env at a).0
perform env at resume_call a = (resume env at a).0
perform env at check_out_call a = (check_out env at a).0

pub record Event : Type 0 where
  pub env : Env
  pub at : DateTime
  pub call : Call

unfoldable pub run : List Event → SessionService → SessionService
run [] a = a
run (e ∷ es) a = run es (perform e.env e.at e.call a)

-- The clock does not run backwards from `t` to `t'`, and each transaction is committed.
abbrev pub Committed : DateTime → List Event → DateTime → Type 0
Committed t [] t' = t ≤ t'
Committed t (e ∷ es) t' = (t ≤ e.at) × (e.env.stored ≡ true) × Committed e.at es t'

apply-completed :
    (s : WorkSession) (at : DateTime) (u : ℕ)
    → s.status ≡ WorkSessionStatus.completed
    → apply
        (record { state = AppState.completed; session = some s })
        SessionAction.check_in
        at
        (some u)
      ≡ ok (record { state = AppState.working; session = some (create_session u at) })
unfolding apply
apply-completed s at u h = ground arith

module _ (env : Env) (at : DateTime) (stored : env.stored ≡ true) where
  check_in-Shape :
      (u : ℕ) (t : DateTime) (a : SessionService)
      → t ≤ at
      → Shape u t a
      → Shape u at (check_in env at a).0
  unfolding check_in apply create_session
  check_in-Shape u t a p (ready db r e) =
      working (Steps.started_live env at stored u db) db.breaks refl
        (Steps.Mirrored-started env at stored u db r)
        (ap (λ x. (check_in env at x).0) e
          ∙ Steps.check_in-AtRest env at stored u
              (record { state = AppState.ready; session = none }) db refl)
  check_in-Shape u t a p (completed s db c r e) =
      working (Steps.started_live env at stored u db) db.breaks refl
        (Steps.Mirrored-started env at stored u db r)
        (ap (λ x. (check_in env at x).0) e
          ∙ Steps.check_in-AtRest env at stored u
              (record { state = AppState.completed; session = some s }) db
              (apply-completed s at u c))
  check_in-Shape u t a p (working v rows w m e) =
      working v rows w (Steps.Mirrored-later t at v rows v.tables p m)
        (ap (λ x. (check_in env at x).0) e ∙ refl)
  check_in-Shape u t a p (on_break v rows k b w m q f e) =
      on_break v rows k b w m (omega arith) f (ap (λ x. (check_in env at x).0) e ∙ refl)

  take_break-Shape :
      (u : ℕ) (t : DateTime) (a : SessionService)
      → t ≤ at
      → Shape u t a
      → Shape u at (take_break env at a).0
  unfolding take_break apply
  take_break-Shape u t a p (ready db r e) = ready db r (ap (λ x. (take_break env at x).0) e ∙ refl)
  take_break-Shape u t a p (completed s db c r e) =
      completed s db c r (ap (λ x. (take_break env at x).0) e ∙ refl)
  take_break-Shape u t a p (working v rows w m e) =
      on_break (Steps.paused_live env at stored v rows) rows _ at w
        (Steps.Mirrored-later t at v rows _ p m) (omega arith) (env.ids.next_fresh (keys rows))
        (ap (λ x. (take_break env at x).0) e ∙ Steps.take_break-working env at stored t v rows m)
  take_break-Shape u t a p (on_break v rows k b w m q f e) =
      on_break v rows k b w m (omega arith) f (ap (λ x. (take_break env at x).0) e ∙ refl)

  resume-Shape :
      (u : ℕ) (t : DateTime) (a : SessionService)
      → t ≤ at
      → Shape u t a
      → Shape u at (resume env at a).0
  unfolding resume apply
  resume-Shape u t a p (ready db r e) = ready db r (ap (λ x. (resume env at x).0) e ∙ refl)
  resume-Shape u t a p (completed s db c r e) =
      completed s db c r (ap (λ x. (resume env at x).0) e ∙ refl)
  resume-Shape u t a p (working v rows w m e) =
      working v rows w (Steps.Mirrored-later t at v rows v.tables p m)
        (ap (λ x. (resume env at x).0) e ∙ refl)
  resume-Shape u t a p (on_break v rows k b w m q f e) =
      working (Steps.resumed_live env at stored v k b) _ w
        (Steps.Mirrored-resumed env at stored v rows k b (omega arith) m)
        (ap (λ x. (resume env at x).0) e ∙ Steps.resume-on_break env at stored v rows k b m f)

  check_out-Shape :
      (u : ℕ) (t : DateTime) (a : SessionService)
      → t ≤ at
      → Shape u t a
      → Shape u at (check_out env at a).0
  unfolding check_out apply
  check_out-Shape u t a p (ready db r e) = ready db r (ap (λ x. (check_out env at x).0) e ∙ refl)
  check_out-Shape u t a p (completed s db c r e) =
      completed s db c r (ap (λ x. (check_out env at x).0) e ∙ refl)
  check_out-Shape u t a p (working v rows w m e) =
      subst (λ x. Shape x at (check_out env at a).0) w
        (completed _ _ refl (Ends.AtRest-done env at stored v _ rows _ m.only m.referenced)
          (ap (λ x. (check_out env at x).0) e ∙ Ends.check_out-working env at stored t v rows m))
  check_out-Shape u t a p (on_break v rows k b w m q f e) =
      subst (λ x. Shape x at (check_out env at a).0) w
        (completed _ _ refl
          (Ends.AtRest-done env at stored v _ (rows ++ Steps.ended_row env at stored k v.n b ∷ []) _
            m.only
            (λ j g ne.
              Steps.select-ended env at stored (break_of j) rows _ (m.referenced j g ne)
                (Steps.other_session env at stored v k j b ne)))
          (ap (λ x. (check_out env at x).0) e
            ∙ Ends.check_out-on_break env at stored v rows k b m f))

perform-Shape :
    (env : Env) (at : DateTime) (c : Call) (u : ℕ) (t : DateTime) (a : SessionService)
    → env.stored ≡ true
    → t ≤ at
    → Shape u t a
    → Shape u at (perform env at c a)
unfolding perform
perform-Shape env at check_in_call u t a h p s = check_in-Shape env at h u t a p s
perform-Shape env at take_break_call u t a h p s = take_break-Shape env at h u t a p s
perform-Shape env at resume_call u t a h p s = resume-Shape env at h u t a p s
perform-Shape env at check_out_call u t a h p s = check_out-Shape env at h u t a p s

Shape-mono : (u : ℕ) (t at : DateTime) (a : SessionService) → t ≤ at → Shape u t a → Shape u at a
Shape-mono u t at a p (ready db r e) = ready db r e
Shape-mono u t at a p (completed s db c r e) = completed s db c r e
Shape-mono u t at a p (working v rows w m e) =
    working v rows w (Steps.Mirrored-later t at v rows v.tables p m) e
Shape-mono u t at a p (on_break v rows k b w m q f e) = on_break v rows k b w m (omega arith) f e

pub run-Shape :
    (es : List Event) (u : ℕ) (t t' : DateTime) (a : SessionService)
    → Committed t es t'
    → Shape u t a
    → Shape u t' (run es a)
unfolding run
run-Shape [] u t t' a c s = Shape-mono u t t' a c s
run-Shape (e ∷ es) u t t' a c s =
    run-Shape es u e.at t' (perform e.env e.at e.call a) c.2
      (perform-Shape e.env e.at e.call u t a c.1 c.0 s)

-- From a login of a user with no unfinished session, in a database where every break belongs to a
-- session row, after any actions in the order of time whose transactions are committed: a restart with
-- that user and that database, at work or on a break, restores the machine exactly as it was, with its
-- session and every break, and a restart without a session under way restores nothing.
pub restart_lem :
    (es : List Event) (u : ℕ) (t t' : DateTime) (db : Db)
    → Committed t es t'
    → AtRest u db
    → let a = run es (at_rest u (record { state = AppState.ready; session = none }) db) in
      restore_session true (restarted a)
      ≡ (if under_way a.machine.state then (a, true) else (restarted a, false))
restart_lem es u t t' db c r = restore-Shape u t' _ (run-Shape es u t t' _ c (ready db r refl))
