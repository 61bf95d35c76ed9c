-- ===== src/Auth/Logins.antt =====
-- What a login and a logout leave, also where they are refused.
use mathlib.Core.Path.{subst}
use employee_monitoring_app.Prelude.{
  sym, ℕ, ◌≡◌, ◌≢◌, ◌⊎◌, inl, inr, refl, false, none, some, String, List, DateTime, arith, is_none,
  not, ◌&&◌, if◌then◌else◌, if-case,
}
use employee_monitoring_app.Machine.{
  AppState, SessionAction, SessionMachine, ok, err, invalid_transition, apply, new_machine,
}
use employee_monitoring_app.Db.{UserRow}
use employee_monitoring_app.Repositories.Users.{Identity, get_by_email, upsert, upsert-finds}
use employee_monitoring_app.Auth.{AuthSession, Raised, Outcome, returned, raised}
use employee_monitoring_app.Auth.Service.{
  World, Env, publish_token, clear_store, signed_in, enter, login_saved, login, revoke, signed_out,
  logout, logged_out, entered, login_session,
}

-- A logout is refused in LOGGED_OUT, WORKING and BREAK, and then changes nothing. In READY and
-- COMPLETED it goes through whatever the provider does: no user, no key and no token are left in the
-- service, none in a holder that is bound, the machine is that of a new process, and the stored token
-- is gone unless the store cannot be cleared or the service held no token.
pub logout_lem :
    (env : Env) (w : World)
    → let out = logout env w in
      (((w.machine.state ≢ AppState.ready) × (w.machine.state ≢ AppState.completed))
        × (out.1 ≡ raised (Raised.state invalid_transition))
        × (out.0 ≡ w))
      ⊎ (((w.machine.state ≡ AppState.ready) ⊎ (w.machine.state ≡ AppState.completed))
          × (out.1 ≡ returned tt)
          × (out.0.machine ≡ new_machine)
          × (out.0.service
              ≡ record w.service { token = none; current_user = none; current_user_id = none })
          × ((w.service.has_holder ≡ false) ⊎ (out.0.holder ≡ none))
          × (out.0.stored_token
              ≡ (if env.cleared && not (is_none w.service.token) then none else w.stored_token)))
unfolding logout logged_out revoke signed_out publish_token clear_store apply
logout_lem env w = ground arith

-- The row of the user of session `s`, with the key `user_id`.
abbrev IsCached : AuthSession → ℕ → List UserRow → Type 0
IsCached s user_id users =
    (r : UserRow) × (get_by_email s.user.email users ≡ some r)
    × (r.id ≡ user_id)
    × (r.external_user_id ≡ some s.user.external_user_id)
    × (r.display_name ≡ s.user.display_name)
    × (r.workspace_name ≡ s.user.workspace_name)

abbrev IsSignedIn : World → AuthSession → ℕ → World × Outcome Identity → Type 0
IsSignedIn w s user_id out =
    (out.1 ≡ returned s.user)
    × (w.machine.state ≡ AppState.logged_out)
    × (out.0.machine ≡ record { state = AppState.ready; session = none })
    × (out.0.service.current_user ≡ some s.user)
    × (out.0.service.current_user_id ≡ some user_id)
    × (out.0.service.token ≡ some s.token)
    × (out.0.stored_token ≡ some s.token)
    × ((w.service.has_holder ≡ false) ⊎ (out.0.holder ≡ some s.token))

-- The world of the user of session `s`, whose row has the key `user_id`.
abbrev pub IsEntered : World → AuthSession → ℕ → World × Outcome Identity → Type 0
IsEntered w s user_id out = IsSignedIn w s user_id out × IsCached s user_id out.0.users

abbrev pub IsRefused : World → Raised → World × Outcome Identity → Type 0
IsRefused w e out =
    (out.1 ≡ raised e)
    × (out.0.machine ≡ w.machine)
    × ((out.0.service ≡ w.service) ⊎ (w.machine.state ≢ AppState.logged_out))

abbrev IsIn : World → World × Outcome Identity → Type 0
IsIn w out =
    ((s : AuthSession) × (user_id : ℕ) × IsEntered w s user_id out)
    ⊎ ((e : Raised) × IsRefused w e out)

apply-login :
    (m : SessionMachine) (at : DateTime)
    → ((m.state ≡ AppState.logged_out)
        × (apply m SessionAction.login at none
            ≡ ok (record { state = AppState.ready; session = none })))
      ⊎ ((m.state ≢ AppState.logged_out)
          × (apply m SessionAction.login at none ≡ err invalid_transition))
unfolding apply
apply-login m at = ground arith

abbrev entering : Env → World → AuthSession → ℕ → List UserRow → World × Outcome Identity
entering env w s n users =
    enter env s s.token n (record w { stored_token = some s.token; users = users })

entering-users :
    (env : Env) (w : World) (s : AuthSession) (n : ℕ) (users : List UserRow)
    → (entering env w s n users).0.users ≡ users
unfolding enter entered signed_in publish_token
entering-users env w s n users = elim (apply-login w.machine env.now) [
  | inl (h, e) ↦ ground (arith, e)
  | inr (h, e) ↦ ground (arith, e)
]

enter-IsIn :
    (env : Env) (w : World) (s : AuthSession) (n : ℕ) (users : List UserRow)
    → IsCached s n users
    → IsIn w (entering env w s n users)
unfolding enter entered signed_in publish_token
enter-IsIn env w s n users c =
    let out = entering env w s n users in
    elim (apply-login w.machine env.now) [
      | inl (h, e) ↦
          let go : IsSignedIn w s n out = ground (arith, e, h) in
          inl (s, n, (go, subst (IsCached s n) (sym (entering-users env w s n users)) c))
      | inr (h, e) ↦
          let go : IsRefused w (Raised.state invalid_transition) out = ground (arith, e, h) in
          inr (Raised.state invalid_transition, go)
    ]

login_session-IsIn :
    (env : Env) (w : World) (o : Outcome AuthSession) → IsIn w (login_session env w o)
unfolding login_session login_saved clear_store
login_session-IsIn env w (raised e) = inr (e, (refl, refl, inl refl))
login_session-IsIn env w (returned s) =
    let u = upsert env.ids s.user w.users in
    if-case (IsIn w) env.saved _ _
      (if-case (IsIn w) env.committed _ _
        (enter-IsIn env w s u.1 u.0 (upsert-finds env.ids s.user w.users))
        (inr (
          Raised.database,
          (
            refl,
            if-case (λ (v : World). v.machine ≡ w.machine) env.cleared _ _ refl refl,
            inl (if-case (λ (v : World). v.service ≡ w.service) env.cleared _ _ refl refl),
          ),
        )))
      (inr (Raised.authentication, (refl, refl, inl refl)))

-- A login that returns was made in LOGGED_OUT and leaves READY, the user in the service with the key of
-- its row, a row of its email in the users table with its columns, and one token in the service, in the
-- credential store and in a holder that is bound. One that raises leaves the machine, and leaves the
-- service as it was unless the machine was not LOGGED_OUT.
pub login_lem :
    (env : Env) (email password : String) (w : World)
    → let out = login env email password w in
      ((s : AuthSession) × (user_id : ℕ) × IsEntered w s user_id out)
      ⊎ ((e : Raised) × IsRefused w e out)
unfolding login
login_lem env email password w =
    let r = env.provider.login email password w.holder in
    login_session-IsIn env (record w { holder = r.0 }) r.1
