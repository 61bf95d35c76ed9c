-- ===== src/Auth/Restarts.antt =====
-- A restoration after a restart: with a backend that answers, and with one that does not.
use text.Mathlib.Text.{◌==◌ as str_eq}
use employee_monitoring_app.Prelude.{
  ℕ, ◌≡◌, ◌⊎◌, inl, inr, refl, true, false, Option, none, some, String, List, arith, ap, ◌∙◌,
}
use employee_monitoring_app.Machine.{AppState, apply}
use employee_monitoring_app.Db.{UserRow}
use employee_monitoring_app.Repositories.Users.{upsert, upsert-twice}
use employee_monitoring_app.Network.Http.{
  Wire, timed_out, transport_failed, answer, is_reachable, request, classify_response,
}
use employee_monitoring_app.Auth.{AuthSession, Raised, returned, raised}
use employee_monitoring_app.Auth.Providers.{Body, api_provider, api_refresh, refresh_answer}
use employee_monitoring_app.Auth.Service.{
  World, Env, publish_token, clear_store, signed_in, enter, login, entered, some_user, restore,
  restore_token, restore_session, restore_cached, shutdown, restarted,
}

-- The refresh at a request that is not answered with a 2xx status.
api_refresh-unreachable :
    (wire : Wire Body) (token : String) (holder : Option String)
    → is_reachable wire ≡ false
    → let out = api_refresh wire token holder in
      (out.0 ≡ holder)
      × ((out.1 ≡ raised Raised.invalid_credentials) ⊎ (out.1 ≡ raised Raised.server_unavailable))
unfolding api_refresh refresh_answer is_reachable request classify_response
api_refresh-unreachable timed_out token holder h = (refl, inr refl)
api_refresh-unreachable transport_failed token holder h = (refl, inr refl)
api_refresh-unreachable (answer response) token holder h = ground arith

-- With a backend that does not answer the refresh with a 2xx status, one that is not reachable
-- included, a restoration returns no user and wipes the stored token; the rest is as it was.
pub restore_offline :
    (env : Env) (w : World) (to_login to_refresh : Wire Body) (token : String)
    → env.provider ≡ api_provider to_login to_refresh
    → env.loaded ≡ true
    → env.cleared ≡ true
    → w.service.current_user ≡ none
    → w.stored_token ≡ some token
    → str_eq token "" ≡ false
    → is_reachable to_refresh ≡ false
    → restore env w ≡ (record w { stored_token = none }, returned none)
unfolding restore restore_token restore_session clear_store
restore_offline env w to_login to_refresh token p l c u s n r =
    let (h, k) = api_refresh-unreachable to_refresh token w.holder r in
    rw (p, l, c, u, s, n) (elim k [ inl e ↦ rw (h, e) refl | inr e ↦ rw (h, e) refl ])

-- The world of the user of session `s`, whose row has the key `n`.
abbrev in_session : World → AuthSession → List UserRow × ℕ → World
in_session w s (users, n) = record {
  service = record {
    has_holder = true;
    token = some s.token;
    current_user = some s.user;
    current_user_id = some n;
  };
  holder = some s.token;
  stored_token = some s.token;
  machine = record { state = AppState.ready; session = none };
  users = users;
}

enter-in_session :
    (env : Env) (w : World) (s : AuthSession) (n : ℕ)
    → w.service.has_holder ≡ true
    → w.stored_token ≡ some s.token
    → w.machine.state ≡ AppState.logged_out
    → enter env s s.token n w ≡ (in_session w s (w.users, n), returned s.user)
unfolding enter entered signed_in publish_token apply
enter-in_session env w s n h t m = rw (h, t, m) refl

login-in_session :
    (env : Env) (email password : String) (w : World) (s : AuthSession) (holder : Option String)
    → env.provider.login email password w.holder ≡ (holder, returned s)
    → env.saved ≡ true
    → env.committed ≡ true
    → w.service.has_holder ≡ true
    → w.machine.state ≡ AppState.logged_out
    → login env email password w ≡ (in_session w s (upsert env.ids s.user w.users), returned s.user)
unfolding login
login-in_session env email password w s holder p a c h m =
    let (users, n) = upsert env.ids s.user w.users in
    let v = record w { holder = holder; stored_token = some s.token; users = users } in
    rw (p, a, c) (enter-in_session env v s n h refl m)

restore-in_session :
    (env : Env) (w : World) (s : AuthSession) (holder : Option String)
    → env.provider.refresh s.token w.holder ≡ (holder, returned s)
    → env.loaded ≡ true
    → env.committed ≡ true
    → w.service.current_user ≡ none
    → w.service.has_holder ≡ true
    → w.stored_token ≡ some s.token
    → str_eq s.token "" ≡ false
    → w.machine.state ≡ AppState.logged_out
    → restore env w ≡ (in_session w s (upsert env.ids s.user w.users), returned (some s.user))
unfolding restore restore_token restore_session restore_cached enter
restore-in_session env w s holder p l c u h t n m =
    let (users, k) = upsert env.ids s.user w.users in
    let v = record w {
      service = record w.service { current_user = none };
      holder = holder;
      stored_token = some s.token;
      users = users;
    } in
    rw (u, l, t, n, p, c)
      (ap some_user
        (enter-in_session (record env { loaded = true; committed = true }) v s k h refl m))

-- A login that is stored, a shutdown, and a restoration in a new process, with a provider that refreshes
-- the token to the same session: the whole world is again that after the login, the key of the user
-- and the users table included.
pub login_survives_restart :
    (env env' : Env) (email password : String) (w : World) (s : AuthSession)
    (holder holder' : Option String)
    → env.provider.login email password w.holder ≡ (holder, returned s)
    → env.saved ≡ true
    → env.committed ≡ true
    → w.service.has_holder ≡ true
    → w.machine.state ≡ AppState.logged_out
    → str_eq s.token "" ≡ false
    → env'.provider.refresh s.token none ≡ (holder', returned s)
    → env'.loaded ≡ true
    → env'.committed ≡ true
    → let out = login env email password w in
      (out.1 ≡ returned s.user)
      × (restore env' (restarted (shutdown out.0)) ≡ (out.0, returned (some s.user)))
unfolding restarted shutdown publish_token
login_survives_restart env env' email password w s holder holder' p a c h m t q l c' =
    let rows = upsert env.ids s.user w.users in
    let again = restarted (shutdown (in_session w s rows)) in
    rw (login-in_session env email password w s holder p a c h m) (
      refl,
      restore-in_session env' again s holder' q l c' refl refl refl t refl
          ∙ ap (λ r. (in_session w s r, returned (some s.user)))
              (upsert-twice env.ids env'.ids s.user w.users),
    )
