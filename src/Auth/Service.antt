-- ===== src/Auth/Service.antt =====
-- auth_service.py: login, logout, restore and shutdown.
use text.Mathlib.Text.{◌==◌ as str_eq}
use employee_monitoring_app.Prelude.{
  ℕ, Bool, Option, none, some, List, String, DateTime, if◌then◌else◌,
}
use employee_monitoring_app.Machine.{SessionAction, SessionMachine, Result, ok, err, apply}
use employee_monitoring_app.Machine
use employee_monitoring_app.Db.{UserRow, KeySource}
use employee_monitoring_app.Repositories.Users.{Identity, upsert}
use employee_monitoring_app.Auth.{
  AuthSession, Raised, is_authentication, Outcome, returned, raised, AuthProvider,
}

-- AuthService; `has_holder` is false where none is bound.
pub record AuthService : Type 0 where
  pub has_holder : Bool
  pub token : Option String
  pub current_user : Option Identity
  pub current_user_id : Option ℕ

-- The service, the token of the holder, the token of the credential store, the machine that it shares,
-- and the users table.
pub record World : Type 0 where
  pub service : AuthService
  pub holder : Option String
  pub stored_token : Option String
  pub machine : SessionMachine
  pub users : List UserRow

-- The provider, the keys of new rows, and whether the store can save, load and clear, and whether the
-- transaction is committed.
pub record Env : Type 0 where
  pub provider : AuthProvider
  pub ids : KeySource
  pub now : DateTime
  pub saved : Bool
  pub loaded : Bool
  pub cleared : Bool
  pub committed : Bool

-- _publish_token
unfoldable pub publish_token : Option String → World → World
publish_token token w = if w.service.has_holder then record w { holder = token } else w

-- `with suppress(CredentialStoreUnavailableError): self._store.clear()`
unfoldable pub clear_store : Env → World → World
clear_store env w = if env.cleared then record w { stored_token = none } else w

-- The fields of an authenticated user, and the token published.
unfoldable pub signed_in : AuthSession → String → ℕ → World → World
unfolding publish_token
signed_in s token user_id w = publish_token (some token) (record w {
  service = record w.service {
    token = some token;
    current_user = some s.user;
    current_user_id = some user_id;
  };
})

-- The machine takes LOGIN; where it refuses, the fields are set already.
unfoldable pub entered : Env → Identity → World → Result SessionMachine → World × Outcome Identity
entered env user w (err e) = (w, raised (Raised.state e))
entered env user w (ok m) = (record w { machine = m }, returned user)

unfoldable pub enter : Env → AuthSession → String → ℕ → World → World × Outcome Identity
unfolding entered signed_in
enter env s token user_id w =
    entered env s.user (signed_in s token user_id w)
      (apply w.machine SessionAction.login env.now none)

-- After the token was saved: the user is cached, or the token is taken back.
unfoldable pub login_saved : Env → AuthSession → World → World × Outcome Identity
unfolding clear_store enter
login_saved env s w =
    let (users, user_id) = upsert env.ids s.user w.users in
    if env.committed
    then enter env s s.token user_id (record w { users = users })
    else (clear_store env w, raised Raised.database)

unfoldable pub login_session : Env → World → Outcome AuthSession → World × Outcome Identity
unfolding login_saved
login_session env w (raised e) = (w, raised e)
login_session env w (returned s) =
    if env.saved
    then login_saved env s (record w { stored_token = some s.token })
    else (w, raised Raised.authentication)

-- login
unfoldable pub login : Env → String → String → World → World × Outcome Identity
unfolding login_session
login env email password w =
    let (holder, session) = env.provider.login email password w.holder in
    login_session env (record w { holder = holder }) session

-- The revocation, whatever comes of it, and the stored token.
unfoldable pub revoke : Env → Option String → World → World
unfolding clear_store
revoke env none w = w
revoke env (some token) w =
    clear_store env (record w { holder = env.provider.logout token w.holder })

unfoldable pub signed_out : World → World
unfolding publish_token
signed_out w = publish_token none (record w {
  service = record w.service { token = none; current_user = none; current_user_id = none };
})

unfoldable pub logged_out : Env → World → Result SessionMachine → World × Outcome (Unit {0})
unfolding revoke signed_out
logged_out env w (err e) = (w, raised (Raised.state e))
logged_out env w (ok m) =
    (signed_out (revoke env w.service.token (record w { machine = m })), returned tt)

-- logout
unfoldable pub logout : Env → World → World × Outcome (Unit {0})
unfolding logged_out
logout env w = logged_out env w (apply w.machine SessionAction.logout env.now none)

-- What `restore` returns: a user, or none.
abbrev pub some_user : World × Outcome Identity → World × Outcome (Option Identity)
some_user (w, raised e) = (w, raised e)
some_user (w, returned u) = (w, returned (some u))

unfoldable pub restore_cached :
    Env → String → AuthSession → World → World × Outcome (Option Identity)
unfolding enter
restore_cached env token s w =
    let (users, user_id) = upsert env.ids s.user w.users in
    if env.committed
    then some_user (enter env s token user_id (record w { users = users }))
    else (w, raised Raised.database)

-- After the refresh: an AuthenticationError of any kind wipes the stored token.
unfoldable pub restore_session :
    Env → String → World → Outcome AuthSession → World × Outcome (Option Identity)
unfolding restore_cached clear_store
restore_session env token w (returned s) = restore_cached env token s w
restore_session env token w (raised e) =
    if is_authentication e then (clear_store env w, returned none) else (w, raised e)

unfoldable pub restore_token : Env → Option String → World → World × Outcome (Option Identity)
unfolding restore_session
restore_token env none w = (w, returned none)
restore_token env (some token) w =
    let (holder, session) = env.provider.refresh token w.holder in
    if str_eq token ""
    then (w, returned none)
    else restore_session env token (record w { holder = holder }) session

-- restore
unfoldable pub restore : Env → World → World × Outcome (Option Identity)
unfolding restore_token
restore env w = elim w.service.current_user [
  | some u ↦ (w, returned (some u))
  | none ↦
      if env.loaded
      then restore_token env w.stored_token w
      else (w, raised Raised.store_unavailable)
]

-- shutdown
unfoldable pub shutdown : World → World
unfolding publish_token
shutdown w = publish_token none (record w { service = record w.service { token = none } })

-- A new process: the fields are those of a new service and a new machine.
unfoldable pub restarted : World → World
restarted w = record w {
  service = record {
    has_holder = w.service.has_holder;
    token = none;
    current_user = none;
    current_user_id = none;
  };
  holder = none;
  machine = Machine.new_machine;
}
