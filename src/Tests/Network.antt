-- ===== src/Tests/Network.antt =====
-- The HTTP classification, the sync provider and the logins at concrete inputs.
use employee_monitoring_app.Prelude.{
  ℕ, ◌≡◌, ◌≢◌, ◌⊎◌, refl, true, false, none, some, [], ◌∷◌, not, is_none, ◌&&◌, if◌then◌else◌,
}
use employee_monitoring_app.Machine.{AppState, invalid_transition, new_machine}
use employee_monitoring_app.Repositories.Users.{Identity}
use employee_monitoring_app.Network.Http.{
  Response, Wire, timed_out, transport_failed, answer, is_success, is_in, transient_statuses,
  request, is_reachable, json,
}
use employee_monitoring_app.Network.Classes.{is_ok, is_auth, is_retryable, request_lem}
use employee_monitoring_app.Network.Sync.{Backend}
use employee_monitoring_app.Auth.{AuthSession, Raised, returned, raised, AuthProvider}
use employee_monitoring_app.Auth.Providers.{Body, api_login, api_refresh, api_provider}
use employee_monitoring_app.Auth.Service.{World, Env, login, logout, restore, shutdown, restarted}
use employee_monitoring_app.Auth.Logins.{IsEntered, IsRefused, login_lem, logout_lem}
use employee_monitoring_app.Auth.Restarts.{restore_offline, login_survives_restart}
use employee_monitoring_app.Tests.Keys.{summed_keys}

abbrev status : ℕ → Response Body
status n = record { status_code = n; body = none }

request_lem_example :
    (is_ok (request (answer (status 503))) ≡ is_success 503)
    × (is_auth (request (answer (status 503))) ≡ is_in 503 (401 ∷ 403 ∷ []))
    × (is_retryable (request (answer (status 503))) ≡ is_in 503 transient_statuses)
    × (request {B = Body} timed_out ≡ request transport_failed)
    × (is_retryable (request {B = Body} timed_out) ≡ true)
request_lem_example = request_lem (status 503)

-- The token has expired, and the refresh and the second request go through.
abbrev expired : Backend Body
expired = record {
  described = true;
  filled = true;
  readable = true;
  first = answer (status 401);
  refresh = answer (status 200);
  second = answer (status 201);
  text = λ e. "failed";
  undescribed = "";
  unfilled = "";
  unconfirmed = "";
}

abbrev ann : Identity
ann = record {
  external_user_id = "u1";
  email = "ann@example.com";
  display_name = none;
  workspace_name = none;
}

abbrev body : Body
body = record {
  token = some "secret";
  user = some (record {
    email = some "ann@example.com";
    external_user_id = some "u1";
    display_name = none;
    workspace_name = none;
  });
}

abbrev answered : Wire Body
answered = answer (record { status_code = 200; body = some body })

abbrev with_provider : AuthProvider → Env
with_provider p = record {
  provider = p;
  ids = summed_keys;
  now = 0;
  saved = true;
  loaded = true;
  cleared = true;
  committed = true;
}

abbrev online_env : Env
online_env = with_provider (api_provider answered answered)

abbrev offline_env : Env
offline_env = with_provider (api_provider answered timed_out)

abbrev outside : World
outside = record {
  service = record { has_holder = true; token = none; current_user = none; current_user_id = none };
  holder = none;
  stored_token = none;
  machine = new_machine;
  users = [];
}

login_lem_example :
    let out = login online_env "ann@example.com" "pw" outside in
    ((s : AuthSession) × (user_id : ℕ) × IsEntered outside s user_id out)
    ⊎ ((e : Raised) × IsRefused outside e out)
login_lem_example = login_lem online_env "ann@example.com" "pw" outside

abbrev inside : World
inside = (login online_env "ann@example.com" "pw" outside).0

logout_lem_example :
    let out = logout online_env inside in
    (((inside.machine.state ≢ AppState.ready) × (inside.machine.state ≢ AppState.completed))
      × (out.1 ≡ raised (Raised.state invalid_transition))
      × (out.0 ≡ inside))
    ⊎ (((inside.machine.state ≡ AppState.ready) ⊎ (inside.machine.state ≡ AppState.completed))
        × (out.1 ≡ returned tt)
        × (out.0.machine ≡ new_machine)
        × (out.0.service
            ≡ record inside.service { token = none; current_user = none; current_user_id = none })
        × ((inside.service.has_holder ≡ false) ⊎ (out.0.holder ≡ none))
        × (out.0.stored_token
            ≡ (if true && not (is_none inside.service.token) then none else inside.stored_token)))
logout_lem_example = logout_lem online_env inside

abbrev kept : World
kept = record outside { stored_token = some "secret" }

restore_offline_example :
    restore offline_env kept ≡ (record kept { stored_token = none }, returned none)
unfolding is_reachable
restore_offline_example =
    restore_offline offline_env kept answered timed_out "secret" refl refl refl refl refl refl refl

abbrev session : AuthSession
session = record { user = ann; token = "secret" }

login_survives_restart_example :
    let out = login online_env "ann@example.com" "pw" outside in
    (out.1 ≡ returned ann)
    × (restore online_env (restarted (shutdown out.0)) ≡ (out.0, returned (some ann)))
unfolding api_login api_refresh request json
login_survives_restart_example =
    login_survives_restart online_env online_env "ann@example.com" "pw" outside session
      (some "secret") (some "secret") refl refl refl refl refl refl refl refl refl
