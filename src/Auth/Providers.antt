-- ===== src/Auth/Providers.antt =====
-- auth.py and auth_adapter.py: the provider of the mode "local", and the one of the backend.
use text.Mathlib.Text.{◌==◌ as str_eq}
use employee_monitoring_app.Prelude.{
  Bool, Option, none, some, [], ◌∷◌, String, ◌||◌, ◌&&◌, not, if◌then◌else◌,
}
use employee_monitoring_app.Repositories.Users.{Identity}
use employee_monitoring_app.Network.Http.{
  ApiError, api_auth, api_rejected, Response, Wire, Result, ok, err, is_in, request, json,
}
use employee_monitoring_app.Auth.{AuthSession, Raised, Outcome, returned, raised, AuthProvider}

-- The user envelope of a body: each field where it is a text.
pub record Envelope : Type 0 where
  pub email : Option String
  pub external_user_id : Option String
  pub display_name : Option String
  pub workspace_name : Option String

-- The object in the body of an answer: its token where that is a text, and its user where that is an
-- object.
pub record Body : Type 0 where
  pub token : Option String
  pub user : Option Envelope

user_of : Option String → Option String → Envelope → Outcome Identity
user_of (some email) (some external_user_id) u = returned (record {
  external_user_id = external_user_id;
  email = email;
  display_name = u.display_name;
  workspace_name = u.workspace_name;
})
user_of _ _ u = raised Raised.authentication

-- _parse_user
unfoldable pub parse_user : Body → Outcome Identity
unfolding user_of
parse_user b = elim b.user [
  | none ↦ raised Raised.authentication
  | some u ↦ user_of u.email u.external_user_id u
]

-- The handler of a failed login request; 404 and 405 are an endpoint that is not there.
unfoldable pub login_failure : ApiError → Raised
login_failure (api_rejected (some n)) =
    if is_in n (404 ∷ 405 ∷ []) then Raised.server_unavailable else Raised.invalid_credentials
login_failure (api_rejected none) = Raised.invalid_credentials
login_failure (api_auth _) = Raised.invalid_credentials
login_failure _ = Raised.server_unavailable

login_user : String → Outcome Identity → Outcome AuthSession
login_user token (raised _) = raised Raised.server_unavailable
login_user token (returned u) = returned (record { user = u; token = token })

-- The token is published before the user is read.
login_body : Body → Option String → Option String × Outcome AuthSession
unfolding parse_user login_user
login_body b holder = elim b.token [
  | none ↦ (holder, raised Raised.server_unavailable)
  | some token ↦
      if str_eq token ""
      then (holder, raised Raised.server_unavailable)
      else (some token, login_user token (parse_user b))
]

login_payload : Result Body → Option String → Option String × Outcome AuthSession
unfolding login_body
login_payload (err _) holder = (holder, raised Raised.server_unavailable)
login_payload (ok b) holder = login_body b holder

unfoldable pub login_answer :
    Result (Response Body) → Option String → Option String × Outcome AuthSession
unfolding login_payload login_failure
login_answer (err e) holder = (holder, raised (login_failure e))
login_answer (ok response) holder = login_payload (json response) holder

-- ApiAuthProvider.login, at what the transport makes of its request
unfoldable pub api_login : Wire Body → Option String → Option String × Outcome AuthSession
unfolding login_answer
api_login wire holder = login_answer (request wire) holder

unfoldable pub refresh_user : String → Outcome Identity → Outcome AuthSession
refresh_user token (raised e) = raised e
refresh_user token (returned u) = returned (record { user = u; token = token })

unfoldable pub refresh_payload :
    String → Result Body → Option String → Option String × Outcome AuthSession
unfolding refresh_user parse_user
refresh_payload token (err e) holder = (holder, raised (Raised.api e))
refresh_payload token (ok b) holder = (some token, refresh_user token (parse_user b))

unfoldable pub refresh_answer :
    String → Result (Response Body) → Option String → Option String × Outcome AuthSession
unfolding refresh_payload
refresh_answer token (err (api_auth _)) holder = (holder, raised Raised.invalid_credentials)
refresh_answer token (err _) holder = (holder, raised Raised.server_unavailable)
refresh_answer token (ok response) holder = refresh_payload token (json response) holder

-- ApiAuthProvider.refresh; the decoding of the body is not guarded.
unfoldable pub api_refresh :
    Wire Body → String → Option String → Option String × Outcome AuthSession
unfolding refresh_answer
api_refresh wire token holder = refresh_answer token (request wire) holder

-- ApiAuthProvider, at the answers to its requests; logout swallows every failure.
abbrev pub api_provider : Wire Body → Wire Body → AuthProvider
api_provider to_login to_refresh = record {
  login = λ email password holder. api_login to_login holder;
  refresh = λ token holder. api_refresh to_refresh token holder;
  logout = λ token holder. none;
}

-- DummyAuthConfig, and the coding of an identity as a token, for which base64 and JSON stand.
pub record DummyAuthConfig : Type 0 where
  pub email : String
  pub password : String
  pub display_name : Option String
  pub workspace_name : Option String
  pub external_id : String → String
  pub encode_user : Identity → String
  pub decode_user : String → Option Identity

abbrev pub dummy_user : DummyAuthConfig → String → Identity
dummy_user c email = record {
  external_user_id = c.external_id email;
  email = email;
  display_name = c.display_name;
  workspace_name = c.workspace_name;
}

-- Is the pair refused?
abbrev pub is_refused : DummyAuthConfig → String → String → Bool
is_refused c email password =
    (str_eq email "" || str_eq password "")
    || (not (str_eq email c.email)
        || (not (str_eq c.password "") && not (str_eq password c.password)))

-- LocalDummyAuthProvider.login
unfoldable pub dummy_login : DummyAuthConfig → String → String → Outcome AuthSession
dummy_login c email password =
    if is_refused c email password
    then raised Raised.invalid_credentials
    else returned (record { user = dummy_user c email; token = c.encode_user (dummy_user c email) })

-- LocalDummyAuthProvider.refresh
unfoldable pub dummy_refresh : DummyAuthConfig → String → Outcome AuthSession
dummy_refresh c token = elim (c.decode_user token) [
  | none ↦ raised Raised.authentication
  | some u ↦ returned (record { user = u; token = token })
]

-- LocalDummyAuthProvider, which has no holder
abbrev pub dummy_provider : DummyAuthConfig → AuthProvider
dummy_provider c = record {
  login = λ email password holder. (holder, dummy_login c email password);
  refresh = λ token holder. (holder, dummy_refresh c token);
  logout = λ token holder. holder;
}
