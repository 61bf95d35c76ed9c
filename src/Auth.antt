-- ===== src/Auth.antt =====
-- app/domain/auth/auth.py and core/exceptions.py: identities, sessions, what the providers raise, and
-- the contract that a provider fills.
pub mod Providers
pub mod Service
pub mod Logins
pub mod Restarts
use employee_monitoring_app.Prelude.{Bool, true, false, Option, none, some, String}
use employee_monitoring_app.Machine
use employee_monitoring_app.Repositories.Users.{Identity}
use employee_monitoring_app.Network.Http.{ApiError}

-- AuthSession; AuthenticatedUser is `Identity`.
pub record AuthSession : Type 0 where
  pub user : Identity
  pub token : String

-- What a call raises: AuthenticationError itself and its two subclasses, an ApiError, the error of the
-- credential store, one of the state machine, and one of the database.
pub data Raised : Type 0 where
  authentication invalid_credentials server_unavailable store_unavailable database : Raised
  api : ApiError → Raised
  state : Machine.Error → Raised

-- `except AuthenticationError`
abbrev pub is_authentication : Raised → Bool
is_authentication Raised.authentication = true
is_authentication Raised.invalid_credentials = true
is_authentication Raised.server_unavailable = true
is_authentication _ = false

pub data Outcome {ℓ} (A : Type ℓ) : Type ℓ where
  returned : A → Outcome A
  raised : Raised → Outcome A

-- AuthProvider: each call may change the token of the holder that it shares, the last argument.
pub record AuthProvider : Type 0 where
  pub login : String → String → Option String → Option String × Outcome AuthSession
  pub refresh : String → Option String → Option String × Outcome AuthSession
  pub logout : String → Option String → Option String
