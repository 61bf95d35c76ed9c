-- ===== src/Outbox.antt =====
-- app/domain/sync/sync.py, provider.py: the states of an outbox row, the retry table, the provider's
-- answers.
pub mod Backoff
use employee_monitoring_app.Prelude.{
  ℕ, zero, suc, ◌-◌, Bool, true, false, Option, none, some, List, [], ◌∷◌, length, min, String,
}

pub data SyncStatus : Type 0 where
  pending syncing synced failed : SyncStatus

pub data SyncOperation : Type 0 where
  create update delete : SyncOperation

-- SyncEntityType; `other` stands for a stored text that is none of them.
pub data SyncEntityType : Type 0 where
  user work_session break_ activity_period screenshot other : SyncEntityType

abbrev pub retry_backoff_seconds : List ℕ
retry_backoff_seconds = 0 ∷ 30 ∷ 120 ∷ 300 ∷ 900 ∷ []

abbrev pub get_or : List ℕ → ℕ → ℕ → ℕ
get_or [] i d = d
get_or (x ∷ xs) zero d = x
get_or (x ∷ xs) (suc i) d = get_or xs i d

-- backoff_for_attempt; `none` is the ValueError. The index is never out of range.
unfoldable pub backoff_for_attempt : ℕ → Option ℕ
backoff_for_attempt zero = none
backoff_for_attempt (suc n) =
    some (get_or retry_backoff_seconds (min (suc n) (length retry_backoff_seconds) - 1) 0)

pub data ConnectivityState : Type 0 where
  online offline backend_unavailable authentication_required syncing : ConnectivityState

pub record SyncResult : Type 0 where
  pub success : Bool
  pub retryable : Bool
  pub error : Option String
  pub connectivity : ConnectivityState

-- SyncResult.ok
unfoldable pub ok_result : SyncResult
ok_result = record { success = true; retryable = false; error = none; connectivity = online }

-- SyncResult.failed
unfoldable pub failed_result : String → Bool → ConnectivityState → SyncResult
failed_result message retryable connectivity = record {
  success = false;
  retryable = retryable;
  error = some message;
  connectivity = connectivity;
}

-- SyncResult.auth_required
unfoldable pub auth_required_result : String → SyncResult
auth_required_result message = record {
  success = false;
  retryable = false;
  error = some message;
  connectivity = authentication_required;
}

-- SyncResult.offline
unfoldable pub offline_result : String → SyncResult
offline_result message = record {
  success = false;
  retryable = true;
  error = some message;
  connectivity = offline;
}
