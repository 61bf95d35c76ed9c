-- ===== src/SyncService/Drain.antt =====
-- What the environment answers in a drain cycle, and the counters of the two loops.
use employee_monitoring_app.Prelude.{
  ℕ, Bool, true, false, Option, none, some, List, [], ◌∷◌, String, if◌then◌else◌, ◌||◌, ◌&&◌, ◌==◌,
}
use employee_monitoring_app.Outbox.{backend_unavailable, SyncResult, failed_result}
use employee_monitoring_app.SyncService.Due.{Payload}
use text.Mathlib.Text.{◌==◌ as str_eq}

-- A provider call returns, or raises with a text.
pub data Answer : Type 0 where
  raised : String → Answer
  answered : SyncResult → Answer

-- One round of a loop: whether the commit before the call goes through, what the provider does,
-- whether the commit of the outcome goes through, and whether the local file can be unlinked.
pub record Reply : Type 0 where
  pub marked : Bool
  pub answer : Answer
  pub stored : Bool
  pub unlinked : Bool

-- The handler of a provider that raises.
unfoldable pub result_of : Answer → SyncResult
unfolding failed_result
result_of (raised text) = failed_result text true backend_unavailable
result_of (answered r) = r

-- A call that was made: for which row, with which payload, and the result.
pub record Call : Type 0 where
  pub row : ℕ
  pub payload : Payload
  pub result : SyncResult

-- Did some call for the row succeed?
abbrev pub confirmed : ℕ → List Call → Bool
confirmed n [] = false
confirmed n (c ∷ cs) = (c.row == n && c.result.success) || confirmed n cs

-- `result.error or default`
abbrev pub error_or : Option String → String → String
error_or none default = default
error_or (some text) default = if str_eq text "" then default else text

pub record Counts : Type 0 where
  pub synced : ℕ
  pub failed : ℕ
  pub skipped_backoff : ℕ

abbrev pub no_counts : Counts
no_counts = record { synced = 0; failed = 0; skipped_backoff = 0 }
