-- ===== src/Network/Dummy.antt =====
-- sync_adapter.py: DummySyncProvider, which stands in for the backend in the mode "local".
use employee_monitoring_app.Prelude.{
  ℕ, zero, suc, Bool, true, false, Option, none, some, List, [], ◌∷◌, ◌++◌, String, if◌then◌else◌,
}
use employee_monitoring_app.Outbox.{
  ConnectivityState, online, offline, backend_unavailable, authentication_required, SyncOperation,
  SyncEntityType, create, screenshot, SyncResult, ok_result, failed_result, auth_required_result,
  offline_result,
}
use employee_monitoring_app.SyncService.Due.{Payload}

-- An entity that the provider has taken.
pub record SyncedItem : Type 0 where
  pub entity_type : SyncEntityType
  pub entity_id : ℕ
  pub operation : SyncOperation
  pub payload : Payload

-- A screenshot that it has taken.
pub record UploadedScreenshot : Type 0 where
  pub screenshot_id : ℕ
  pub file_path : String
  pub metadata : Payload
  pub file_size : ℕ

pub record DummySyncProvider : Type 0 where
  pub connectivity : ConnectivityState
  pub fail_next : ℕ
  pub always_fail : Bool
  pub uploaded_screenshots : List UploadedScreenshot
  pub synced_items : List SyncedItem
  pub call_count : ℕ

-- The texts of the failures.
pub record Texts : Type 0 where
  pub is_offline : String
  pub auth_required : String
  pub unavailable : String
  pub injected : String
  pub transient : String
  pub missing : String
  pub not_a_file : String
  pub is_empty : String
  pub unreadable : String

-- reset
unfoldable pub reset : DummySyncProvider → DummySyncProvider
reset p = record {
  connectivity = online;
  fail_next = 0;
  always_fail = false;
  uploaded_screenshots = [];
  synced_items = [];
  call_count = 0;
}

injected_at :
    ConnectivityState → Texts → DummySyncProvider → ℕ → DummySyncProvider × Option SyncResult
injected_at c texts p zero = (p, none)
injected_at c texts p (suc n) =
    (record p { fail_next = n }, some (failed_result texts.transient true c))

-- The failures that were asked for.
unfoldable pub injected :
    ConnectivityState → Texts → DummySyncProvider → DummySyncProvider × Option SyncResult
unfolding injected_at
injected c texts p =
    if p.always_fail
    then (p, some (failed_result texts.injected true c))
    else injected_at c texts p p.fail_next

-- The guards of both calls, by the connectivity; `none` is a call that goes on.
unfoldable pub guards :
    ConnectivityState → Texts → DummySyncProvider → DummySyncProvider × Option SyncResult
unfolding injected
guards offline texts p = (p, some (offline_result texts.is_offline))
guards authentication_required texts p = (p, some (auth_required_result texts.auth_required))
guards backend_unavailable texts p =
    (p, some (failed_result texts.unavailable true backend_unavailable))
guards c texts p = injected c texts p

counted : DummySyncProvider → DummySyncProvider
counted p = record p { call_count = suc p.call_count }

unless_refused :
    (DummySyncProvider → DummySyncProvider × SyncResult)
    → DummySyncProvider × Option SyncResult
    → DummySyncProvider × SyncResult
unless_refused f (p, none) = f p
unless_refused f (p, some r) = (p, r)

-- sync_item
unfoldable pub sync_item : Texts → SyncedItem → DummySyncProvider → DummySyncProvider × SyncResult
unfolding counted guards unless_refused ok_result
sync_item texts item p =
    unless_refused (λ q. (record q { synced_items = q.synced_items ++ item ∷ [] }, ok_result))
      (guards p.connectivity texts (counted p))

-- What is at the path of a screenshot: nothing, something that is no file, or a file, whose size
-- cannot be read or is the one given.
pub data Target : Type 0 where
  missing not_a_file unreadable : Target
  file : ℕ → Target

unfoldable pub take_file :
    Texts → UploadedScreenshot → Target → DummySyncProvider → DummySyncProvider × SyncResult
take_file texts shot missing p = (p, failed_result texts.missing false p.connectivity)
take_file texts shot not_a_file p = (p, failed_result texts.not_a_file false p.connectivity)
take_file texts shot unreadable p = (p, failed_result texts.unreadable true p.connectivity)
take_file texts shot (file zero) p = (p, failed_result texts.is_empty false p.connectivity)
take_file texts shot (file (suc n)) p =
    let item : SyncedItem = record {
      entity_type = screenshot;
      entity_id = shot.screenshot_id;
      operation = create;
      payload = shot.metadata;
    } in
    (
      record p {
        uploaded_screenshots = p.uploaded_screenshots ++ record shot { file_size = suc n } ∷ [];
        synced_items = p.synced_items ++ item ∷ [];
      },
      ok_result,
    )

-- upload_screenshot
unfoldable pub upload_screenshot :
    Texts → UploadedScreenshot → Target → DummySyncProvider → DummySyncProvider × SyncResult
unfolding counted guards unless_refused take_file
upload_screenshot texts shot target p =
    unless_refused (take_file texts shot target) (guards p.connectivity texts (counted p))
