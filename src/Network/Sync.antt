-- ===== src/Network/Sync.antt =====
-- sync_adapter.py: ApiSyncProvider, with the single refresh of an expired token.
use employee_monitoring_app.Prelude.{
  Bool, true, false, Option, none, some, List, [], ◌∷◌, ◌++◌, String, is_none, if◌then◌else◌,
}
use employee_monitoring_app.Outbox.{
  ConnectivityState, online, backend_unavailable, authentication_required, SyncResult, ok_result,
  failed_result,
}
use employee_monitoring_app.Network.Http.{
  ApiError, api_auth, Response, Wire, Result, ok, err, connectivity, to_sync_result, is_success,
  request, is_reachable, upload_file,
}

-- A request that carries a token: for the item itself, or for a new lease of the token.
pub data Sent : Type 0 where
  item_sent refresh_sent : String → Sent

-- What the backend makes of the requests of one call, and the texts of the failures. `described` and
-- `filled` say whether the contract has an endpoint for the entity, and whether there is something to
-- send: a payload that is not empty, or a file; `readable` whether that file can be opened.
pub record Backend (B : Type 0) : Type 0 where
  pub described : Bool
  pub filled : Bool
  pub readable : Bool
  pub first : Wire B
  pub refresh : Wire B
  pub second : Wire B
  pub text : ApiError → String
  pub undescribed : String
  pub unfilled : String
  pub unconfirmed : String

-- The token that the holder has after a call, the requests sent, and what comes of them.
pub record Attempt (R : Type 0) : Type 0 where
  pub holder : Option String
  pub sent : List Sent
  pub result : R

abbrev pub unsent : {R : Type 0} → Option String → R → Attempt R
unsent holder result = record { holder = holder; sent = []; result = result }

module _ {B : Type 0} where
  -- _try_refresh at a token, with its result; a failure of any kind clears the holder.
  unfoldable pub try_refresh : Backend B → String → Attempt Bool
  try_refresh b token = elim (request b.refresh) [
    | ok _ ↦ record { holder = some token; sent = refresh_sent token ∷ []; result = true }
    | err _ ↦ record { holder = none; sent = refresh_sent token ∷ []; result = false }
  ]

  -- The second request, at the token that the holder has then.
  unfoldable pub send_again :
      (Wire B → Result (Response B))
      → Backend B
      → List Sent
      → Option String
      → Attempt (Result (Response B))
  send_again send b sent none = record { holder = none; sent = sent; result = err (api_auth none) }
  send_again send b sent (some token) = record {
    holder = some token;
    sent = sent ++ item_sent token ∷ [];
    result = send b.second;
  }

  -- The handler of an ApiAuthError `e`.
  unfoldable pub on_auth_error :
      (Wire B → Result (Response B)) → Backend B → String → ApiError → Attempt (Result (Response B))
  unfolding try_refresh send_again
  on_auth_error send b token e =
      let r = try_refresh b token in
      let sent = item_sent token ∷ r.sent in
      if r.result
      then send_again send b sent r.holder
      else record { holder = r.holder; sent = sent; result = err e }

  unfoldable pub on_first :
      (Wire B → Result (Response B))
      → Backend B
      → String
      → Result (Response B)
      → Attempt (Result (Response B))
  unfolding on_auth_error
  on_first send b token (err (api_auth n)) = on_auth_error send b token (api_auth n)
  on_first send b token result = record {
    holder = some token;
    sent = item_sent token ∷ [];
    result = result;
  }

  unfoldable pub with_token_retry :
      (Wire B → Result (Response B)) → Backend B → Option String → Attempt (Result (Response B))
  unfolding on_first
  with_token_retry send b none = unsent none (err (api_auth none))
  with_token_retry send b (some token) = on_first send b token (send b.first)

  -- _request_with_token_retry
  unfoldable pub request_with_token_retry :
      Backend B → Option String → Attempt (Result (Response B))
  unfolding with_token_retry
  request_with_token_retry b holder = with_token_retry request b holder

  -- _upload_with_token_retry
  unfoldable pub upload_with_token_retry : Backend B → Option String → Attempt (Result (Response B))
  unfolding with_token_retry
  upload_with_token_retry b holder = with_token_retry (upload_file b.readable) b holder

  unfoldable pub item_result : Backend B → Result (Response B) → SyncResult
  item_result b (err e) = to_sync_result b.text e
  item_result b (ok response) =
      if is_success response.status_code
      then ok_result
      else failed_result b.unconfirmed true backend_unavailable

  unfoldable pub upload_result : Backend B → Result (Response B) → SyncResult
  upload_result b (err e) = to_sync_result b.text e
  upload_result b (ok response) = ok_result

  abbrev with_result :
      (Result (Response B) → SyncResult) → Attempt (Result (Response B)) → Attempt SyncResult
  with_result f a = record { holder = a.holder; sent = a.sent; result = f a.result }

  -- sync_item
  unfoldable pub sync_item : Backend B → Option String → Attempt SyncResult
  unfolding request_with_token_retry item_result
  sync_item b holder =
      if b.described
      then (if b.filled
          then with_result (item_result b) (request_with_token_retry b holder)
          else unsent holder (failed_result b.unfilled false online))
      else unsent holder (failed_result b.undescribed false online)

  -- upload_screenshot
  unfoldable pub upload_screenshot : Backend B → Option String → Attempt SyncResult
  unfolding upload_with_token_retry upload_result
  upload_screenshot b holder =
      if b.described
      then (if b.filled
          then with_result (upload_result b) (upload_with_token_retry b holder)
          else unsent holder (failed_result b.unfilled false online))
      else unsent holder (failed_result b.undescribed false online)

  identity_result : Result (Response B) → ConnectivityState
  unfolding connectivity
  identity_result (ok _) = online
  identity_result (err e) = connectivity e

  -- check_connectivity, at the answers of the probe and of the identity endpoint
  unfoldable pub check_connectivity : Wire B → Wire B → Option String → ConnectivityState
  unfolding identity_result
  check_connectivity probe identity holder =
      if is_reachable probe
      then (if is_none holder then authentication_required else identity_result (request identity))
      else backend_unavailable
