-- ===== src/Network/Uploaded.antt =====
-- When the sync provider reports the upload of a screenshot as a success.
use employee_monitoring_app.Prelude.{◌≡◌, refl, Bool, true, false, some, String, arith, ◌&&◌}
use employee_monitoring_app.Outbox.{ok_result}
use employee_monitoring_app.Network.Http.{
  Response, Wire, Result, ok, err, to_sync_result, is_reachable, upload_file,
}
use employee_monitoring_app.Network.Classes.{is_ok, is_auth}
use employee_monitoring_app.Network.Sync.{
  Backend, on_first, with_token_retry, upload_with_token_retry, upload_result, upload_screenshot,
}
use employee_monitoring_app.Network.Confirmed.{
  Bounded, asks_login, confirms, request-is_ok, request-is_auth, on_first-ok, on_first-Bounded,
}

module _ {B : Type 0} where
  upload_result-success :
      (b : Backend B) (r : Result (Response B)) → (upload_result b r).success ≡ is_ok r
  unfolding upload_result to_sync_result ok_result
  upload_result-success b (ok x) = refl
  upload_result-success b (err e) = refl

  upload-is_ok :
      (readable : Bool) (w : Wire B) → is_ok (upload_file readable w) ≡ (readable && is_reachable w)
  unfolding upload_file
  upload-is_ok true w = request-is_ok w
  upload-is_ok false w = refl

  upload-is_auth :
      (readable : Bool) (w : Wire B) → is_auth (upload_file readable w) ≡ (readable && asks_login w)
  unfolding upload_file
  upload-is_auth true w = request-is_auth w
  upload-is_auth false w = refl

  upload_confirms :
      (b : Backend B) (token : String)
      → (upload_result b
          (on_first
            (upload_file b.readable)
            b
            token
            (upload_file b.readable b.first)).result).success
        ≡ (b.readable && confirms b)
  upload_confirms b token =
      let send = upload_file b.readable in
      rw
        (
          upload_result-success b (on_first send b token (send b.first)).result,
          on_first-ok send b token (send b.first),
          upload-is_ok b.readable b.first,
          upload-is_auth b.readable b.first,
          request-is_ok b.refresh,
          upload-is_ok b.readable b.second,
        )
        (ground arith)

  -- An upload reports success exactly where the file can be opened and the backend confirms, as for a
  -- write; and at most the file, a refresh and the file again are sent, all with the one token.
  pub upload_screenshot_lem :
      (b : Backend B) (token : String)
      → b.described ≡ true
      → b.filled ≡ true
      → let out = upload_screenshot b (some token) in
        (out.result.success ≡ (b.readable && confirms b)) × Bounded token out.sent
  unfolding upload_screenshot upload_with_token_retry with_token_retry
  upload_screenshot_lem b token d f =
      let c = record b { described = true; filled = true } in
      let send = upload_file b.readable in
      rw (d, f) (upload_confirms c token, on_first-Bounded send c token (send b.first))
