-- ===== src/Network/Classes.antt =====
-- What a caller of the HTTP client can rely on.
use employee_monitoring_app.Prelude.{◌≡◌, Bool, true, false, [], ◌∷◌, arith}
use employee_monitoring_app.Network.Http.{
  ApiError, Response, timed_out, transport_failed, answer, Result, ok, err, retryable, is_success,
  is_in, transient_statuses, classify_response, request,
}

abbrev pub is_ok : {B : Type 0} → Result (Response B) → Bool
is_ok (ok _) = true
is_ok (err _) = false

-- Is the failure worth a retry? A success is none.
abbrev pub is_retryable : {B : Type 0} → Result (Response B) → Bool
is_retryable (ok _) = false
is_retryable (err e) = retryable e

abbrev pub is_auth : {B : Type 0} → Result (Response B) → Bool
is_auth (err (ApiError.api_auth _)) = true
is_auth _ = false

-- A request succeeds exactly where the backend answers with a status from 200 to 299. It asks for a
-- login exactly at the statuses 401 and 403, and is worth a retry exactly at the seven transient
-- statuses and where no answer comes; at every other status, other 5xx ones included, it is refused
-- for good.
pub request_lem :
    {B : Type 0} (response : Response B)
    → let n = response.status_code in
      (is_ok (request (answer response)) ≡ is_success n)
      × (is_auth (request (answer response)) ≡ is_in n (401 ∷ 403 ∷ []))
      × (is_retryable (request (answer response)) ≡ is_in n transient_statuses)
      × (request {B = B} timed_out ≡ request transport_failed)
      × (is_retryable (request {B = B} timed_out) ≡ true)
unfolding request classify_response retryable
request_lem response = ground arith
