-- ===== src/Network/Http.antt =====
-- http_client.py: every outcome of a request has one classification.
use employee_monitoring_app.Prelude.{
  ℕ, Bool, true, false, Option, none, some, List, [], ◌∷◌, String, ◌==◌, ◌&&◌, ◌||◌, leb,
  if◌then◌else◌,
}
use employee_monitoring_app.Outbox.{
  ConnectivityState, online, backend_unavailable, authentication_required, SyncResult,
}

-- The subclasses of ApiError, each with its status code.
pub data ApiError : Type 0 where
  api_unavailable api_auth api_rejected api_protocol : Option ℕ → ApiError

-- ApiError.connectivity
unfoldable pub connectivity : ApiError → ConnectivityState
connectivity (api_unavailable _) = backend_unavailable
connectivity (api_auth _) = authentication_required
connectivity (api_rejected _) = online
connectivity (api_protocol _) = backend_unavailable

-- ApiError.retryable
unfoldable pub retryable : ApiError → Bool
retryable (api_unavailable _) = true
retryable (api_auth _) = false
retryable (api_rejected _) = false
retryable (api_protocol _) = true

-- ApiError.to_sync_result; `text` is the rendering of an error as a text.
unfoldable pub to_sync_result : (ApiError → String) → ApiError → SyncResult
unfolding connectivity retryable
to_sync_result text e = record {
  success = false;
  retryable = retryable e;
  error = some (text e);
  connectivity = connectivity e;
}

-- An answer of the backend: its status, and the object in its body where that is one. `B` is the type
-- of these objects.
pub record Response (B : Type 0) : Type 0 where
  pub status_code : ℕ
  pub body : Option B

-- What the transport makes of a request: it times out, fails on the way, or brings an answer.
pub data Wire (B : Type 0) : Type 0 where
  timed_out transport_failed : Wire B
  answer : Response B → Wire B

pub data Result {ℓ} (A : Type ℓ) : Type ℓ where
  ok : A → Result A
  err : ApiError → Result A

-- httpx: Response.is_success
abbrev pub is_success : ℕ → Bool
is_success status = leb 200 status && leb status 299

abbrev pub transient_statuses : List ℕ
transient_statuses = 408 ∷ 425 ∷ 429 ∷ 500 ∷ 502 ∷ 503 ∷ 504 ∷ []

abbrev pub is_in : ℕ → List ℕ → Bool
is_in n [] = false
is_in n (m ∷ ms) = (n == m) || is_in n ms

-- classify_response
unfoldable pub classify_response : ℕ → Option ApiError
classify_response status =
    if is_success status
    then none
    else (if is_in status (401 ∷ 403 ∷ [])
        then some (api_auth (some status))
        else (if is_in status transient_statuses
            then some (api_unavailable (some status))
            else some (api_rejected (some status))))

module _ {B : Type 0} where
  raise_failure : Option ApiError → Response B → Result (Response B)
  raise_failure none response = ok response
  raise_failure (some e) response = err e

  -- ApiHttpClient.request
  unfoldable pub request : Wire B → Result (Response B)
  unfolding raise_failure classify_response
  request timed_out = err (api_unavailable none)
  request transport_failed = err (api_unavailable none)
  request (answer response) = raise_failure (classify_response response.status_code) response

  -- ApiHttpClient.json
  unfoldable pub json : Response B → Result B
  json response = elim response.body [ none ↦ err (api_protocol none) | some b ↦ ok b ]

  -- ApiHttpClient.is_reachable
  unfoldable pub is_reachable : Wire B → Bool
  is_reachable timed_out = false
  is_reachable transport_failed = false
  is_reachable (answer response) = is_success response.status_code

  -- ApiHttpClient.upload_file; `readable` is false where the file cannot be opened.
  unfoldable pub upload_file : Bool → Wire B → Result (Response B)
  unfolding request
  upload_file readable wire = if readable then request wire else err (api_rejected none)
