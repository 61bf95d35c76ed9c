-- ===== src/Network/Confirmed.antt =====
-- When the sync provider reports a success, and what becomes of the token.
use employee_monitoring_app.Prelude.{
  ◌≡◌, ◌⊎◌, inl, inr, refl, Bool, false, Option, List, [], ◌∷◌, String, arith, not, ◌||◌, ◌&&◌,
  is_none,
}
use employee_monitoring_app.Network.Http.{
  api_auth, api_unavailable, api_rejected, api_protocol, Response, Wire, Result, ok, err, is_in,
  classify_response, request, is_reachable, timed_out, transport_failed, answer,
}
use employee_monitoring_app.Network.Classes.{is_ok, is_auth}
use employee_monitoring_app.Network.Sync.{
  Sent, Backend, try_refresh, send_again, on_auth_error, on_first,
}

-- At most the item, a refresh, and the item again, all with the one token.
abbrev pub Bounded : String → List Sent → Type 0
Bounded token sent =
    (sent ≡ [])
    ⊎ (sent ≡ Sent.item_sent token ∷ [])
    ⊎ (sent ≡ Sent.item_sent token ∷ Sent.refresh_sent token ∷ [])
    ⊎ (sent ≡ Sent.item_sent token ∷ Sent.refresh_sent token ∷ Sent.item_sent token ∷ [])

module _ {B : Type 0} where
  -- The backend answers that the token is not accepted.
  abbrev pub asks_login : Wire B → Bool
  asks_login (answer response) = is_in response.status_code (401 ∷ 403 ∷ [])
  asks_login _ = false

  pub request-is_ok : (w : Wire B) → is_ok (request w) ≡ is_reachable w
  unfolding request is_reachable classify_response
  request-is_ok timed_out = refl
  request-is_ok transport_failed = refl
  request-is_ok (answer response) = ground arith

  pub request-is_auth : (w : Wire B) → is_auth (request w) ≡ asks_login w
  unfolding request classify_response
  request-is_auth timed_out = refl
  request-is_auth transport_failed = refl
  request-is_auth (answer response) = ground arith

  -- Does the exchange end in a confirmation? The first request is answered, or it is refused for its
  -- token, the refresh is answered, and the second request is.
  abbrev pub confirms : Backend B → Bool
  confirms b =
      is_reachable b.first
      || (asks_login b.first && (is_reachable b.refresh && is_reachable b.second))

  -- Is the token given up?
  abbrev pub gives_up : Backend B → Bool
  gives_up b = asks_login b.first && not (is_reachable b.refresh)

  pub on_first-ok :
      (send : Wire B → Result (Response B)) (b : Backend B) (token : String)
      (r : Result (Response B))
      → is_ok (on_first send b token r).result
        ≡ (is_ok r || (is_auth r && (is_ok (request b.refresh) && is_ok (send b.second))))
  unfolding on_first on_auth_error try_refresh send_again
  on_first-ok send b token (ok x) = refl
  on_first-ok send b token (err (api_auth n)) = ground arith
  on_first-ok send b token (err (api_unavailable n)) = refl
  on_first-ok send b token (err (api_rejected n)) = refl
  on_first-ok send b token (err (api_protocol n)) = refl

  pub on_first-Bounded :
      (send : Wire B → Result (Response B)) (b : Backend B) (token : String)
      (r : Result (Response B))
      → Bounded token (on_first send b token r).sent
  unfolding on_first on_auth_error try_refresh send_again
  on_first-Bounded send b token (ok x) = inr (inl refl)
  on_first-Bounded send b token (err (api_auth n)) = ground arith
  on_first-Bounded send b token (err (api_unavailable n)) = inr (inl refl)
  on_first-Bounded send b token (err (api_rejected n)) = inr (inl refl)
  on_first-Bounded send b token (err (api_protocol n)) = inr (inl refl)

  -- Is the request sent at all? The contract describes the entity, there is a payload, and a token.
  abbrev pub sends : Backend B → Option String → Bool
  sends b holder = b.described && b.filled && not (is_none holder)
