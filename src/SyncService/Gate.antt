-- ===== src/SyncService/Gate.antt =====
-- The cycle with the API provider: which answers of the backend let it make a call.
use employee_monitoring_app.Prelude.{
  ◌+◌, ◌≡◌, ◌⊎◌, Bool, true, false, Option, some, List, [], ◌∷◌, DateTime, String, arith, not, ◌&&◌,
  is_none, if◌then◌else◌,
}
use employee_monitoring_app.Outbox.{online}
use employee_monitoring_app.Db.{Db}
use employee_monitoring_app.Network.Http.{
  Wire, timed_out, transport_failed, answer, request, classify_response, connectivity, is_reachable,
  is_in,
}
use employee_monitoring_app.Network.Sync.{check_connectivity}
use employee_monitoring_app.SyncService.Cycle.{
  SyncService, Environment, sync_once, drain_both, is_blocked,
}

module _ {B : Type 0} where
  -- The identity endpoint answers, not with a demand for a login and not with a status that is worth a
  -- retry.
  abbrev pub is_served : Wire B → Bool
  is_served timed_out = false
  is_served transport_failed = false
  is_served (answer response) =
      not (is_in response.status_code (401 ∷ 403 ∷ 408 ∷ 425 ∷ 429 ∷ 500 ∷ 502 ∷ 503 ∷ 504 ∷ []))

  -- The probe is answered, a token is held, and the identity endpoint serves it.
  abbrev pub is_open : Wire B → Wire B → Option String → Bool
  is_open probe identity holder = is_reachable probe && not (is_none holder) && is_served identity

  is_blocked-served :
      (probe identity : Wire B) (holder : Option String)
      → is_blocked (check_connectivity probe identity holder) ≡ not (is_open probe identity holder)
  unfolding check_connectivity request classify_response connectivity
  is_blocked-served probe timed_out holder = ground arith
  is_blocked-served probe transport_failed holder = ground arith
  is_blocked-served probe (answer response) holder = ground arith

  -- A cycle whose connectivity is what the API provider makes of its probe, of its identity request
  -- and of the token held. Where a database is bound, the probe is answered with a 2xx status, a token
  -- is held, and the identity request is answered otherwise than by 401, 403 or one of the seven
  -- statuses worth a retry, the cycle is not counted as offline and leaves the service online. In
  -- every other case, a missing token and a demand for a login included, it makes no call, leaves the
  -- rows and the files as they are and counts no row as tried; with a database it counts itself as
  -- offline and keeps that connectivity.
  pub sync_once_gate :
      (s : SyncService) (env : Environment) (at : DateTime) (db : Db) (files : List String)
      (probe identity : Wire B) (holder : Option String)
      → env.reachable ≡ some (check_connectivity probe identity holder)
      → let out = sync_once s env at db files in
        (((s.session_factory && is_open probe identity holder) ≡ true)
          × (out.stats.skipped_offline ≡ 0)
          × (out.service.connectivity ≡ online))
        ⊎ (((s.session_factory && is_open probe identity holder) ≡ false)
            × (out.db ≡ db)
            × (out.files ≡ files)
            × (out.queue_calls ≡ [])
            × (out.shot_calls ≡ [])
            × (out.stats.synced + out.stats.failed + out.stats.skipped_backoff ≡ 0)
            × (out.stats.skipped_offline ≡ (if s.session_factory then 1 else 0))
            × (out.service.connectivity ≡ (
                if s.session_factory
                then check_connectivity probe identity holder
                else s.connectivity)))
  unfolding sync_once drain_both
  sync_once_gate s env at db files probe identity holder r =
      ground (arith, r, is_blocked-served probe identity holder)
