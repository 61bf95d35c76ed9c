-- ===== src/CleanupService/Rules.antt =====
-- The cleanup deletes nothing that was not confirmed.
use mathlib.Core.List.{Memᴰ}
use text.Mathlib.TextEquality.{eq_iff}
use employee_monitoring_app.Prelude.{
  ℕ, ◌≡◌, ◌⊎◌, refl, inl, inr, Bool, true, false, List, [], ◌∷◌, DateTime, String, arith,
  Bool-cases, All, All-take, ◌==◌, ◌∙◌, if◌then◌else◌, if-case,
}
use employee_monitoring_app.Db.{SyncQueueItem, ScreenshotMetadata, Db, queue_row}
use employee_monitoring_app.Db.Table.{get, get-delete, All-select, All-order_by}
use employee_monitoring_app.Repositories.Queue
use employee_monitoring_app.Repositories.Queue.{is_synced, delete_after_confirmed}
use employee_monitoring_app.Repositories.Screenshots
use employee_monitoring_app.SyncService.Screenshots.{contains}
use employee_monitoring_app.SyncService.Files.{contains-without}
use employee_monitoring_app.CleanupService.{
  CleanupService, Environment, Outcome, delete_rows, clean_queue, is_expired, delete_file,
  delete_files, clean_files, run_once,
}

-- An outbox row that the server confirmed.
abbrev pub IsConfirmed : List SyncQueueItem → SyncQueueItem → Type 0
IsConfirmed rows r = (is_synced r.status ≡ true) × Memᴰ r rows

All-synced_batch :
    (limit : ℕ) (rows : List SyncQueueItem) → All (IsConfirmed rows) (Queue.synced_batch limit rows)
unfolding Queue.synced_batch
All-synced_batch limit rows =
    All-take (IsConfirmed rows) limit _
      (All-order_by (IsConfirmed rows) _ _ (All-select _ rows rows (λ r m. m)))

delete_rows-get :
    (P : SyncQueueItem → Type 0) (j : ℕ) (items rows : List SyncQueueItem)
    → All P items
    → ((r : SyncQueueItem) × P r × (r.id ≡ j)) ⊎ (get j (delete_rows items rows) ≡ get j rows)
unfolding delete_rows delete_after_confirmed
delete_rows-get P j [] rows h = inr refl
delete_rows-get P j (i ∷ items) rows h =
    elim (delete_rows-get P j items (delete_after_confirmed i.id rows) h.1) [
      | inl c ↦ inl c
      | inr e ↦ elim (Bool-cases (i.id == j)) [
        | inl s ↦ inl (i, h.0, ground arith)
        | inr s ↦ inr (e ∙ (get-delete i.id j rows ∙ rw s refl))
      ]
    ]

clean_queue-get :
    (env : Environment) (j : ℕ) (rows : List SyncQueueItem)
    → ((r : SyncQueueItem) × IsConfirmed rows r × (r.id ≡ j))
      ⊎ (get j (clean_queue env rows).0 ≡ get j rows)
unfolding clean_queue
clean_queue-get env j rows =
    let P : List SyncQueueItem × ℕ → Type 0 =
      λ q. ((r : SyncQueueItem) × IsConfirmed rows r × (r.id ≡ j)) ⊎ (get j q.0 ≡ get j rows) in
    if-case P env.queue_read _ _
      (if-case P env.queue_stored _ _
        (delete_rows-get (IsConfirmed rows) j (Queue.synced_batch 200 rows) rows
          (All-synced_batch 200 rows))
        (inr refl))
      (inr refl)

-- A row of the file, synced at least the retention ago.
pub record Expired (at : DateTime) (retention_days : ℕ) (rows : List ScreenshotMetadata)
    (p : String) : Type 0 where
  pub shot : ScreenshotMetadata
  pub synced : is_synced shot.sync_status ≡ true
  pub listed : Memᴰ shot rows
  pub expired : is_expired at retention_days shot.synced_at ≡ true
  pub path : shot.file_path ≡ p

abbrev IsUploaded : List ScreenshotMetadata → ScreenshotMetadata → Type 0
IsUploaded rows r = (is_synced r.sync_status ≡ true) × Memᴰ r rows

All-synced_shots :
    (limit : ℕ) (rows : List ScreenshotMetadata)
    → All (IsUploaded rows) (Screenshots.synced_batch limit rows)
unfolding Screenshots.synced_batch
All-synced_shots limit rows =
    All-take (IsUploaded rows) limit _
      (All-order_by (IsUploaded rows) _ _ (All-select _ rows rows (λ r m. m)))

delete_file-contains :
    (env : Environment) (p q : String) (acc : List String × ℕ)
    → contains acc.0 p ≡ true
    → (q ≡ p) ⊎ (contains (delete_file env q acc).0 p ≡ true)
unfolding delete_file
delete_file-contains env p q (files, n) h = ground (arith, contains-without p q files, eq_iff q p)

-- One round: the file goes only where its row has expired.
round-contains :
    (env : Environment) (p q : String) (b : Bool) (acc : List String × ℕ)
    → contains acc.0 p ≡ true
    → ((b ≡ true) × (q ≡ p)) ⊎ (contains (if b then delete_file env q acc else acc).0 p ≡ true)
round-contains env p q true acc h = elim (delete_file-contains env p q acc h) [
  | inl e ↦ inl (refl, e)
  | inr k ↦ inr k
]
round-contains env p q false acc h = inr h

delete_files-contains :
    (env : Environment) (at : DateTime) (d : ℕ) (p : String) (rows shots : List ScreenshotMetadata)
    (acc : List String × ℕ)
    → All (IsUploaded rows) shots
    → contains acc.0 p ≡ true
    → Expired at d rows p ⊎ (contains (delete_files env at d shots acc).0 p ≡ true)
unfolding delete_files
delete_files-contains env at d p rows [] acc a h = inr h
delete_files-contains env at d p rows (shot ∷ shots) acc a h =
    elim (round-contains env p shot.file_path (is_expired at d shot.synced_at) acc h) [
      | inl (e, s) ↦
          inl (record { shot = shot; synced = a.0.0; listed = a.0.1; expired = e; path = s })
      | inr k ↦ delete_files-contains env at d p rows shots _ a.1 k
    ]

clean_files-contains :
    (env : Environment) (at : DateTime) (d : ℕ) (p : String) (rows : List ScreenshotMetadata)
    (files : List String)
    → contains files p ≡ true
    → Expired at d rows p ⊎ (contains (clean_files env at d rows files).0 p ≡ true)
unfolding clean_files
clean_files-contains env at d p rows files h =
    if-case (λ (q : List String × ℕ). Expired at d rows p ⊎ (contains q.0 p ≡ true)) env.shots_read
      _ _
      (delete_files-contains env at d p rows (Screenshots.synced_batch 200 rows) (files, 0)
        (All-synced_shots 200 rows) h)
      (inr h)

module _ (s : CleanupService) (env : Environment) (at : DateTime) (db : Db)
    (files : List String) where
  -- Whatever fails in a cleanup, each row of the outbox is found after it as it was before, or the
  -- outbox held a row of its key that was SYNCED.
  pub run_once_row_rule :
      (j : ℕ)
      → ((r : SyncQueueItem) × IsConfirmed db.sync_queue r × (r.id ≡ j))
        ⊎ (get j (run_once s env at db files).db.sync_queue ≡ get j db.sync_queue)
  unfolding run_once
  run_once_row_rule j =
      if-case
        (λ (o : Outcome).
          ((r : SyncQueueItem) × IsConfirmed db.sync_queue r × (r.id ≡ j))
          ⊎ (get j o.db.sync_queue ≡ get j db.sync_queue))
        s.session_factory _ _ (clean_queue-get env j db.sync_queue) (inr refl)

  -- Whatever fails in a cleanup, a local file that was there is still there, or a screenshot row of
  -- its path was SYNCED at least the retention before, and the rows of all screenshots are kept.
  pub run_once_file_rule :
      (p : String)
      → contains files p ≡ true
      → let out = run_once s env at db files in
        (Expired at s.retention_days db.screenshots p ⊎ (contains out.files p ≡ true))
        × (out.db.screenshots ≡ db.screenshots)
  unfolding run_once
  run_once_file_rule p h =
      if-case
        (λ (o : Outcome).
          (Expired at s.retention_days db.screenshots p ⊎ (contains o.files p ≡ true))
          × (o.db.screenshots ≡ db.screenshots))
        s.session_factory _ _
        (clean_files-contains env at s.retention_days p db.screenshots files h, refl) (inr h, refl)
