-- ===== src/SyncService/Files.antt =====
-- A screenshot leaves the disk only after its upload was confirmed, and its row stays.
use mathlib.Core.List.{Memᴰ}
use text.Mathlib.Text.{◌==◌ as str_eq}
use text.Mathlib.TextEquality.{eq_iff}
use employee_monitoring_app.Prelude.{
  ℕ, ◌≡◌, ◌⊎◌, refl, inl, inr, Bool, true, false, List, [], ◌∷◌, DateTime, String, arith,
  Bool-cases, if◌then◌else◌,
}
use employee_monitoring_app.Outbox.{ConnectivityState, SyncResult}
use employee_monitoring_app.Db.{ScreenshotMetadata, Db, screenshot_row}
use employee_monitoring_app.Repositories.Screenshots.{pending_with_failed_batch}
use employee_monitoring_app.SyncService.Drain.{Reply, Call, confirmed, result_of}
use employee_monitoring_app.SyncService.Due.{is_due}
use employee_monitoring_app.SyncService.Screenshots.{
  ScreenshotDrain, contains, without, discard_local_file, shot_success, shot_failure, settle_shot,
  attempt_shot, drain_shot, drain_shots, drain_screenshots,
}

pub contains-without :
    (p q : String) (files : List String)
    → contains files p ≡ true
    → (str_eq q p ≡ true) ⊎ (contains (without q files) p ≡ true)
contains-without p q [] h = cc
contains-without p q (f ∷ fs) h =
    ground (arith, contains-without p q fs, eq_iff f q, eq_iff f p, eq_iff q p)

discard_local_file-contains :
    (b : Bool) (p q : String) (files : List String)
    → contains files p ≡ true
    → (q ≡ p) ⊎ (contains (discard_local_file b q files).0 p ≡ true)
unfolding discard_local_file
discard_local_file-contains b p q files h = ground (arith, contains-without p q files, eq_iff q p)

-- The upload of a row with the path was confirmed.
pub record Uploaded (p : String) (shots : List ScreenshotMetadata) (calls : List Call)
    : Type 0 where
  pub shot : ScreenshotMetadata
  pub listed : Memᴰ shot shots
  pub path : shot.file_path ≡ p
  pub confirmed_by : confirmed shot.id calls ≡ true

-- The file is there, or the upload of a row of the batch was confirmed.
abbrev pub Safe : String → List ScreenshotMetadata → ScreenshotDrain → Type 0
Safe p shots st = Uploaded p shots st.calls ⊎ (contains st.files p ≡ true)

calls-settle_shot :
    (at : DateTime) (b : Bool) (shot : ScreenshotMetadata) (result : SyncResult)
    (st : ScreenshotDrain)
    → (settle_shot at b shot result st).calls ≡ st.calls
unfolding settle_shot shot_success shot_failure
calls-settle_shot at b shot result st = ground arith

settle_shot-contains :
    (at : DateTime) (b : Bool) (p : String) (shot : ScreenshotMetadata) (result : SyncResult)
    (st : ScreenshotDrain)
    → contains st.files p ≡ true
    → ((result.success ≡ true) × (shot.file_path ≡ p))
      ⊎ (contains (settle_shot at b shot result st).files p ≡ true)
unfolding settle_shot shot_failure shot_success
settle_shot-contains at b p shot result st h =
    ground (arith, discard_local_file-contains b p shot.file_path st.files)

attempt_shot-confirmed :
    (at : DateTime) (k : ℕ) (shot : ScreenshotMetadata) (reply : Reply) (st : ScreenshotDrain)
    → confirmed k st.calls ≡ true
    → confirmed k (attempt_shot at shot reply st).calls ≡ true
unfolding attempt_shot
attempt_shot-confirmed at k shot reply st h = elim (Bool-cases reply.marked) [
  | inr e ↦ rw e h
  | inl e ↦ elim (Bool-cases reply.stored) [
    | inr f ↦ rw (e, f) (ground arith)
    | inl f ↦ rw (e, f) (rw calls-settle_shot (ground arith))
  ]
]

-- The file goes only in a round that confirms its row.
attempt_shot-contains :
    (at : DateTime) (p : String) (shot : ScreenshotMetadata) (reply : Reply) (st : ScreenshotDrain)
    → contains st.files p ≡ true
    → ((confirmed shot.id (attempt_shot at shot reply st).calls ≡ true) × (shot.file_path ≡ p))
      ⊎ (contains (attempt_shot at shot reply st).files p ≡ true)
unfolding attempt_shot
attempt_shot-contains at p shot reply st h = elim (Bool-cases reply.marked) [
  | inr e ↦ rw e (inr h)
  | inl e ↦ elim (Bool-cases reply.stored) [
    | inr f ↦ rw (e, f) (inr h)
    | inl f ↦ elim (settle_shot-contains at reply.unlinked p shot (result_of reply.answer) _ h) [
      | inl c ↦ rw (e, f) (inl (rw (calls-settle_shot, c.0) (ground arith), c.1))
      | inr c ↦ rw (e, f) (inr c)
    ]
  ]
]

attempt_shot-Safe :
    (at : DateTime) (p : String) (shots : List ScreenshotMetadata) (shot : ScreenshotMetadata)
    (reply : Reply) (st : ScreenshotDrain)
    → Memᴰ shot shots
    → Safe p shots st
    → Safe p shots (attempt_shot at shot reply st)
attempt_shot-Safe at p shots shot reply st m (inl u) = inl (record {
  shot = u.shot;
  listed = u.listed;
  path = u.path;
  confirmed_by = attempt_shot-confirmed at u.shot.id shot reply st u.confirmed_by;
})
attempt_shot-Safe at p shots shot reply st m (inr h) =
    elim (attempt_shot-contains at p shot reply st h) [
      | inl c ↦ inl (record { shot = shot; listed = m; path = c.1; confirmed_by = c.0 })
      | inr c ↦ inr c
    ]

Safe-if :
    (p : String) (shots : List ScreenshotMetadata) (b : Bool) (x y : ScreenshotDrain)
    → Safe p shots x
    → Safe p shots y
    → Safe p shots (if b then x else y)
Safe-if p shots true x y h k = h
Safe-if p shots false x y h k = k

drain_shots-Safe :
    (at : DateTime) (p : String) (replies : ℕ → Reply) (shots rest : List ScreenshotMetadata)
    (st : ScreenshotDrain)
    → ((s : ScreenshotMetadata) → Memᴰ s rest → Memᴰ s shots)
    → Safe p shots st
    → Safe p shots (drain_shots at replies rest st)
unfolding drain_shots drain_shot
drain_shots-Safe at p replies shots [] st sub h = h
drain_shots-Safe at p replies shots (s ∷ rest) st sub h =
    drain_shots-Safe at p replies shots rest _ (λ t m. sub t (Memᴰ.tail m))
      (Safe-if p shots st.running _ st
        (Safe-if p shots (is_due s.last_attempt_at s.attempt_count at) _ _
          (attempt_shot-Safe at p shots s (replies s.id) st (sub s (Memᴰ.head refl)) h) h)
        h)

-- Whatever the provider, the database and the disk do in an upload loop, a local file that was there
-- is still there, or the upload of a row of the batch with its path was confirmed in this loop.
pub drain_screenshots-Safe :
    (db : Db) (files : List String) (at : DateTime) (limit : ℕ) (replies : ℕ → Reply)
    (c : ConnectivityState) (p : String)
    → contains files p ≡ true
    → Safe p
        (pending_with_failed_batch limit db.screenshots)
        (drain_screenshots db files at limit replies c)
unfolding drain_screenshots
drain_screenshots-Safe db files at limit replies c p h =
    drain_shots-Safe at p replies (pending_with_failed_batch limit db.screenshots) _ _ (λ s m. m)
      (inr h)
