-- ===== src/ScreenshotService/Pipeline.antt =====
-- The pipeline stores a capture whole or not at all, and removes no file of another.
use text.Mathlib.Text.{◌==◌ as str_eq}
use text.Mathlib.TextEquality.{eq_iff}
use employee_monitoring_app.Prelude.{
  ℕ, ◌≡◌, ◌⊎◌, inl, inr, refl, Bool, true, false, none, some, List, [], ◌∷◌, ◌++◌, DateTime, String,
  arith, if◌then◌else◌, if-case, ◌&&◌,
}
use employee_monitoring_app.Outbox.{SyncStatus, create, screenshot}
use employee_monitoring_app.Db.{ScreenshotMetadata, SyncQueueItem, Db, screenshot_row, queue_row}
use employee_monitoring_app.Db.Table.{keys}
use employee_monitoring_app.Repositories.Screenshots.{add}
use employee_monitoring_app.Repositories.Queue.{enqueue}
use employee_monitoring_app.SyncService.Screenshots.{contains, without}
use employee_monitoring_app.ScreenshotService.Capture.{
  Environment, Outcome, classify, store, clean, record_file, place_file, pipeline, discarded,
}

-- Every file but the temporary one is still there.
abbrev pub Keeps : Environment → List String → List String → Type 0
Keeps env files files' =
    (p : String)
    → str_eq env.tmp_path p ≡ false
    → contains files p ≡ true
    → contains files' p ≡ true

contains-without_ne :
    (q p : String) (files : List String)
    → str_eq q p ≡ false
    → contains (without q files) p ≡ contains files p
contains-without_ne q p [] h = refl
contains-without_ne q p (f ∷ fs) h =
    ground (arith, contains-without_ne q p fs h, eq_iff f q, eq_iff f p, eq_iff q p)

-- A file that replaces whatever had its name.
contains-placed :
    (q p : String) (files : List String)
    → contains files p ≡ true
    → contains (q ∷ without q files) p ≡ true
contains-placed q p files h = ground (arith, contains-without_ne q p files)

clean-Keeps :
    (env : Environment) (files files' : List String)
    → Keeps env files files'
    → Keeps env files (clean env files')
unfolding clean
clean-Keeps env files files' k p h c =
    ground (arith, contains-without_ne env.tmp_path p files' h, k p h c)

-- The capture of session `n` at `at`: its row is new and PENDING, the outbox row after it is to create
-- it, and the file is in its place.
pub record IsStored (env : Environment) (at : DateTime) (n : ℕ) (db : Db) (out : Outcome)
    : Type 0 where
  pub row : ScreenshotMetadata
  pub item : SyncQueueItem
  pub path : out.path ≡ some env.final_path
  pub file : contains out.files env.final_path ≡ true
  pub rows : out.db.screenshots ≡ db.screenshots ++ row ∷ []
  pub of_session : (row.session_id ≡ n) × (row.captured_at ≡ at) × (row.file_path ≡ env.final_path)
  pub is_pending : row.sync_status ≡ SyncStatus.pending
  pub queue : out.db.sync_queue ≡ db.sync_queue ++ item ∷ []
  pub creates :
      (item.entity_type ≡ screenshot) × (item.entity_id ≡ row.id) × (item.operation ≡ create)
  pub others :
      (out.db.work_sessions ≡ db.work_sessions)
      × (out.db.breaks ≡ db.breaks)
      × (out.db.activity_periods ≡ db.activity_periods)

abbrev pub IsWhole : Environment → DateTime → ℕ → Db → List String → Outcome → Type 0
IsWhole env at n db files out =
    (((out.path ≡ none) × (out.db ≡ db)) ⊎ IsStored env at n db out) × Keeps env files out.files

abbrev row_of : Environment → DateTime → ℕ → Db → ScreenshotMetadata
row_of env at n db = record {
  id = env.ids.next (keys db.screenshots);
  session_id = n;
  captured_at = at;
  activity_state = classify env at db;
  file_path = env.final_path;
  file_size = some env.file_size;
  checksum = some env.checksum;
  sync_status = SyncStatus.pending;
  attempt_count = 0;
  last_attempt_at = none;
  synced_at = none;
  created_at = env.now;
}

abbrev item_of : Environment → Db → SyncQueueItem
item_of env db = record {
  id = env.ids.next (keys db.sync_queue);
  entity_type = screenshot;
  entity_id = env.ids.next (keys db.screenshots);
  operation = create;
  status = SyncStatus.pending;
  attempt_count = 0;
  last_attempt_at = none;
  last_error = none;
  created_at = env.now;
}

discarded-IsWhole :
    (env : Environment) (at : DateTime) (n : ℕ) (db : Db) (files files' : List String)
    → Keeps env files files'
    → IsWhole env at n db files (discarded db files')
discarded-IsWhole env at n db files files' k = (inl (refl, refl), k)

record_file-IsWhole :
    (env : Environment) (at : DateTime) (n : ℕ) (db : Db) (files files' : List String)
    → Keeps env files files'
    → contains files' env.final_path ≡ true
    → IsWhole env at n db files (record_file env at n db files')
unfolding record_file store add enqueue
record_file-IsWhole env at n db files files' k f =
    if-case (IsWhole env at n db files) (env.measured && env.stored) _ _
      (
        inr (record {
          row = row_of env at n db;
          item = item_of env db;
          path = refl;
          file = f;
          rows = refl;
          of_session = (refl, refl, refl);
          is_pending = refl;
          queue = refl;
          creates = (refl, refl, refl);
          others = (refl, refl, refl);
        }),
        k,
      )
      (discarded-IsWhole env at n db files files' k)

given_up-IsWhole :
    (env : Environment) (at : DateTime) (n : ℕ) (db : Db) (files files' : List String)
    → Keeps env files files'
    → IsWhole env at n db files (discarded db (clean env files'))
given_up-IsWhole env at n db files files' k =
    discarded-IsWhole env at n db files _ (clean-Keeps env files files' k)

Keeps-cons : (env : Environment) (files : List String) → Keeps env files (env.tmp_path ∷ files)
Keeps-cons env files p h c = ground (arith)

pub pipeline-IsWhole :
    (env : Environment) (at : DateTime) (n : ℕ) (db : Db) (files : List String)
    → IsWhole env at n db files (pipeline env at n db files)
unfolding pipeline place_file
pipeline-IsWhole env at n db files =
    let W = IsWhole env at n db files in
    let up = given_up-IsWhole env at n db files in
    if-case W env.opened _ _
      (if-case W env.removed _ _
        (if-case W env.encoded _ _
          (if-case W (env.valid && env.moved) _ _
            (record_file-IsWhole env at n db files _
              (λ p h c. contains-placed env.final_path p files c)
              (ground (arith, eq_iff env.final_path env.final_path)))
            (up (env.tmp_path ∷ files) (Keeps-cons env files)))
          (up (if env.partial then env.tmp_path ∷ files else files)
            (if-case (Keeps env files) env.partial _ _ (Keeps-cons env files) (λ p h c. c))))
        (up (env.tmp_path ∷ files) (Keeps-cons env files)))
      (discarded-IsWhole env at n db files files (λ p h c. c))

-- Every step of the pipeline goes through.
abbrev pub goes_through : Environment → Bool
goes_through env =
    env.captured && env.opened && env.removed && env.encoded && env.valid && env.moved
    && env.measured && env.stored

pub pipeline-path :
    (env : Environment) (at : DateTime) (n : ℕ) (db : Db) (files : List String)
    → env.captured ≡ true
    → (pipeline env at n db files).path ≡ (if goes_through env then some env.final_path else none)
unfolding pipeline place_file record_file
pipeline-path env at n db files h = ground arith
