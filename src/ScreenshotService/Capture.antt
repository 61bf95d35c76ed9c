-- ===== src/ScreenshotService/Capture.antt =====
-- capture_once: from the guards through the files to the row and its outbox row.
use employee_monitoring_app.Prelude.{
  ℕ, ◌*◌, Bool, false, Option, none, some, List, ◌∷◌, DateTime, String, ltb, ◌&&◌, if◌then◌else◌,
}
use employee_monitoring_app.Timeline.{ActivityState, active}
use employee_monitoring_app.Outbox.{create, screenshot}
use employee_monitoring_app.Db.{Db, KeySource, screenshot_row}
use employee_monitoring_app.Db.Table.{keys}
use employee_monitoring_app.Repositories.Screenshots.{add}
use employee_monitoring_app.Repositories.Queue.{enqueue}
use employee_monitoring_app.ActivityService.Base.{ActivityService}
use employee_monitoring_app.ActivityService.Ticks.{current_state}
use employee_monitoring_app.SyncService.Screenshots.{without}
use employee_monitoring_app.ScreenshotService.{ScreenshotService, can_capture}

-- What surrounds a capture. `free` is the free space, `none` where the query raises; the names are
-- those of the temporary file and of the place in pending/; a flag is false where the step raises,
-- `valid` where the file is no image, `partial` says whether a failed encoding leaves a file, and
-- `cleaned` whether the temporary file can be unlinked.
pub record Environment : Type 0 where
  pub ids : KeySource
  pub now : DateTime
  pub activity : Option ActivityService
  pub state_readable : Bool
  pub free : Option ℕ
  pub captured : Bool
  pub tmp_path : String
  pub final_path : String
  pub opened : Bool
  pub removed : Bool
  pub encoded : Bool
  pub partial : Bool
  pub valid : Bool
  pub moved : Bool
  pub measured : Bool
  pub file_size : ℕ
  pub checksum : String
  pub stored : Bool
  pub cleaned : Bool

-- The rows, the files in pending/, and the path that is returned.
pub record Outcome : Type 0 where
  pub db : Db
  pub files : List String
  pub path : Option String

abbrev pub min_free_bytes : ℕ
min_free_bytes = 200 * 1024 * 1024

-- Idle classification at capture time
unfoldable pub classify : Environment → DateTime → Db → ActivityState
classify env at db = elim env.activity [
  | none ↦ active
  | some s ↦ current_state env.state_readable at (record { service = s; db = db })
]

-- The row and its outbox row, which is about the key that the row takes.
unfoldable pub store : Environment → DateTime → ℕ → Db → Db
unfolding classify
store env at session_id db = record db {
  screenshots =
      add env.ids env.now session_id at (classify env at db) env.final_path (some env.file_size)
        (some env.checksum) db.screenshots;
  sync_queue =
      enqueue env.ids env.now screenshot (env.ids.next (keys db.screenshots)) create db.sync_queue;
}

abbrev pub discarded : Db → List String → Outcome
discarded db files = record { db = db; files = files; path = none }

-- A temporary file that is given up.
unfoldable pub clean : Environment → List String → List String
clean env files = if env.cleaned then without env.tmp_path files else files

-- After the move: the measures, and the transaction.
unfoldable pub record_file : Environment → DateTime → ℕ → Db → List String → Outcome
unfolding store
record_file env at session_id db files =
    if env.measured && env.stored
    then record { db = store env at session_id db; files = files; path = some env.final_path }
    else discarded db files

-- The temporary file is encoded and checked, and then moved over the final place.
unfoldable pub place_file : Environment → DateTime → ℕ → Db → List String → Outcome
unfolding record_file clean
place_file env at session_id db files =
    if env.encoded
    then (if env.valid && env.moved
        then record_file env at session_id db (env.final_path ∷ without env.final_path files)
        else discarded db (clean env (env.tmp_path ∷ files)))
    else discarded db (clean env (if env.partial then env.tmp_path ∷ files else files))

-- The `try` of the pipeline.
unfoldable pub pipeline : Environment → DateTime → ℕ → Db → List String → Outcome
unfolding place_file
pipeline env at session_id db files =
    if env.opened
    then (if env.removed
        then place_file env at session_id db files
        else discarded db (clean env (env.tmp_path ∷ files)))
    else discarded db files

-- Is the disk too full? Without a directory, and where the query raises, it is not.
unfoldable pub is_low : ScreenshotService → Environment → Bool
is_low s env = elim env.free [ none ↦ false | some free ↦ s.data_dir && ltb free min_free_bytes ]

unfoldable pub capture_session :
    ScreenshotService → Environment → DateTime → ℕ → Db → List String → Outcome
unfolding pipeline is_low
capture_session s env at session_id db files =
    if is_low s env
    then discarded db files
    else (if env.captured && s.data_dir && s.session_factory
        then pipeline env at session_id db files
        else discarded db files)

unfoldable pub capture_allowed :
    ScreenshotService → Environment → DateTime → Option ℕ → Db → List String → Outcome
unfolding capture_session
capture_allowed s env at none db files = discarded db files
capture_allowed s env at (some session_id) db files = capture_session s env at session_id db files

-- capture_once; the border changes the image only, and a failure there is passed over.
unfoldable pub capture_once :
    ScreenshotService → Environment → DateTime → Db → List String → Outcome
unfolding capture_allowed
capture_once s env at db files =
    if can_capture s then capture_allowed s env at s.session_id db files else discarded db files
