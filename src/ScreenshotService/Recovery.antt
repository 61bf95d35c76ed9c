-- ===== src/ScreenshotService/Recovery.antt =====
-- recover_orphans of the screenshot service: the files of pending/ and the rows are reconciled.
use employee_monitoring_app.Prelude.{
  ℕ, suc, Bool, List, [], ◌∷◌, String, map, ◌||◌, ◌&&◌, not, ◌==◌, if◌then◌else◌,
}
use employee_monitoring_app.Db.{ScreenshotMetadata, Db}
use employee_monitoring_app.Db.Table.{select}
use employee_monitoring_app.Repositories.Queue.{is_synced}
use employee_monitoring_app.SyncService.Screenshots.{contains}
use employee_monitoring_app.ScreenshotService.{ScreenshotService}

-- Is the directory there, can the rows be read, which files can be unlinked, which rows deleted, and
-- is the transaction committed?
pub record Reconciling : Type 0 where
  pub present : Bool
  pub readable : Bool
  pub unlinked : String → Bool
  pub deleted : ℕ → Bool
  pub stored : Bool

-- `valid` is the number of distinct paths and that of the records removed, of which the code returns
-- the difference, also where it is negative.
pub record Report : Type 0 where
  pub db : Db
  pub files : List String
  pub orphan_files_removed : ℕ
  pub orphan_records_removed : ℕ
  pub valid : ℕ × ℕ

abbrev pub paths_of : List ScreenshotMetadata → List String
paths_of rows = map (λ (r : ScreenshotMetadata). r.file_path) rows

-- The size of the set db_paths.
unfoldable pub distinct : List String → ℕ
distinct [] = 0
distinct (p ∷ ps) = let n = distinct ps in if contains ps p then n else suc n

-- The loop over the files: one that no row has is removed and counted.
unfoldable pub remove_files : Reconciling → List String → List String → List String × ℕ
remove_files env paths [] = ([], 0)
remove_files env paths (p ∷ ps) =
    let (files, n) = remove_files env paths ps in
    if contains paths p || not (env.unlinked p) then (p ∷ files, n) else (files, suc n)

-- A row that stays: its upload was confirmed, or its file is there.
abbrev pub is_kept : List String → ScreenshotMetadata → Bool
is_kept files r = is_synced r.sync_status || contains files r.file_path

-- The loop over the rows.
unfoldable pub remove_records :
    Reconciling → List String → List ScreenshotMetadata → List ScreenshotMetadata × ℕ
remove_records env files [] = ([], 0)
remove_records env files (r ∷ rs) =
    let (rows, n) = remove_records env files rs in
    if is_kept files r || not (env.deleted r.id) then (r ∷ rows, n) else (rows, suc n)

abbrev pub nothing_done : Db → List String → Report
nothing_done db files = record {
  db = db;
  files = files;
  orphan_files_removed = 0;
  orphan_records_removed = 0;
  valid = (0, 0);
}

unfoldable pub reconcile : Reconciling → Db → List String → Report
unfolding distinct remove_files remove_records
reconcile env db files =
    let (kept, lost) = remove_files env (paths_of db.screenshots) files in
    let (rows, gone) = remove_records env kept db.screenshots in
    record {
      db = if env.stored then record db { screenshots = rows } else db;
      files = kept;
      orphan_files_removed = lost;
      orphan_records_removed = gone;
      valid = (distinct (paths_of db.screenshots), gone);
    }

-- recover_orphans, where every row has a path, that of a file in pending/
unfoldable pub recover_orphans : ScreenshotService → Reconciling → Db → List String → Report
unfolding reconcile
recover_orphans s env db files =
    if s.data_dir && s.session_factory
    then (if env.present && env.readable then reconcile env db files else nothing_done db files)
    else nothing_done db files

-- list_for_session; `readable` is false where the query raises.
unfoldable pub list_for_session : ScreenshotService → Bool → ℕ → Db → List ScreenshotMetadata
list_for_session s readable session_id db =
    if s.session_factory && readable
    then select (λ r. r.session_id == session_id) db.screenshots
    else []
