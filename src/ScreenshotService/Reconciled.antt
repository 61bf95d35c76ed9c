-- ===== src/ScreenshotService/Reconciled.antt =====
-- After a recovery the files and the rows agree.
use text.Mathlib.TextEquality.{eq_iff}
use employee_monitoring_app.Prelude.{
  ℕ, ◌+◌, ◌≡◌, refl, inl, inr, true, false, List, [], ◌∷◌, String, arith, length, Bool-cases,
  unless, ◌⊎◌, ◌&&◌,
}
use employee_monitoring_app.Db.{ScreenshotMetadata, Db}
use employee_monitoring_app.Db.Table.{select}
use employee_monitoring_app.SyncService.Screenshots.{contains}
use employee_monitoring_app.ScreenshotService.{ScreenshotService}
use employee_monitoring_app.ScreenshotService.Recovery.{
  Reconciling, paths_of, remove_files, remove_records, is_kept, reconcile, recover_orphans,
}

-- What the recovery meets where nothing fails.
pub record Smooth (env : Reconciling) : Type 0 where
  pub present : env.present ≡ true
  pub readable : env.readable ≡ true
  pub unlinked : (p : String) → env.unlinked p ≡ true
  pub deleted : (n : ℕ) → env.deleted n ≡ true
  pub stored : env.stored ≡ true

remove_files-select :
    (env : Reconciling) (paths files : List String)
    → ((p : String) → env.unlinked p ≡ true)
    → let out = remove_files env paths files in
      (out.0 ≡ select (contains paths) files) × (out.1 + length out.0 ≡ length files)
unfolding remove_files
remove_files-select env paths [] u = (refl, refl)
remove_files-select env paths (p ∷ ps) u =
    let (e, n) = remove_files-select env paths ps u in
    elim (Bool-cases (contains paths p)) [
      | inl h ↦ rw h (cc, omega (arith, n))
      | inr h ↦ rw (h, u p) (e, omega (arith, n))
    ]

remove_records-select :
    (env : Reconciling) (files : List String) (rows : List ScreenshotMetadata)
    → ((n : ℕ) → env.deleted n ≡ true)
    → let out = remove_records env files rows in
      (out.0 ≡ select (is_kept files) rows) × (out.1 + length out.0 ≡ length rows)
unfolding remove_records
remove_records-select env files [] d = (refl, refl)
remove_records-select env files (r ∷ rs) d =
    let (e, n) = remove_records-select env files rs d in
    elim (Bool-cases (is_kept files r)) [
      | inl h ↦ rw h (cc, omega (arith, n))
      | inr h ↦ rw (h, d r.id) (e, omega (arith, n))
    ]

contains-select :
    (paths files : List String) (p : String)
    → contains (select (contains paths) files) p ≡ (contains files p && contains paths p)
contains-select paths [] p = refl
contains-select paths (f ∷ fs) p = ground (arith, contains-select paths fs p, eq_iff f p)

paths-kept :
    (files : List String) (rows : List ScreenshotMetadata) (p : String)
    → contains files p ≡ true
    → contains (paths_of (select (is_kept files) rows)) p ≡ contains (paths_of rows) p
paths-kept files [] p h = refl
paths-kept files (r ∷ rs) p h = ground (arith, paths-kept files rs p h, eq_iff r.file_path p)

-- A file that is left has a row that is left.
rows_left :
    (left files : List String) (rows : List ScreenshotMetadata) (p : String)
    → left ≡ select (contains (paths_of rows)) files
    → contains left p ≡ true
    → contains (paths_of (select (is_kept left) rows)) p ≡ true
rows_left left files rows p f c =
    let held = contains-select (paths_of rows) files p in
    let there : contains (select (contains (paths_of rows)) files) p ≡ true = rw (← f) c in
    rw (paths-kept left rows p c) (ground (arith, held, there))

reconcile_lem :
    (env : Reconciling) (db : Db) (files : List String)
    → Smooth env
    → let out = reconcile env db files in
      (out.files ≡ select (contains (paths_of db.screenshots)) files)
      × (out.db.screenshots ≡ select (is_kept out.files) db.screenshots)
      × (out.orphan_files_removed + length out.files ≡ length files)
      × (out.orphan_records_removed + length out.db.screenshots ≡ length db.screenshots)
unfolding reconcile
reconcile_lem env db files h =
    let f = remove_files-select env (paths_of db.screenshots) files h.unlinked in
    let k = remove_files env (paths_of db.screenshots) files in
    let r = remove_records-select env k.0 db.screenshots h.deleted in
    rw h.stored (f.0, r.0, f.1, r.1)

recover_orphans-reconcile :
    (s : ScreenshotService) (env : Reconciling) (db : Db) (files : List String)
    → (s.data_dir && s.session_factory) ≡ true
    → Smooth env
    → recover_orphans s env db files ≡ reconcile env db files
unfolding recover_orphans
recover_orphans-reconcile s env db files b h = rw (b, h.present, h.readable) refl

-- A recovery in which nothing fails leaves exactly the files that a row had, and exactly the rows that
-- are SYNCED or whose file is left; so every file left has a row left. Both counts are right: with
-- what is left they give what was there.
pub recovered_files_match :
    (s : ScreenshotService) (env : Reconciling) (db : Db) (files : List String)
    → (s.data_dir && s.session_factory) ≡ true
    → Smooth env
    → let out = recover_orphans s env db files in
      ((p : String)
        → contains out.files p ≡ (contains files p && contains (paths_of db.screenshots) p))
      × (out.db.screenshots ≡ select (is_kept out.files) db.screenshots)
      × ((p : String)
          → (contains out.files p ≡ false) ⊎ (contains (paths_of out.db.screenshots) p ≡ true))
      × (out.orphan_files_removed + length out.files ≡ length files)
      × (out.orphan_records_removed + length out.db.screenshots ≡ length db.screenshots)
recovered_files_match s env db files b h =
    let (f, r, n, m) = reconcile_lem env db files h in
    let out = reconcile env db files in
    let held = contains-select (paths_of db.screenshots) files in
    rw (recover_orphans-reconcile s env db files b h) (
      λ p. rw f (held p),
      r,
      λ p. rw r (unless (contains out.files p) (rows_left out.files files db.screenshots p f)),
      n,
      m,
    )
