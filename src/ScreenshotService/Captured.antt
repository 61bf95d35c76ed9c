-- ===== src/ScreenshotService/Captured.antt =====
-- When a capture returns a path, and what it leaves then and otherwise.
use text.Mathlib.Text.{◌==◌ as str_eq}
use employee_monitoring_app.Prelude.{
  ℕ, ◌≡◌, ◌⊎◌, inl, inr, refl, Bool, true, false, Option, none, some, List, DateTime, String, arith,
  if◌then◌else◌, if-case, if-split, ◌&&◌, not, is_none,
}
use employee_monitoring_app.Db.{Db, screenshot_row, queue_row}
use employee_monitoring_app.SyncService.Screenshots.{contains}
use employee_monitoring_app.ScreenshotService.{ScreenshotService, can_capture}
use employee_monitoring_app.ScreenshotService.Capture.{
  Environment, Outcome, is_low, discarded, capture_session, capture_allowed, capture_once,
}
use employee_monitoring_app.ScreenshotService.Pipeline.{
  Keeps, IsWhole, IsStored, pipeline-IsWhole, goes_through, pipeline-path,
}

abbrev IsAllowed : ScreenshotService → Environment → DateTime → Db → List String → Outcome → Type 0
IsAllowed s env at db files out =
    (((out.path ≡ none) × (out.db ≡ db))
      ⊎ ((n : ℕ) × (s.session_id ≡ some n)
          × (s.paused ≡ false)
          × (is_low s env ≡ false)
          × IsStored env at n db out))
    × Keeps env files out.files

refused-IsAllowed :
    (s : ScreenshotService) (env : Environment) (at : DateTime) (db : Db) (files : List String)
    → IsAllowed s env at db files (discarded db files)
refused-IsAllowed s env at db files = (inl (refl, refl), λ p h c. c)

whole-IsAllowed :
    (s : ScreenshotService) (env : Environment) (at : DateTime) (n : ℕ) (db : Db)
    (files : List String) (out : Outcome)
    → s.session_id ≡ some n
    → s.paused ≡ false
    → is_low s env ≡ false
    → IsWhole env at n db files out
    → IsAllowed s env at db files out
whole-IsAllowed s env at n db files out i p l (inl c, k) = (inl c, k)
whole-IsAllowed s env at n db files out i p l (inr c, k) = (inr (n, i, p, l, c), k)

capture_allowed-IsAllowed :
    (s : ScreenshotService) (env : Environment) (at : DateTime) (o : Option ℕ) (db : Db)
    (files : List String)
    → s.session_id ≡ o
    → s.paused ≡ false
    → IsAllowed s env at db files (capture_allowed s env at o db files)
unfolding capture_allowed capture_session
capture_allowed-IsAllowed s env at none db files i p = refused-IsAllowed s env at db files
capture_allowed-IsAllowed s env at (some n) db files i p =
    let A = IsAllowed s env at db files in
    let no = refused-IsAllowed s env at db files in
    if-split A (is_low s env) _ _ (λ e. no)
      (λ e.
        if-case A (env.captured && s.data_dir && s.session_factory) _ _
          (whole-IsAllowed s env at n db files _ i p e (pipeline-IsWhole env at n db files)) no)

capture_once-IsAllowed :
    (s : ScreenshotService) (env : Environment) (at : DateTime) (db : Db) (files : List String)
    → IsAllowed s env at db files (capture_once s env at db files)
unfolding capture_once can_capture
capture_once-IsAllowed s env at db files =
    if-split (IsAllowed s env at db files) (can_capture s) _ _
      (λ e. capture_allowed-IsAllowed s env at s.session_id db files refl (ground arith))
      (λ e. refused-IsAllowed s env at db files)

-- A place for the file and for the row, space, and no failure.
abbrev pub is_ready : ScreenshotService → Environment → Bool
is_ready s env = s.data_dir && s.session_factory && not (is_low s env) && goes_through env

allowed-path :
    (s : ScreenshotService) (env : Environment) (at : DateTime) (o : Option ℕ) (db : Db)
    (files : List String)
    → (capture_allowed s env at o db files).path
      ≡ (if not (is_none o) && is_ready s env then some env.final_path else none)
unfolding capture_allowed capture_session
allowed-path s env at none db files = refl
allowed-path s env at (some n) db files = ground (arith, pipeline-path env at n db files)

capture_once-path :
    (s : ScreenshotService) (env : Environment) (at : DateTime) (db : Db) (files : List String)
    → (capture_once s env at db files).path
      ≡ (if can_capture s && is_ready s env then some env.final_path else none)
unfolding capture_once can_capture
capture_once-path s env at db files = ground (arith, allowed-path s env at s.session_id db files)

-- A capture returns a path exactly when it is allowed, a directory and a database are bound, the disk
-- is not low and every step goes through. Whatever fails on the way, it either returns nothing and
-- leaves every table as it was, or returns the path of a file that is in pending/, with a new PENDING
-- row of the session that is under way and a new outbox row to create it; it is taken only for a
-- session that is not paused, on a disk that is not low. No file that was there is lost, but one of
-- the name of the temporary file.
pub capture_once_lem :
    (s : ScreenshotService) (env : Environment) (at : DateTime) (db : Db) (files : List String)
    → let out = capture_once s env at db files in
      (out.path ≡ (if can_capture s && is_ready s env then some env.final_path else none))
      × (((out.path ≡ none) × (out.db ≡ db))
          ⊎ ((n : ℕ) × (s.session_id ≡ some n)
              × (s.paused ≡ false)
              × (is_low s env ≡ false)
              × IsStored env at n db out))
      × ((p : String)
          → (str_eq env.tmp_path p ≡ true)
            ⊎ (contains files p ≡ false)
            ⊎ (contains out.files p ≡ true))
capture_once_lem s env at db files =
    let w = capture_once-IsAllowed s env at db files in
    (capture_once-path s env at db files, w.0, λ p. ground (arith, w.1 p))
