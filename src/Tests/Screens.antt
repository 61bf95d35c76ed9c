-- ===== src/Tests/Screens.antt =====
-- The whole session service, its view and the screenshots at concrete inputs.
use text.Mathlib.Text.{◌==◌ as str_eq}
use employee_monitoring_app.Prelude.{
  ℕ, ◌+◌, ◌≡◌, ◌⊎◌, refl, true, false, Option, none, some, List, [], ◌∷◌, seconds, seconds_between,
  arith, ◌++◌, not, is_none, ◌&&◌, length, if◌then◌else◌, String,
}
use employee_monitoring_app.Session.{WorkSessionStatus, WorkSession, accumulated_break_seconds}
use employee_monitoring_app.Machine.{
  AppState, SessionAction, SessionMachine, new_machine, ok, apply, step,
}
use employee_monitoring_app.Machine.Breaks.{OneOpen}
use employee_monitoring_app.Machine.Invariant.{IsConsistent}
use employee_monitoring_app.Machine.Table.{accepts}
use employee_monitoring_app.Timeline.{active}
use employee_monitoring_app.Outbox.{SyncStatus}
use employee_monitoring_app.Db.{Db, ScreenshotMetadata}
use employee_monitoring_app.Db.Table.{select}
use employee_monitoring_app.SyncService.Screenshots.{contains}
use employee_monitoring_app.ScreenshotService.{ScreenshotService, can_capture}
use employee_monitoring_app.ScreenshotService.Capture.{Environment, Outcome, is_low, capture_once}
use employee_monitoring_app.ScreenshotService.Pipeline.{IsStored}
use employee_monitoring_app.ScreenshotService.Captured.{is_ready, capture_once_lem}
use employee_monitoring_app.ScreenshotService.Recovery.{
  Reconciling, paths_of, is_kept, recover_orphans,
}
use employee_monitoring_app.ScreenshotService.Reconciled.{recovered_files_match}
use employee_monitoring_app.SessionService.Whole.{
  begin_session, pause_session, resume_session, activity_start, screenshot_start, with_screenshots,
  with_tracker, App, Env, session_key, check_in, take_break, resume,
}
use employee_monitoring_app.SessionService.Captures.{
  Event, login_call, check_in_call, take_break_call, resume_call, run, perform, is_working,
  captures_only_at_work,
}
use employee_monitoring_app.SessionService.View.{Reads, tick}
use employee_monitoring_app.SessionService.Display.{
  has_active, tick_flags, tick_on_break, with_machine,
}
use employee_monitoring_app.Tests.Keys.{summed_keys, next_key}
use employee_monitoring_app.SessionService.Persist
use employee_monitoring_app.SessionService.Persist.{
  persist_check_in, persist_take_break, persist_resume,
}
use employee_monitoring_app.ScreenshotService

abbrev pub empty : Db
empty = record {
  users = [];
  work_sessions = [];
  breaks = [];
  activity_periods = [];
  screenshots = [];
  sync_queue = [];
}

abbrev fresh : App
fresh = record {
  session = record { session_factory = true; user_id = some 7; machine = new_machine; db = empty };
  activity = some (record {
    session_factory = true;
    idle_threshold = seconds 300;
    session_id = none;
    last_activity_at = none;
    paused = false;
  });
  screenshots = some (record {
    session_factory = true;
    data_dir = true;
    interval_seconds = 300;
    session_id = none;
    paused = false;
  });
}

abbrev smooth : Env
smooth = record {
  persist = record { ids = summed_keys; now = 0; stored = true };
  tracking = record { ids = summed_keys; now = 0; flushed = true; stored = true };
}

abbrev to_break : List Event
to_break =
    record { env = smooth; at = seconds 10; call = login_call }
    ∷ record { env = smooth; at = seconds 20; call = check_in_call }
    ∷ record { env = smooth; at = seconds 30; call = check_in_call }
    ∷ record { env = smooth; at = seconds 80; call = take_break_call }
    ∷ []

abbrev at_work : List Event
at_work = to_break ++ record { env = smooth; at = seconds 100; call = resume_call } ∷ []

abbrev pub on_screen : Option ℕ → ScreenshotService
on_screen n = record {
  session_factory = true;
  data_dir = true;
  interval_seconds = 300;
  session_id = n;
  paused = false;
}

captures_again : (run at_work fresh).screenshots ≡ some (on_screen (some 1))
unfolding run perform check_in take_break resume apply Persist.check_in Persist.take_break
    Persist.resume persist_check_in persist_take_break persist_resume begin_session pause_session
    resume_session activity_start screenshot_start with_screenshots with_tracker step
    ScreenshotService.start ScreenshotService.pause ScreenshotService.resume next_key
captures_again = refl

captures_only_at_work_example :
    let m = (run at_work fresh).session.machine in
    (can_capture (on_screen (some 1))
      ≡ (is_working m.state && not (is_none (session_key m.session))))
    × ((can_capture (on_screen (some 1)) ≡ false) ⊎ (some 1 ≡ session_key m.session))
captures_only_at_work_example =
    captures_only_at_work at_work fresh (on_screen (some 1)) refl (refl, refl) captures_again

abbrev all_read : Reads
all_read = record { state = true; rows = true }

-- The machine of a break that began 60 seconds after the check-in.
abbrev broken_off : App
broken_off = record fresh {
  session = record fresh.session {
    machine = record {
      state = AppState.on_break;
      session = some (record {
        user_id = 7;
        started_at = seconds 20;
        status = WorkSessionStatus.on_break;
        id = some 1;
        ended_at = none;
        total_work_seconds = 0;
        breaks =
            record {
              session_id = 1;
              started_at = seconds 80;
              ended_at = none;
              duration_seconds = 0;
              id = some 1;
            }
            ∷ [];
      });
    };
  };
}

broken_off-IsConsistent : IsConsistent (seconds 80) broken_off.session.machine
broken_off-IsConsistent = record {
  status = refl;
  unended = refl;
  breaks = OneOpen.last (omega arith) (omega arith) refl refl;
}

tick_flags_example :
    let m = broken_off.session.machine in
    let v = tick all_read (seconds 95) broken_off in
    (v.state ≡ m.state)
    × (v.can_check_in ≡ accepts (apply m SessionAction.check_in (seconds 95) (some 7)))
    × (v.can_take_break ≡ accepts (apply m SessionAction.take_break (seconds 95) (some 7)))
    × (v.can_resume ≡ accepts (apply m SessionAction.resume (seconds 95) (some 7)))
    × (v.can_check_out ≡ accepts (apply m SessionAction.check_out (seconds 95) (some 7)))
    × (v.ticking ≡ has_active m.session)
tick_flags_example =
    tick_flags all_read (seconds 95) broken_off (seconds 80) (seconds 95) 7 broken_off-IsConsistent

tick_on_break_example :
    (s : WorkSession) × (m : SessionMachine) × (broken_off.session.machine.session ≡ some s)
    × (apply broken_off.session.machine SessionAction.resume (seconds 95) none ≡ ok m)
    × (let v = tick all_read (seconds 95) broken_off in
        let v' = tick all_read (seconds 95) (with_machine m broken_off) in
        (v.elapsed_work_seconds + accumulated_break_seconds s
          ≡ seconds_between s.started_at (seconds 95))
        × (v'.state ≡ AppState.working)
        × (v'.elapsed_work_seconds + v.elapsed_break_seconds ≡ v.elapsed_work_seconds))
tick_on_break_example =
    tick_on_break all_read (seconds 80) (seconds 95) broken_off broken_off-IsConsistent
      (omega arith) refl

abbrev pub camera : Environment
camera = record {
  ids = summed_keys;
  now = seconds 50;
  activity = none;
  state_readable = true;
  free = some 900_000_000;
  captured = true;
  tmp_path = "tmp.jpg";
  final_path = "sess_000001.jpg";
  opened = true;
  removed = true;
  encoded = true;
  partial = false;
  valid = true;
  moved = true;
  measured = true;
  file_size = 4096;
  checksum = "00ff";
  stored = true;
  cleaned = true;
}

abbrev pub old_files : List String
old_files = "old.jpg" ∷ []

abbrev capturing : Outcome
capturing = capture_once (on_screen (some 1)) camera (seconds 50) empty old_files

capture_once_lem_example :
    (capturing.path ≡ (
      if can_capture (on_screen (some 1)) && is_ready (on_screen (some 1)) camera
      then some "sess_000001.jpg"
      else none))
    × (((capturing.path ≡ none) × (capturing.db ≡ empty))
        ⊎ ((n : ℕ) × (some 1 ≡ some n)
            × (false ≡ false)
            × (is_low (on_screen (some 1)) camera ≡ false)
            × IsStored camera (seconds 50) n empty capturing))
    × ((p : String)
        → (str_eq "tmp.jpg" p ≡ true)
          ⊎ (contains old_files p ≡ false)
          ⊎ (contains capturing.files p ≡ true))
capture_once_lem_example = capture_once_lem (on_screen (some 1)) camera (seconds 50) empty old_files

abbrev shot : ℕ → String → SyncStatus → ScreenshotMetadata
shot n path status = record {
  id = n;
  session_id = 1;
  captured_at = 0;
  activity_state = active;
  file_path = path;
  file_size = none;
  checksum = none;
  sync_status = status;
  attempt_count = 0;
  last_attempt_at = none;
  synced_at = none;
  created_at = 0;
}

-- A row with its file, one that is SYNCED, and one that has lost its file.
abbrev three_rows : Db
three_rows = record empty {
  screenshots =
      shot 1 "a.jpg" SyncStatus.pending
      ∷ shot 2 "b.jpg" SyncStatus.synced
      ∷ shot 3 "c.jpg" SyncStatus.failed
      ∷ [];
}

abbrev able : Reconciling
able = record {
  present = true;
  readable = true;
  unlinked = λ p. true;
  deleted = λ n. true;
  stored = true;
}

abbrev two_files : List String
two_files = "a.jpg" ∷ "orphan.jpg" ∷ []

recovered_files_match_example :
    let out = recover_orphans (on_screen none) able three_rows two_files in
    ((p : String)
      → contains out.files p
        ≡ (contains two_files p && contains (paths_of three_rows.screenshots) p))
    × (out.db.screenshots ≡ select (is_kept out.files) three_rows.screenshots)
    × ((p : String)
        → (contains out.files p ≡ false) ⊎ (contains (paths_of out.db.screenshots) p ≡ true))
    × (out.orphan_files_removed + length out.files ≡ length two_files)
    × (out.orphan_records_removed + length out.db.screenshots ≡ length three_rows.screenshots)
recovered_files_match_example =
    recovered_files_match (on_screen none) able three_rows two_files refl (record {
      present = refl;
      readable = refl;
      unlinked = λ p. refl;
      deleted = λ n. refl;
      stored = refl;
    })
