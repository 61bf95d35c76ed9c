-- ===== src/Lib.antt =====
-- Employee monitoring agent: a desktop program that records work sessions, activity and screenshots
-- in a local database, and sends them to a backend through an outbox.
--
-- The parts and how they interact. The user's actions (check in, take a break, resume, check out)
-- drive the state machine through the session service, which writes sessions and breaks, and rebuilds
-- the machine from them at startup; the activity service writes activity periods; each change adds an
-- outbox row. The sync service takes outbox rows and captured screenshots in batches, sends them to a
-- provider, and deletes what the provider confirms; the cleanup service deletes what is left behind.
-- The session service also starts, pauses and stops the activity service, which shares its database,
-- and the screenshot service, which writes a file, a row and an outbox row for each capture. The auth
-- service takes the user in and out over a provider, and shares the machine with the session service
-- and the token with the sync provider.
--
-- Which file models which part:
--   Session, Machine       app/domain/sessions/session.py and state_machine.py: WorkSession, Break,
--                          SessionMachine.apply (`apply`, and `step` for a caller that catches).
--   Outbox                 app/domain/sync/sync.py, provider.py, RETRY_BACKOFF_SECONDS.
--   Schedule               app/domain/screenshots/scheduling.py: captures_due.
--   Timeline               app/domain/activity/activity.py: derive_timeline, close_open_period.
--   Db, Repositories       app/infrastructure/database/models.py and repositories.py: a table is the
--                          list of its rows in the order of insertion.
--   SyncService            app/services/sync_service.py and app/domain/sync/payloads.py: Due is
--                          _is_due and the payloads, Queue and Screenshots the two drains, Cycle
--                          sync_once and recover_stale, Orphans recover_orphans; Deletion, Files,
--                          Counts, Progress, Rules, Gate, Uploads and Recovered are proofs.
--   ActivityService        app/services/activity_service.py: Base, Lifecycle and Ticks are the
--                          methods, Open, SingleOpen and Pause proofs.
--   SessionService         app/services/session_service.py: Persist is the four actions with their
--                          _persist_ methods, Restore restore_session; Whole adds the calls of the
--                          activity and the screenshot service, View is tick; Lists, Shapes, Steps,
--                          Ends, Restart, Days, Unsaved, Gate, Captures and Display are proofs.
--   ScreenshotService      app/services/screenshot_service.py: the gate, Capture is capture_once,
--                          Recovery recover_orphans; Pipeline, Captured and Reconciled are proofs.
--   Network                app/infrastructure/network: Http is http_client.py, Sync and Dummy are the
--                          two providers of sync_adapter.py; Classes, Confirmed and
--                          Uploaded are proofs.
--   Auth                   app/services/auth_service.py is Service; Providers is auth_adapter.py and
--                          the local provider of app/domain/auth/auth.py; Logins and Restarts are
--                          proofs.
--   PolicyService          app/services/policy_service.py, ServerPolicy of app/config/settings.py,
--                          current_policy of app/infrastructure/network/config_adapter.py; Refresh is
--                          proofs.
--   CleanupService         app/services/cleanup_service.py: run_once; Rules are proofs.
--   Worker                 app/workers/sync_worker.py: SyncWorker; Requests is proofs.
--   ScreenshotWorker       app/workers/screenshot_worker.py: ScreenshotWorker, with the service as a
--                          parameter; Slots is proofs. Wiring is what app/main.py tells it; Idle is
--                          proofs.
--   ActivityWorker         app/workers/activity_worker.py: ActivityWorker; Restarts is proofs.
--   Lifecycle              app/core/lifecycle.py; Order is proofs.
--   Prelude                shared notation, lemmas on lists and time; Tests has runs and witnesses.
--
-- How state corresponds. A service object is a record of its fields; a method takes it and returns
-- the new one with its return value. A raise is `none` or `err`. A transaction is atomic: a flag of
-- the environment says whether it is committed, and one that is not leaves the rows as they were. A
-- provider is an oracle that answers, or raises, in the round of each row; an auth provider is a
-- record of functions that both providers of the code fill. What the transport makes of a request is an
-- argument of the HTTP client. A step of a capture that can fail is a flag of its environment. A key
-- that the database assigns comes from a KeySource, of which it is asked only that the key is not in
-- use.
--
-- Numbers and bounds. A timestamp is a count of microseconds since a fixed time, a time span likewise,
-- and int(total_seconds()) of a difference is the truncated quotient, 0 where the difference is not
-- positive. A time before the start of the count is the start. Loops run over finite lists; the
-- `while True` of captures_due stops after five captures, and its model counts them down. The start
-- of the activity worker, which a failure calls again, runs on fuel; two calls are enough, since the
-- second failure in a row waits. Rows that an ORDER BY leaves tied keep the order of insertion.
--
-- Not modelled: the checks that a timestamp has a zone (every timestamp here has one), locks (each
-- method runs whole), log lines, a failure of the enqueue inside _enqueue_period apart from that of
-- its transaction, the rendering of times in payloads, and two clock reads of one call that differ;
-- the texts of the HTTP errors, which are parameters, the coding of the local token, a parameter too,
-- and the nudge of the sync worker; an exception of the HTTP library that is neither a timeout nor a
-- failure of the transport; a negative idle threshold of a policy; in the restoration of the activity
-- service, what was read before its transaction failed. The contract of the endpoints counts only in whether it has one.
-- The user interface, the workers' timers, the transport of the HTTP client and the calls of the
-- operating system are input and output around these parts.
pub mod Prelude
pub mod ScreenshotWorker
pub mod ActivityWorker
pub mod Session
pub mod Machine
pub mod Outbox
pub mod Schedule
pub mod Timeline
pub mod Db
pub mod Repositories
pub mod SyncService
pub mod ActivityService
pub mod CleanupService
pub mod ScreenshotService
pub mod Network
pub mod Auth
pub mod Worker
pub mod Lifecycle
pub mod PolicyService
pub mod SessionService
mod Tests
