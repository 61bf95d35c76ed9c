-- ===== src/SyncService/Orphans.antt =====
-- recover_orphans: outbox rows whose entity is gone are removed at startup.
use mathlib.Core.List.{Memᴰ}
use employee_monitoring_app.Prelude.{
  ℕ, suc, ◌+◌, ◌≡◌, ◌↔◌, ap, inl, inr, refl, Bool, true, List, [], ◌∷◌, arith, not, is_none, length,
  if◌then◌else◌, Bool-cases,
}
use employee_monitoring_app.Outbox.{
  SyncEntityType, user, work_session, break_, activity_period, screenshot, other,
}
use employee_monitoring_app.Db.{
  SyncQueueItem, UserRow, SessionRow, BreakRecord, ActivityPeriodRecord, ScreenshotMetadata, Db,
  user_row, session_row, break_row, period_row, screenshot_row,
}
use employee_monitoring_app.Db.Table.{get, select, select-Mem, Mem-select, get-Mem, Mem-get}
use employee_monitoring_app.SyncService.Cycle.{SyncService}

-- Is the entity of an outbox row there? A row of an unknown type is kept.
unfoldable pub entity_exists : Db → SyncEntityType → ℕ → Bool
entity_exists db work_session n = not (is_none (get n db.work_sessions))
entity_exists db break_ n = not (is_none (get n db.breaks))
entity_exists db activity_period n = not (is_none (get n db.activity_periods))
entity_exists db user n = not (is_none (get n db.users))
entity_exists db screenshot n = not (is_none (get n db.screenshots))
entity_exists db other n = true

-- The loop: each row whose entity is gone is deleted and counted.
unfoldable pub remove_orphans : Db → List SyncQueueItem → List SyncQueueItem × ℕ
remove_orphans db [] = ([], 0)
remove_orphans db (item ∷ items) =
    let (rows, removed) = remove_orphans db items in
    if entity_exists db item.entity_type item.entity_id
    then (item ∷ rows, removed)
    else (rows, suc removed)

-- recover_orphans; `stored` is false where the commit raises, after the rows have been counted.
unfoldable pub recover_orphans : SyncService → Bool → Db → Db × ℕ
recover_orphans s stored db =
    let (rows, removed) = remove_orphans db db.sync_queue in
    if s.session_factory
    then (if stored then (record db { sync_queue = rows }, removed) else (db, removed))
    else (db, 0)

abbrev pub is_live : Db → SyncQueueItem → Bool
is_live db r = entity_exists db r.entity_type r.entity_id

remove_orphans-select :
    (db : Db) (items : List SyncQueueItem)
    → ((remove_orphans db items).0 ≡ select (is_live db) items)
      × ((remove_orphans db items).1 + length (remove_orphans db items).0 ≡ length items)
unfolding remove_orphans
remove_orphans-select db [] = (refl, refl)
remove_orphans-select db (i ∷ is) =
    let (e, n) = remove_orphans-select db is in
    elim (Bool-cases (is_live db i)) [
      | inl h ↦ rw h (cc, omega (arith, n))
      | inr h ↦ rw h (e, omega (arith, n))
    ]

-- Where every row's entity is there nothing is removed.
remove_orphans-live :
    (d db : Db) (items : List SyncQueueItem)
    → ((r : SyncQueueItem) → is_live d r ≡ is_live db r)
    → (remove_orphans d (select (is_live db) items)).1 ≡ 0
unfolding remove_orphans
remove_orphans-live d db [] same = refl
remove_orphans-live d db (i ∷ is) same = elim (Bool-cases (is_live db i)) [
  | inl h ↦ rw (h, same i, h) (remove_orphans-live d db is same)
  | inr h ↦ rw h (remove_orphans-live d db is same)
]

is_live-queue :
    (db : Db) (rows : List SyncQueueItem) (r : SyncQueueItem)
    → is_live (record db { sync_queue = rows }) r ≡ is_live db r
unfolding entity_exists
is_live-queue db rows r = ground arith

recover_orphans-stored :
    (s : SyncService) (db : Db)
    → s.session_factory ≡ true
    → let q = remove_orphans db db.sync_queue in
      recover_orphans s true db ≡ (record db { sync_queue = q.0 }, q.1)
unfolding recover_orphans
recover_orphans-stored s db h = rw h refl

-- Is there a row of the entity's table with the key? An unknown type has no table.
abbrev pub Present : Db → SyncEntityType → ℕ → Type 0
Present db work_session n = (s : SessionRow) × Memᴰ s db.work_sessions × (s.id ≡ n)
Present db break_ n = (b : BreakRecord) × Memᴰ b db.breaks × (b.id ≡ n)
Present db activity_period n = (p : ActivityPeriodRecord) × Memᴰ p db.activity_periods × (p.id ≡ n)
Present db user n = (u : UserRow) × Memᴰ u db.users × (u.id ≡ n)
Present db screenshot n = (s : ScreenshotMetadata) × Memᴰ s db.screenshots × (s.id ≡ n)
Present db other n = Unit

exists-Present :
    (db : Db) (t : SyncEntityType) (n : ℕ) → entity_exists db t n ≡ true → Present db t n
unfolding entity_exists
exists-Present db work_session n h = get-Mem n db.work_sessions (ground (arith, h))
exists-Present db break_ n h = get-Mem n db.breaks (ground (arith, h))
exists-Present db activity_period n h = get-Mem n db.activity_periods (ground (arith, h))
exists-Present db user n h = get-Mem n db.users (ground (arith, h))
exists-Present db screenshot n h = get-Mem n db.screenshots (ground (arith, h))
exists-Present db other n h = tt

Present-exists :
    (db : Db) (t : SyncEntityType) (n : ℕ) → Present db t n → entity_exists db t n ≡ true
unfolding entity_exists
Present-exists db work_session n (r, m, k) = ap not (Mem-get n db.work_sessions r m k)
Present-exists db break_ n (r, m, k) = ap not (Mem-get n db.breaks r m k)
Present-exists db activity_period n (r, m, k) = ap not (Mem-get n db.activity_periods r m k)
Present-exists db user n (r, m, k) = ap not (Mem-get n db.users r m k)
Present-exists db screenshot n (r, m, k) = ap not (Mem-get n db.screenshots r m k)
Present-exists db other n h = refl

live_rows :
    (db : Db) (r : SyncQueueItem)
    → Memᴰ r (select (is_live db) db.sync_queue)
      ↔ ((Memᴰ r db.sync_queue) × Present db r.entity_type r.entity_id)
live_rows db r = (
  λ m.
      let (e, k) = select-Mem (is_live db) r db.sync_queue m in
      (k, exists-Present db r.entity_type r.entity_id e),
  λ h.
      Mem-select (is_live db) r db.sync_queue (Present-exists db r.entity_type r.entity_id h.1) h.0,
)

-- After a recovery of orphans that is stored a row is in the outbox exactly where it was there before
-- and a row of its entity's table has its entity's key, or its entity is of an unknown type. The other
-- tables are unchanged, the count is that of the rows removed, and a second recovery removes none.
pub recover_orphans_lem :
    (s : SyncService) (db : Db)
    → s.session_factory ≡ true
    → let out = recover_orphans s true db in
      ((r : SyncQueueItem)
        → Memᴰ r out.0.sync_queue ↔ ((Memᴰ r db.sync_queue) × Present db r.entity_type r.entity_id))
      × (out.0 ≡ record db { sync_queue = out.0.sync_queue })
      × (out.1 + length out.0.sync_queue ≡ length db.sync_queue)
      × ((recover_orphans s true out.0).1 ≡ 0)
recover_orphans_lem s db h =
    let (e, n) = remove_orphans-select db db.sync_queue in
    rw (recover_orphans-stored s db h) (
      λ r. rw e (live_rows db r),
      refl,
      n,
      rw (recover_orphans-stored s _ h, e)
          (remove_orphans-live _ db db.sync_queue (is_live-queue db _)),
    )
