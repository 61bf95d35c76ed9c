-- ===== src/Repositories/Sessions.antt =====
-- SessionRepository: the work sessions.
use employee_monitoring_app.Prelude.{
  ℕ, Bool, true, false, Option, none, some, List, [], ◌∷◌, ◌++◌, DateTime, ◌==◌, ◌&&◌, leb,
  if◌then◌else◌, All, All-mono, ◌≡◌, if-case, arith,
}
use employee_monitoring_app.Session.{WorkSessionStatus, working, completed}
use employee_monitoring_app.Db.{SessionRow, KeySource, session_row}
use employee_monitoring_app.Db.Table.{select, All-select, modify, keys}

-- create; the last row is the one that it returns.
abbrev pub new_row : KeySource → ℕ → DateTime → List SessionRow → SessionRow
new_row ids user_id started_at rows = record {
  id = ids.next (keys rows);
  user_id = user_id;
  started_at = started_at;
  ended_at = none;
  status = working;
  total_work_seconds = 0;
}

unfoldable pub create : KeySource → ℕ → DateTime → List SessionRow → List SessionRow
create ids user_id started_at rows = rows ++ new_row ids user_id started_at rows ∷ []

-- status IN (WORKING, BREAK)
abbrev pub is_unfinished : WorkSessionStatus → Bool
is_unfinished completed = false
is_unfinished _ = true

-- ORDER BY started_at DESC LIMIT 1: the first of the rows that started last.
unfoldable pub latest : List SessionRow → Option SessionRow
latest [] = none
latest (r ∷ rs) = elim (latest rs) [
  | none ↦ some r
  | some s ↦ if leb s.started_at r.started_at then some r else some s
]

-- get_active
unfoldable pub get_active : ℕ → List SessionRow → Option SessionRow
unfolding latest
get_active user_id rows = latest (select (λ r. r.user_id == user_id && is_unfinished r.status) rows)

-- update_status
unfoldable pub update_status : ℕ → WorkSessionStatus → List SessionRow → List SessionRow
update_status session_id status rows = modify session_id (λ r. record r { status = status }) rows

-- checkout
unfoldable pub checkout : ℕ → DateTime → ℕ → List SessionRow → List SessionRow
checkout session_id ended_at total rows =
    modify session_id
      (λ r. record r { ended_at = some ended_at; total_work_seconds = total; status = completed })
      rows

-- What a query returns, if it returns a row, has the property.
abbrev pub Holds {κ} : (SessionRow → Type κ) → Option SessionRow → Type κ
Holds P none = Unit
Holds P (some r) = P r

pub later-Holds {κ} :
    (P : SessionRow → Type κ) (s : SessionRow) (o : Option SessionRow)
    → P s
    → Holds P o
    → Holds P (elim o [
      | none ↦ some s
      | some l ↦ if leb l.started_at s.started_at then some s else some l
    ])
later-Holds P s none hs ho = hs
later-Holds P s (some l) hs ho = if-case (Holds P) (leb l.started_at s.started_at) _ _ hs ho

latest-All {κ} :
    (P : SessionRow → Type κ) (rows : List SessionRow) → All P rows → Holds P (latest rows)
unfolding latest
latest-All P [] h = tt
latest-All P (s ∷ rows) h = later-Holds P s (latest rows) h.0 (latest-All P rows h.1)

-- What the query returns is a session under way.
pub get_active-Holds :
    (u : ℕ) (rows : List SessionRow)
    → Holds (λ r. is_unfinished r.status ≡ true) (get_active u rows)
unfolding get_active
get_active-Holds u rows =
    latest-All (λ r. is_unfinished r.status ≡ true) _
      (All-mono _ (λ r h. ground arith)
        (All-select (λ r. r.user_id == u && is_unfinished r.status) rows rows (λ r m. m)))
