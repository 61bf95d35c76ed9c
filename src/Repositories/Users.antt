-- ===== src/Repositories/Users.antt =====
-- UserRepository: the local cache of users, by email.
use text.Mathlib.Text.{◌==◌ as str_eq}
use text.Mathlib.TextPositions.{eq_refl}
use mathlib.Core.Option
use employee_monitoring_app.Prelude.{
  ℕ, ◌≡◌, refl, inl, inr, ap, ◌∙◌, Option-cases, true, Option, none, some, List, [], ◌∷◌, ◌++◌,
  String, arith, if◌then◌else◌,
}
use employee_monitoring_app.Db.{UserRow, KeySource, user_row}
use employee_monitoring_app.Db.Table.{get, keys}

-- get_by_email
unfoldable pub get_by_email : String → List UserRow → Option UserRow
get_by_email email [] = none
get_by_email email (r ∷ rs) =
    let rest = get_by_email email rs in if str_eq r.email email then some r else rest

-- get_by_id
unfoldable pub get_by_id : ℕ → List UserRow → Option UserRow
get_by_id user_id rows = get user_id rows

-- The columns that an identity has.
pub record Identity : Type 0 where
  pub external_user_id : String
  pub email : String
  pub display_name : Option String
  pub workspace_name : Option String

abbrev pub refreshed : Identity → UserRow → UserRow
refreshed u r = record r {
  external_user_id = some u.external_user_id;
  display_name = u.display_name;
  workspace_name = u.workspace_name;
}

-- The first row of the email, with its columns set anew.
unfoldable pub update_by_email : Identity → List UserRow → List UserRow
update_by_email u [] = []
update_by_email u (r ∷ rs) =
    let rest = update_by_email u rs in
    if str_eq r.email u.email then refreshed u r ∷ rs else r ∷ rest

abbrev pub new_user : KeySource → Identity → List UserRow → UserRow
new_user ids u rows = record {
  id = ids.next (keys rows);
  external_user_id = some u.external_user_id;
  email = u.email;
  display_name = u.display_name;
  workspace_name = u.workspace_name;
}

-- upsert: the rows, and the key of the row that it returns.
unfoldable pub upsert : KeySource → Identity → List UserRow → List UserRow × ℕ
unfolding get_by_email update_by_email
upsert ids u rows = elim (get_by_email u.email rows) [
  | none ↦ (rows ++ new_user ids u rows ∷ [], ids.next (keys rows))
  | some r ↦ (update_by_email u rows, r.id)
]

get_by_email-append :
    (email : String) (rows : List UserRow) (x : UserRow)
    → get_by_email email rows ≡ none
    → str_eq x.email email ≡ true
    → get_by_email email (rows ++ x ∷ []) ≡ some x
unfolding get_by_email
get_by_email-append email [] x h e = rw e refl
get_by_email-append email (r ∷ rs) x h e = ground (arith, get_by_email-append email rs x)

update_by_email-append :
    (u : Identity) (rows : List UserRow) (x : UserRow)
    → get_by_email u.email rows ≡ none
    → str_eq x.email u.email ≡ true
    → update_by_email u (rows ++ x ∷ []) ≡ rows ++ refreshed u x ∷ []
unfolding get_by_email update_by_email
update_by_email-append u [] x h e = rw e refl
update_by_email-append u (r ∷ rs) x h e = ground (arith, update_by_email-append u rs x)

get_by_email-update :
    (u : Identity) (rows : List UserRow)
    → get_by_email u.email (update_by_email u rows)
      ≡ Option.map (refreshed u) (get_by_email u.email rows)
unfolding get_by_email update_by_email
get_by_email-update u [] = refl
get_by_email-update u (r ∷ rs) = ground (arith, get_by_email-update u rs)

update_by_email-twice :
    (u : Identity) (rows : List UserRow)
    → update_by_email u (update_by_email u rows) ≡ update_by_email u rows
unfolding update_by_email
update_by_email-twice u [] = refl
update_by_email-twice u (r ∷ rs) = ground (arith, update_by_email-twice u rs)

upsert-none :
    (ids : KeySource) (u : Identity) (rows : List UserRow)
    → get_by_email u.email rows ≡ none
    → upsert ids u rows ≡ (rows ++ new_user ids u rows ∷ [], ids.next (keys rows))
unfolding upsert
upsert-none ids u rows e = rw (e, upsert) refl

upsert-some :
    (ids : KeySource) (u : Identity) (rows : List UserRow) (r : UserRow)
    → get_by_email u.email rows ≡ some r
    → upsert ids u rows ≡ (update_by_email u rows, r.id)
unfolding upsert
upsert-some ids u rows r e = rw (e, upsert) refl

-- A second upsert of the same identity finds the row of the first, and changes nothing.
pub upsert-twice :
    (ids ids' : KeySource) (u : Identity) (rows : List UserRow)
    → let out = upsert ids u rows in upsert ids' u out.0 ≡ out
upsert-twice ids ids' u rows = elim (Option-cases (get_by_email u.email rows)) [
  | inl n ↦
      let x = new_user ids u rows in
      let same = eq_refl u.email in
      rw (upsert-none ids u rows n) (
        upsert-some ids' u (rows ++ x ∷ []) x (get_by_email-append u.email rows x n same)
        ∙ ap (λ q. (q, x.id)) (update_by_email-append u rows x n same))
  | inr (r, e) ↦ rw (upsert-some ids u rows r e) (
      upsert-some ids' u (update_by_email u rows) (refreshed u r)
        (get_by_email-update u rows ∙ ap (Option.map (refreshed u)) e)
      ∙ ap (λ q. (q, r.id)) (update_by_email-twice u rows))
]

-- The row of an upsert is found by its email, with the key that is returned and the new columns.
pub upsert-finds :
    (ids : KeySource) (u : Identity) (rows : List UserRow)
    → let out = upsert ids u rows in
      (r : UserRow) × (get_by_email u.email out.0 ≡ some r)
      × (r.id ≡ out.1)
      × (r.external_user_id ≡ some u.external_user_id)
      × (r.display_name ≡ u.display_name)
      × (r.workspace_name ≡ u.workspace_name)
upsert-finds ids u rows = elim (Option-cases (get_by_email u.email rows)) [
  | inl n ↦
      let x = new_user ids u rows in
      let found = get_by_email-append u.email rows x n (eq_refl u.email) in
      rw (upsert-none ids u rows n) (x, found, refl, refl, refl, refl)
  | inr (r, e) ↦
      let found = get_by_email-update u rows ∙ ap (Option.map (refreshed u)) e in
      rw (upsert-some ids u rows r e) (refreshed u r, found, refl, refl, refl, refl)
]
