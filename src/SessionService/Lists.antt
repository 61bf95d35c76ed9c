-- ===== src/SessionService/Lists.antt =====
-- Tables and lists of breaks whose last element is the one that an action works on.
use employee_monitoring_app.Prelude.{
  ℕ, ◌≤◌, ◌≡◌, ◌≢◌, refl, ap, Bool, true, false, List, [], ◌∷◌, ◌++◌, DateTime, arith, ◌==◌, ◌&&◌,
  All, map,
}
use employee_monitoring_app.Session.{Break, is_open}
use employee_monitoring_app.Machine.{close_open_break}
use employee_monitoring_app.Db.{IsFresh}
use employee_monitoring_app.Db.Table.{Row, select, modify, keys, order_by, insert_by}
use employee_monitoring_app.SessionService.Persist.{set_last_id, with_key}

module _ {ℓ} {R : Type ℓ} where
  pub select-append :
      (p : R → Bool) (xs ys : List R) → select p (xs ++ ys) ≡ select p xs ++ select p ys
  select-append p [] ys = refl
  select-append p (x ∷ xs) ys = ground (arith, select-append p xs ys)

  -- What one test rejects everywhere, a narrower one does.
  pub select-and :
      (p q : R → Bool) (xs : List R) → select p xs ≡ [] → select (λ r. p r && q r) xs ≡ []
  select-and p q [] h = refl
  select-and p q (x ∷ xs) h = ground (arith, select-and p q xs)

pub map-append {ℓ κ} :
    {A : Type ℓ} {B : Type κ} (f : A → B) (xs ys : List A) → map f (xs ++ ys) ≡ map f xs ++ map f ys
map-append f [] ys = refl
map-append f (x ∷ xs) ys = ap (λ zs. f x ∷ zs) (map-append f xs ys)

pub ==-refl : (n : ℕ) → (n == n) ≡ true
==-refl n = ground arith

module _ {ℓ} {R : Type ℓ} ⦃row : Row R⦄ where
  modify-IsFresh : (n : ℕ) (f : R → R) (rs : List R) → IsFresh n (keys rs) → modify n f rs ≡ rs
  modify-IsFresh n f [] h = refl
  modify-IsFresh n f (r ∷ rs) h = ground (arith, h.0, modify-IsFresh n f rs h.1)

  -- The last row is the one of its key.
  pub modify-last :
      (n : ℕ) (f : R → R) (rs : List R) (r : R)
      → row.key r ≡ n
      → IsFresh n (keys rs)
      → modify n f (rs ++ r ∷ []) ≡ rs ++ f r ∷ []
  modify-last n f [] r e h = ground arith
  modify-last n f (s ∷ rs) r e h = ground (arith, h.0, modify-last n f rs r e h.1)

  pub IsFresh-append :
      (n : ℕ) (rs : List R) (r : R)
      → IsFresh n (keys (rs ++ r ∷ []))
      → IsFresh n (keys rs) × (row.key r ≢ n)
  IsFresh-append n [] r h = (tt, h.0)
  IsFresh-append n (s ∷ rs) r h = let (a, b) = IsFresh-append n rs r h.1 in ((h.0, a), b)

pub set_last_id-append :
    (k : ℕ) (bs : List Break) (b : Break) → set_last_id k (bs ++ b ∷ []) ≡ bs ++ with_key k b ∷ []
unfolding set_last_id
set_last_id-append k [] b = refl
set_last_id-append k (c ∷ []) b = refl
set_last_id-append k (c ∷ d ∷ bs) b = ap (λ xs. c ∷ xs) (set_last_id-append k (d ∷ bs) b)

pub close_open_break-append :
    (at : DateTime) (bs : List Break) (b : Break)
    → All (λ (c : Break). is_open c ≡ false) bs
    → close_open_break (bs ++ b ∷ []) at ≡ bs ++ close_open_break (b ∷ []) at
unfolding close_open_break
close_open_break-append at [] b h = refl
close_open_break-append at (c ∷ bs) b h =
    rw h.0 (ap (λ xs. c ∷ xs) (close_open_break-append at bs b h.1))

-- In the order of their beginnings.
abbrev pub Sorted : List Break → Type 0
Sorted [] = Unit
Sorted (b ∷ bs) = All (λ (c : Break). b.started_at ≤ c.started_at) bs × Sorted bs

abbrev pub Before : DateTime → List Break → Type 0
Before t bs = All (λ (c : Break). c.started_at ≤ t) bs

All-snoc {ℓ κ} :
    {A : Type ℓ} (P : A → Type κ) (xs : List A) (x : A) → All P xs → P x → All P (xs ++ x ∷ [])
All-snoc P [] x h p = (p, tt)
All-snoc P (y ∷ xs) x h p = (h.0, All-snoc P xs x h.1 p)

pub Before-snoc :
    (t : DateTime) (bs : List Break) (b : Break)
    → Before t bs
    → b.started_at ≤ t
    → Before t (bs ++ b ∷ [])
Before-snoc t bs b h p = All-snoc (λ (c : Break). c.started_at ≤ t) bs b h p

pub Before-mono : (t at : DateTime) (bs : List Break) → t ≤ at → Before t bs → Before at bs
Before-mono t at [] p h = tt
Before-mono t at (b ∷ bs) p h = (omega (arith, h.0), Before-mono t at bs p h.1)

pub Sorted-snoc :
    (bs : List Break) (b : Break) → Sorted bs → Before b.started_at bs → Sorted (bs ++ b ∷ [])
Sorted-snoc [] b s h = (tt, tt)
Sorted-snoc (c ∷ bs) b s h =
    (All-snoc (λ (d : Break). c.started_at ≤ d.started_at) bs b s.0 h.0, Sorted-snoc bs b s.1 h.1)

pub closed-snoc :
    (bs : List Break) (b : Break)
    → All (λ (c : Break). is_open c ≡ false) bs
    → is_open b ≡ false
    → All (λ (c : Break). is_open c ≡ false) (bs ++ b ∷ [])
closed-snoc bs b h p = All-snoc (λ (c : Break). is_open c ≡ false) bs b h p

insert_by-least :
    (b : Break) (bs : List Break)
    → All (λ (c : Break). b.started_at ≤ c.started_at) bs
    → insert_by (λ (c : Break). c.started_at) b bs ≡ b ∷ bs
unfolding insert_by
insert_by-least b [] h = refl
insert_by-least b (c ∷ bs) h = ground (arith, h.0)

pub order_by-Sorted : (bs : List Break) → Sorted bs → order_by (λ (b : Break). b.started_at) bs ≡ bs
unfolding order_by
order_by-Sorted [] s = refl
order_by-Sorted (b ∷ bs) s = rw (order_by-Sorted bs s.1) (insert_by-least b bs s.0)
