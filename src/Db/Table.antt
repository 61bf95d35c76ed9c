-- ===== src/Db/Table.antt =====
-- A table: its rows in the order of insertion, and the statements that the repositories send.
use employee_monitoring_app.Prelude.{
  ℕ, ◌≡◌, refl, Bool, false, Option, none, some, List, [], ◌∷◌, leb, ◌==◌, if◌then◌else◌, arith,
  true, inl, inr, All, Bool-cases, if-case, suc, length, is_none, ap, sym, ◌∙◌,
}
use mathlib.Core.Option
use mathlib.Core.Path.{subst}
use mathlib.Core.List.{Memᴰ}

-- A row type with its primary key.
pub record Row {ℓ} (R : Type ℓ) : Type ℓ where
  pub key : R → ℕ

module _ {ℓ} {R : Type ℓ} where
  -- SELECT ... WHERE p
  abbrev pub select : (R → Bool) → List R → List R
  select p [] = []
  select p (r ∷ rs) = let rest = select p rs in if p r then r ∷ rest else rest

  -- ORDER BY k; rows with one key keep the order of insertion.
  unfoldable pub insert_by : (R → ℕ) → R → List R → List R
  insert_by k r [] = r ∷ []
  insert_by k r (s ∷ rs) =
      let rest = insert_by k r rs in if leb (k r) (k s) then r ∷ s ∷ rs else s ∷ rest

  unfoldable pub order_by : (R → ℕ) → List R → List R
  unfolding insert_by
  order_by k [] = []
  order_by k (r ∷ rs) = insert_by k r (order_by k rs)

  -- What a query selects passes its test and is a row of the table.
  pub All-select :
      (p : R → Bool) (rows rs : List R)
      → ((r : R) → Memᴰ r rs → Memᴰ r rows)
      → All (λ r. (p r ≡ true) × Memᴰ r rows) (select p rs)
  All-select p rows [] sub = tt
  All-select p rows (r ∷ rs) sub = elim (Bool-cases (p r)) [
    | inl e ↦ rw e ((e, sub r (Memᴰ.head refl)), All-select p rows rs (λ s m. sub s (Memᴰ.tail m)))
    | inr e ↦ rw e (All-select p rows rs (λ s m. sub s (Memᴰ.tail m)))
  ]

  All-insert_by {κ} :
      (P : R → Type κ) (k : R → ℕ) (r : R) (rs : List R) → P r → All P rs → All P (insert_by k r rs)
  unfolding insert_by
  All-insert_by P k r [] h hs = (h, tt)
  All-insert_by P k r (s ∷ rs) h hs =
      if-case (All P) (leb (k r) (k s)) _ _ (h, hs) (hs.0, All-insert_by P k r rs h hs.1)

  pub All-order_by {κ} :
      (P : R → Type κ) (k : R → ℕ) (rs : List R) → All P rs → All P (order_by k rs)
  unfolding order_by
  All-order_by P k [] h = tt
  All-order_by P k (r ∷ rs) h = All-insert_by P k r (order_by k rs) h.0 (All-order_by P k rs h.1)

  length-insert_by : (k : R → ℕ) (r : R) (rs : List R) → length (insert_by k r rs) ≡ suc (length rs)
  unfolding insert_by
  length-insert_by k r [] = refl
  length-insert_by k r (s ∷ rs) =
      if-case (λ (l : List R). length l ≡ suc (suc (length rs))) (leb (k r) (k s)) _ _ refl
        (ap (λ n. suc n) (length-insert_by k r rs))

  pub length-order_by : (k : R → ℕ) (rs : List R) → length (order_by k rs) ≡ length rs
  unfolding order_by
  length-order_by k [] = refl
  length-order_by k (r ∷ rs) =
      omega (arith, length-insert_by k r (order_by k rs), length-order_by k rs)

  All-Mem {κ} : (P : R → Type κ) (r : R) (rs : List R) → All P rs → Memᴰ r rs → P r
  All-Mem P r [] h m = elim m [ ]
  All-Mem P r (s ∷ rs) h (Memᴰ.head e) = subst P (sym e) h.0
  All-Mem P r (s ∷ rs) h (Memᴰ.tail m) = All-Mem P r rs h.1 m

  pub select-Mem :
      (p : R → Bool) (r : R) (rs : List R) → Memᴰ r (select p rs) → (p r ≡ true) × Memᴰ r rs
  select-Mem p r rs m =
      All-Mem (λ s. (p s ≡ true) × Memᴰ s rs) r (select p rs) (All-select p rs rs (λ s h. h)) m

  pub Mem-select :
      (p : R → Bool) (r : R) (rs : List R) → p r ≡ true → Memᴰ r rs → Memᴰ r (select p rs)
  Mem-select p r [] e m = elim m [ ]
  Mem-select p r (s ∷ rs) e (Memᴰ.head h) =
      let t : p s ≡ true = ap p (sym h) ∙ e in rw t (Memᴰ.head h)
  Mem-select p r (s ∷ rs) e (Memᴰ.tail m) =
      let rest = Mem-select p r rs e m in
      if-case (λ (l : List R). Memᴰ r l) (p s) _ _ (Memᴰ.tail rest) rest

  -- LIMIT 1
  abbrev pub first : List R → Option R
  first [] = none
  first (r ∷ rs) = some r

module _ {ℓ} {R : Type ℓ} ⦃row : Row R⦄ where
  -- Session.get(Model, id)
  abbrev pub get : ℕ → List R → Option R
  get n [] = none
  get n (r ∷ rs) = let rest = get n rs in if row.key r == n then some r else rest

  -- The row of a primary key with its columns set anew; without such a row nothing is written.
  abbrev pub modify : ℕ → (R → R) → List R → List R
  modify n f [] = []
  modify n f (r ∷ rs) = let rest = modify n f rs in if row.key r == n then f r ∷ rest else r ∷ rest

  -- DELETE ... WHERE id = n
  abbrev pub delete : ℕ → List R → List R
  delete n [] = []
  delete n (r ∷ rs) = let rest = delete n rs in if row.key r == n then rest else r ∷ rest

  abbrev pub keys : List R → List ℕ
  keys [] = []
  keys (r ∷ rs) = row.key r ∷ keys rs

  pub get-delete :
      (n j : ℕ) (rs : List R) → get j (delete n rs) ≡ (if n == j then none else get j rs)
  get-delete n j [] = ground arith
  get-delete n j (r ∷ rs) = ground (arith, get-delete n j rs)

  pub get-modify_ne :
      (n j : ℕ) (f : R → R) (rs : List R)
      → ((r : R) → row.key (f r) ≡ row.key r)
      → (n == j) ≡ false
      → get j (modify n f rs) ≡ get j rs
  get-modify_ne n j f [] k h = refl
  get-modify_ne n j f (r ∷ rs) k h = ground (arith, get-modify_ne n j f rs k h, k r)

  pub get-modify_self :
      (n : ℕ) (f : R → R) (rs : List R)
      → ((r : R) → row.key (f r) ≡ row.key r)
      → get n (modify n f rs) ≡ Option.map f (get n rs)
  get-modify_self n f [] k = refl
  get-modify_self n f (r ∷ rs) k = ground (arith, get-modify_self n f rs k, k r)

  -- A key is found exactly where a row has it.
  pub get-Mem :
      (n : ℕ) (rs : List R) → is_none (get n rs) ≡ false → (r : R) × Memᴰ r rs × (row.key r ≡ n)
  get-Mem n [] h = cc
  get-Mem n (r ∷ rs) h = elim (Bool-cases (row.key r == n)) [
    | inl e ↦ (r, Memᴰ.head refl, ground (arith, e))
    | inr e ↦ let (s, m, k) = get-Mem n rs (ground (arith, e, h)) in (s, Memᴰ.tail m, k)
  ]

  pub Mem-get :
      (n : ℕ) (rs : List R) (r : R) → Memᴰ r rs → row.key r ≡ n → is_none (get n rs) ≡ false
  Mem-get n [] r m k = elim m [ ]
  Mem-get n (s ∷ rs) r (Memᴰ.head h) k = ground (arith, ap (λ x. row.key x) h, k)
  Mem-get n (s ∷ rs) r (Memᴰ.tail m) k = ground (arith, Mem-get n rs r m k)
