-- ===== src/Tests/Keys.antt =====
-- A source of keys: more than the sum of the keys in use.
use employee_monitoring_app.Prelude.{ℕ, ◌+◌, ◌≤◌, ◌<◌, List, [], ◌∷◌, arith}
use employee_monitoring_app.Db.{KeySource, IsFresh}

unfoldable pub next_key : List ℕ → ℕ
next_key [] = 1
next_key (k ∷ ks) = k + next_key ks

next_key-pos : (ks : List ℕ) → 0 < next_key ks
unfolding next_key
next_key-pos [] = omega arith
next_key-pos (k ∷ ks) = omega (arith, next_key-pos ks)

pub IsFresh-next_key : (n : ℕ) (ks : List ℕ) → next_key ks ≤ n → IsFresh n ks
unfolding next_key
IsFresh-next_key n [] h = tt
IsFresh-next_key n (k ∷ ks) h =
    (λ e. omega (arith, next_key-pos ks), IsFresh-next_key n ks (omega arith))

abbrev pub summed_keys : KeySource
summed_keys = record {
  next = next_key;
  next_fresh = λ ks. IsFresh-next_key (next_key ks) ks (omega arith);
}
