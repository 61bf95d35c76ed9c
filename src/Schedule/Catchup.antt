-- ===== src/Schedule/Catchup.antt =====
-- Catching up after a pause of the worker: which captures `captures_due` asks for.
use native.Mathlib.Nat.{le-div_iff_mul-le, mul_comm}
use employee_monitoring_app.Prelude.{
  ℕ, zero, suc, ◌+◌, ◌-◌, ◌/◌, ◌≤◌, ◌<◌, ◌≡◌, refl, min, some, List, [], ◌∷◌, DateTime, TimeDelta,
  arith, leb, ◌==◌, ◌↔◌, leb→le, Bool-cases, inl, inr, false,
}
use employee_monitoring_app.Schedule.{target, captures_from, captures_due}

-- n, n + 1, ..., n + k - 1
abbrev pub range_from : ℕ → ℕ → List ℕ
range_from n zero = []
range_from n (suc k) = n ∷ range_from (n + 1) k

-- A capture is due when its index is below the whole intervals since the start.
pub due_iff :
    (start now : DateTime) (interval : TimeDelta) (n : ℕ)
    → 0 < interval
    → (target start interval n ≤ now) ↔ (n + 1 ≤ (now - start) / interval)
due_iff start now interval n h =
    let m = le-div_iff_mul-le {x = n + 1} {y = now - start} h in
    (
      λ p. m.1 (grind (arith, mul_comm interval (n + 1))),
      λ p. grind (arith, m.0 p, mul_comm interval (n + 1)),
    )

range_from-step :
    (room n q : ℕ)
    → n + 1 ≤ q
    → n ∷ range_from (n + 1) (min room (q - (n + 1))) ≡ range_from n (min (suc room) (q - n))
range_from-step room n q h =
    let e : min (suc room) (q - n) ≡ suc (min room (q - (n + 1))) = omega arith in rw e refl

captures_from-eq :
    (room : ℕ) (start now : DateTime) (interval : TimeDelta) (n : ℕ)
    → 0 < interval
    → captures_from room start interval now n
      ≡ range_from n (min room ((now - start) / interval - n))
unfolding captures_from
captures_from-eq zero start now interval n h =
    let e : min 0 ((now - start) / interval - n) ≡ 0 = omega arith in rw e refl
captures_from-eq (suc room) start now interval n h =
    elim (Bool-cases (leb (target start interval n) now)) [
      | inl due ↦
          rw (due, captures_from-eq room start now interval (n + 1) h)
            (range_from-step room n ((now - start) / interval)
              ((due_iff start now interval n h).0 (leb→le _ _ due)))
      | inr later ↦
          let e : min (suc room) ((now - start) / interval - n) ≡ 0 =
            ground (arith, (due_iff start now interval n h).1) in
          rw (later, e) refl
    ]

-- With a positive interval the captures due are consecutive indices from the next one on: all whose
-- time has come, that is those below the whole intervals since the start, but at most five.
pub captures_due_lem :
    (start now : DateTime) (interval : TimeDelta) (first : ℕ)
    → 0 < interval
    → captures_due start interval now first
      ≡ some (range_from first (min 5 ((now - start) / interval - first)))
unfolding captures_due
captures_due_lem start now interval first h =
    let e : (interval == 0) ≡ false = ground arith in
    rw (e, captures_from-eq 5 start now interval first h) refl
